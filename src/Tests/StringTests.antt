-- ===== src/Tests/StringTests.antt =====
-- The theorems on strings, applied to "a" with a character of two 16-bit words.
use ros2_rust.Prelude.{ℕ, ◌≤◌, ◌≡◌, refl, true, [], ◌∷◌, ◌++◌, length, returns, inl, inr, arith}
use ros2_rust.Strings.{
  StringAlloc, RosString, encode_utf8, encode_utf16, from, extend, wide, try_from_bounded,
  try_from_bounded_wide,
}
use ros2_rust.Strings.Utf16.{Allocates, AllChars, decode-extend}
use ros2_rust.Strings.Bounds.{Bounded, try_from-Bounded}

instance abbrev allocating : StringAlloc
allocating = record { init = true; assignn = λ units. true }

abbrev emoji : ℕ
emoji = 128512

run : encode_utf16 (emoji ∷ []) ≡ 55357 ∷ 56832 ∷ []
unfolding encode_utf16
run = refl

never_fails : Allocates
never_fails units = refl

letter : AllChars (97 ∷ [])
letter = (inl (omega arith), tt)

face : AllChars (emoji ∷ [])
face = (inr (omega arith, omega arith), tt)

decode-extend_example :
    (w w' : RosString) × (from wide (97 ∷ []) ≡ returns w)
    × (extend wide (emoji ∷ []) w ≡ returns w')
    × (wide.decode w.units ≡ 97 ∷ [])
    × (wide.decode w'.units ≡ (97 ∷ []) ++ (emoji ∷ []))
decode-extend_example = decode-extend (97 ∷ []) (emoji ∷ []) never_fails letter face

try_from-Bounded_example :
    Bounded
      (encode_utf8 (97 ∷ emoji ∷ []))
      3
      (try_from_bounded (λ bytes. bytes) 3 (97 ∷ emoji ∷ []))
    × Bounded (encode_utf16 (97 ∷ emoji ∷ [])) 3 (try_from_bounded_wide 3 (97 ∷ emoji ∷ []))
    × (length (encode_utf16 (97 ∷ emoji ∷ [])) ≤ length (encode_utf8 (97 ∷ emoji ∷ [])))
try_from-Bounded_example = try_from-Bounded (λ bytes. bytes) 3 (97 ∷ emoji ∷ []) never_fails
