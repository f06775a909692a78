-- ===== src/Strings/Bounds.antt =====
-- The bounded strings of rosidl_runtime_rs/src/string.rs.
use ros2_rust.Prelude.{
  ℕ, ◌≤◌, ◌<◌, ◌≡◌, List, [], ◌∷◌, length, length-append, Result, ok, err, Outcome, returns, arith,
}
use ros2_rust.Strings.{
  utf8_of, utf16_of, encode_utf8, encode_utf16, StringAlloc, RosString, StringExceedsBoundsError,
  from, try_from_bounded, try_from_bounded_wide,
}
use ros2_rust.Strings.Utf16.{Allocates}

char_shorter : (c : ℕ) → length (utf16_of c) ≤ length (utf8_of c)
unfolding utf16_of utf8_of
char_shorter c = ground arith

-- A text has at most as many 16-bit words as bytes.
encode_utf16-shorter : (s : List ℕ) → length (encode_utf16 s) ≤ length (encode_utf8 s)
unfolding encode_utf16 encode_utf8
encode_utf16-shorter [] = omega arith
encode_utf16-shorter (c ∷ cs) = omega (
  arith,
  char_shorter c,
  encode_utf16-shorter cs,
  length-append (utf16_of c) (encode_utf16 cs),
  length-append (utf8_of c) (encode_utf8 cs),
)

module _ ⦃alloc : StringAlloc⦄ where
  -- What making a bounded string gives: the string, of these units, if they are not too many, else an
  -- error with their number and the bound.
  abbrev pub Bounded : List ℕ → ℕ → Outcome ⊥ (Result StringExceedsBoundsError RosString) → Type 0
  Bounded units n out =
      (length units ≤ n → out ≡ returns (ok (record { units = units })))
      × (n < length units → out ≡ returns (err (record { len = length units; upper_bound = n })))

  narrow-Bounded :
      (lossy : List ℕ → List ℕ) (n : ℕ) (s : List ℕ)
      → Allocates
      → Bounded (encode_utf8 s) n (try_from_bounded lossy n s)
  unfolding try_from_bounded from
  narrow-Bounded lossy n s h = rw (h (encode_utf8 s)) ((λ l. ground arith, λ l. ground arith))

  wide-Bounded :
      (n : ℕ) (s : List ℕ) → Allocates → Bounded (encode_utf16 s) n (try_from_bounded_wide n s)
  unfolding try_from_bounded_wide from
  wide-Bounded n s h = rw (h (encode_utf16 s)) ((λ l. ground arith, λ l. ground arith))

  -- Where the allocation does not fail: a bounded string of a text is its bytes, and a bounded wide
  -- string its 16-bit words, if these are not more than the bound; else the result is an error with
  -- their number and the bound. A text that fits in a bounded string fits in a wide one of the same
  -- bound.
  pub try_from-Bounded :
      (lossy : List ℕ → List ℕ) (n : ℕ) (s : List ℕ)
      → Allocates
      → Bounded (encode_utf8 s) n (try_from_bounded lossy n s)
        × Bounded (encode_utf16 s) n (try_from_bounded_wide n s)
        × (length (encode_utf16 s) ≤ length (encode_utf8 s))
  try_from-Bounded lossy n s h =
      (narrow-Bounded lossy n s h, wide-Bounded n s h, encode_utf16-shorter s)
