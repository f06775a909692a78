-- ===== src/Strings/Utf16.antt =====
-- A wide string of rosidl_runtime_rs/src/string.rs reads back as the text that it was made of.
use ros2_rust.Prelude.{
  ℕ, ◌+◌, ◌-◌, ◌/◌, ◌%◌, ◌<◌, ◌≤◌, ◌≡◌, ◌⊎◌, inl, inr, refl, ap, ◌∙◌, true, List, [], ◌∷◌, ◌++◌,
  ltb, arith, Bool-cases, returns,
}
use ros2_rust.Strings.{
  utf16_of, encode_utf16, from_utf16_lossy, StringAlloc, RosString, wide, from, extend,
}

-- What Rust's `char` holds: a Unicode scalar value.
abbrev pub IsChar : ℕ → Type 0
IsChar c = (c < 55296) ⊎ ((57344 ≤ c) × (c < 1114112))

abbrev pub AllChars : List ℕ → Type 0
AllChars [] = Unit {0}
AllChars (c ∷ cs) = IsChar c × AllChars cs

decode-plain :
    (c : ℕ) (rest : List ℕ)
    → (c < 55296) ⊎ (57344 ≤ c)
    → from_utf16_lossy (c ∷ rest) ≡ c ∷ from_utf16_lossy rest
unfolding from_utf16_lossy
decode-plain c [] h = ground arith
decode-plain c (v ∷ us) h = ground arith

decode-pair :
    (c : ℕ) (rest : List ℕ)
    → 65536 ≤ c
    → c < 1114112
    → from_utf16_lossy ((55296 + (c - 65536) / 1024) ∷ (56320 + (c - 65536) % 1024) ∷ rest)
      ≡ c ∷ from_utf16_lossy rest
unfolding from_utf16_lossy
decode-pair c rest l h = ground arith

decode-char :
    (c : ℕ) (rest : List ℕ)
    → IsChar c
    → from_utf16_lossy (utf16_of c ++ rest) ≡ c ∷ from_utf16_lossy rest
unfolding utf16_of
decode-char c rest h = elim (Bool-cases (ltb c 65536)) [
  | inl b ↦ rw b (decode-plain c rest (ground (arith, b)))
  | inr b ↦ rw b (decode-pair c rest (ground (arith, b)) (ground (arith, b)))
]

pub from_utf16_lossy-encode_utf16 :
    (s : List ℕ) → AllChars s → from_utf16_lossy (encode_utf16 s) ≡ s
unfolding encode_utf16 from_utf16_lossy
from_utf16_lossy-encode_utf16 [] h = refl
from_utf16_lossy-encode_utf16 (c ∷ cs) (h, hs) =
    decode-char c (encode_utf16 cs) h ∙ ap (λ r. c ∷ r) (from_utf16_lossy-encode_utf16 cs hs)

AllChars-append : (s t : List ℕ) → AllChars s → AllChars t → AllChars (s ++ t)
AllChars-append [] t h k = k
AllChars-append (c ∷ cs) t (h, hs) k = (h, AllChars-append cs t hs k)

module _ ⦃alloc : StringAlloc⦄ where
  -- The C functions never fail.
  abbrev pub Allocates : Type 0
  Allocates = (units : List ℕ) → alloc.assignn units ≡ true

  from_lem : (s : List ℕ) → Allocates → from wide s ≡ returns (record { units = encode_utf16 s })
  unfolding from
  from_lem s h = rw (h (encode_utf16 s)) (refl)

  -- Where the allocation does not fail, a wide string can be made of a text of Unicode characters and
  -- extended by others, and reads back as the text, and then as the text with these at its end.
  pub decode-extend :
      (s chars : List ℕ)
      → Allocates
      → AllChars s
      → AllChars chars
      → (w w' : RosString) × (from wide s ≡ returns w)
        × (extend wide chars w ≡ returns w')
        × (wide.decode w.units ≡ s)
        × (wide.decode w'.units ≡ s ++ chars)
  unfolding extend
  decode-extend s chars h cs ct = (
    record { units = encode_utf16 s },
    record { units = encode_utf16 (s ++ chars) },
    from_lem s h,
    rw (from_utf16_lossy-encode_utf16 s cs) (from_lem (s ++ chars) h),
    from_utf16_lossy-encode_utf16 s cs,
    from_utf16_lossy-encode_utf16 (s ++ chars) (AllChars-append s chars cs ct),
  )
