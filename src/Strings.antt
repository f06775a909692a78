-- ===== src/Strings.antt =====
-- rosidl_runtime_rs/src/string.rs: the strings of messages. A Rust text is the list of its characters, a
-- string the list of its bytes or 16-bit words; the C functions that allocate are an argument.
pub mod Utf16
pub mod Bounds
use ros2_rust.Prelude.{
  ℕ, ◌+◌, ◌-◌, ◌*◌, ◌/◌, ◌%◌, ◌≡◌, Bool, true, false, not, ◌&&◌, Option, none, some, List, [], ◌∷◌,
  ◌++◌, length, Result, ok, err, Outcome, returns, panics, ◌>>=◌, unwrap, ltb, leb, if◌then◌else◌,
}

-- `char::encode_utf8` and `char::encode_utf16`
unfoldable pub utf8_of : ℕ → List ℕ
utf8_of c =
    if ltb c 128
    then c ∷ []
    else if ltb c 2048
    then (192 + c / 64) ∷ (128 + c % 64) ∷ []
    else if ltb c 65536
    then (224 + c / 4096) ∷ (128 + c / 64 % 64) ∷ (128 + c % 64) ∷ []
    else (240 + c / 262144) ∷ (128 + c / 4096 % 64) ∷ (128 + c / 64 % 64) ∷ (128 + c % 64) ∷ []

unfoldable pub utf16_of : ℕ → List ℕ
utf16_of c =
    if ltb c 65536 then c ∷ [] else (55296 + (c - 65536) / 1024) ∷ (56320 + (c - 65536) % 1024) ∷ []

-- the bytes of a `str`, and `str::encode_utf16`
unfoldable pub encode_utf8 : List ℕ → List ℕ
unfolding utf8_of
encode_utf8 [] = []
encode_utf8 (c ∷ cs) = utf8_of c ++ encode_utf8 cs

unfoldable pub encode_utf16 : List ℕ → List ℕ
unfolding utf16_of
encode_utf16 [] = []
encode_utf16 (c ∷ cs) = utf16_of c ++ encode_utf16 cs

abbrev pub is_high : ℕ → Bool
is_high u = leb 55296 u && ltb u 56320

abbrev pub is_low : ℕ → Bool
is_low u = leb 56320 u && ltb u 57344

-- a word on its own, where half of a pair is replaced
abbrev pub single : ℕ → ℕ
single u = if leb 55296 u && ltb u 57344 then 65533 else u

-- `String::from_utf16_lossy`
unfoldable pub from_utf16_lossy : List ℕ → List ℕ
from_utf16_lossy [] = []
from_utf16_lossy (u ∷ []) = single u ∷ []
from_utf16_lossy (u ∷ v ∷ us) = elim (is_high u && is_low v) [
  | true ↦ (65536 + ((u - 55296) * 1024 + (v - 56320))) ∷ from_utf16_lossy us
  | false ↦ single u ∷ from_utf16_lossy (v ∷ us)
]

-- What the macro `string_impl` is given for a type of strings: how a text is stored, and read.
pub record StringKind : Type 0 where
  pub encode : List ℕ → List ℕ
  pub decode : List ℕ → List ℕ

-- `String`, for what `from_utf8_lossy` does, and `WString`.
abbrev pub narrow : (List ℕ → List ℕ) → StringKind
narrow from_utf8_lossy = record { encode = encode_utf8; decode = from_utf8_lossy }

abbrev pub wide : StringKind
wide = record { encode = encode_utf16; decode = from_utf16_lossy }

-- The C functions: `init` makes an empty string, `assignn` one of these units, or they fail.
pub record StringAlloc : Type 0 where
  pub init : Bool
  pub assignn : List ℕ → Bool

pub record RosString : Type 0 where
  pub units : List ℕ

pub record StringExceedsBoundsError : Type 0 where
  pub len : ℕ
  pub upper_bound : ℕ

module _ ⦃alloc : StringAlloc⦄ where
  -- `Default`
  unfoldable pub empty : Outcome ⊥ RosString
  empty = if alloc.init then returns (record { units = [] }) else panics

  abbrev pub assigned : List ℕ → Outcome ⊥ RosString
  assigned units = if alloc.assignn units then returns (record { units = units }) else panics

  -- `Clone`
  unfoldable pub clone : RosString → Outcome ⊥ RosString
  clone s = assigned s.units

  module _ (k : StringKind) where
    -- `From<&str>`
    unfoldable pub from : List ℕ → Outcome ⊥ RosString
    from s = assigned (k.encode s)

    -- `Extend<char>` and `FromIterator<char>`
    unfoldable pub extend : List ℕ → RosString → Outcome ⊥ RosString
    unfolding from
    extend chars s = from (k.decode s.units ++ chars)

    unfoldable pub from_iter : List ℕ → Outcome ⊥ RosString
    unfolding empty extend
    from_iter chars = do buf ← empty; extend chars buf

  -- `TryFrom<&str> for BoundedString<N>`, which looks at the text
  unfoldable pub try_from_bounded :
      (List ℕ → List ℕ) → ℕ → List ℕ → Outcome ⊥ (Result StringExceedsBoundsError RosString)
  unfolding from
  try_from_bounded from_utf8_lossy n s =
      if leb (length (encode_utf8 s)) n
      then from (narrow from_utf8_lossy) s >>= (λ inner. returns (ok inner))
      else returns (err (record { len = length (encode_utf8 s); upper_bound = n }))

  -- `TryFrom<&str> for BoundedWString<N>`, which looks at the string
  unfoldable pub try_from_bounded_wide :
      ℕ → List ℕ → Outcome ⊥ (Result StringExceedsBoundsError RosString)
  unfolding from
  try_from_bounded_wide n s = do
    inner ← from wide s
    if leb (length inner.units) n
        then returns (ok inner)
        else returns (err (record { len = length inner.units; upper_bound = n }))
