-- ===== src/Parameter/Range/Descriptor.antt =====
-- `ParameterRanges::to_descriptor_ranges`: the ranges as the introspection messages carry them. A
-- `BoundedSequence<_, 1>` is a list of at most one element.
use ros2_rust.Prelude.{
  ℕ, ◌≡◌, refl, true, List, [], ◌∷◌, Option, none, some, Outcome, returns, panics, ◌>>=◌,
  if◌then◌else◌, arith,
}
use ros2_rust.Prelude.Int.{ℤ, pos, negsuc, i64_max}
use ros2_rust.Parameter.Float.{Float}
use ros2_rust.Parameter.Range.{ParameterRange, ParameterRanges, is_default}
use ros2_rust.Parameter.Range.Laws.{IsValid}

-- `rcl_interfaces::msg::rmw::IntegerRange` and `FloatingPointRange`.
pub record IntegerRange : Type 0 where
  pub from_value : ℤ
  pub to_value : ℤ
  pub step : ℕ

pub record FloatingPointRange (F : Type 0) : Type 0 where
  pub from_value : F
  pub to_value : F
  pub step : F

abbrev pub unwrap_or : {A : Type 0} → Option A → A → A
unwrap_or none d = d
unwrap_or (some a) d = a

-- `i64 → u64` by `try_into().unwrap()`
abbrev to_u64 : {E : Type 0} → ℤ → Outcome E ℕ
to_u64 (pos n) = returns n
to_u64 (negsuc n) = panics

unfoldable pub integer_descriptor :
    {E : Type 0} → Option (ParameterRange ℤ) → Outcome E (List IntegerRange)
unfolding is_default
integer_descriptor none = returns []
integer_descriptor (some r) = if is_default r then returns [] else do
  step ← to_u64 (unwrap_or r.step (pos 0))
  returns (
      record {
        from_value = unwrap_or r.lower (negsuc i64_max);
        to_value = unwrap_or r.upper (pos i64_max);
        step = step;
      }
      ∷ [])

module _ {F : Type 0} ⦃fl : Float F⦄ where
  unfoldable pub float_descriptor : Option (ParameterRange F) → List (FloatingPointRange F)
  unfolding is_default
  float_descriptor none = []
  float_descriptor (some r) =
      if is_default r
      then []
      else record {
        from_value = unwrap_or r.lower fl.neg_infinity;
        to_value = unwrap_or r.upper fl.infinity;
        step = unwrap_or r.step fl.zero;
      }
        ∷ []

  unfoldable pub to_descriptor_ranges :
      {E : Type 0} → ParameterRanges F → Outcome E (List IntegerRange × List (FloatingPointRange F))
  unfolding integer_descriptor float_descriptor
  to_descriptor_ranges rs = do
    ints ← integer_descriptor rs.integer
    returns (ints, float_descriptor rs.float)

abbrev pub Describes : ParameterRange ℤ → List IntegerRange → Type 0
Describes r [] = is_default r ≡ true
Describes r (d ∷ []) =
    (d.from_value ≡ unwrap_or r.lower (negsuc i64_max))
    × (d.to_value ≡ unwrap_or r.upper (pos i64_max))
    × (pos d.step ≡ unwrap_or r.step (pos 0))
Describes r _ = ⊥

abbrev entry : Option ℤ → Option ℤ → ℕ → IntegerRange
entry l u n = record {
  from_value = unwrap_or l (negsuc i64_max);
  to_value = unwrap_or u (pos i64_max);
  step = n;
}

abbrev Faithful : (E : Type 0) → ParameterRange ℤ → Type 0
Faithful E r =
    (ds : List IntegerRange) × (integer_descriptor {E = E} (some r) ≡ returns ds) × Describes r ds

descriptor-Faithful :
    {E : Type 0} (l u s : Option ℤ)
    → IsValid (record { lower = l; upper = u; step = s })
    → Faithful E (record { lower = l; upper = u; step = s })
unfolding integer_descriptor
descriptor-Faithful none none none v = ([], refl, refl)
descriptor-Faithful l u (some (pos n)) v = (entry l u n ∷ [], ground arith, (refl, refl, refl))
descriptor-Faithful l u (some (negsuc n)) v = absurd (omega (arith, v.positive))
descriptor-Faithful (some l) u none v = (entry (some l) u 0 ∷ [], refl, (refl, refl, refl))
descriptor-Faithful none (some u) none v = (entry none (some u) 0 ∷ [], refl, (refl, refl, refl))

-- The integer descriptor of a valid range never panics on the conversion of its step to `u64`: it
-- is empty exactly for the default range, else it is one entry with the range's limits and step.
pub integer_descriptor_lem :
    {E : Type 0} (r : ParameterRange ℤ)
    → IsValid r
    → (ds : List IntegerRange) × (integer_descriptor {E = E} (some r) ≡ returns ds) × Describes r ds
integer_descriptor_lem r v = descriptor-Faithful r.lower r.upper r.step v
