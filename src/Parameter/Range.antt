-- ===== src/Parameter/Range.antt =====
-- rclrs/src/parameter/range.rs: the ranges of a parameter, their validation and the test of a value.
-- An arithmetic overflow of `i64` and a division by zero are panics, as under overflow checks.
pub mod Laws
pub mod Admission
pub mod Descriptor
use ros2_rust.Prelude.{
  ℕ, ◌≡◌, Bool, true, false, not, ◌&&◌, ◌||◌, List, [], ◌∷◌, Option, none, some, Outcome, returns,
  fails, panics, Result, ok, err, if◌then◌else◌, ◌>>=◌, ◌>>◌, fail_if, unwrap,
}
use ros2_rust.Prelude.Int.{ℤ, pos, negsuc, ltb_ℤ, beq_ℤ, rem, checked_sub, i64_max}
use ros2_rust.Parameter.Float.{Float}
use ros2_rust.Parameter.Value.{ParameterValue}

-- The variants of `DeclarationError`, in parameter.rs.
pub data DeclarationError : Type 0 where
  already_declared no_value_available override_value_type_mismatch : DeclarationError
  prior_value_type_mismatch initial_value_out_of_range invalid_range : DeclarationError

pub record ParameterRange (T : Type 0) : Type 0 where
  pub lower : Option T
  pub upper : Option T
  pub step : Option T

pub record ParameterRanges (F : Type 0) : Type 0 where
  pub float : Option (ParameterRange F)
  pub integer : Option (ParameterRange ℤ)

-- The comparisons that `ParameterRange<T>` asks of `T`, and `T::default()`.
pub record PartialOrd (T : Type 0) : Type 0 where
  pub lt : T → T → Bool
  pub le : T → T → Bool
  pub default : T

instance abbrev pub i64_order : PartialOrd ℤ
i64_order = record { lt = ltb_ℤ; le = λ a b. not (ltb_ℤ b a); default = pos 0 }

instance abbrev pub f64_order : {F : Type 0} ⦃fl : Float F⦄ → PartialOrd F
f64_order ⦃fl⦄ = record { lt = fl.lt; le = fl.le; default = fl.zero }

abbrev pub is_some_and : {A : Type 0} → Option A → (A → Bool) → Bool
is_some_and none p = false
is_some_and (some a) p = p a

abbrev is_none : {A : Type 0} → Option A → Bool
is_none none = true
is_none (some a) = false

-- `impl From<..> for ParameterRanges`, and `default()`.
module _ {F : Type 0} where
  abbrev pub no_ranges : ParameterRanges F
  no_ranges = record { float = none; integer = none }

  unfoldable pub from_float : ParameterRange F → ParameterRanges F
  from_float r = record { float = some r; integer = none }

  unfoldable pub from_integer : ParameterRange ℤ → ParameterRanges F
  from_integer r = record { float = none; integer = some r }

module _ {T : Type 0} where
  unfoldable pub is_default : ParameterRange T → Bool
  is_default r = is_none r.lower && is_none r.upper && is_none r.step

module _ {T : Type 0} ⦃o : PartialOrd T⦄ where
  unfoldable pub inside_boundary : ParameterRange T → T → Bool
  inside_boundary r value =
      if is_some_and r.lower (λ l. o.lt value l)
      then false
      else if is_some_and r.upper (λ u. o.lt u value)
      then false
      else true

  -- `lower.zip(upper).is_some_and(|(l, u)| l > u)`
  abbrev crossed : Option T → Option T → Bool
  crossed (some l) (some u) = o.lt u l
  crossed _ _ = false

  unfoldable pub validate_range : ParameterRange T → Outcome DeclarationError (Unit {0})
  validate_range r = do
    fail_if (crossed r.lower r.upper) invalid_range
    fail_if (is_some_and r.step (λ s. o.le s o.default)) invalid_range
    returns tt

-- `a % b`, which panics at `b = 0`, and at `i64::MIN % -1`.
abbrev pub rem_i64 : ℤ → ℤ → Outcome ⊥ ℤ
rem_i64 a b =
    if beq_ℤ b (pos 0)
    then panics
    else if beq_ℤ b (negsuc 0) && beq_ℤ a (negsuc i64_max)
    then panics
    else returns (rem a b)

-- The test `(value - l) % s != 0` of `ParameterRange<i64>::in_range`.
unfoldable pub on_step : Option ℤ → Option ℤ → ℤ → Outcome ⊥ Bool
on_step (some l) (some s) value = do
  d ← unwrap (checked_sub value l)
  r ← rem_i64 d s
  returns (beq_ℤ r (pos 0))
on_step _ _ value = returns true

unfoldable pub in_range_i64 : ParameterRange ℤ → ℤ → Outcome ⊥ Bool
unfolding inside_boundary on_step
in_range_i64 r value =
    if not (inside_boundary r value)
    then returns false
    else if is_some_and r.upper (λ u. beq_ℤ u value)
    then returns true
    else on_step r.lower r.step value

abbrev integer_in_range : Option (ParameterRange ℤ) → ℤ → Outcome ⊥ Bool
integer_in_range none v = returns true
integer_in_range (some r) v = in_range_i64 r v

abbrev validate_option :
    {T : Type 0} ⦃o : PartialOrd T⦄
    → Option (ParameterRange T)
    → Outcome DeclarationError (Unit {0})
validate_option none = returns tt
validate_option (some r) = validate_range r

module _ {F : Type 0} ⦃fl : Float F⦄ where
  unfoldable pub are_close : F → F → Bool
  are_close v1 v2 =
      fl.le (fl.abs (fl.sub v1 v2)) (fl.mul (fl.mul fl.epsilon (fl.abs (fl.add v1 v2))) fl.hundred)

  unfoldable pub on_step_f64 : Option F → Option F → F → Bool
  unfolding are_close
  on_step_f64 (some l) (some s) value =
      are_close (fl.add (fl.mul (fl.round (fl.div (fl.sub value l) s)) s) l) value
  on_step_f64 _ _ value = true

  unfoldable pub in_range_f64 : ParameterRange F → F → Bool
  unfolding inside_boundary on_step_f64 are_close
  in_range_f64 r value =
      if is_some_and r.upper (λ u. are_close u value)
        || is_some_and r.lower (λ l. are_close l value)
      then true
      else if not (inside_boundary r value)
      then false
      else on_step_f64 r.lower r.step value

  abbrev float_in_range : Option (ParameterRange F) → F → Bool
  float_in_range none v = true
  float_in_range (some r) v = in_range_f64 r v

  -- `ParameterRanges::in_range`
  unfoldable pub in_range : ParameterRanges F → ParameterValue F → Outcome ⊥ Bool
  unfolding in_range_i64 in_range_f64
  in_range rs (ParameterValue.integer v) = integer_in_range rs.integer v
  in_range rs (ParameterValue.double v) = returns (float_in_range rs.float v)
  in_range rs _ = returns true

  -- `ParameterRanges::validate`
  unfoldable pub validate : ParameterRanges F → Outcome DeclarationError (Unit {0})
  unfolding validate_range
  validate rs = do validate_option rs.integer; validate_option rs.float; returns tt
