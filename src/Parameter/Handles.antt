-- ===== src/Parameter/Handles.antt =====
-- Reading and writing parameters from inside the node: the methods and the drop of the three
-- handles, and `Parameters::get` and `set` of rclrs/src/parameter.rs.
pub mod Invariant
pub mod Agreement
use ros2_rust.Prelude.{
  Bool, true, false, not, Option, none, some, Outcome, returns, fails, panics, Result, ok, err,
  if◌then◌else◌, ◌>>=◌, ◌>>◌, fail_if, unwrap, call, get_elem?,
}
use ros2_rust.Prelude.Bytes.{Bytes}
use ros2_rust.Prelude.BTreeMap
use ros2_rust.Parameter.Float.{Float}
use ros2_rust.Parameter.Value.{
  ParameterValue, ParameterVariant, ParameterValueError, out_of_range, type_mismatch, read_only,
  kind_eq,
}
use ros2_rust.Parameter.Range.{in_range}
use ros2_rust.Parameter.Storage.{
  DeclaredValue, DeclaredStorage, ParameterStorage, declared, undeclared, ParameterMap,
  write_mandatory, write_optional, put_undeclared, read,
}
use ros2_rust.Parameter.Declare.{MandatoryParameter, OptionalParameter, ReadOnlyParameter}

module _ {F : Type 0} where
  -- `Drop` of the handles: the entry is cleared
  unfoldable pub drop_mandatory : MandatoryParameter F → ParameterMap F → ParameterMap F
  drop_mandatory p m = record m { storage = BTreeMap.remove p.name m.storage }

  unfoldable pub drop_optional : OptionalParameter F → ParameterMap F → ParameterMap F
  drop_optional p m = record m { storage = BTreeMap.remove p.name m.storage }

  unfoldable pub drop_read_only : ReadOnlyParameter F → ParameterMap F → ParameterMap F
  drop_read_only p m = record m { storage = BTreeMap.remove p.name m.storage }

  unfoldable pub unset_optional : OptionalParameter F → ParameterMap F → ParameterMap F
  unset_optional p m = record m { cells = write_optional p.value none m.cells }

  -- `ParameterInterface::allow_undeclared`
  unfoldable pub allow_undeclared : ParameterMap F → ParameterMap F
  allow_undeclared m = record m { allow_undeclared = true }

-- `.try_into().ok().unwrap()`
abbrev must : {T : Type 0} → Result ParameterValueError T → Outcome ⊥ T
must (ok x) = returns x
must (err _) = panics

abbrev accepted : {T : Type 0} → Result ParameterValueError T → Option T
accepted (ok x) = some x
accepted (err _) = none

module _ {F T : Type 0} ⦃v : ParameterVariant F T⦄ where
  unfoldable pub get_mandatory : MandatoryParameter F → ParameterMap F → Outcome ⊥ T
  get_mandatory p m = do
    value ← unwrap (get_elem? m.cells.mandatory p.value)
    must (v.try_from value)

  abbrev must_option : Option (ParameterValue F) → Outcome ⊥ (Option T)
  must_option none = returns none
  must_option (some value) = do x ← must (v.try_from value); returns (some x)

  unfoldable pub get_optional : OptionalParameter F → ParameterMap F → Outcome ⊥ (Option T)
  get_optional p m = do value ← unwrap (get_elem? m.cells.optional p.value); must_option value

  unfoldable pub get_read_only : ReadOnlyParameter F → Outcome ⊥ T
  get_read_only p = must (v.try_from p.value)

  abbrev accepted_option : Option (ParameterValue F) → Option T
  accepted_option none = none
  accepted_option (some value) = accepted (v.try_from value)

  abbrev get_entry : Option (ParameterStorage F) → ParameterMap F → Outcome ⊥ (Option T)
  get_entry none m = returns none
  get_entry (some (declared s)) m = do value ← read m.cells s.value; returns (accepted_option value)
  get_entry (some (undeclared value)) m = returns (accepted (v.try_from value))

  -- `Parameters::get`
  unfoldable pub get : Bytes → ParameterMap F → Outcome ⊥ (Option T)
  unfolding read
  get name m = get_entry (BTreeMap.get name m.storage) m

abbrev set_value :
    {F : Type 0}
    → DeclaredValue F
    → ParameterValue F
    → ParameterMap F
    → Outcome ParameterValueError (ParameterMap F)
set_value (DeclaredValue.mandatory c) value m =
    returns (record m { cells = write_mandatory c value m.cells })
set_value (DeclaredValue.optional c) value m =
    returns (record m { cells = write_optional c (some value) m.cells })
set_value (DeclaredValue.read_only _) value m = fails read_only

module _ {F T : Type 0} ⦃fl : Float F⦄ ⦃v : ParameterVariant F T⦄ where
  unfoldable pub set_mandatory :
      MandatoryParameter F → T → ParameterMap F → Outcome ParameterValueError (ParameterMap F)
  set_mandatory p x m = do
    inside ← call (in_range p.ranges (v.into x))
    fail_if (not inside) out_of_range
    returns (record m { cells = write_mandatory p.value (v.into x) m.cells })

  unfoldable pub set_optional :
      OptionalParameter F → T → ParameterMap F → Outcome ParameterValueError (ParameterMap F)
  set_optional p x m = do
    inside ← call (in_range p.ranges (v.into x))
    fail_if (not inside) out_of_range
    returns (record m { cells = write_optional p.value (some (v.into x)) m.cells })

  unfoldable pub set_declared :
      DeclaredStorage F → T → ParameterMap F → Outcome ParameterValueError (ParameterMap F)
  unfolding kind_eq
  set_declared s x m =
      if kind_eq v.kind s.kind
      then (do
        inside ← call (in_range s.options.ranges (v.into x))
        fail_if (not inside) out_of_range
        set_value s.value (v.into x) m)
      else fails type_mismatch

  abbrev set_entry :
      Option (ParameterStorage F)
      → Bytes
      → T
      → ParameterMap F
      → Outcome ParameterValueError (ParameterMap F)
  set_entry none name x m = returns (put_undeclared name (v.into x) m)
  set_entry (some (declared s)) name x m = set_declared s x m
  set_entry (some (undeclared _)) name x m = returns (put_undeclared name (v.into x) m)

  -- `Parameters::set`
  unfoldable pub set : Bytes → T → ParameterMap F → Outcome ParameterValueError (ParameterMap F)
  unfolding set_declared
  set name x m = set_entry (BTreeMap.get name m.storage) name x m
