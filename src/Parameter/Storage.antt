-- ===== src/Parameter/Storage.antt =====
-- The storage of declared and undeclared parameters, and the two methods of `ParameterMap`:
-- rclrs/src/parameter.rs. An `Arc<RwLock<..>>` that a declared parameter shares with its handle is
-- a cell, named by its index; a lock is never poisoned, since no writer panics while it holds one.
pub mod Invariant
pub mod Validation
pub mod Growth
pub mod Guards
use ros2_rust.Prelude.{
  ℕ, ◌≡◌, Bool, true, false, not, ◌||◌, Option, none, some, List, Outcome, returns, fails, panics,
  Result, ok, err, if◌then◌else◌, ◌>>=◌, ◌>>◌, fail_if, unwrap, call, get_elem?, set,
}
use ros2_rust.Prelude.Bytes.{Bytes}
use ros2_rust.Prelude.BTreeMap
use ros2_rust.Prelude.BTreeMap.{BTreeMap}
use ros2_rust.Parameter.Float.{Float}
use ros2_rust.Parameter.Utf8.{Utf8}
use ros2_rust.Parameter.Value.{ParameterValue, ParameterKind, kind_of, kind_eq}
use ros2_rust.Parameter.Rmw.{
  RmwParameterValue, RmwParameterConversionError, from_rmw, rcl_parameter_type, parameter_not_set,
  parameter_bool, parameter_integer, parameter_double, parameter_string, parameter_byte_array,
  parameter_bool_array, parameter_integer_array, parameter_double_array, parameter_string_array,
}
use ros2_rust.Parameter.Range.{ParameterRanges, in_range}

pub record ParameterOptionsStorage (F : Type 0) : Type 0 where
  pub description : Bytes
  pub constraints : Bytes
  pub ranges : ParameterRanges F

pub data DeclaredValue (F : Type 0) : Type 0 where
  mandatory : ℕ → DeclaredValue F
  optional : ℕ → DeclaredValue F
  read_only : ParameterValue F → DeclaredValue F

pub record DeclaredStorage (F : Type 0) : Type 0 where
  pub value : DeclaredValue F
  pub kind : ParameterKind
  pub options : ParameterOptionsStorage F

pub data ParameterStorage (F : Type 0) : Type 0 where
  declared : DeclaredStorage F → ParameterStorage F
  undeclared : ParameterValue F → ParameterStorage F

-- What the shared locks hold: those of mandatory parameters, and those of optional ones.
pub record Cells (F : Type 0) : Type 0 where
  pub mandatory : List (ParameterValue F)
  pub optional : List (Option (ParameterValue F))

pub record ParameterMap (F : Type 0) : Type 0 where
  pub storage : BTreeMap (ParameterStorage F)
  pub allow_undeclared : Bool
  -- the locks that the storage and the handles share
  pub cells : Cells F

-- The reasons of a `SetParametersResult`.
pub data Reason : Type 0 where
  none_given : Reason
  invalid_parameter_type : Reason
  out_of_range : Reason
  is_read_only : Reason
  different_type : Reason
  not_declared : Reason
  not_utf8 : Reason

module _ {F : Type 0} where
  -- `v.read().unwrap().clone()`, `None` for an optional parameter that is unset.
  unfoldable pub read : Cells F → DeclaredValue F → Outcome ⊥ (Option (ParameterValue F))
  read cells (mandatory c) = do v ← unwrap (get_elem? cells.mandatory c); returns (some v)
  read cells (optional c) = unwrap (get_elem? cells.optional c)
  read cells (read_only v) = returns (some v)

  abbrev pub write_mandatory : ℕ → ParameterValue F → Cells F → Cells F
  write_mandatory c v cells = record cells { mandatory = set cells.mandatory c v }

  abbrev pub write_optional : ℕ → Option (ParameterValue F) → Cells F → Cells F
  write_optional c v cells = record cells { optional = set cells.optional c v }

  abbrev type_or_not_set : Option (ParameterValue F) → ℕ
  type_or_not_set none = parameter_not_set
  type_or_not_set (some v) = rcl_parameter_type v

  declared_type : Cells F → ParameterKind → DeclaredValue F → Outcome ⊥ ℕ
  declared_type cells ParameterKind.bool v = returns parameter_bool
  declared_type cells ParameterKind.integer v = returns parameter_integer
  declared_type cells ParameterKind.double v = returns parameter_double
  declared_type cells ParameterKind.string v = returns parameter_string
  declared_type cells ParameterKind.byte_array v = returns parameter_byte_array
  declared_type cells ParameterKind.bool_array v = returns parameter_bool_array
  declared_type cells ParameterKind.integer_array v = returns parameter_integer_array
  declared_type cells ParameterKind.double_array v = returns parameter_double_array
  declared_type cells ParameterKind.string_array v = returns parameter_string_array
  declared_type cells ParameterKind.dynamic v = do o ← read cells v; returns (type_or_not_set o)

  -- `ParameterStorage::to_parameter_type`
  unfoldable pub to_parameter_type : Cells F → ParameterStorage F → Outcome ⊥ ℕ
  unfolding read declared_type rcl_parameter_type
  to_parameter_type cells (declared s) = declared_type cells s.kind s.value
  to_parameter_type cells (undeclared v) = returns (rcl_parameter_type v)

  unfoldable pub read_only_value : DeclaredValue F → Bool
  read_only_value (read_only _) = true
  read_only_value _ = false

  -- the name is taken: `entry.insert` and `*param = value`
  abbrev pub put_undeclared : Bytes → ParameterValue F → ParameterMap F → ParameterMap F
  put_undeclared name value m = record m {
    storage = BTreeMap.insert name (undeclared value) m.storage;
  }

  abbrev store_declared :
      DeclaredValue F → ParameterValue F → ParameterMap F → Outcome ⊥ (ParameterMap F)
  store_declared (mandatory c) value m =
      returns (record m { cells = write_mandatory c value m.cells })
  store_declared (optional c) value m =
      returns (record m { cells = write_optional c (some value) m.cells })
  store_declared (read_only _) value m = panics

  abbrev store_entry :
      Option (ParameterStorage F)
      → Bytes
      → ParameterValue F
      → ParameterMap F
      → Outcome ⊥ (ParameterMap F)
  store_entry (some (declared s)) name value m = store_declared s.value value m
  store_entry (some (undeclared _)) name value m = returns (put_undeclared name value m)
  store_entry none name value m = returns (put_undeclared name value m)

  -- `ParameterMap::store_parameter`
  unfoldable pub store_parameter :
      Bytes → ParameterValue F → ParameterMap F → Outcome ⊥ (ParameterMap F)
  store_parameter name value m = store_entry (BTreeMap.get name m.storage) name value m

module _ {F : Type 0} ⦃fl : Float F⦄ where
  -- the body of `Some(entry) => if let ParameterStorage::Declared(storage) = entry`
  unfoldable pub check_declared : DeclaredStorage F → ParameterValue F → Outcome Reason (Unit {0})
  unfolding read_only_value kind_eq kind_of
  check_declared s value =
      if kind_eq s.kind (kind_of value) || kind_eq s.kind ParameterKind.dynamic
      then (do
        inside ← call (in_range s.options.ranges value)
        fail_if (not inside) out_of_range
        fail_if (read_only_value s.value) is_read_only
        returns tt)
      else fails different_type

  unfoldable pub check_entry :
      Option (ParameterStorage F) → Bool → ParameterValue F → Outcome Reason (Unit {0})
  unfolding check_declared
  check_entry (some (declared s)) allowed value = check_declared s value
  check_entry (some (undeclared _)) allowed value = returns tt
  check_entry none allowed value = fail_if (not allowed) not_declared

  abbrev typed :
      Result RmwParameterConversionError (ParameterValue F) → Outcome Reason (ParameterValue F)
  typed (ok v) = returns v
  typed (err _) = fails invalid_parameter_type

  -- `ParameterMap::validate_parameter_setting`
  unfoldable pub validate_parameter_setting :
      ⦃u : Utf8⦄ → ParameterMap F → Bytes → RmwParameterValue F → Outcome Reason (ParameterValue F)
  unfolding check_entry
  validate_parameter_setting m name rmw = do
    value ← typed (from_rmw rmw)
    check_entry (BTreeMap.get name m.storage) m.allow_undeclared value
    returns value
