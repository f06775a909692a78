-- ===== src/Parameter/Service.antt =====
-- The handlers of the parameter services of a node: rclrs/src/parameter/service.rs. A handler holds
-- the lock of the map from start to end, so it is one step.
pub mod Updates
pub mod Atomic
use ros2_rust.Prelude.{
  ℕ, Bool, true, false, not, ◌&&◌, ◌||◌, Option, none, some, List, [], ◌∷◌, Outcome, returns, fails,
  panics, Result, ok, err, if◌then◌else◌, ◌>>=◌, ◌>>◌, call, unwrap,
}
use ros2_rust.Prelude.Bytes.{Bytes}
use ros2_rust.Prelude.BTreeMap
use ros2_rust.Parameter.Float.{Float}
use ros2_rust.Parameter.Utf8.{Utf8, to_str}
use ros2_rust.Parameter.Value.{ParameterValue, ParameterKind, kind_eq}
use ros2_rust.Parameter.Rmw.{RmwParameterValue, to_rmw, default_rmw, parameter_not_set}
use ros2_rust.Parameter.Range.Descriptor.{IntegerRange, FloatingPointRange, to_descriptor_ranges}
use ros2_rust.Parameter.Storage.{
  DeclaredValue, DeclaredStorage, ParameterStorage, declared, undeclared, ParameterMap, Reason,
  none_given, not_utf8, read, read_only_value, to_parameter_type, store_parameter,
  validate_parameter_setting,
}

-- `rcl_interfaces::msg::rmw::Parameter`, `SetParametersResult` and `ParameterDescriptor`
pub record RmwParameter (F : Type 0) : Type 0 where
  pub name : Bytes
  pub value : RmwParameterValue F

pub record SetParametersResult : Type 0 where
  pub successful : Bool
  pub reason : Reason

pub record ParameterDescriptor (F : Type 0) : Type 0 where
  pub name : Bytes
  pub type_ : ℕ
  pub description : Bytes
  pub additional_constraints : Bytes
  pub read_only : Bool
  pub dynamic_typing : Bool
  pub integer_range : List IntegerRange
  pub floating_point_range : List (FloatingPointRange F)

abbrev pub success : SetParametersResult
success = record { successful = true; reason = none_given }

abbrev pub failure : Reason → SetParametersResult
failure e = record { successful = false; reason = e }

-- `names.into_iter().map(f).collect::<Option<_>>()`: the closure answers `None` for a name that is
-- not UTF-8, and stops the iteration.
abbrev push_option : {A : Type 0} → A → Option (List A) → Option (List A)
push_option a none = none
push_option a (some as') = some (a ∷ as')

abbrev pub unwrap_or_default : {A : Type 0} → Option (List A) → List A
unwrap_or_default none = []
unwrap_or_default (some as') = as'

module _ {A : Type 0} ⦃u : Utf8⦄ where
  collect : (Bytes → Outcome ⊥ A) → List Bytes → Outcome ⊥ (Option (List A))
  collect f [] = returns (some [])
  collect f (raw ∷ names) =
      let rest = collect f names in
      elim (to_str raw) [
        | none ↦ returns none
        | some name ↦ do a ← f name; others ← rest; returns (push_option a others)
      ]

module _ {F : Type 0} ⦃fl : Float F⦄ ⦃u : Utf8⦄ where
  empty_descriptor : Bytes → ParameterDescriptor F
  empty_descriptor name = record {
    name = name;
    type_ = parameter_not_set;
    description = [];
    additional_constraints = [];
    read_only = false;
    dynamic_typing = false;
    integer_range = [];
    floating_point_range = [];
  }

  describe_entry :
      ParameterMap F → Bytes → Option (ParameterStorage F) → Outcome ⊥ (ParameterDescriptor F)
  describe_entry m name none = returns (empty_descriptor name)
  describe_entry m name (some (declared s)) = do
    ranges ← to_descriptor_ranges s.options.ranges
    type_ ← to_parameter_type m.cells (declared s)
    returns (record {
      name = name;
      type_ = type_;
      description = s.options.description;
      additional_constraints = s.options.constraints;
      read_only = read_only_value s.value;
      dynamic_typing = kind_eq s.kind ParameterKind.dynamic;
      integer_range = ranges.0;
      floating_point_range = ranges.1;
    })
  describe_entry m name (some (undeclared value)) = do
    type_ ← to_parameter_type m.cells (undeclared value)
    returns (record (empty_descriptor name) { type_ = type_; dynamic_typing = true })

  unfoldable pub describe_parameters :
      List Bytes → ParameterMap F → Outcome ⊥ (List (ParameterDescriptor F))
  unfolding collect describe_entry empty_descriptor
  describe_parameters names m = do
    descriptors ← collect (λ name. describe_entry m name (BTreeMap.get name m.storage)) names
    returns (unwrap_or_default descriptors)

  type_entry : ParameterMap F → Option (ParameterStorage F) → Outcome ⊥ ℕ
  type_entry m none = returns parameter_not_set
  type_entry m (some s) = to_parameter_type m.cells s

  unfoldable pub get_parameter_types : List Bytes → ParameterMap F → Outcome ⊥ (List ℕ)
  unfolding collect type_entry
  get_parameter_types names m = do
    types ← collect (λ name. type_entry m (BTreeMap.get name m.storage)) names
    returns (unwrap_or_default types)

  abbrev value_or_default : Option (ParameterValue F) → RmwParameterValue F
  value_or_default none = default_rmw
  value_or_default (some v) = to_rmw v

  unfoldable pub get_entry :
      ParameterMap F → Option (ParameterStorage F) → Outcome ⊥ (RmwParameterValue F)
  unfolding read
  get_entry m none = returns default_rmw
  get_entry m (some (declared s)) = do v ← read m.cells s.value; returns (value_or_default v)
  get_entry m (some (undeclared v)) = returns (to_rmw v)

  unfoldable pub get_parameters :
      List Bytes → ParameterMap F → Outcome ⊥ (List (RmwParameterValue F))
  unfolding collect get_entry
  get_parameters names m = do
    values ← collect (λ name. get_entry m (BTreeMap.get name m.storage)) names
    returns (unwrap_or_default values)

  -- one round of `set_parameters`: the result of `validate_parameter_setting` decides
  unfoldable pub apply_setting :
      Outcome Reason (ParameterValue F)
      → Bytes
      → ParameterMap F
      → Outcome ⊥ (SetParametersResult × ParameterMap F)
  unfolding store_parameter
  apply_setting (returns value) name m = do m' ← store_parameter name value m; returns (success, m')
  apply_setting (fails e) name m = returns (failure e, m)
  apply_setting panics name m = panics

  unfoldable pub set_one :
      RmwParameter F → ParameterMap F → Outcome ⊥ (SetParametersResult × ParameterMap F)
  unfolding apply_setting
  set_one param m = elim (to_str param.name) [
    | none ↦ returns (failure not_utf8, m)
    | some name ↦ apply_setting (validate_parameter_setting m name param.value) name m
  ]

  unfoldable pub set_parameters :
      List (RmwParameter F) → ParameterMap F → Outcome ⊥ (List SetParametersResult × ParameterMap F)
  set_parameters [] m = returns ([], m)
  set_parameters (param ∷ params) m = do
    first ← set_one param m
    others ← set_parameters params first.1
    returns (first.0 ∷ others.0, others.1)

  -- one round of the validation of `set_parameters_atomically`
  unfoldable pub validate_one :
      RmwParameter F → ParameterMap F → Outcome Reason (Bytes × ParameterValue F)
  validate_one param m = elim (to_str param.name) [
    | none ↦ fails not_utf8
    | some name ↦ do value ← validate_parameter_setting m name param.value; returns (name, value)
  ]

  -- `collect::<Result<Vec<_>, _>>()` stops at the first error
  unfoldable pub validate_all :
      List (RmwParameter F) → ParameterMap F → Outcome Reason (List (Bytes × ParameterValue F))
  unfolding validate_one
  validate_all [] m = returns []
  validate_all (param ∷ params) m = do
    first ← validate_one param m
    others ← validate_all params m
    returns (first ∷ others)

  unfoldable pub store_all :
      List (Bytes × ParameterValue F) → ParameterMap F → Outcome ⊥ (ParameterMap F)
  store_all [] m = returns m
  store_all ((name, value) ∷ results) m = do m' ← store_parameter name value m; store_all results m'

  abbrev conclude :
      Outcome Reason (List (Bytes × ParameterValue F))
      → ParameterMap F
      → Outcome ⊥ (SetParametersResult × ParameterMap F)
  conclude (returns results) m = do m' ← store_all results m; returns (success, m')
  conclude (fails e) m = returns (failure e, m)
  conclude panics m = panics

  unfoldable pub set_parameters_atomically :
      List (RmwParameter F) → ParameterMap F → Outcome ⊥ (SetParametersResult × ParameterMap F)
  unfolding validate_all store_all
  set_parameters_atomically params m = conclude (validate_all params m) m
