-- ===== src/Parameter/Declare.antt =====
-- Declaring parameters: the builder, the choice of the initial value, and the three kinds of
-- declaration of rclrs/src/parameter.rs. A failed declaration changes nothing.
pub mod Selection
pub mod Invariant
use ros2_rust.Prelude.{
  ℕ, ◌≡◌, Bool, true, false, not, Option, none, some, List, [], ◌∷◌, ◌++◌, Outcome, returns, fails,
  panics, Result, ok, err, if◌then◌else◌, ◌>>=◌, ◌>>◌, fail_if, unwrap, call, length, map,
}
use ros2_rust.Prelude.Bytes.{Bytes}
use ros2_rust.Prelude.BTreeMap
use ros2_rust.Prelude.BTreeMap.{BTreeMap}
use ros2_rust.Parameter.Float.{Float}
use ros2_rust.Parameter.Value.{ParameterValue, ParameterKind, ParameterVariant, ParameterValueError}
use ros2_rust.Parameter.Range.{
  ParameterRanges, no_ranges, in_range, validate, DeclarationError, already_declared,
  no_value_available, override_value_type_mismatch, prior_value_type_mismatch,
  initial_value_out_of_range,
}
use ros2_rust.Parameter.Storage.{
  ParameterOptionsStorage, DeclaredValue, mandatory, optional, read_only, DeclaredStorage,
  ParameterStorage, declared, undeclared, Cells, ParameterMap,
}

pub record AvailableValues (F T : Type 0) : Type 0 where
  pub default_value : Option T
  pub override_value : Option T
  pub prior_value : Option T
  pub ranges : ParameterRanges F

-- `DiscriminatorFunction`: a closure of the user's may choose anything, or panic.
abbrev pub Discriminator : Type 0 → Type 0 → Type 0
Discriminator F T = AvailableValues F T → Outcome ⊥ (Option T)

-- The options are those of `ParameterOptions<T>`, with the ranges converted.
pub record ParameterBuilder (F T : Type 0) : Type 0 where
  pub name : Bytes
  pub default_value : Option T
  pub ignore_override : Bool
  pub discard_mismatching_prior_value : Bool
  pub discriminator : Discriminator F T
  pub options : ParameterOptionsStorage F

pub record ParameterInterface (F : Type 0) : Type 0 where
  pub parameter_map : ParameterMap F
  pub override_map : BTreeMap (ParameterValue F)

-- The handles. `value` is the cell that the handle shares with the map.
pub record MandatoryParameter (F : Type 0) : Type 0 where
  pub name : Bytes
  pub value : ℕ
  pub ranges : ParameterRanges F

pub record OptionalParameter (F : Type 0) : Type 0 where
  pub name : Bytes
  pub value : ℕ
  pub ranges : ParameterRanges F

pub record ReadOnlyParameter (F : Type 0) : Type 0 where
  pub name : Bytes
  pub value : ParameterValue F

abbrev override_or_default : {T : Type 0} → Option T → Option T → Option T
override_or_default (some o) d = some o
override_or_default none d = d

abbrev converted : {T : Type 0} → Result ParameterValueError T → Outcome DeclarationError (Option T)
converted (ok o) = returns (some o)
converted (err _) = fails override_value_type_mismatch

abbrev prior_or :
    {T : Type 0} → Result ParameterValueError T → Bool → Outcome DeclarationError (Option T)
prior_or (ok prior) discard = returns (some prior)
prior_or (err _) true = returns none
prior_or (err _) false = fails prior_value_type_mismatch

-- `ParameterInterface::store_parameter`
abbrev pub store_declared :
    {F : Type 0}
    → Bytes
    → ParameterKind
    → DeclaredValue F
    → ParameterOptionsStorage F
    → Cells F
    → ParameterMap F
    → ParameterMap F
store_declared name kind value options cells m = record m {
  storage =
      BTreeMap.insert name (declared (record { value = value; kind = kind; options = options }))
        m.storage;
  cells = cells;
}

abbrev available_value : {T : Type 0} → Option T → Outcome DeclarationError T
available_value (some x) = returns x
available_value none = fails no_value_available

module _ {F T : Type 0} ⦃fl : Float F⦄ ⦃v : ParameterVariant F T⦄ where
  abbrev prior_in_range : Option T → ParameterRanges F → Outcome ⊥ Bool
  prior_in_range none ranges = returns false
  prior_in_range (some prior) ranges = in_range ranges (v.into prior)

  unfoldable pub default_initial_value_discriminator : Discriminator F T
  default_initial_value_discriminator available = do
    keep ← prior_in_range available.prior_value available.ranges
    returns (
        if keep
        then available.prior_value
        else override_or_default available.override_value available.default_value)

  -- `ParameterInterface::declare`, which `Node::declare_parameter` calls
  unfoldable pub declare : Bytes → ParameterBuilder F T
  unfolding default_initial_value_discriminator
  declare name = record {
    name = name;
    default_value = none;
    ignore_override = false;
    discard_mismatching_prior_value = false;
    discriminator = default_initial_value_discriminator;
    options = record { description = []; constraints = []; ranges = no_ranges };
  }

module _ {F T : Type 0} where
  -- the builder's methods
  unfoldable pub with_default : ParameterBuilder F T → T → ParameterBuilder F T
  with_default b value = record b { default_value = some value }

  unfoldable pub ignoring_override : ParameterBuilder F T → ParameterBuilder F T
  ignoring_override b = record b { ignore_override = true }

  unfoldable pub discarding_mismatching_prior_value : ParameterBuilder F T → ParameterBuilder F T
  discarding_mismatching_prior_value b = record b { discard_mismatching_prior_value = true }

  unfoldable pub discriminate : ParameterBuilder F T → Discriminator F T → ParameterBuilder F T
  discriminate b f = record b { discriminator = f }

  unfoldable pub with_range : ParameterBuilder F T → ParameterRanges F → ParameterBuilder F T
  with_range b ranges = record b { options = record b.options { ranges = ranges } }

  unfoldable pub with_description : ParameterBuilder F T → Bytes → ParameterBuilder F T
  with_description b text = record b { options = record b.options { description = text } }

  unfoldable pub with_constraints : ParameterBuilder F T → Bytes → ParameterBuilder F T
  with_constraints b text = record b { options = record b.options { constraints = text } }

-- `default_from_iter` and `default_string_array`, for what the iterator yields
unfoldable pub default_from_iter :
    {F T : Type 0} → ParameterBuilder F (List T) → List T → ParameterBuilder F (List T)
default_from_iter b values = record b { default_value = some values }

unfoldable pub default_string_array :
    {F U : Type 0}
    → (U → Bytes)
    → ParameterBuilder F (List Bytes)
    → List U
    → ParameterBuilder F (List Bytes)
default_string_array into b values = record b { default_value = some (map into values) }

module _ {F T : Type 0} ⦃v : ParameterVariant F T⦄ where
  abbrev override_of : Option (ParameterValue F) → Outcome DeclarationError (Option T)
  override_of none = returns none
  override_of (some o) = converted (v.try_from o)

  abbrev prior_of : Option (ParameterStorage F) → Bool → Outcome DeclarationError (Option T)
  prior_of none discard = returns none
  prior_of (some (declared _)) discard = fails already_declared
  prior_of (some (undeclared p)) discard = prior_or (v.try_from p) discard

module _ {F T : Type 0} ⦃fl : Float F⦄ ⦃v : ParameterVariant F T⦄ where
  abbrev check_selection : Option T → ParameterRanges F → Outcome DeclarationError (Unit {0})
  check_selection none ranges = returns tt
  check_selection (some initial) ranges = do
    inside ← call (in_range ranges (v.into initial))
    fail_if (not inside) initial_value_out_of_range

  unfoldable pub get_declaration_initial_value :
      ParameterInterface F → ParameterBuilder F T → Outcome DeclarationError (Option T)
  get_declaration_initial_value i b = do
    validate b.options.ranges
    override_value ←
        if b.ignore_override then returns none else override_of (BTreeMap.get b.name i.override_map)
    prior_value ←
        prior_of (BTreeMap.get b.name i.parameter_map.storage) b.discard_mismatching_prior_value
    selection ← call (
        b.discriminator (record {
          default_value = b.default_value;
          override_value = override_value;
          prior_value = prior_value;
          ranges = b.options.ranges;
        }))
    check_selection selection b.options.ranges
    returns selection

  abbrev into_option : Option T → Option (ParameterValue F)
  into_option none = none
  into_option (some x) = some (v.into x)

  -- `TryFrom<ParameterBuilder>` for the three handles: the initial value is chosen under one lock of
  -- the interface's map, and stored under another, where other threads have made the map `m` of it
  unfoldable pub declare_optional :
      ParameterInterface F
      → ParameterBuilder F T
      → ParameterMap F
      → Outcome DeclarationError (OptionalParameter F × ParameterMap F)
  unfolding get_declaration_initial_value
  declare_optional i b m = do
    initial ← get_declaration_initial_value i b
    let c = length m.cells.optional
    returns (
      record { name = b.name; value = c; ranges = b.options.ranges },
      store_declared b.name v.kind (optional c) b.options
          (record m.cells { optional = m.cells.optional ++ into_option initial ∷ [] }) m,
    )

  unfoldable pub declare_mandatory :
      ParameterInterface F
      → ParameterBuilder F T
      → ParameterMap F
      → Outcome DeclarationError (MandatoryParameter F × ParameterMap F)
  unfolding get_declaration_initial_value
  declare_mandatory i b m = do
    selection ← get_declaration_initial_value i b
    initial ← available_value selection
    let c = length m.cells.mandatory
    returns (
      record { name = b.name; value = c; ranges = b.options.ranges },
      store_declared b.name v.kind (mandatory c) b.options
          (record m.cells { mandatory = m.cells.mandatory ++ v.into initial ∷ [] }) m,
    )

  unfoldable pub declare_read_only :
      ParameterInterface F
      → ParameterBuilder F T
      → ParameterMap F
      → Outcome DeclarationError (ReadOnlyParameter F × ParameterMap F)
  unfolding get_declaration_initial_value
  declare_read_only i b m = do
    selection ← get_declaration_initial_value i b
    initial ← available_value selection
    returns (
      record { name = b.name; value = v.into initial },
      store_declared b.name v.kind (read_only (v.into initial)) b.options m.cells m,
    )
