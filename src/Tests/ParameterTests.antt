-- ===== src/Tests/ParameterTests.antt =====
-- Runs on the samples, and the theorems on parameters applied to them.
use ros2_rust.Prelude.{ℕ, ◌≡◌, ◌≢◌, ◌⊎◌, refl, true, false, Option, some, [], ◌∷◌, returns, ok}
use ros2_rust.Prelude.Int.{ℤ, pos, ◌-ℤ◌}
use ros2_rust.Prelude.Bytes.{beq}
use ros2_rust.Parameter.Utf8.{to_str}
use ros2_rust.Prelude.BTreeMap
use ros2_rust.Parameter.Value.{ParameterValue, i64_variant}
use ros2_rust.Parameter.Value.Laws.{i64-IsLawful}
use ros2_rust.Parameter.Range.{in_range, validate}
use ros2_rust.Parameter.Rmw.{to_rmw, from_rmw}
use ros2_rust.Parameter.Storage.{
  ParameterMap, declared, read, store_parameter, validate_parameter_setting, mandatory,
  out_of_range,
}
use ros2_rust.Parameter.Storage.Invariant.{FitsOption}
use ros2_rust.Parameter.Storage.Validation.{Stores, validated-Stores}
use ros2_rust.Parameter.Declare.{
  AvailableValues, get_declaration_initial_value, ignoring_override,
  default_initial_value_discriminator, ParameterInterface, declare, with_default, with_range,
}
use ros2_rust.Parameter.Declare.Selection.{
  selected-InRange, default_discriminator_lem, Preferred, SelectedIn,
}
use ros2_rust.Parameter.Handles.{set_mandatory, get_mandatory, get}
use ros2_rust.Parameter.Handles.Agreement.{get-set_mandatory}
use ros2_rust.Parameter.Service.{
  RmwParameter, success, failure, set_one, set_parameters, set_parameters_atomically,
  get_parameters,
}
use ros2_rust.Parameter.Service.Updates.{Answered, set_one-Answered, get_parameters-set_one}
use ros2_rust.Parameter.Service.Atomic.{all_succeed, atomic-eq-set_parameters}
use ros2_rust.Parameter.Reachable.{reachable_value, default_map}
use ros2_rust.Tests.Samples.{
  whole_numbers, plain_text, speed, speed_ranges, empty_node, speed_builder, speed_handle,
  speed_entry, node_with, node_Reach, node-IsWellFormed, speed_request, speed_stored, speed_IsLive,
}

abbrev node : ParameterMap ℕ
node = node_with (pos 4)

abbrev value_six : ParameterValue ℕ
value_six = ParameterValue.integer (pos 6)

abbrev request : RmwParameter ℕ
request = speed_request (pos 6)

atomic_run : set_parameters_atomically (request ∷ []) node ≡ returns (success, node_with (pos 6))
unfolding set_parameters_atomically to_str validate_parameter_setting from_rmw to_rmw BTreeMap.get
    BTreeMap.insert BTreeMap.empty beq in_range ◌-ℤ◌ store_parameter
atomic_run = refl

set_run : set_one request node ≡ returns (success, node_with (pos 6))
unfolding set_one to_str validate_parameter_setting from_rmw to_rmw BTreeMap.get BTreeMap.insert
    BTreeMap.empty beq in_range ◌-ℤ◌
set_run = refl

-- An odd speed is off the grid, and rejected.
set_odd : set_one (speed_request (pos 5)) node ≡ returns (failure out_of_range, node)
unfolding set_one to_str validate_parameter_setting from_rmw to_rmw BTreeMap.get BTreeMap.insert
    BTreeMap.empty beq in_range ◌-ℤ◌
set_odd = refl

set_all_run :
    set_parameters (speed_request (pos 5) ∷ request ∷ []) node
    ≡ returns (failure out_of_range ∷ success ∷ [], node_with (pos 6))
unfolding set_parameters set_one to_str validate_parameter_setting from_rmw to_rmw BTreeMap.get
    BTreeMap.insert BTreeMap.empty beq in_range ◌-ℤ◌
set_all_run = refl

validate_run : validate_parameter_setting node speed (to_rmw value_six) ≡ returns value_six
unfolding validate_parameter_setting from_rmw to_rmw BTreeMap.get BTreeMap.insert BTreeMap.empty beq
    in_range ◌-ℤ◌
validate_run = refl

handle_run : set_mandatory ⦃v = i64_variant⦄ speed_handle (pos 6) node ≡ returns (node_with (pos 6))
unfolding set_mandatory in_range ◌-ℤ◌
handle_run = refl

selection_run :
    get_declaration_initial_value ⦃v = i64_variant⦄ empty_node speed_builder
    ≡ returns (some (pos 4))
unfolding get_declaration_initial_value validate with_range with_default declare BTreeMap.get
    BTreeMap.empty default_map in_range ◌-ℤ◌
selection_run = refl

abbrev available : AvailableValues ℕ ℤ
available = record {
  default_value = some (pos 2);
  override_value = some (pos 8);
  prior_value = some (pos 7);
  ranges = speed_ranges;
}

-- The prior value is off the grid, so the override is chosen.
discriminator_run :
    default_initial_value_discriminator ⦃v = i64_variant⦄ available ≡ returns (some (pos 8))
unfolding default_initial_value_discriminator in_range ◌-ℤ◌
discriminator_run = refl

ranges_valid : validate speed_ranges ≡ returns tt
unfolding validate
ranges_valid = refl

reachable_value_example :
    (o : Option (ParameterValue ℕ)) × (read node.cells (mandatory 0) ≡ returns o)
    × FitsOption speed_entry o
    × (validate speed_ranges ≡ returns tt)
reachable_value_example = reachable_value node_Reach speed speed_entry speed_stored

atomic-eq-set_parameters_example :
    ((true ≡ false) × (node_with (pos 6) ≡ node))
    ⊎ ((true ≡ true)
        × (set_parameters (request ∷ []) node
            ≡ returns (all_succeed (request ∷ []), node_with (pos 6))))
atomic-eq-set_parameters_example =
    atomic-eq-set_parameters (request ∷ []) node success (node_with (pos 6)) atomic_run

validated-Stores_example :
    (from_rmw (to_rmw value_six) ≡ ok value_six)
    × Stores (store_parameter speed value_six node) speed value_six node
validated-Stores_example =
    validated-Stores node speed (to_rmw value_six) value_six node-IsWellFormed validate_run

set_one-Answered_example : Answered request node success (node_with (pos 6))
set_one-Answered_example =
    set_one-Answered request node success (node_with (pos 6)) node-IsWellFormed set_run

get_parameters-set_one_example :
    (value : ParameterValue ℕ) × (from_rmw request.value ≡ ok value)
    × (get_parameters (speed ∷ []) (node_with (pos 6)) ≡ returns (to_rmw value ∷ []))
get_parameters-set_one_example =
    get_parameters-set_one request node success (node_with (pos 6)) node-IsWellFormed set_run refl

get-set_mandatory_example :
    (get_mandatory ⦃v = i64_variant⦄ speed_handle (node_with (pos 6)) ≡ returns (pos 6))
    × (get ⦃v = i64_variant⦄ speed (node_with (pos 6)) ≡ returns (some (pos 6)))
get-set_mandatory_example =
    get-set_mandatory ⦃v = i64_variant⦄ i64-IsLawful speed_handle (pos 6) node (node_with (pos 6))
      node-IsWellFormed speed_IsLive handle_run

selected-InRange_example :
    (validate speed_ranges ≡ returns tt)
    × SelectedIn ⦃v = i64_variant⦄ speed_ranges (some (pos 4))
    × (BTreeMap.get speed (default_map {F = ℕ}).storage ≢ some (declared speed_entry))
unfolding with_range with_default declare
selected-InRange_example =
    selected-InRange ⦃v = i64_variant⦄ empty_node speed_builder (some (pos 4)) speed_entry
      selection_run

abbrev full_node : ParameterInterface ℕ
full_node = record { parameter_map = node; override_map = BTreeMap.empty }

builder_valid : validate (ignoring_override speed_builder).options.ranges ≡ returns tt
unfolding validate ignoring_override with_range
builder_valid = refl

builder_ignores : (ignoring_override speed_builder).ignore_override ≡ true
unfolding ignoring_override
builder_ignores = refl

builder_name :
    BTreeMap.get (ignoring_override speed_builder).name node.storage ≡ some (declared speed_entry)
unfolding ignoring_override with_range with_default declare BTreeMap.get BTreeMap.insert
    BTreeMap.empty beq
builder_name = refl

default_discriminator_lem_example : Preferred ⦃v = i64_variant⦄ available (some (pos 8))
default_discriminator_lem_example =
    default_discriminator_lem ⦃v = i64_variant⦄ available (some (pos 8)) discriminator_run
