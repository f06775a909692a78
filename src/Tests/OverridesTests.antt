-- ===== src/Tests/OverridesTests.antt =====
-- The theorems on parameter overrides, applied to command line parameters for a node "/n".
use ros2_rust.Prelude.{ℕ, ◌≡◌, refl, Option, some, none, [], ◌∷◌, returns, false, true}
use ros2_rust.Prelude.Int.{pos, ◌-ℤ◌}
use ros2_rust.Prelude.Bytes.{Bytes, beq}
use ros2_rust.Prelude.BTreeMap
use ros2_rust.Prelude.BTreeMap.{BTreeMap}
use ros2_rust.Parameter.Utf8.{to_cstr}
use ros2_rust.Parameter.Value.{ParameterValue, i64_variant}
use ros2_rust.Parameter.Rmw.{RclVariant, from_rcl_variant}
use ros2_rust.Parameter.Range.{validate, in_range}
use ros2_rust.Parameter.Storage.{ParameterMap, ParameterStorage}
use ros2_rust.Parameter.Declare.{
  ParameterInterface, default_initial_value_discriminator, get_declaration_initial_value, declare,
  with_default, with_range,
}
use ros2_rust.Parameter.Overrides.{
  RclParams, resolve_parameter_overrides, wildcard, rcl_params_iter, node_items, param_items,
  absolute, new_interface,
}
use ros2_rust.Parameter.Overrides.Assignments.{Overlay}
use ros2_rust.Parameter.Overrides.Precedence.{
  HasOneEach, preferred, resolve_parameter_overrides_lem, new_interface-overridden,
}
use ros2_rust.ReturnCode.{RclCall, RclrsError, checked, to_rclrs_result}
use ros2_rust.Tests.Samples.{plain_text, whole_numbers, speed, speed_builder}

abbrev no_value : RclVariant ℕ
no_value = record {
  bool_value = none;
  integer_value = none;
  double_value = none;
  string_value = none;
  byte_array_value = none;
  bool_array_value = none;
  integer_array_value = none;
  double_array_value = none;
  string_array_value = none;
}

-- "speed" is 6 for "/**" and 8 for "n", with no slash in front.
abbrev command_line : Option (RclParams ℕ)
command_line = some (record {
  node_names = wildcard ∷ (110 ∷ []) ∷ [];
  params =
      record {
        parameter_names = speed ∷ [];
        parameter_values = record no_value { integer_value = some (pos 6) } ∷ [];
      }
      ∷ record {
        parameter_names = speed ∷ [];
        parameter_values = record no_value { integer_value = some (pos 8) } ∷ [];
      }
      ∷ [];
})

abbrev node_name : Bytes
node_name = 47 ∷ 110 ∷ []

abbrev parsed : Option (RclParams ℕ) → RclCall (Option (RclParams ℕ))
parsed params = record { ret = pos 0; message = none; handle = params }

parsed-checked : (params : Option (RclParams ℕ)) → checked (parsed params) ≡ returns params
unfolding to_rclrs_result
parsed-checked params = refl

node-HasOneEach : HasOneEach {F = ℕ} node_name none
unfolding rcl_params_iter
node-HasOneEach = tt

global-HasOneEach : HasOneEach node_name command_line
unfolding rcl_params_iter node_items param_items absolute beq to_cstr
global-HasOneEach = (refl, (refl, tt))

resolve_parameter_overrides_lem_example :
    (m : BTreeMap (ParameterValue ℕ)) × (resolve_parameter_overrides node_name
        (parsed none)
        (parsed command_line)
      ≡ returns m)
    × Overlay (preferred node_name none command_line speed) none (BTreeMap.get speed m)
resolve_parameter_overrides_lem_example =
    resolve_parameter_overrides_lem node_name (parsed none) (parsed command_line) none command_line
      speed (parsed-checked none) (parsed-checked command_line) node-HasOneEach global-HasOneEach

preferred_run :
    preferred node_name none command_line speed_builder.name
    ≡ some (record no_value { integer_value = some (pos 8) })
unfolding rcl_params_iter beq to_cstr param_items with_range with_default declare
preferred_run = refl

converted :
    from_rcl_variant {E = RclrsError} (record no_value { integer_value = some (pos 8) })
    ≡ returns (ParameterValue.integer (pos 8))
unfolding from_rcl_variant
converted = refl

default_kept : speed_builder.ignore_override ≡ false
unfolding with_range with_default declare
default_kept = refl

discriminator_kept :
    speed_builder.discriminator ≡ default_initial_value_discriminator ⦃v = i64_variant⦄
unfolding default_initial_value_discriminator with_range with_default declare
discriminator_kept = refl

ranges_valid : validate {F = ℕ} speed_builder.options.ranges ≡ returns tt
unfolding validate with_range
ranges_valid = refl

eight_inside :
    in_range {F = ℕ} speed_builder.options.ranges (ParameterValue.integer (pos 8)) ≡ returns true
unfolding in_range with_range ◌-ℤ◌
eight_inside = refl

-- Another parameter is declared.
abbrev other_declared : ParameterMap ℕ
other_declared = record {
  storage =
      BTreeMap.insert (120 ∷ []) (ParameterStorage.undeclared (ParameterValue.bool true))
        BTreeMap.empty;
  allow_undeclared = true;
  cells = record { mandatory = []; optional = [] };
}

speed_free : BTreeMap.get speed_builder.name other_declared.storage ≡ none
unfolding BTreeMap.get BTreeMap.insert BTreeMap.empty beq with_range with_default declare
speed_free = refl

new_interface-overridden_example :
    (i : ParameterInterface ℕ) × (new_interface node_name (parsed none) (parsed command_line)
      ≡ returns i)
    × (get_declaration_initial_value ⦃v = i64_variant⦄
          (record i { parameter_map = other_declared })
          speed_builder
        ≡ returns (some (pos 8)))
new_interface-overridden_example =
    new_interface-overridden ⦃v = i64_variant⦄ node_name (parsed none) (parsed command_line) none
      command_line other_declared speed_builder (record no_value { integer_value = some (pos 8) })
      (ParameterValue.integer (pos 8)) (pos 8) (parsed-checked none) (parsed-checked command_line)
      node-HasOneEach global-HasOneEach preferred_run converted refl speed_free default_kept
      discriminator_kept ranges_valid eight_inside
