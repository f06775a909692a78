-- ===== src/Tests/ClockTests.antt =====
-- The theorems on time sources, applied to an `rcl` whose clocks are a flag and a time.
use ros2_rust.Prelude.{
  ℕ, Option, some, ◌≡◌, refl, ap, Bool, true, false, none, [], ◌∷◌, List, returns, ok,
}
use ros2_rust.Prelude.Int.{ℤ, pos}
use ros2_rust.ReturnCode.{RclCall, RclrsError, checked, to_rclrs_result}
use ros2_rust.Clock.{ClockType, RclClock, is_ros_time, now}
use ros2_rust.Clock.Laws.{IsDocumented}
use ros2_rust.TimeSource.{TimeSource, NodeCalls, build}
use ros2_rust.TimeSource.Steps.{Works, or_zero}
use ros2_rust.TimeSource.Simulated.{
  Event, switches, receives, last_time, simulate, is_some, now-simulate, kind-simulate,
}
use ros2_rust.Prelude.Bytes.{Bytes, beq}
use ros2_rust.Parameter.Utf8.{to_cstr}
use ros2_rust.Parameter.Value.{ParameterValue}
use ros2_rust.Parameter.Rmw.{RclVariant, from_rcl_variant}
use ros2_rust.Parameter.Storage.{ParameterMap}
use ros2_rust.Parameter.Declare.{ParameterInterface}
use ros2_rust.Parameter.Overrides.{
  RclParams, wildcard, rcl_params_iter, node_items, param_items, absolute, new_interface,
}
use ros2_rust.Parameter.Overrides.Precedence.{HasOneEach, preferred}
use ros2_rust.TimeSource.UseSimTime.{
  use_sim_time, declare_and_attach, Follows, use_sim_time-Follows,
}
use ros2_rust.Tests.Samples.{plain_text, whole_numbers}

abbrev works : Bool × ℤ → RclCall (Bool × ℤ)
works c = record { ret = pos 0; message = none; handle = c }

instance abbrev flagged : RclClock (Bool × ℤ)
flagged = record {
  init = λ kind. works (false, pos 0);
  get_now = λ moment c. elim c.0 [ true ↦ c.1 | false ↦ pos moment ];
  enable_ros_time_override = λ c. works (true, c.1);
  disable_ros_time_override = λ c. works (false, c.1);
  set_ros_time_override = λ t c. works (c.0, t);
}

abbrev IsFresh : Bool × ℤ → Type 0
IsFresh c = c ≡ (false, pos 0)

abbrev Shows : ℤ → Bool × ℤ → Type 0
Shows t c = c ≡ (true, t)

documented : IsDocumented flagged IsFresh Shows
unfolding to_rclrs_result
documented = record {
  makes = λ kind. refl;
  fresh = refl;
  enables = λ c h. refl;
  shows_zero = λ c h. rw h (refl);
  disables = λ t c h. refl;
  overrides = λ t n c h. refl;
  shows = λ t n c h. rw h (refl);
  reads = λ t c moment h. ap (λ (d : Bool × ℤ). flagged.get_now moment d) h;
}

abbrev calls : NodeCalls
calls = record { lives = λ n. true; create_subscription = λ n. ok 5 }

calls-Works : Works calls 1
calls-Works = (refl, 5, refl)

-- One message, before the second switch.
abbrev events : List Event
events = receives (record { sec = pos 3; nanosec = 9 }) ∷ switches false ∷ switches true ∷ []

now-simulate_example :
    (ts : TimeSource) × (heap' : List (Bool × ℤ)) × (simulate calls 1 true events []
      ≡ returns (ts, heap'))
    × (now 77 ts.clock heap'
        ≡ returns (record { nsec = or_zero (last_time none events); clock = ts.clock.rcl_clock }))
now-simulate_example = now-simulate documented calls 1 calls-Works true events [] 77 refl

kind-simulate_example :
    (ts : TimeSource) × (heap' : List (Bool × ℤ)) × (simulate calls 1 true events []
      ≡ returns (ts, heap'))
    × (is_ros_time ts.clock.kind ≡ true)
    × (is_some ts.clock_source ≡ true)
    × (is_some ts.clock_subscription ≡ true)
kind-simulate_example = kind-simulate documented calls 1 calls-Works true events []

-- "use_sim_time" is true for "/**".
abbrev sim_value : RclVariant ℕ
sim_value = record {
  bool_value = some true;
  integer_value = none;
  double_value = none;
  string_value = none;
  byte_array_value = none;
  bool_array_value = none;
  integer_array_value = none;
  double_array_value = none;
  string_array_value = none;
}

abbrev command_line : Option (RclParams ℕ)
command_line = some (record {
  node_names = wildcard ∷ [];
  params = record { parameter_names = use_sim_time ∷ []; parameter_values = sim_value ∷ [] } ∷ [];
})

abbrev parsed : Option (RclParams ℕ) → RclCall (Option (RclParams ℕ))
parsed params = record { ret = pos 0; message = none; handle = params }

abbrev node_name : Bytes
node_name = 47 ∷ 110 ∷ []

parsed-checked : (params : Option (RclParams ℕ)) → checked (parsed params) ≡ returns params
unfolding to_rclrs_result
parsed-checked params = refl

no-HasOneEach : HasOneEach {F = ℕ} node_name none
unfolding rcl_params_iter
no-HasOneEach = tt

sim-HasOneEach : HasOneEach node_name command_line
unfolding rcl_params_iter node_items param_items absolute beq to_cstr
sim-HasOneEach = (refl, tt)

sim_preferred : preferred node_name none command_line use_sim_time ≡ some sim_value
unfolding rcl_params_iter node_items param_items absolute beq to_cstr
sim_preferred = refl

sim_converted : from_rcl_variant {E = RclrsError} sim_value ≡ returns (ParameterValue.bool true)
unfolding from_rcl_variant
sim_converted = refl

use_sim_time-Follows_example :
    (i : ParameterInterface ℕ) × (new : TimeSource × List (Bool × ℤ)) × (state : TimeSource
      × List (Bool × ℤ))
    × (m : ParameterMap ℕ) × (new_interface node_name (parsed none) (parsed command_line)
        ≡ returns i)
    × (build ClockType.ros_time [] ≡ returns new)
    × (declare_and_attach calls 1 i new.0 new.1 ≡ returns (state.0, m, state.1))
    × Follows documented 1 true ClockType.ros_time state
use_sim_time-Follows_example =
    use_sim_time-Follows documented calls 1 calls-Works node_name (parsed none)
      (parsed command_line) none command_line sim_value true ClockType.ros_time []
      (parsed-checked none) (parsed-checked command_line) no-HasOneEach sim-HasOneEach sim_preferred
      sim_converted
