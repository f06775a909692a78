-- ===== src/TimeSource.antt =====
-- rclrs/src/time_source.rs: the time source of a node. Its clock, its clock source and the last time
-- received are behind locks, which the callback of its `/clock` subscription shares; a call is one
-- step, on the heap of clocks too.
pub mod Steps
pub mod Simulated
pub mod UseSimTime
use ros2_rust.Prelude.{
  ℕ, ◌≡◌, Bool, true, false, not, ◌&&◌, Option, none, some, List, [], ◌∷◌, Outcome, returns, panics,
  ◌>>=◌, unwrap, Result, ok, err, if◌then◌else◌,
}
use ros2_rust.Prelude.Int.{ℤ}
use ros2_rust.Parameter.Utf8.{Utf8}
use ros2_rust.ReturnCode.{RclrsError}
use ros2_rust.Time.{TimeMsg, clock_nanoseconds}
use ros2_rust.Clock.{
  ClockType, is_ros_time, is_system_time, RclClock, Clock, ClockSource, expect, system, steady,
  with_source, override_time, drop_source,
}

-- The node and the subscription are named by numbers. `use_sim_time` is what the parameter reads.
pub record TimeSource : Type 0 where
  pub node : Option ℕ
  pub clock : Clock
  pub clock_source : Option ClockSource
  pub requested_clock_type : ClockType
  pub clock_subscription : Option ℕ
  pub last_received_time : Option ℤ
  pub use_sim_time : Option Bool

-- What the node does: it is found through its weak pointer while it lives, and creates a
-- subscription.
pub record NodeCalls : Type 0 where
  pub lives : ℕ → Bool
  pub create_subscription : ℕ → Result RclrsError ℕ

-- `TimeSource::create_clock_sub`
unfoldable pub create_clock_sub : NodeCalls → TimeSource → Outcome ⊥ ℕ
create_clock_sub calls ts = do
  node ← unwrap ts.node
  upgraded ← if calls.lives node then returns node else panics
  expect (calls.create_subscription upgraded)

module _ {C : Type 0} ⦃rcl : RclClock C⦄ ⦃u : Utf8⦄ where
  unfoldable pub initial_clock : ClockType → List C → Outcome ⊥ (Clock × List C)
  unfolding system steady
  initial_clock ClockType.ros_time heap = system heap
  initial_clock ClockType.system_time heap = system heap
  initial_clock ClockType.steady_time heap = steady heap

  -- `TimeSourceBuilder::build`, for its clock type
  unfoldable pub build : ClockType → List C → Outcome ⊥ (TimeSource × List C)
  unfolding initial_clock
  build clock_type heap = do
    (clock, heap') ← initial_clock clock_type heap
    returns (
      record {
        node = none;
        clock = clock;
        clock_source = none;
        requested_clock_type = clock_type;
        clock_subscription = none;
        last_received_time = none;
        use_sim_time = none;
      },
      heap',
    )

  -- the override with the last time received, where there is one
  abbrev pub catch_up : Option ℤ → ClockSource → List C → Outcome ⊥ (List C)
  catch_up none source heap = returns heap
  catch_up (some last_received_time) source heap = override_time source last_received_time heap

  -- the value that an assignment to the field `clock_source` drops
  abbrev pub drop_old : Option ClockSource → List C → Outcome ⊥ (List C)
  drop_old none heap = returns heap
  drop_old (some source) heap = drop_source source heap

  unfoldable pub enable_sim_time : NodeCalls → TimeSource → List C → Outcome ⊥ (TimeSource × List C)
  unfolding with_source override_time drop_source create_clock_sub
  enable_sim_time calls ts heap = do
    (new_clock, source, heap1) ← with_source heap
    heap2 ← catch_up ts.last_received_time source heap1
    heap3 ← drop_old ts.clock_source heap2
    subscription ← create_clock_sub calls ts
    returns (
      record ts {
        clock = new_clock;
        clock_source = some source;
        clock_subscription = some subscription;
      },
      heap3,
    )

  unfoldable pub disable_sim_time : TimeSource → List C → Outcome ⊥ (TimeSource × List C)
  unfolding system drop_source
  disable_sim_time ts heap = do
    (new_clock, heap1) ← system heap
    heap2 ← drop_old ts.clock_source heap1
    returns (record ts { clock = new_clock; clock_source = none; clock_subscription = none }, heap2)

  -- `TimeSource::set_ros_time_enable`, in a block of its own where the type is ROS time
  abbrev pub switch : NodeCalls → Bool → TimeSource → List C → Outcome ⊥ (TimeSource × List C)
  switch calls enable ts heap = do
    (ts1, heap1) ←
        if enable && is_system_time ts.clock.kind
        then enable_sim_time calls ts heap
        else returns (ts, heap)
    if not enable && is_ros_time ts1.clock.kind
        then disable_sim_time ts1 heap1
        else returns (ts1, heap1)

  unfoldable pub set_sim_time :
      NodeCalls → Bool → TimeSource → List C → Outcome ⊥ (TimeSource × List C)
  unfolding enable_sim_time disable_sim_time
  set_sim_time calls enable ts heap =
      if is_ros_time ts.requested_clock_type
      then switch calls enable ts heap
      else returns (ts, heap)

  -- the callback of the subscription
  unfoldable pub on_clock : TimeMsg → TimeSource → List C → Outcome ⊥ (TimeSource × List C)
  unfolding override_time
  on_clock msg ts heap = do
    heap' ← elim ts.clock_source [
      | none ↦ returns heap
      | some source ↦ override_time source (clock_nanoseconds msg) heap
    ]
    returns (record ts { last_received_time = some (clock_nanoseconds msg) }, heap')

  -- `TimeSource::attach_node`, where the parameter `use_sim_time` is declared with this value
  unfoldable pub attach_node :
      NodeCalls → ℕ → Bool → TimeSource → List C → Outcome ⊥ (TimeSource × List C)
  unfolding set_sim_time
  attach_node calls node param ts heap = do
    (ts', heap') ← set_sim_time calls param (record ts { node = some node }) heap
    returns (record ts' { use_sim_time = some param }, heap')
