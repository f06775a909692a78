-- ===== src/Clock.antt =====
-- rclrs/src/clock.rs. An `rcl_clock_t` is in a heap, and a clock and its sources share it by its
-- address; what `rcl` does with it is an argument. A clock is never removed from the heap.
pub mod Laws
use ros2_rust.Prelude.{
  ℕ, ◌≡◌, Bool, true, false, Option, none, some, List, [], ◌∷◌, ◌++◌, length, get_elem?, set,
  Outcome, returns, panics, ◌>>=◌, unwrap, Result, ok, err, if◌then◌else◌,
}
use ros2_rust.Prelude.Int.{ℤ}
use ros2_rust.Parameter.Utf8.{Utf8}
use ros2_rust.ReturnCode.{RclCall, RclrsError, to_rclrs_result}
use ros2_rust.Time.{Time}

pub data ClockType : Type 0 where
  ros_time system_time steady_time : ClockType

-- `matches!(kind, ClockType::RosTime)` and `matches!(kind, ClockType::SystemTime)`
abbrev pub is_ros_time : ClockType → Bool
is_ros_time ClockType.ros_time = true
is_ros_time ClockType.system_time = false
is_ros_time ClockType.steady_time = false

abbrev pub is_system_time : ClockType → Bool
is_system_time ClockType.ros_time = false
is_system_time ClockType.system_time = true
is_system_time ClockType.steady_time = false

-- What the code of `rcl` does with its clock `C`; a time is read at a moment.
pub record RclClock (C : Type 0) : Type 0 where
  pub init : ClockType → RclCall C
  pub get_now : ℕ → C → ℤ
  pub enable_ros_time_override : C → RclCall C
  pub disable_ros_time_override : C → RclCall C
  pub set_ros_time_override : ℤ → C → RclCall C

pub record Clock : Type 0 where
  pub kind : ClockType
  pub rcl_clock : ℕ

pub record ClockSource : Type 0 where
  pub rcl_clock : ℕ

-- `.unwrap()` on a `Result`
abbrev pub expect : {A : Type 0} → Result RclrsError A → Outcome ⊥ A
expect (ok a) = returns a
expect (err error) = panics

-- `.ok().unwrap()`, and then what the call gave back
abbrev pub must_succeed : {A : Type 0} → ⦃u : Utf8⦄ → RclCall A → Outcome ⊥ A
must_succeed call = expect (to_rclrs_result call.ret call.message).0 >>= λ _. returns call.handle

module _ {C : Type 0} ⦃rcl : RclClock C⦄ ⦃u : Utf8⦄ where
  -- a call on the clock behind the lock
  unfoldable pub with_clock : (C → RclCall C) → ℕ → List C → Outcome ⊥ (List C)
  with_clock f address heap = do
    c ← unwrap (get_elem? heap address)
    c' ← must_succeed (f c)
    returns (set heap address c')

  unfoldable pub make : ClockType → List C → Outcome ⊥ (Clock × List C)
  make kind heap = do
    c ← must_succeed (rcl.init kind)
    returns (record { kind = kind; rcl_clock = length heap }, heap ++ c ∷ [])

  -- `Clock::system` and `Clock::steady`
  unfoldable pub system : List C → Outcome ⊥ (Clock × List C)
  unfolding make
  system heap = make ClockType.system_time heap

  unfoldable pub steady : List C → Outcome ⊥ (Clock × List C)
  unfolding make
  steady heap = make ClockType.steady_time heap

  -- `ClockSource::set_ros_time_enable`
  unfoldable pub set_ros_time_enable : ClockSource → Bool → List C → Outcome ⊥ (List C)
  unfolding with_clock
  set_ros_time_enable source true heap =
      with_clock rcl.enable_ros_time_override source.rcl_clock heap
  set_ros_time_enable source false heap =
      with_clock rcl.disable_ros_time_override source.rcl_clock heap

  -- `ClockSource::set_ros_time_override`
  unfoldable pub override_time : ClockSource → ℤ → List C → Outcome ⊥ (List C)
  unfolding with_clock
  override_time source nanoseconds heap =
      with_clock (rcl.set_ros_time_override nanoseconds) source.rcl_clock heap

  -- `ClockSource::new`
  unfoldable pub new_source : ℕ → List C → Outcome ⊥ (ClockSource × List C)
  unfolding set_ros_time_enable
  new_source rcl_clock heap = do
    heap' ← set_ros_time_enable (record { rcl_clock = rcl_clock }) true heap
    returns (record { rcl_clock = rcl_clock }, heap')

  -- `Drop for ClockSource`
  unfoldable pub drop_source : ClockSource → List C → Outcome ⊥ (List C)
  unfolding set_ros_time_enable
  drop_source source heap = set_ros_time_enable source false heap

  unfoldable pub with_source : List C → Outcome ⊥ (Clock × ClockSource × List C)
  unfolding make new_source
  with_source heap = do
    (clock, heap') ← make ClockType.ros_time heap
    (source, heap'') ← new_source clock.rcl_clock heap'
    returns (clock, source, heap'')

  -- `Clock::new`
  unfoldable pub new_clock : ClockType → List C → Outcome ⊥ (Clock × Option ClockSource × List C)
  unfolding make new_source
  new_clock kind heap = do
    (clock, heap') ← make kind heap
    if is_ros_time kind
        then (do
          (source, heap'') ← new_source clock.rcl_clock heap'
          returns (clock, some source, heap''))
        else returns (clock, none, heap')

  unfoldable pub now : ℕ → Clock → List C → Outcome ⊥ Time
  now moment clock heap = do
    c ← unwrap (get_elem? heap clock.rcl_clock)
    returns (record { nsec = rcl.get_now moment c; clock = clock.rcl_clock })
