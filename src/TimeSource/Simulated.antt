-- ===== src/TimeSource/Simulated.antt =====
-- A time source of rclrs/src/time_source.rs over time: what the clock of a node shows after any
-- sequence of switches and `/clock` messages.
use ros2_rust.Prelude.{
  ℕ, ◌≡◌, refl, Bool, true, false, Option, none, some, List, [], ◌∷◌, ◌++◌, length, subst, Outcome,
  returns, ◌>>=◌,
}
use ros2_rust.Prelude.Int.{ℤ}
use ros2_rust.Parameter.Utf8.{Utf8}
use ros2_rust.Time.{TimeMsg, clock_nanoseconds}
use ros2_rust.Clock.{ClockType, is_ros_time, RclClock, now, system}
use ros2_rust.Clock.Laws.{IsDocumented, now_lem, make_lem}
use ros2_rust.TimeSource.{
  TimeSource, NodeCalls, build, initial_clock, set_sim_time, on_clock, attach_node,
}
use ros2_rust.TimeSource.Steps.{
  IsAttached, Works, Gives, free_source, or_zero, set_sim_time-Gives, on_clock-Gives,
}

-- A switch of simulated time, or a `/clock` message.
pub data Event : Type 0 where
  switches : Bool → Event
  receives : TimeMsg → Event

-- The last switch, from this one on, and the time of the last message, from this one on.
abbrev pub last_switch : Bool → List Event → Bool
last_switch simulated [] = simulated
last_switch simulated (switches enable ∷ es) = last_switch enable es
last_switch simulated (receives msg ∷ es) = last_switch simulated es

abbrev pub last_time : Option ℤ → List Event → Option ℤ
last_time last [] = last
last_time last (switches enable ∷ es) = last_time last es
last_time last (receives msg ∷ es) = last_time (some (clock_nanoseconds msg)) es

abbrev pub is_some : {A : Type 0} → Option A → Bool
is_some none = false
is_some (some a) = true

module _ {C : Type 0} ⦃rcl : RclClock C⦄ ⦃u : Utf8⦄ where
  abbrev pub handle : NodeCalls → Event → TimeSource × List C → Outcome ⊥ (TimeSource × List C)
  handle calls (switches enable) (ts, heap) = set_sim_time calls enable ts heap
  handle calls (receives msg) (ts, heap) = on_clock msg ts heap

  abbrev pub run : NodeCalls → List Event → TimeSource × List C → Outcome ⊥ (TimeSource × List C)
  run calls [] state = returns state
  run calls (e ∷ es) state = handle calls e state >>= run calls es

  -- A node makes its time source for ROS time, attaches itself, and then there are these events.
  abbrev pub simulate : NodeCalls → ℕ → Bool → List Event → List C → Outcome ⊥ (TimeSource × List C)
  simulate calls node use_sim_time events heap = do
    (ts, heap1) ← build ClockType.ros_time heap
    state ← attach_node calls node use_sim_time ts heap1
    run calls events state

  module _ {IsFresh : C → Type 0} {Shows : ℤ → C → Type 0} (doc : IsDocumented rcl IsFresh Shows)
      (calls : NodeCalls) (node : ℕ) (w : Works calls node) where
    run-Gives :
        (events : List Event) (simulated : Bool) (last : Option ℤ) (state : TimeSource × List C)
        → IsAttached doc node simulated last state
        → Gives doc node
            (last_switch simulated events)
            (last_time last events)
            (run calls events state)
    run-Gives [] simulated last state a = (state, refl, a)
    run-Gives (switches enable ∷ es) simulated last state a =
        let (state', done, a') =
          set_sim_time-Gives doc calls node enable simulated last state w a in
        rw done (run-Gives es enable last state' a')
    run-Gives (receives msg ∷ es) simulated last state a =
        let (state', done, a') = on_clock-Gives doc msg node simulated last state a in
        rw done (run-Gives es simulated (some (clock_nanoseconds msg)) state' a')

    marked :
        (simulated param : Bool) (last : Option ℤ) (state : TimeSource × List C)
        → IsAttached doc node simulated last state
        → IsAttached doc node simulated last (record state.0 { use_sim_time = some param }, state.1)
    marked false param last (ts, heap) (address, sim, e) = rw e ((address, some param, refl))
    marked true param last (ts, heap) (address, sub, sim, e, o) =
        rw e ((address, sub, some param, refl, o))

    pub attach-Gives :
        (param : Bool) (address : ℕ) (heap : List C)
        → Gives doc node param none
            (attach_node calls node param (free_source none address none none) heap)
    unfolding attach_node
    attach-Gives param address heap =
        let (state, done, a) =
          set_sim_time-Gives doc calls node param false none
            (free_source (some node) address none none, heap) w (address, none, refl) in
        rw done (
          (
            (record state.0 { use_sim_time = some param }, state.1),
            refl,
            marked param param none state a,
          ))

    pub simulate-Gives :
        (param : Bool) (events : List Event) (heap : List C)
        → Gives doc node
            (last_switch param events)
            (last_time none events)
            (simulate calls node param events heap)
    unfolding build initial_clock system
    simulate-Gives param events heap =
        let h1 : List C = heap ++ (rcl.init ClockType.system_time).handle ∷ [] in
        let (state, done, a) = attach-Gives param (length heap) h1 in
        rw (make_lem ClockType.system_time heap (doc.makes ClockType.system_time), done)
          (run-Gives events param none state a)

    shown :
        (moment : ℕ) (last : Option ℤ) (state : TimeSource × List C)
        → IsAttached doc node true last state
        → now moment state.0.clock state.1
          ≡ returns (record { nsec = or_zero last; clock = state.0.clock.rcl_clock })
    shown moment last (ts, heap) (address, sub, sim, e, o) =
        rw e (now_lem doc (or_zero last) moment address ClockType.ros_time heap o)

    kinds :
        (simulated : Bool) (last : Option ℤ) (state : TimeSource × List C)
        → IsAttached doc node simulated last state
        → (is_ros_time state.0.clock.kind ≡ simulated)
          × (is_some state.0.clock_source ≡ simulated)
          × (is_some state.0.clock_subscription ≡ simulated)
    kinds false last (ts, heap) (address, sim, e) = rw e ((refl, refl, refl))
    kinds true last (ts, heap) (address, sub, sim, e, o) = rw e ((refl, refl, refl))

    -- Where `rcl` behaves as documented, the node lives and its subscription can be created: a time
    -- source for ROS time is made and attached, and goes through any sequence of switches of
    -- simulated time and `/clock` messages, without a panic. After it, if the last switch is on (the
    -- attachment counts as the first), the node's clock shows, at every moment, the time of the last
    -- message, also of one from before the switch, and 0 if there was none.
    pub now-simulate :
        (param : Bool) (events : List Event) (heap : List C) (moment : ℕ)
        → last_switch param events ≡ true
        → (ts : TimeSource) × (heap' : List C) × (simulate calls node param events heap
            ≡ returns (ts, heap'))
          × (now moment ts.clock heap'
              ≡ returns
                  (record { nsec = or_zero (last_time none events); clock = ts.clock.rcl_clock }))
    now-simulate param events heap moment on =
        let (state, done, a) = simulate-Gives param events heap in
        (
          state.0,
          state.1,
          done,
          shown moment (last_time none events) state
              (subst (λ b. IsAttached doc node b (last_time none events) state) on a),
        )

    -- Where `rcl` behaves as documented, the node lives and its subscription can be created: a time
    -- source for ROS time that is made, attached, and goes through any sequence of switches and
    -- `/clock` messages has a clock of ROS time, a clock source and a subscription if the last switch
    -- is on (the attachment counts as the first), and else a clock of another type and neither.
    pub kind-simulate :
        (param : Bool) (events : List Event) (heap : List C)
        → (ts : TimeSource) × (heap' : List C) × (simulate calls node param events heap
            ≡ returns (ts, heap'))
          × (is_ros_time ts.clock.kind ≡ last_switch param events)
          × (is_some ts.clock_source ≡ last_switch param events)
          × (is_some ts.clock_subscription ≡ last_switch param events)
    kind-simulate param events heap =
        let (state, done, a) = simulate-Gives param events heap in
        let (k, c, s) = kinds (last_switch param events) (last_time none events) state a in
        (state.0, state.1, done, k, c, s)
