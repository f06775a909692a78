-- ===== src/TimeSource/Steps.antt =====
-- What each operation of rclrs/src/time_source.rs makes of a time source for ROS time, on a `rcl`
-- that behaves as it documents.
use ros2_rust.Prelude.{
  ℕ, ◌≡◌, ◌∙◌, refl, Bool, true, false, Option, none, some, List, [], ◌∷◌, ◌++◌, length, Outcome,
  returns, ok, get_elem?, get_elem?-append_left, lt_of_get_elem?,
}
use ros2_rust.Prelude.Int.{ℤ, pos}
use ros2_rust.Parameter.Utf8.{Utf8}
use ros2_rust.Time.{TimeMsg, clock_nanoseconds}
use ros2_rust.Clock.{ClockType, RclClock, system}
use ros2_rust.Clock.Laws.{
  IsDocumented, IsOverridden, make_lem, with_source_lem, override_time_lem, drop_source_lem,
}
use ros2_rust.TimeSource.{
  TimeSource, NodeCalls, create_clock_sub, catch_up, enable_sim_time, disable_sim_time,
  set_sim_time, on_clock,
}

-- A time source on system time, and one whose clock its own source drives.
abbrev pub free_source : Option ℕ → ℕ → Option ℤ → Option Bool → TimeSource
free_source node address last sim = record {
  node = node;
  clock = record { kind = ClockType.system_time; rcl_clock = address };
  clock_source = none;
  requested_clock_type = ClockType.ros_time;
  clock_subscription = none;
  last_received_time = last;
  use_sim_time = sim;
}

abbrev pub driven_source : Option ℕ → ℕ → ℕ → Option ℤ → Option Bool → TimeSource
driven_source node address subscription last sim = record {
  node = node;
  clock = record { kind = ClockType.ros_time; rcl_clock = address };
  clock_source = some (record { rcl_clock = address });
  requested_clock_type = ClockType.ros_time;
  clock_subscription = some subscription;
  last_received_time = last;
  use_sim_time = sim;
}

abbrev pub or_zero : Option ℤ → ℤ
or_zero none = pos 0
or_zero (some t) = t

-- The node lives, and its `/clock` subscription can be created.
abbrev pub Works : NodeCalls → ℕ → Type 0
Works calls node =
    (calls.lives node ≡ true)
    × (subscription : ℕ) × (calls.create_subscription node ≡ ok subscription)

module _ {C : Type 0} ⦃rcl : RclClock C⦄ ⦃u : Utf8⦄ {IsFresh : C → Type 0} {Shows : ℤ → C → Type 0}
    (doc : IsDocumented rcl IsFresh Shows) where
  -- The time source of a node, with or without simulated time, and the last time received: its clock
  -- is driven, shows this time, and there is a subscription, if and only if time is simulated.
  abbrev pub IsAttached : ℕ → Bool → Option ℤ → TimeSource × List C → Type 0
  IsAttached node false last (ts, heap) =
      (address : ℕ) × (sim : Option Bool) × (ts ≡ free_source (some node) address last sim)
  IsAttached node true last (ts, heap) =
      (address : ℕ) × (subscription : ℕ) × (sim : Option Bool) × (ts
        ≡ driven_source (some node) address subscription last sim)
      × IsOverridden doc (or_zero last) address heap

  abbrev pub Gives : ℕ → Bool → Option ℤ → Outcome ⊥ (TimeSource × List C) → Type 0
  Gives node simulated last out =
      (state : TimeSource × List C) × (out ≡ returns state) × IsAttached node simulated last state

  catch_up_lem :
      (last : Option ℤ) (address : ℕ) (heap : List C)
      → IsOverridden doc (pos 0) address heap
      → (heap' : List C) × (catch_up last (record { rcl_clock = address }) heap ≡ returns heap')
        × IsOverridden doc (or_zero last) address heap'
  catch_up_lem none address heap o = (heap, refl, o)
  catch_up_lem (some t) address heap o = override_time_lem doc (pos 0) t address heap o

  create_clock_sub_lem :
      (calls : NodeCalls) (node address : ℕ) (last : Option ℤ) (sim : Option Bool)
      (w : Works calls node)
      → create_clock_sub calls (free_source (some node) address last sim) ≡ returns w.1
  unfolding create_clock_sub
  create_clock_sub_lem calls node address last sim (l, sub, c) = rw (l, c) (refl)

  enable-Gives :
      (calls : NodeCalls) (node address : ℕ) (last : Option ℤ) (sim : Option Bool) (heap : List C)
      → Works calls node
      → Gives node true last (enable_sim_time calls (free_source (some node) address last sim) heap)
  unfolding enable_sim_time
  enable-Gives calls node address last sim heap w =
      let (heap1, made, o) = with_source_lem doc heap in
      let (heap2, caught, o') = catch_up_lem last (length heap) heap1 o in
      (
        (driven_source (some node) (length heap) w.1 last sim, heap2),
        rw (made, caught, create_clock_sub_lem calls node address last sim w) (refl),
        (length heap, w.1, sim, refl, o'),
      )

  disable-Gives :
      (node address subscription : ℕ) (last : Option ℤ) (sim : Option Bool) (heap : List C) (t : ℤ)
      → IsOverridden doc t address heap
      → Gives node false last
          (disable_sim_time (driven_source (some node) address subscription last sim) heap)
  unfolding disable_sim_time system
  disable-Gives node address subscription last sim heap t (c, at, shows) =
      let c' = (rcl.init ClockType.system_time).handle in
      let at' : get_elem? (heap ++ c' ∷ []) address ≡ some c =
        get_elem?-append_left heap (c' ∷ []) address (lt_of_get_elem? heap address at) ∙ at in
      let (heap2, dropped) = drop_source_lem doc t address (heap ++ c' ∷ []) (c, at', shows) in
      (
        (free_source (some node) (length heap) last sim, heap2),
        rw (make_lem ClockType.system_time heap (doc.makes ClockType.system_time), dropped) (refl),
        (length heap, sim, refl),
      )

  -- Switching simulated time on or off in a node that lives and can create the subscription returns,
  -- and gives a time source of that kind, whatever it was, with the last time received as it was.
  pub set_sim_time-Gives :
      (calls : NodeCalls) (node : ℕ) (enable simulated : Bool) (last : Option ℤ)
      (state : TimeSource × List C)
      → Works calls node
      → IsAttached node simulated last state
      → Gives node enable last (set_sim_time calls enable state.0 state.1)
  unfolding set_sim_time
  set_sim_time-Gives calls node true false last (ts, heap) w (address, sim, e) =
      let (state, done, attached) = enable-Gives calls node address last sim heap w in
      rw (e, done) ((state, refl, attached))
  set_sim_time-Gives calls node false false last (ts, heap) w (address, sim, e) =
      rw e (((free_source (some node) address last sim, heap), refl, (address, sim, refl)))
  set_sim_time-Gives calls node true true last (ts, heap) w (address, sub, sim, e, o) =
      rw e (
        (
          (driven_source (some node) address sub last sim, heap),
          refl,
          (address, sub, sim, refl, o),
        ))
  set_sim_time-Gives calls node false true last (ts, heap) w (address, sub, sim, e, o) =
      rw e (disable-Gives node address sub last sim heap (or_zero last) o)

  -- The callback for a `/clock` message returns, and gives a time source of the same kind, with the
  -- message's time as the last one received.
  pub on_clock-Gives :
      (msg : TimeMsg) (node : ℕ) (simulated : Bool) (last : Option ℤ) (state : TimeSource × List C)
      → IsAttached node simulated last state
      → Gives node simulated (some (clock_nanoseconds msg)) (on_clock msg state.0 state.1)
  unfolding on_clock
  on_clock-Gives msg node false last (ts, heap) (address, sim, e) = rw e (
      (
        (free_source (some node) address (some (clock_nanoseconds msg)) sim, heap),
        refl,
        (address, sim, refl),
      ))
  on_clock-Gives msg node true last (ts, heap) (address, sub, sim, e, o) =
      let (heap', done, o') =
        override_time_lem doc (or_zero last) (clock_nanoseconds msg) address heap o in
      rw (e, done)
        ((
          (driven_source (some node) address sub (some (clock_nanoseconds msg)) sim, heap'),
          refl,
          (address, sub, sim, refl, o'),
        ))
