-- ===== src/Clock/Laws.antt =====
-- A clock of rclrs/src/clock.rs and its source, on a `rcl` that behaves as it documents.
use ros2_rust.Prelude.{
  ℕ, ◌≡◌, refl, some, List, [], ◌∷◌, ◌++◌, length, get_elem?, set, returns, ok,
  get_elem?-append_last, get_elem?-set_self, lt_of_get_elem?,
}
use ros2_rust.Prelude.Int.{ℤ, pos}
use ros2_rust.Parameter.Utf8.{Utf8}
use ros2_rust.ReturnCode.{RclCall, to_rclrs_result}
use ros2_rust.Clock.{
  ClockType, RclClock, must_succeed, with_clock, make, set_ros_time_enable, override_time,
  new_source, drop_source, with_source, now,
}

abbrev pub Succeeds : {R : Type 0} ⦃u : Utf8⦄ → RclCall R → Type 0
Succeeds call = (to_rclrs_result call.ret call.message).0 ≡ ok tt

module _ {C : Type 0} where
  -- What `rcl` documents: making a clock and the calls on a clock of ROS time succeed; overriding the
  -- time is enabled with time 0, and sets the time that is then read at any moment.
  pub record IsDocumented (rcl : RclClock C) ⦃u : Utf8⦄ (IsFresh : C → Type 0)
      (Shows : ℤ → C → Type 0) : Type 0 where
    pub makes : (kind : ClockType) → Succeeds (rcl.init kind)
    pub fresh : IsFresh (rcl.init ClockType.ros_time).handle
    pub enables : (c : C) → IsFresh c → Succeeds (rcl.enable_ros_time_override c)
    pub shows_zero : (c : C) → IsFresh c → Shows (pos 0) (rcl.enable_ros_time_override c).handle
    pub disables : (t : ℤ) (c : C) → Shows t c → Succeeds (rcl.disable_ros_time_override c)
    pub overrides : (t n : ℤ) (c : C) → Shows t c → Succeeds (rcl.set_ros_time_override n c)
    pub shows : (t n : ℤ) (c : C) → Shows t c → Shows n (rcl.set_ros_time_override n c).handle
    pub reads : (t : ℤ) (c : C) (moment : ℕ) → Shows t c → rcl.get_now moment c ≡ t

module _ {C : Type 0} ⦃rcl : RclClock C⦄ ⦃u : Utf8⦄ where
  must_succeed_lem : (call : RclCall C) → Succeeds call → must_succeed call ≡ returns call.handle
  must_succeed_lem call h = rw h (refl)

  pub with_clock_lem :
      (f : C → RclCall C) (address : ℕ) (heap : List C) (c : C)
      → get_elem? heap address ≡ some c
      → Succeeds (f c)
      → with_clock f address heap ≡ returns (set heap address (f c).handle)
  unfolding with_clock
  with_clock_lem f address heap c e h = rw (e, must_succeed_lem (f c) h) (refl)

  pub make_lem :
      (kind : ClockType) (heap : List C)
      → Succeeds (rcl.init kind)
      → make kind heap
        ≡ returns
            (record { kind = kind; rcl_clock = length heap }, heap ++ (rcl.init kind).handle ∷ [])
  unfolding make
  make_lem kind heap h = rw (must_succeed_lem (rcl.init kind) h) (refl)

  module _ {IsFresh : C → Type 0} {Shows : ℤ → C → Type 0}
      (doc : IsDocumented rcl IsFresh Shows) where
    -- The clock at an address is of ROS time, overridden with a time.
    abbrev pub IsOverridden : ℤ → ℕ → List C → Type 0
    IsOverridden t address heap = (c : C) × (get_elem? heap address ≡ some c) × Shows t c

    pub with_source_lem :
        (heap : List C)
        → (heap' : List C) × (with_source heap
            ≡ returns (
              record { kind = ClockType.ros_time; rcl_clock = length heap },
              record { rcl_clock = length heap },
              heap',
            ))
          × IsOverridden (pos 0) (length heap) heap'
    unfolding with_source new_source set_ros_time_enable
    with_source_lem heap =
        let c = (rcl.init ClockType.ros_time).handle in
        let at : get_elem? (heap ++ c ∷ []) (length heap) ≡ some c = get_elem?-append_last heap c in
        (
          set (heap ++ c ∷ []) (length heap) (rcl.enable_ros_time_override c).handle,
          rw
              (
                make_lem ClockType.ros_time heap (doc.makes ClockType.ros_time),
                with_clock_lem rcl.enable_ros_time_override (length heap) (heap ++ c ∷ []) c at
                    (doc.enables c doc.fresh),
              )
              (refl),
          (
            (rcl.enable_ros_time_override c).handle,
            get_elem?-set_self (heap ++ c ∷ []) (length heap) _ (lt_of_get_elem? _ _ at),
            doc.shows_zero c doc.fresh,
          ),
        )

    pub override_time_lem :
        (t n : ℤ) (address : ℕ) (heap : List C)
        → IsOverridden t address heap
        → (heap' : List C) × (override_time (record { rcl_clock = address }) n heap ≡ returns heap')
          × IsOverridden n address heap'
    unfolding override_time
    override_time_lem t n address heap (c, e, s) = (
      set heap address (rcl.set_ros_time_override n c).handle,
      with_clock_lem (rcl.set_ros_time_override n) address heap c e (doc.overrides t n c s),
      (
        (rcl.set_ros_time_override n c).handle,
        get_elem?-set_self heap address _ (lt_of_get_elem? heap address e),
        doc.shows t n c s,
      ),
    )

    pub drop_source_lem :
        (t : ℤ) (address : ℕ) (heap : List C)
        → IsOverridden t address heap
        → (heap' : List C) × (drop_source (record { rcl_clock = address }) heap ≡ returns heap')
    unfolding drop_source set_ros_time_enable
    drop_source_lem t address heap (c, e, s) = (
      set heap address (rcl.disable_ros_time_override c).handle,
      with_clock_lem rcl.disable_ros_time_override address heap c e (doc.disables t c s),
    )

    pub now_lem :
        (t : ℤ) (moment address : ℕ) (kind : ClockType) (heap : List C)
        → IsOverridden t address heap
        → now moment (record { kind = kind; rcl_clock = address }) heap
          ≡ returns (record { nsec = t; clock = address })
    unfolding now
    now_lem t moment address kind heap (c, e, s) = rw (e, doc.reads t c moment s) (refl)
