-- ===== src/Qos/Profiles.antt =====
-- What `rmw` is told by the profiles of rclrs/src/qos.rs, and which it can tell apart.
use ros2_rust.Prelude.{ℕ, ◌<◌, ◌≡◌, ◌≢◌, ◌↔◌, refl, ap, sym, arith}
use ros2_rust.Qos.{
  QosHistoryPolicy, QosReliabilityPolicy, QosDurabilityPolicy, QosLivelinessPolicy, QosDuration,
  QosProfile, RmwTime, to_rmw_time, RmwPolicies, RmwQosProfile, to_rmw_history, depth_of,
  to_rmw_reliability, to_rmw_durability, to_rmw_liveliness, to_rmw_profile,
}
use ros2_rust.Qos.Durations.{
  meaning, read_duration, read_duration-to_rmw_time, nsec-lt, to_rmw_time_iff,
}

-- The profiles differ at most in how they write their durations.
abbrev pub SameProfile : QosProfile → QosProfile → Type 0
SameProfile p q =
    (p.history ≡ q.history)
    × (p.reliability ≡ q.reliability)
    × (p.durability ≡ q.durability)
    × (meaning p.deadline ≡ meaning q.deadline)
    × (meaning p.lifespan ≡ meaning q.lifespan)
    × (p.liveliness ≡ q.liveliness)
    × (meaning p.liveliness_lease_duration ≡ meaning q.liveliness_lease_duration)
    × (p.avoid_ros_namespace_conventions ≡ q.avoid_ros_namespace_conventions)

module _ {R : Type 0} where
  -- The constants of `rmw` for one kind of policy differ.
  pub record IsDistinct (rmw : RmwPolicies R) : Type 0 where
    pub default_last : rmw.history_system_default ≢ rmw.history_keep_last
    pub default_all : rmw.history_system_default ≢ rmw.history_keep_all
    pub last_all : rmw.history_keep_last ≢ rmw.history_keep_all
    pub default_reliable : rmw.reliability_system_default ≢ rmw.reliability_reliable
    pub default_best : rmw.reliability_system_default ≢ rmw.reliability_best_effort
    pub reliable_best : rmw.reliability_reliable ≢ rmw.reliability_best_effort
    pub default_transient : rmw.durability_system_default ≢ rmw.durability_transient_local
    pub default_volatile : rmw.durability_system_default ≢ rmw.durability_volatile
    pub transient_volatile : rmw.durability_transient_local ≢ rmw.durability_volatile
    pub default_automatic : rmw.liveliness_system_default ≢ rmw.liveliness_automatic
    pub default_manual : rmw.liveliness_system_default ≢ rmw.liveliness_manual_by_topic
    pub automatic_manual : rmw.liveliness_automatic ≢ rmw.liveliness_manual_by_topic

module _ {R : Type 0} where
  -- What each policy of `rmw` says: it is one of the constants exactly for the policy of this name.
  abbrev pub SaysHistory : RmwPolicies R → QosHistoryPolicy → R → ℕ → Type 0
  SaysHistory rmw policy r depth =
      ((n : ℕ)
        → ((r ≡ rmw.history_system_default) × (depth ≡ n)
            ↔ (policy ≡ QosHistoryPolicy.system_default n)))
      × ((n : ℕ)
          → ((r ≡ rmw.history_keep_last) × (depth ≡ n) ↔ (policy ≡ QosHistoryPolicy.keep_last n)))
      × ((r ≡ rmw.history_keep_all) ↔ (policy ≡ QosHistoryPolicy.keep_all))

  abbrev pub SaysReliability : RmwPolicies R → QosReliabilityPolicy → R → Type 0
  SaysReliability rmw policy r =
      ((r ≡ rmw.reliability_system_default) ↔ (policy ≡ QosReliabilityPolicy.system_default))
      × ((r ≡ rmw.reliability_reliable) ↔ (policy ≡ QosReliabilityPolicy.reliable))
      × ((r ≡ rmw.reliability_best_effort) ↔ (policy ≡ QosReliabilityPolicy.best_effort))

  abbrev pub SaysDurability : RmwPolicies R → QosDurabilityPolicy → R → Type 0
  SaysDurability rmw policy r =
      ((r ≡ rmw.durability_system_default) ↔ (policy ≡ QosDurabilityPolicy.system_default))
      × ((r ≡ rmw.durability_transient_local) ↔ (policy ≡ QosDurabilityPolicy.transient_local))
      × ((r ≡ rmw.durability_volatile) ↔ (policy ≡ QosDurabilityPolicy.volatile))

  abbrev pub SaysLiveliness : RmwPolicies R → QosLivelinessPolicy → R → Type 0
  SaysLiveliness rmw policy r =
      ((r ≡ rmw.liveliness_system_default) ↔ (policy ≡ QosLivelinessPolicy.system_default))
      × ((r ≡ rmw.liveliness_automatic) ↔ (policy ≡ QosLivelinessPolicy.automatic))
      × ((r ≡ rmw.liveliness_manual_by_topic) ↔ (policy ≡ QosLivelinessPolicy.manual_by_topic))

-- A time of `rmw` is read as the duration, and is in whole seconds and less than one more.
abbrev pub SaysDuration : QosDuration → RmwTime → Type 0
SaysDuration d t = (read_duration t ≡ meaning d) × (t.nsec < 1000000000)

-- What each field of a profile of `rmw` says of the profile that it stands for.
pub record SaysProfile {R : Type 0} (rmw : RmwPolicies R) (p : QosProfile) (r : RmwQosProfile R)
    : Type 0 where
  pub says_history : SaysHistory rmw p.history r.history r.depth
  pub says_reliability : SaysReliability rmw p.reliability r.reliability
  pub says_durability : SaysDurability rmw p.durability r.durability
  pub says_deadline : SaysDuration p.deadline r.deadline
  pub says_lifespan : SaysDuration p.lifespan r.lifespan
  pub says_liveliness : SaysLiveliness rmw p.liveliness r.liveliness
  pub says_lease : SaysDuration p.liveliness_lease_duration r.liveliness_lease_duration
  pub says_conventions : r.avoid_ros_namespace_conventions ≡ p.avoid_ros_namespace_conventions

to_rmw_time-SaysDuration : (d : QosDuration) → SaysDuration d (to_rmw_time d)
to_rmw_time-SaysDuration d = (read_duration-to_rmw_time d, nsec-lt d)

module _ {R : Type 0} (rmw : RmwPolicies R) (d : IsDistinct rmw) where
  history_injective :
      (h h' : QosHistoryPolicy)
      → to_rmw_history rmw h ≡ to_rmw_history rmw h'
      → depth_of h ≡ depth_of h'
      → h ≡ h'
  unfolding to_rmw_history depth_of
  history_injective (QosHistoryPolicy.system_default n) (QosHistoryPolicy.system_default m) e f =
      ap QosHistoryPolicy.system_default f
  history_injective (QosHistoryPolicy.system_default n) (QosHistoryPolicy.keep_last m) e f =
      absurd (d.default_last e)
  history_injective (QosHistoryPolicy.system_default n) QosHistoryPolicy.keep_all e f =
      absurd (d.default_all e)
  history_injective (QosHistoryPolicy.keep_last n) (QosHistoryPolicy.system_default m) e f =
      absurd (d.default_last (sym e))
  history_injective (QosHistoryPolicy.keep_last n) (QosHistoryPolicy.keep_last m) e f =
      ap QosHistoryPolicy.keep_last f
  history_injective (QosHistoryPolicy.keep_last n) QosHistoryPolicy.keep_all e f =
      absurd (d.last_all e)
  history_injective QosHistoryPolicy.keep_all (QosHistoryPolicy.system_default m) e f =
      absurd (d.default_all (sym e))
  history_injective QosHistoryPolicy.keep_all (QosHistoryPolicy.keep_last m) e f =
      absurd (d.last_all (sym e))
  history_injective QosHistoryPolicy.keep_all QosHistoryPolicy.keep_all e f = refl

  reliability_injective :
      (r r' : QosReliabilityPolicy) → to_rmw_reliability rmw r ≡ to_rmw_reliability rmw r' → r ≡ r'
  unfolding to_rmw_reliability
  reliability_injective r r' e = ground (arith, d.default_reliable, d.default_best, d.reliable_best)

  durability_injective :
      (r r' : QosDurabilityPolicy) → to_rmw_durability rmw r ≡ to_rmw_durability rmw r' → r ≡ r'
  unfolding to_rmw_durability
  durability_injective r r' e =
      ground (arith, d.default_transient, d.default_volatile, d.transient_volatile)

  liveliness_injective :
      (r r' : QosLivelinessPolicy) → to_rmw_liveliness rmw r ≡ to_rmw_liveliness rmw r' → r ≡ r'
  unfolding to_rmw_liveliness
  liveliness_injective r r' e =
      ground (arith, d.default_automatic, d.default_manual, d.automatic_manual)

  all_kept :
      (h : QosHistoryPolicy)
      → to_rmw_history rmw h ≡ rmw.history_keep_all
      → h ≡ QosHistoryPolicy.keep_all
  unfolding to_rmw_history
  all_kept (QosHistoryPolicy.system_default n) e = absurd (d.default_all e)
  all_kept (QosHistoryPolicy.keep_last n) e = absurd (d.last_all e)
  all_kept QosHistoryPolicy.keep_all e = refl

  to_rmw_history-SaysHistory :
      (h : QosHistoryPolicy) → SaysHistory rmw h (to_rmw_history rmw h) (depth_of h)
  unfolding to_rmw_history depth_of
  to_rmw_history-SaysHistory h = (
    λ n. (
      λ (e, f). history_injective h (QosHistoryPolicy.system_default n) e f,
      λ e. rw e ((refl, refl)),
    ),
    λ n. (
      λ (e, f). history_injective h (QosHistoryPolicy.keep_last n) e f,
      λ e. rw e ((refl, refl)),
    ),
    (λ e. all_kept h e, λ e. rw e (refl)),
  )

  to_rmw_reliability-SaysReliability :
      (r : QosReliabilityPolicy) → SaysReliability rmw r (to_rmw_reliability rmw r)
  unfolding to_rmw_reliability
  to_rmw_reliability-SaysReliability r = (
    (λ e. reliability_injective r QosReliabilityPolicy.system_default e, λ e. rw e (refl)),
    (λ e. reliability_injective r QosReliabilityPolicy.reliable e, λ e. rw e (refl)),
    (λ e. reliability_injective r QosReliabilityPolicy.best_effort e, λ e. rw e (refl)),
  )

  to_rmw_durability-SaysDurability :
      (r : QosDurabilityPolicy) → SaysDurability rmw r (to_rmw_durability rmw r)
  unfolding to_rmw_durability
  to_rmw_durability-SaysDurability r = (
    (λ e. durability_injective r QosDurabilityPolicy.system_default e, λ e. rw e (refl)),
    (λ e. durability_injective r QosDurabilityPolicy.transient_local e, λ e. rw e (refl)),
    (λ e. durability_injective r QosDurabilityPolicy.volatile e, λ e. rw e (refl)),
  )

  to_rmw_liveliness-SaysLiveliness :
      (r : QosLivelinessPolicy) → SaysLiveliness rmw r (to_rmw_liveliness rmw r)
  unfolding to_rmw_liveliness
  to_rmw_liveliness-SaysLiveliness r = (
    (λ e. liveliness_injective r QosLivelinessPolicy.system_default e, λ e. rw e (refl)),
    (λ e. liveliness_injective r QosLivelinessPolicy.automatic e, λ e. rw e (refl)),
    (λ e. liveliness_injective r QosLivelinessPolicy.manual_by_topic e, λ e. rw e (refl)),
  )

  same_profile :
      (p q : QosProfile) → (to_rmw_profile rmw p ≡ to_rmw_profile rmw q) ↔ SameProfile p q
  unfolding to_rmw_profile
  same_profile p q = (
    λ h. (
      history_injective p.history q.history (ap (λ (r : RmwQosProfile R). r.history) h)
          (ap (λ (r : RmwQosProfile R). r.depth) h),
      reliability_injective p.reliability q.reliability
          (ap (λ (r : RmwQosProfile R). r.reliability) h),
      durability_injective p.durability q.durability (ap (λ (r : RmwQosProfile R). r.durability) h),
      (to_rmw_time_iff p.deadline q.deadline).0 (ap (λ (r : RmwQosProfile R). r.deadline) h),
      (to_rmw_time_iff p.lifespan q.lifespan).0 (ap (λ (r : RmwQosProfile R). r.lifespan) h),
      liveliness_injective p.liveliness q.liveliness (ap (λ (r : RmwQosProfile R). r.liveliness) h),
      (to_rmw_time_iff p.liveliness_lease_duration q.liveliness_lease_duration).0
          (ap (λ (r : RmwQosProfile R). r.liveliness_lease_duration) h),
      ap (λ (r : RmwQosProfile R). r.avoid_ros_namespace_conventions) h,
    ),
    λ (h, r, u, dl, ls, l, ll, a).
        rw
          (
            h,
            r,
            u,
            (to_rmw_time_iff p.deadline q.deadline).1 dl,
            (to_rmw_time_iff p.lifespan q.lifespan).1 ls,
            l,
            (to_rmw_time_iff p.liveliness_lease_duration q.liveliness_lease_duration).1 ll,
            a,
          )
          (refl),
  )

  -- Where the constants of `rmw` for each kind of policy differ, the profile that it is given says
  -- the same field by field: each policy is one of the constants exactly if it is the policy of that
  -- name, a history with its depth; each duration is read as the duration of the same field, where a
  -- custom one of zero is one nanosecond and the longest time of `rmw` is infinite; and the last flag
  -- is as given. Two profiles give the same exactly when they agree in all that.
  pub to_rmw_profile-SaysProfile :
      (p q : QosProfile)
      → SaysProfile rmw p (to_rmw_profile rmw p)
        × ((to_rmw_profile rmw p ≡ to_rmw_profile rmw q) ↔ SameProfile p q)
  unfolding to_rmw_profile
  to_rmw_profile-SaysProfile p q = (
    record {
      says_history = to_rmw_history-SaysHistory p.history;
      says_reliability = to_rmw_reliability-SaysReliability p.reliability;
      says_durability = to_rmw_durability-SaysDurability p.durability;
      says_deadline = to_rmw_time-SaysDuration p.deadline;
      says_lifespan = to_rmw_time-SaysDuration p.lifespan;
      says_liveliness = to_rmw_liveliness-SaysLiveliness p.liveliness;
      says_lease = to_rmw_time-SaysDuration p.liveliness_lease_duration;
      says_conventions = refl;
    },
    same_profile p q,
  )
