-- ===== src/Tests/QosTests.antt =====
-- The theorem on profiles, applied to two ways to write a deadline.
use ros2_rust.Prelude.{ℕ, ◌≡◌, ◌↔◌, refl, arith}
use ros2_rust.Qos.{RmwPolicies, QosDuration, qos_profile_clock, to_rmw_profile, to_rmw_time}
use ros2_rust.Qos.Setters.{set_deadline}
use ros2_rust.Qos.Profiles.{IsDistinct, SameProfile, SaysProfile, to_rmw_profile-SaysProfile}

abbrev numbered : RmwPolicies ℕ
numbered = record {
  history_system_default = 0;
  history_keep_last = 1;
  history_keep_all = 2;
  reliability_system_default = 0;
  reliability_reliable = 1;
  reliability_best_effort = 2;
  durability_system_default = 0;
  durability_transient_local = 1;
  durability_volatile = 2;
  liveliness_system_default = 0;
  liveliness_automatic = 1;
  liveliness_manual_by_topic = 3;
}

numbered-IsDistinct : IsDistinct numbered
numbered-IsDistinct = record {
  default_last = omega arith;
  default_all = omega arith;
  last_all = omega arith;
  default_reliable = omega arith;
  default_best = omega arith;
  reliable_best = omega arith;
  default_transient = omega arith;
  default_volatile = omega arith;
  transient_volatile = omega arith;
  default_automatic = omega arith;
  default_manual = omega arith;
  automatic_manual = omega arith;
}

one_millisecond : to_rmw_time (QosDuration.custom 1001000000) ≡ record { sec = 1; nsec = 1000000 }
unfolding to_rmw_time
one_millisecond = refl

to_rmw_profile-SaysProfile_example :
    SaysProfile numbered
      (set_deadline 0 qos_profile_clock)
      (to_rmw_profile numbered (set_deadline 0 qos_profile_clock))
    × ((to_rmw_profile numbered (set_deadline 0 qos_profile_clock)
          ≡ to_rmw_profile numbered (set_deadline 1 qos_profile_clock))
        ↔ SameProfile (set_deadline 0 qos_profile_clock) (set_deadline 1 qos_profile_clock))
to_rmw_profile-SaysProfile_example =
    to_rmw_profile-SaysProfile numbered numbered-IsDistinct (set_deadline 0 qos_profile_clock)
      (set_deadline 1 qos_profile_clock)
