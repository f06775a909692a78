-- ===== src/Qos.antt =====
-- rclrs/src/qos.rs: quality of service profiles and what `rmw` is given for them. A duration is its
-- number of nanoseconds. The policies of `rmw` are generated from its headers: they are an argument.
pub mod Setters
pub mod Durations
pub mod Profiles
use ros2_rust.Prelude.{ℕ, ◌/◌, ◌%◌, ◌≡◌, Bool, false, leb, if◌then◌else◌}

pub data QosHistoryPolicy : Type 0 where
  system_default : ℕ → QosHistoryPolicy
  keep_last : ℕ → QosHistoryPolicy
  keep_all : QosHistoryPolicy

pub data QosReliabilityPolicy : Type 0 where
  system_default reliable best_effort : QosReliabilityPolicy

pub data QosDurabilityPolicy : Type 0 where
  system_default transient_local volatile : QosDurabilityPolicy

pub data QosLivelinessPolicy : Type 0 where
  system_default automatic manual_by_topic : QosLivelinessPolicy

pub data QosDuration : Type 0 where
  system_default infinite : QosDuration
  custom : ℕ → QosDuration

pub record QosProfile : Type 0 where
  pub history : QosHistoryPolicy
  pub reliability : QosReliabilityPolicy
  pub durability : QosDurabilityPolicy
  pub deadline : QosDuration
  pub lifespan : QosDuration
  pub liveliness : QosLivelinessPolicy
  pub liveliness_lease_duration : QosDuration
  pub avoid_ros_namespace_conventions : Bool

-- `rmw_time_t`
pub record RmwTime : Type 0 where
  pub sec : ℕ
  pub nsec : ℕ

-- The constants of the policies of `rmw`, of each kind.
pub record RmwPolicies (R : Type 0) : Type 0 where
  pub history_system_default : R
  pub history_keep_last : R
  pub history_keep_all : R
  pub reliability_system_default : R
  pub reliability_reliable : R
  pub reliability_best_effort : R
  pub durability_system_default : R
  pub durability_transient_local : R
  pub durability_volatile : R
  pub liveliness_system_default : R
  pub liveliness_automatic : R
  pub liveliness_manual_by_topic : R

-- `rmw_qos_profile_t`
pub record RmwQosProfile (R : Type 0) : Type 0 where
  pub history : R
  pub depth : ℕ
  pub reliability : R
  pub durability : R
  pub deadline : RmwTime
  pub lifespan : RmwTime
  pub liveliness : R
  pub liveliness_lease_duration : RmwTime
  pub avoid_ros_namespace_conventions : Bool

-- `dt.max(Duration::from_nanos(1))`
unfoldable pub nonzero : ℕ → ℕ
nonzero dt = if leb dt 1 then 1 else dt

-- `From<QoSDuration> for rmw_time_t`
unfoldable pub to_rmw_time : QosDuration → RmwTime
unfolding nonzero
to_rmw_time (QosDuration.custom dt) = record {
  sec = nonzero dt / 1000000000;
  nsec = nonzero dt % 1000000000;
}
to_rmw_time QosDuration.system_default = record { sec = 0; nsec = 0 }
to_rmw_time QosDuration.infinite = record { sec = 9223372036; nsec = 854775807 }

-- the depth in `From<QoSProfile> for rmw_qos_profile_t`
unfoldable pub depth_of : QosHistoryPolicy → ℕ
depth_of (QosHistoryPolicy.system_default depth) = depth
depth_of (QosHistoryPolicy.keep_last depth) = depth
depth_of QosHistoryPolicy.keep_all = 0

module _ {R : Type 0} (rmw : RmwPolicies R) where
  unfoldable pub to_rmw_history : QosHistoryPolicy → R
  to_rmw_history (QosHistoryPolicy.system_default depth) = rmw.history_system_default
  to_rmw_history (QosHistoryPolicy.keep_last depth) = rmw.history_keep_last
  to_rmw_history QosHistoryPolicy.keep_all = rmw.history_keep_all

  unfoldable pub to_rmw_reliability : QosReliabilityPolicy → R
  to_rmw_reliability QosReliabilityPolicy.system_default = rmw.reliability_system_default
  to_rmw_reliability QosReliabilityPolicy.reliable = rmw.reliability_reliable
  to_rmw_reliability QosReliabilityPolicy.best_effort = rmw.reliability_best_effort

  unfoldable pub to_rmw_durability : QosDurabilityPolicy → R
  to_rmw_durability QosDurabilityPolicy.system_default = rmw.durability_system_default
  to_rmw_durability QosDurabilityPolicy.transient_local = rmw.durability_transient_local
  to_rmw_durability QosDurabilityPolicy.volatile = rmw.durability_volatile

  unfoldable pub to_rmw_liveliness : QosLivelinessPolicy → R
  to_rmw_liveliness QosLivelinessPolicy.system_default = rmw.liveliness_system_default
  to_rmw_liveliness QosLivelinessPolicy.automatic = rmw.liveliness_automatic
  to_rmw_liveliness QosLivelinessPolicy.manual_by_topic = rmw.liveliness_manual_by_topic

  -- `From<QoSProfile> for rmw_qos_profile_t`
  unfoldable pub to_rmw_profile : QosProfile → RmwQosProfile R
  unfolding to_rmw_history depth_of to_rmw_reliability to_rmw_durability to_rmw_liveliness
      to_rmw_time
  to_rmw_profile qos = record {
    history = to_rmw_history qos.history;
    depth = depth_of qos.history;
    reliability = to_rmw_reliability qos.reliability;
    durability = to_rmw_durability qos.durability;
    deadline = to_rmw_time qos.deadline;
    lifespan = to_rmw_time qos.lifespan;
    liveliness = to_rmw_liveliness qos.liveliness;
    liveliness_lease_duration = to_rmw_time qos.liveliness_lease_duration;
    avoid_ros_namespace_conventions = qos.avoid_ros_namespace_conventions;
  }

-- The constants for common uses.
abbrev pub qos_profile_sensor_data : QosProfile
qos_profile_sensor_data = record {
  history = QosHistoryPolicy.keep_last 5;
  reliability = QosReliabilityPolicy.best_effort;
  durability = QosDurabilityPolicy.volatile;
  deadline = QosDuration.system_default;
  lifespan = QosDuration.system_default;
  liveliness = QosLivelinessPolicy.system_default;
  liveliness_lease_duration = QosDuration.system_default;
  avoid_ros_namespace_conventions = false;
}

abbrev pub qos_profile_clock : QosProfile
qos_profile_clock = record {
  history = QosHistoryPolicy.keep_last 1;
  reliability = QosReliabilityPolicy.best_effort;
  durability = QosDurabilityPolicy.volatile;
  deadline = QosDuration.system_default;
  lifespan = QosDuration.system_default;
  liveliness = QosLivelinessPolicy.system_default;
  liveliness_lease_duration = QosDuration.system_default;
  avoid_ros_namespace_conventions = false;
}

abbrev pub qos_profile_default : QosProfile
qos_profile_default = record {
  history = QosHistoryPolicy.keep_last 10;
  reliability = QosReliabilityPolicy.reliable;
  durability = QosDurabilityPolicy.volatile;
  deadline = QosDuration.system_default;
  lifespan = QosDuration.system_default;
  liveliness = QosLivelinessPolicy.system_default;
  liveliness_lease_duration = QosDuration.system_default;
  avoid_ros_namespace_conventions = false;
}

abbrev pub qos_profile_parameters : QosProfile
qos_profile_parameters = record {
  history = QosHistoryPolicy.keep_last 1000;
  reliability = QosReliabilityPolicy.reliable;
  durability = QosDurabilityPolicy.volatile;
  deadline = QosDuration.system_default;
  lifespan = QosDuration.system_default;
  liveliness = QosLivelinessPolicy.system_default;
  liveliness_lease_duration = QosDuration.system_default;
  avoid_ros_namespace_conventions = false;
}

abbrev pub qos_profile_services_default : QosProfile
qos_profile_services_default = record {
  history = QosHistoryPolicy.keep_last 10;
  reliability = QosReliabilityPolicy.reliable;
  durability = QosDurabilityPolicy.volatile;
  deadline = QosDuration.system_default;
  lifespan = QosDuration.system_default;
  liveliness = QosLivelinessPolicy.system_default;
  liveliness_lease_duration = QosDuration.system_default;
  avoid_ros_namespace_conventions = false;
}

abbrev pub qos_profile_parameter_events : QosProfile
qos_profile_parameter_events = record {
  history = QosHistoryPolicy.keep_all;
  reliability = QosReliabilityPolicy.reliable;
  durability = QosDurabilityPolicy.volatile;
  deadline = QosDuration.system_default;
  lifespan = QosDuration.system_default;
  liveliness = QosLivelinessPolicy.system_default;
  liveliness_lease_duration = QosDuration.system_default;
  avoid_ros_namespace_conventions = false;
}

abbrev pub qos_profile_system_default : QosProfile
qos_profile_system_default = record {
  history = QosHistoryPolicy.system_default 0;
  reliability = QosReliabilityPolicy.system_default;
  durability = QosDurabilityPolicy.system_default;
  deadline = QosDuration.system_default;
  lifespan = QosDuration.system_default;
  liveliness = QosLivelinessPolicy.system_default;
  liveliness_lease_duration = QosDuration.system_default;
  avoid_ros_namespace_conventions = false;
}
