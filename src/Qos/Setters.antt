-- ===== src/Qos/Setters.antt =====
-- The setters of `QoSProfile` of rclrs/src/qos.rs.
use ros2_rust.Prelude.{ℕ}
use ros2_rust.Qos.{
  QosProfile, QosHistoryPolicy, QosReliabilityPolicy, QosDurabilityPolicy, QosDuration,
}

unfoldable pub keep_last : ℕ → QosProfile → QosProfile
keep_last depth qos = record qos { history = QosHistoryPolicy.keep_last depth }

unfoldable pub keep_all : QosProfile → QosProfile
keep_all qos = record qos { history = QosHistoryPolicy.keep_all }

unfoldable pub reliable : QosProfile → QosProfile
reliable qos = record qos { reliability = QosReliabilityPolicy.reliable }

unfoldable pub best_effort : QosProfile → QosProfile
best_effort qos = record qos { reliability = QosReliabilityPolicy.best_effort }

unfoldable pub volatile : QosProfile → QosProfile
volatile qos = record qos { durability = QosDurabilityPolicy.volatile }

unfoldable pub transient_local : QosProfile → QosProfile
transient_local qos = record qos { durability = QosDurabilityPolicy.transient_local }

unfoldable pub set_deadline : ℕ → QosProfile → QosProfile
set_deadline deadline qos = record qos { deadline = QosDuration.custom deadline }

unfoldable pub set_liveliness_lease_duration : ℕ → QosProfile → QosProfile
set_liveliness_lease_duration lease_duration qos = record qos {
  liveliness_lease_duration = QosDuration.custom lease_duration;
}

unfoldable pub set_lifespan : ℕ → QosProfile → QosProfile
set_lifespan lifespan qos = record qos { lifespan = QosDuration.custom lifespan }
