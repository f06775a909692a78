-- ===== src/Qos/Durations.antt =====
-- Which durations of rclrs/src/qos.rs `rmw` can tell apart.
use ros2_rust.Prelude.{◌*◌, ◌+◌, ◌<◌, ◌≡◌, ◌↔◌, refl, ap, sym, ◌∙◌, ◌==◌, if◌then◌else◌, arith}
use ros2_rust.Qos.{QosDuration, RmwTime, nonzero, to_rmw_time}

-- What a duration means to `rmw`: a custom one of zero is one nanosecond, and the longest time that
-- `rmw` has is infinite.
abbrev pub meaning : QosDuration → QosDuration
meaning QosDuration.system_default = QosDuration.system_default
meaning QosDuration.infinite = QosDuration.infinite
meaning (QosDuration.custom ns) =
    if ns == 9223372036854775807
    then QosDuration.infinite
    else if ns == 0
    then QosDuration.custom 1
    else QosDuration.custom ns

to_rmw_time-meaning : (d : QosDuration) → to_rmw_time (meaning d) ≡ to_rmw_time d
unfolding to_rmw_time nonzero
to_rmw_time-meaning QosDuration.system_default = refl
to_rmw_time-meaning QosDuration.infinite = refl
to_rmw_time-meaning (QosDuration.custom ns) = ground arith

-- The duration that `rmw` reads in a time, by its nanoseconds.
abbrev pub read_duration : RmwTime → QosDuration
read_duration t =
    if t.sec * 1000000000 + t.nsec == 0
    then QosDuration.system_default
    else if t.sec * 1000000000 + t.nsec == 9223372036854775807
    then QosDuration.infinite
    else QosDuration.custom (t.sec * 1000000000 + t.nsec)

pub read_duration-to_rmw_time : (d : QosDuration) → read_duration (to_rmw_time d) ≡ meaning d
unfolding to_rmw_time nonzero
read_duration-to_rmw_time QosDuration.system_default = refl
read_duration-to_rmw_time QosDuration.infinite = refl
read_duration-to_rmw_time (QosDuration.custom ns) = ground arith

-- The second part of a time is below one second.
pub nsec-lt : (d : QosDuration) → (to_rmw_time d).nsec < 1000000000
unfolding to_rmw_time
nsec-lt QosDuration.system_default = omega arith
nsec-lt QosDuration.infinite = omega arith
nsec-lt (QosDuration.custom ns) = omega arith

-- `rmw` is given the same time for two durations exactly when they mean the same: it tells apart the
-- default, infinite and each custom duration, but zero from one nanosecond, and the longest time of
-- `rmw`, 9223372036854775807 nanoseconds, from infinite.
pub to_rmw_time_iff :
    (d d' : QosDuration) → (to_rmw_time d ≡ to_rmw_time d') ↔ (meaning d ≡ meaning d')
to_rmw_time_iff d d' = (
  λ h. sym (read_duration-to_rmw_time d) ∙ ap read_duration h ∙ read_duration-to_rmw_time d',
  λ h. sym (to_rmw_time-meaning d) ∙ ap to_rmw_time h ∙ to_rmw_time-meaning d',
)
