-- ===== src/Subscription/Timestamps.antt =====
-- The times in a message's information (rclrs/src/subscription/message_info.rs).
use ros2_rust.Prelude.{◌≡◌, Option, none, some, if◌then◌else◌, arith}
use ros2_rust.Prelude.Int.{ℤ, pos, negsuc, ◌+ℤ◌, ◌-ℤ◌, beq_ℤ}
use ros2_rust.Subscription.{timestamp, RmwMessageInfo, from_rmw_message_info}

-- A time of `rmw`, where zero is no time.
abbrev pub nonzero_time : ℤ → Option ℤ
nonzero_time ts = if beq_ℤ ts (pos 0) then none else some ts

timestamp_lem : (ts : ℤ) → timestamp ts ≡ nonzero_time ts
unfolding timestamp ◌+ℤ◌ ◌-ℤ◌
timestamp_lem (pos n) = ground arith
timestamp_lem (negsuc n) = ground arith

-- Both times of a message's information are those that `rmw` gives, in nanoseconds from the epoch,
-- before or after it, and none where it gives zero.
pub from_rmw_message_info-times :
    (info : RmwMessageInfo)
    → ((from_rmw_message_info info).source_timestamp ≡ nonzero_time info.source_timestamp)
      × ((from_rmw_message_info info).received_timestamp ≡ nonzero_time info.received_timestamp)
unfolding from_rmw_message_info
from_rmw_message_info-times info =
    (timestamp_lem info.source_timestamp, timestamp_lem info.received_timestamp)
