-- ===== src/Time.antt =====
-- rclrs/src/time.rs, and the reading of a `/clock` message in rclrs/src/time_source.rs. A time's clock is
-- named by its allocation, which `Weak::ptr_eq` compares; a duration is its number of nanoseconds.
pub mod Messages
pub mod Durations
use ros2_rust.Prelude.{
  ℕ, ◌*◌, ◌+◌, ◌≡◌, Bool, Option, none, some, Result, ok, err, Outcome, returns, panics, ◌>>=◌,
  unwrap, leb, ◌==◌, if◌then◌else◌,
}
use ros2_rust.Prelude.Int.{
  ℤ, pos, negsuc, pos_part, neg_part, sub_ℕ, rem, quot_pos, checked_add, checked_sub, i64_max,
}

pub record Time : Type 0 where
  pub nsec : ℤ
  pub clock : ℕ

-- `builtin_interfaces::msg::Time`
pub record TimeMsg : Type 0 where
  pub sec : ℤ
  pub nanosec : ℕ

pub data TryFromIntError : Type 0 where
  try_from_int_error : TryFromIntError

-- `u32::try_from` and `i32::try_from` on an `i64`
unfoldable pub to_u32 : ℤ → Result TryFromIntError ℕ
to_u32 (pos n) = if leb n 4294967295 then ok n else err try_from_int_error
to_u32 (negsuc n) = err try_from_int_error

unfoldable pub to_i32 : ℤ → Result TryFromIntError ℤ
to_i32 (pos n) = if leb n 2147483647 then ok (pos n) else err try_from_int_error
to_i32 (negsuc n) = if leb n 2147483647 then ok (negsuc n) else err try_from_int_error

abbrev pub ros_msg :
    Result TryFromIntError ℕ → Result TryFromIntError ℤ → Result TryFromIntError TimeMsg
ros_msg (err e) _ = err e
ros_msg (ok nanosec) (err e) = err e
ros_msg (ok nanosec) (ok sec) = ok (record { sec = sec; nanosec = nanosec })

unfoldable pub compare_with {ℓ} : {U : Type ℓ} → Time → Time → (ℤ → ℤ → U) → Option U
compare_with t rhs f = if t.clock == rhs.clock then some (f t.nsec rhs.nsec) else none

unfoldable pub to_ros_msg : Time → Result TryFromIntError TimeMsg
unfolding to_u32 to_i32
to_ros_msg t = ros_msg (to_u32 (rem t.nsec (pos 1000000000))) (to_i32 (quot_pos t.nsec 1000000000))

-- `i64::try_from(other.as_nanos()).unwrap()`
abbrev pub duration_ns : ℕ → Outcome ⊥ ℤ
duration_ns ns = if leb ns i64_max then returns (pos ns) else panics

-- `Add<Duration>` and `Sub<Duration>`
unfoldable pub add_duration : Time → ℕ → Outcome ⊥ Time
add_duration t other = do
  dur_ns ← duration_ns other
  nsec ← unwrap (checked_add t.nsec dur_ns)
  returns (record t { nsec = nsec })

unfoldable pub sub_duration : Time → ℕ → Outcome ⊥ Time
sub_duration t other = do
  dur_ns ← duration_ns other
  nsec ← unwrap (checked_sub t.nsec dur_ns)
  returns (record t { nsec = nsec })

-- the time in a `/clock` message, as the subscription of a time source reads it
unfoldable pub clock_nanoseconds : TimeMsg → ℤ
clock_nanoseconds msg =
    sub_ℕ (pos_part msg.sec * 1000000000 + msg.nanosec) (neg_part msg.sec * 1000000000)
