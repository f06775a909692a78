-- ===== src/Time/Messages.antt =====
-- Times and their messages.
use ros2_rust.Prelude.{ℕ, ◌%◌, ◌/◌, ◌<◌, ◌≡◌, ◌⊎◌, ◌↔◌, Result, ok, err, arith}
use ros2_rust.Prelude.Int.{ℤ, pos, negsuc, pos_part, neg_part, rem, quot_pos}
use ros2_rust.Time.{
  try_from_int_error, Time, TimeMsg, TryFromIntError, to_ros_msg, to_u32, to_i32, ros_msg,
  clock_nanoseconds,
}

parts :
    (a : Result TryFromIntError ℕ) (b : Result TryFromIntError ℤ) (m : TimeMsg)
    → ros_msg a b ≡ ok m
    → (a ≡ ok m.nanosec) × (b ≡ ok m.sec)
parts (err e) b m h = cc
parts (ok n) (err e) m h = cc
parts (ok n) (ok s) m h = (cc, cc)

to_u32_ok : (z : ℤ) (n : ℕ) → to_u32 z ≡ ok n → z ≡ pos n
unfolding to_u32
to_u32_ok (pos k) n h = ground arith
to_u32_ok (negsuc k) n h = cc

to_i32_ok : (z s : ℤ) → to_i32 z ≡ ok s → z ≡ s
unfolding to_i32
to_i32_ok (pos k) s h = ground arith
to_i32_ok (negsuc k) s h = ground arith

recomposed :
    (z s : ℤ) (n : ℕ)
    → rem z (pos 1000000000) ≡ pos n
    → quot_pos z 1000000000 ≡ s
    → clock_nanoseconds (record { sec = s; nanosec = n }) ≡ z
unfolding clock_nanoseconds
recomposed (pos a) s n r q = ground arith
recomposed (negsuc a) s n r q = ground arith

-- Where `to_ros_msg` succeeds, a time source that receives the message as `/clock` reads the
-- nanoseconds of the time that was sent.
pub clock_nanoseconds-to_ros_msg :
    (t : Time) (m : TimeMsg) → to_ros_msg t ≡ ok m → clock_nanoseconds m ≡ t.nsec
unfolding to_ros_msg
clock_nanoseconds-to_ros_msg t m h =
    let (a, b) =
      parts (to_u32 (rem t.nsec (pos 1000000000))) (to_i32 (quot_pos t.nsec 1000000000)) m h in
    recomposed t.nsec m.sec m.nanosec (to_u32_ok (rem t.nsec (pos 1000000000)) m.nanosec a)
      (to_i32_ok (quot_pos t.nsec 1000000000) m.sec b)

fails_only :
    (z : ℤ) (c : ℕ)
    → to_ros_msg (record { nsec = z; clock = c }) ≡ err try_from_int_error
    → (0 < neg_part z % 1000000000)
      ⊎ (2147483647 < pos_part z / 1000000000)
      ⊎ (2147483648 < neg_part z / 1000000000)
unfolding to_ros_msg to_u32 to_i32
fails_only (pos a) c h = ground arith
fails_only (negsuc a) c h = ground arith

fails_if :
    (z : ℤ) (c : ℕ)
    → (0 < neg_part z % 1000000000)
      ⊎ (2147483647 < pos_part z / 1000000000)
      ⊎ (2147483648 < neg_part z / 1000000000)
    → to_ros_msg (record { nsec = z; clock = c }) ≡ err try_from_int_error
unfolding to_ros_msg to_u32 to_i32
fails_if (pos a) c h = ground arith
fails_if (negsuc a) c h = ground arith

-- `to_ros_msg` fails exactly if the time is before the epoch and not a whole number of seconds from
-- it, or if its seconds exceed an `i32`.
pub to_ros_msg-eq-err :
    (t : Time)
    → (to_ros_msg t ≡ err try_from_int_error) ↔ (
        (0 < neg_part t.nsec % 1000000000)
        ⊎ (2147483647 < pos_part t.nsec / 1000000000)
        ⊎ (2147483648 < neg_part t.nsec / 1000000000))
to_ros_msg-eq-err t = (fails_only t.nsec t.clock, fails_if t.nsec t.clock)
