-- ===== src/Tests/TimeTests.antt =====
-- The theorems on time, applied to sample times.
use ros2_rust.Prelude.{◌%◌, ◌/◌, ◌<◌, ◌≡◌, ◌⊎◌, ◌↔◌, refl, ok, err, returns}
use ros2_rust.Prelude.Int.{pos, negsuc, ◌+ℤ◌}
use ros2_rust.Time.{Time, TimeMsg, try_from_int_error, to_ros_msg, add_duration}
use ros2_rust.Time.Messages.{to_ros_msg-eq-err}

abbrev moment : Time
moment = record { nsec = pos 1500000000; clock = 7 }

abbrev sent : TimeMsg
sent = record { sec = pos 1; nanosec = 500000000 }

sent_run : to_ros_msg moment ≡ ok sent
unfolding to_ros_msg
sent_run = refl

-- Half a second before the epoch.
abbrev before : Time
before = record { nsec = negsuc 499999999; clock = 7 }

to_ros_msg-eq-err_example : (to_ros_msg before ≡ err try_from_int_error) ↔ (
    (0 < 500000000 % 1000000000)
    ⊎ (2147483647 < 0 / 1000000000)
    ⊎ (2147483648 < 500000000 / 1000000000))
to_ros_msg-eq-err_example = to_ros_msg-eq-err before

abbrev moved : Time
moved = record { nsec = pos 500000000; clock = 7 }

add_run : add_duration before 1000000000 ≡ returns moved
unfolding add_duration ◌+ℤ◌
add_run = refl
