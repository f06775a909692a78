-- ===== src/Tests/SubscriptionTests.antt =====
-- The theorems on subscriptions, applied to a loaned message.
use ros2_rust.Prelude.{ℕ, ◌+◌, ◌≡◌, refl, none, [], ok, returns}
use ros2_rust.Prelude.Int.{pos, negsuc}
use ros2_rust.ReturnCode.{to_rclrs_result}
use ros2_rust.Subscription.{
  RmwMessageInfo, AnySubscriptionCallback, RclTaking, from_rmw_message_info, execute, drop_loan,
  loaned_with_message_info,
}
use ros2_rust.Subscription.Messages.{Receives, execute-Receives}
use ros2_rust.Tests.Samples.{plain_text}

abbrev info : RmwMessageInfo
info = record {
  source_timestamp = negsuc 999999999;
  received_timestamp = pos 0;
  publication_sequence_number = 3;
  reception_sequence_number = 4;
  publisher_gid = record { gid = []; implementation_identifier = 0 };
}

abbrev one_message : RclTaking ℕ
one_message = record {
  take = record { ret = pos 401; message = none; handle = (0, info) };
  take_loaned_message = record { ret = pos 0; message = none; handle = (9, info) };
  return_loaned_message = λ msg. record { ret = pos 0; message = none; handle = tt };
}

abbrev callback : AnySubscriptionCallback ℕ ℕ ℕ
callback = loaned_with_message_info (λ msg i s. msg + i.publication_sequence_number + s)

loan_returned : (msg : ℕ) → drop_loan one_message msg ≡ returns tt
unfolding drop_loan to_rclrs_result
loan_returned msg = refl

ran : execute callback (λ msg. msg) one_message 100 ≡ returns (ok tt, 112)
unfolding execute to_rclrs_result from_rmw_message_info
ran = refl

execute-Receives_example :
    Receives
      (λ (msg : ℕ). msg)
      one_message
      callback
      100
      (execute callback (λ msg. msg) one_message 100)
execute-Receives_example =
    execute-Receives (λ (msg : ℕ). msg) one_message callback 100 loan_returned
