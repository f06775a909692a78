-- ===== src/Tests/ClientTests.antt =====
-- The theorems on a client's requests, applied to one request with a callback 7.
use ros2_rust.Prelude.{ℕ, ◌+◌, ◌≤◌, ◌≡◌, refl, some, none, [], ◌∷◌, ok}
use ros2_rust.Prelude.Int.{ℤ, pos}
use ros2_rust.ReturnCode.{RclCall, to_rclrs_result}
use ros2_rust.Client.{take_response, execute, new_client, async_send_request_with_callback}
use ros2_rust.Client.Dispatch.{Executes, execute-Executes}
use ros2_rust.Client.Requests.{
  World, Sent, Way, Reach, sends, finishes, here, then_step, new_world, waiting, sent_as, delivered,
  logged, finish,
}
use ros2_rust.Client.Requests.Invariant.{delivered_once}
use ros2_rust.Client.Requests.Delivered.{Called, waiting_callback-Called, early_response_lost}
use ros2_rust.Tests.Samples.{plain_text}

abbrev request : Sent
request = record {
  sending = record { ret = pos 0; message = none; handle = pos 0 };
  way = Way.by_callback;
  name = 7;
}

-- The response is 42.
abbrev response : RclCall (ℕ × ℤ)
response = record { ret = pos 0; message = none; handle = (42, pos 0) }

taken : take_response response ≡ ok (42, pos 0)
unfolding take_response to_rclrs_result
taken = refl

abbrev after_sending : World ℕ
after_sending = record { client = new_client; used = pos 0 ∷ []; pending = request ∷ []; log = [] }

abbrev after_storing : World ℕ
after_storing = record {
  client = finish Way.by_callback request.sending 7 new_client;
  used = pos 0 ∷ [];
  pending = [];
  log = [];
}

sent_Reach : Reach new_world after_sending
sent_Reach = then_step new_world here (sends request refl refl)

stored_Reach : Reach new_world after_storing
stored_Reach = then_step after_sending sent_Reach (finishes [] [] request refl refl)

stored : after_storing.client.requests (pos 0) ≡ some 7
unfolding async_send_request_with_callback to_rclrs_result
stored = refl

execute-Executes_example :
    Executes after_storing.client response (execute response after_storing.client)
execute-Executes_example = execute-Executes response after_storing.client

delivered_once_example :
    sent_as (pos 0) after_storing.pending
      + waiting (pos 0) after_storing.client
      + delivered (pos 0) after_storing.log
    ≤ 1
delivered_once_example = delivered_once after_storing (pos 0) stored_Reach

waiting_callback-Called_example :
    ((execute response after_storing.client).0 ≡ ok tt)
    × Called (pos 0) 7 (logged (pos 0) (execute response after_storing.client).2 after_storing.log)
waiting_callback-Called_example =
    waiting_callback-Called (pos 0) 7 42 response after_storing after_storing stored_Reach stored
      here taken

early_response_lost_example :
    execute response after_sending.client ≡ (ok tt, after_sending.client, [])
early_response_lost_example =
    early_response_lost [] [] request 42 response after_sending sent_Reach refl taken
