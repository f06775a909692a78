-- ===== src/Tests/ServiceTests.antt =====
-- The theorems on services, applied to a service that adds one to a request.
use ros2_rust.Prelude.{ℕ, suc, ◌≡◌, refl, some, none, [], ◌∷◌, ok}
use ros2_rust.Prelude.Int.{ℤ, pos}
use ros2_rust.ReturnCode.{RclCall, to_rclrs_result}
use ros2_rust.Client
use ros2_rust.Client.{called}
use ros2_rust.Service.{RequestId, take_request, execute}
use ros2_rust.Service.Responses.{Serves, execute-Serves, request_answered}
use ros2_rust.Tests.Samples.{plain_text}

abbrev origin : RequestId
origin = record { writer_guid = 1 ∷ 2 ∷ []; sequence_number = pos 5 }

-- The state counts the calls.
abbrev callback : RequestId → ℕ → ℕ → ℕ × ℕ
callback id req s = (suc req, suc s)

abbrev send : RequestId → ℕ → RclCall (Unit {0})
send id res = record { ret = pos 0; message = none; handle = tt }

abbrev request : RclCall (ℕ × RequestId)
request = record { ret = pos 0; message = none; handle = (41, origin) }

abbrev response : RclCall (ℕ × ℤ)
response = record { ret = pos 0; message = none; handle = (42, pos 5) }

abbrev waiting_client : Client.Client
waiting_client = record Client.new_client { requests = Client.insert (pos 5) 7 (λ id. none) }

execute-Serves_example : Serves callback send request 0 (execute callback send request 0)
execute-Serves_example = execute-Serves callback send request 0

taken : take_request request ≡ ok (41, origin)
unfolding take_request to_rclrs_result
taken = refl

answered : (execute callback send request 0).2 ≡ (origin, 42) ∷ []
unfolding execute to_rclrs_result
answered = refl

response_taken : Client.take_response response ≡ ok (42, pos 5)
unfolding Client.take_response to_rclrs_result
response_taken = refl

waits : waiting_client.requests (pos 5) ≡ some 7
unfolding Client.insert
waits = refl

request_answered_example : (Client.execute response waiting_client).2 ≡ called 7 42 ∷ []
request_answered_example =
    request_answered callback send 41 origin origin 42 7 0 request response waiting_client taken
      answered response_taken waits
