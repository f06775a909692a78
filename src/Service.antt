-- ===== src/Service.antt =====
-- rclrs/src/service.rs: what a service does with a request. The callback may change the state `S` of
-- the program; a request's identifier is that of `rmw`, with the client's writer and its number.
pub mod Responses
use ros2_rust.Prelude.{ℕ, ◌≡◌, Option, List, [], ◌∷◌, Result, ok, err}
use ros2_rust.Prelude.Int.{ℤ}
use ros2_rust.Prelude.Bytes.{Bytes}
use ros2_rust.Parameter.Utf8.{Utf8}
use ros2_rust.ReturnCode.{RclReturnCode, RclrsError, RclCall, rcl_error, to_rclrs_result}

-- `rmw_request_id_t`
pub record RequestId : Type 0 where
  pub writer_guid : Bytes
  pub sequence_number : ℤ

module _ {Request : Type 0} ⦃u : Utf8⦄ where
  -- `Service::take_request`
  unfoldable pub take_request :
      RclCall (Request × RequestId) → Result RclrsError (Request × RequestId)
  take_request taking = elim (to_rclrs_result taking.ret taking.message).0 [
    | err error ↦ err error
    | ok _ ↦ ok taking.handle
  ]

module _ {Response S : Type 0} ⦃u : Utf8⦄ where
  -- the response of the callback, sent to where the request is from
  abbrev pub respond :
      (RequestId → Response → RclCall (Unit {0}))
      → RequestId
      → Response × S
      → Result RclrsError (Unit {0}) × S × List (RequestId × Response)
  respond send id (res, s) =
      let sending = send id res in
      ((to_rclrs_result sending.ret sending.message).0, s, (id, res) ∷ [])

module _ {Request Response S : Type 0} ⦃u : Utf8⦄ where
  abbrev pub execute_taken :
      (RequestId → Request → S → Response × S)
      → (RequestId → Response → RclCall (Unit {0}))
      → Result RclrsError (Request × RequestId)
      → S
      → Result RclrsError (Unit {0}) × S × List (RequestId × Response)
  execute_taken callback send (ok (req, id)) s = respond send id (callback id req s)
  execute_taken callback send (err (rcl_error RclReturnCode.service_take_failed msg)) s =
      (ok tt, s, [])
  execute_taken callback send (err error) s = (err error, s, [])

  -- `ServiceBase::execute`, with the responses given to `rcl_send_response`
  unfoldable pub execute :
      (RequestId → Request → S → Response × S)
      → (RequestId → Response → RclCall (Unit {0}))
      → RclCall (Request × RequestId)
      → S
      → Result RclrsError (Unit {0}) × S × List (RequestId × Response)
  unfolding take_request
  execute callback send taking s = execute_taken callback send (take_request taking) s
