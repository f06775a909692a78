-- ===== src/Client.antt =====
-- rclrs/src/client.rs: the requests of a client that wait for their responses. A callback or a
-- sender of a future is named by a number; what `rcl` sends and takes is an argument.
pub mod Dispatch
pub mod Requests
use ros2_rust.Prelude.{
  ℕ, ◌≡◌, Bool, true, false, Option, none, some, List, [], ◌∷◌, Result, ok, err, if◌then◌else◌,
}
use ros2_rust.Prelude.Int.{ℤ, beq_ℤ}
use ros2_rust.Parameter.Utf8.{Utf8}
use ros2_rust.ReturnCode.{RclReturnCode, RclrsError, RclCall, rcl_error, to_rclrs_result}

-- `HashMap<RequestId, _>`
abbrev pub RequestMap : Type 0
RequestMap = ℤ → Option ℕ

unfoldable pub insert : ℤ → ℕ → RequestMap → RequestMap
insert id value map k = if beq_ℤ id k then some value else map k

unfoldable pub remove : ℤ → RequestMap → RequestMap
remove id map k = if beq_ℤ id k then none else map k

pub record Client : Type 0 where
  pub requests : RequestMap
  pub futures : RequestMap

-- What `execute` did with a response: it called a callback, or sent it to a future.
pub data Delivery (Response : Type 0) : Type 0 where
  called : ℕ → Response → Delivery Response
  sent : ℕ → Response → Delivery Response

-- `Client::new`
unfoldable pub new_client : Client
new_client = record { requests = λ id. none; futures = λ id. none }

module _ ⦃u : Utf8⦄ where
  -- `async_send_request_with_callback` after the call of `rcl_send_request`, which gives the
  -- sequence number
  unfoldable pub async_send_request_with_callback :
      RclCall ℤ → ℕ → Client → Result RclrsError (Unit {0}) × Client
  unfolding insert
  async_send_request_with_callback sending callback c =
      elim (to_rclrs_result sending.ret sending.message).0 [
        | err error ↦ (err error, c)
        | ok _ ↦ (ok tt, record c { requests = insert sending.handle callback c.requests })
      ]

  -- `call_async` up to the point where it waits for the response
  unfoldable pub call_async : RclCall ℤ → ℕ → Client → Result RclrsError (Unit {0}) × Client
  unfolding insert
  call_async sending sender c = elim (to_rclrs_result sending.ret sending.message).0 [
    | err error ↦ (err error, c)
    | ok _ ↦ (ok tt, record c { futures = insert sending.handle sender c.futures })
  ]

module _ {Response : Type 0} where
  abbrev pub give_future : Option ℕ → ℤ → Response → Client → Client × List (Delivery Response)
  give_future none id res c = (c, [])
  give_future (some future) id res c =
      (record c { futures = remove id c.futures }, sent future res ∷ [])

  abbrev pub give : Option ℕ → ℤ → Response → Client → Client × List (Delivery Response)
  give none id res c = give_future (c.futures id) id res c
  give (some callback) id res c =
      (record c { requests = remove id c.requests }, called callback res ∷ [])

  -- the part of `execute` behind the locks
  unfoldable pub dispatch : ℤ → Response → Client → Client × List (Delivery Response)
  unfolding remove
  dispatch id res c = give (c.requests id) id res c

  module _ ⦃u : Utf8⦄ where
    -- `take_response`
    unfoldable pub take_response : RclCall (Response × ℤ) → Result RclrsError (Response × ℤ)
    take_response taking = elim (to_rclrs_result taking.ret taking.message).0 [
      | err error ↦ err error
      | ok _ ↦ ok taking.handle
    ]

    abbrev pub execute_taken :
        Result RclrsError (Response × ℤ)
        → Client
        → Result RclrsError (Unit {0}) × Client × List (Delivery Response)
    execute_taken (ok (res, id)) c = let (c', done) = dispatch id res c in (ok tt, c', done)
    execute_taken (err (rcl_error RclReturnCode.client_take_failed msg)) c = (ok tt, c, [])
    execute_taken (err error) c = (err error, c, [])

    -- `ClientBase::execute`
    unfoldable pub execute :
        RclCall (Response × ℤ)
        → Client
        → Result RclrsError (Unit {0}) × Client × List (Delivery Response)
    unfolding take_response dispatch
    execute taking c = execute_taken (take_response taking) c
