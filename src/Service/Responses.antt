-- ===== src/Service/Responses.antt =====
-- What `execute` of rclrs/src/service.rs does with a request, and a call from a client
-- (rclrs/src/client.rs) to a service and back.
use ros2_rust.Prelude.{
  ℕ, ◌≡◌, ◌≢◌, inl, inr, refl, ap, sym, ◌∙◌, subst, some, List, [], ◌∷◌, Result, ok, err, arith,
}
use ros2_rust.Prelude.Int.{ℤ, pos}
use ros2_rust.Parameter.Utf8.{Utf8}
use ros2_rust.ReturnCode.{
  RclReturnCode, discriminant, RclrsError, RclCall, rcl_error, unknown_rcl_error,
  string_contains_nul, already_added_to_wait_set, to_rclrs_result,
}
use ros2_rust.ReturnCode.Laws.{number}
use ros2_rust.ReturnCode.Taking.{
  TakenBy, ReturnedBy, to_rclrs_result-TakenBy, to_rclrs_result-ReturnedBy,
}
use ros2_rust.Client
use ros2_rust.Client.{Delivery, called, dispatch}
use ros2_rust.Service.{RequestId, take_request, execute, execute_taken}

module _ {Request Response S : Type 0} ⦃u : Utf8⦄
    (callback : RequestId → Request → S → Response × S)
    (send : RequestId → Response → RclCall (Unit {0})) where
  -- Only the error with the number of a spurious wakeup is ignored.
  kept :
      (error : RclrsError) (s : S)
      → number error ≢ some (pos (discriminant RclReturnCode.service_take_failed))
      → execute_taken callback send (err error) s ≡ (err error, s, [])
  kept (rcl_error code msg) s h = ground arith
  kept (unknown_rcl_error code msg) s h = refl
  kept (string_contains_nul text) s h = refl
  kept already_added_to_wait_set s h = refl

  -- The callback has run on a request, and its response is sent to where the request is from.
  abbrev pub Responded :
      Request × RequestId
      → S
      → Result RclrsError (Unit {0}) × S × List (RequestId × Response)
      → Type 0
  Responded (req, id) s (result, s', responses) =
      (response : Response) × (callback id req s ≡ (response, s'))
      × (responses ≡ (id, response) ∷ [])
      × ReturnedBy (send id response).ret result

  -- What `execute` does, by the return code of the call that takes a request.
  abbrev pub Serves :
      RclCall (Request × RequestId)
      → S
      → Result RclrsError (Unit {0}) × S × List (RequestId × Response)
      → Type 0
  Serves taking s out =
      TakenBy taking.ret RclReturnCode.service_take_failed (Responded taking.handle s out)
        (out ≡ (ok tt, s, [])) (λ error. out ≡ (err error, s, []))

  took :
      (taking : RclCall (Request × RequestId))
      → (to_rclrs_result taking.ret taking.message).0 ≡ ok tt
      → take_request taking ≡ ok taking.handle
  unfolding take_request
  took taking t = ap (λ r. elim r [ err error ↦ err error | ok _ ↦ ok taking.handle ]) t

  not_taken :
      (taking : RclCall (Request × RequestId)) (error : RclrsError)
      → (to_rclrs_result taking.ret taking.message).0 ≡ err error
      → take_request taking ≡ err error
  unfolding take_request
  not_taken taking error t = ap (λ r. elim r [ err error ↦ err error | ok _ ↦ ok taking.handle ]) t

  -- Executing a service goes by the return code of the call of `rcl` that takes a request. With code 0,
  -- the callback runs once, on this request, what it gives is sent once, to the request's identifier,
  -- and the result is that of the sending: a success for code 0, else the error with its code's number.
  -- With the code that there is no request, 601, nothing is called or sent, and the result is a success
  -- too. With any other, nothing is called or sent, and the result is the error with this code's number.
  pub execute-Serves :
      (taking : RclCall (Request × RequestId)) (s : S)
      → Serves taking s (execute callback send taking s)
  unfolding execute discriminant
  execute-Serves taking s =
      let (req, id) = taking.handle in
      let response = (callback id req s).0 in
      elim (to_rclrs_result-TakenBy taking.ret taking.message RclReturnCode.service_take_failed
        (λ z. cc z)) [
          | inl (z, t) ↦ inl (
            z,
            rw (took taking t) (
                (
                  response,
                  refl,
                  refl,
                  to_rclrs_result-ReturnedBy (send id response).ret (send id response).message,
                )),
          )
          | inr (inl (z, (msg, t))) ↦ inr (
              inl (
                z,
                rw (not_taken taking (rcl_error RclReturnCode.service_take_failed msg) t) (refl),
              ))
          | inr (inr (z, w, error, n, t)) ↦ inr (
              inr (
                z,
                w,
                error,
                n,
                rw (not_taken taking error t) (kept error s (λ same. w (cc (n, same)))),
              ))
        ]

  client_called :
      (taking : RclCall (Response × ℤ)) (c : Client.Client) (res : Response) (k : ℤ) (waits : ℕ)
      → Client.take_response taking ≡ ok (res, k)
      → c.requests k ≡ some waits
      → (Client.execute taking c).2 ≡ called waits res ∷ []
  unfolding Client.execute dispatch
  client_called taking c res k waits t e = rw (t, e) (refl)

  one_response :
      (id id' : RequestId) (res res' : Response)
      → ◌≡◌ {A = List (RequestId × Response)} ((id, res) ∷ []) ((id', res') ∷ [])
      → (id ≡ id') × (res ≡ res')
  one_response id id' res res' h = (cc, cc)

  sent_one :
      (req : Request) (id : RequestId) (s : S) (taking : RclCall (Request × RequestId))
      → take_request taking ≡ ok (req, id)
      → (execute callback send taking s).2 ≡ (id, (callback id req s).0) ∷ []
  unfolding execute
  sent_one req id s taking t = rw t (refl)

  -- A request goes to a service and back: where the service takes it, its one response is sent, and a
  -- client whose callback waits for the request's number takes that response, executing the client
  -- calls the callback, and nothing else, with what the service's callback gives for the request.
  pub request_answered :
      (req : Request) (id id' : RequestId) (res : Response) (waits : ℕ) (s : S)
      (taking : RclCall (Request × RequestId)) (taking' : RclCall (Response × ℤ))
      (c : Client.Client)
      → take_request taking ≡ ok (req, id)
      → (execute callback send taking s).2 ≡ (id', res) ∷ []
      → Client.take_response taking' ≡ ok (res, id'.sequence_number)
      → c.requests id.sequence_number ≡ some waits
      → (Client.execute taking' c).2 ≡ called waits (callback id req s).0 ∷ []
  request_answered req id id' res waits s taking taking' c t one t' e =
      let (same_id, same) =
        one_response id id' (callback id req s).0 res (sym (sent_one req id s taking t) ∙ one) in
      rw same (
        client_called taking' c res id'.sequence_number waits t'
          (subst (λ (i : RequestId). c.requests i.sequence_number ≡ some waits) same_id e))
