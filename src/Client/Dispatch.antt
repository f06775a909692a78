-- ===== src/Client/Dispatch.antt =====
-- What `execute` of rclrs/src/client.rs does with a response.
use ros2_rust.Prelude.{
  ℕ, ◌≡◌, ◌≢◌, inl, inr, refl, ap, false, Option, none, some, List, [], ◌∷◌, Result, ok, err, arith,
}
use ros2_rust.Prelude.Int.{ℤ, pos, beq_ℤ}
use ros2_rust.Parameter.Utf8.{Utf8}
use ros2_rust.ReturnCode.{
  RclReturnCode, discriminant, to_rclrs_result, RclrsError, RclCall, rcl_error, unknown_rcl_error,
  string_contains_nul, already_added_to_wait_set,
}
use ros2_rust.ReturnCode.Laws.{number}
use ros2_rust.ReturnCode.Taking.{TakenBy, to_rclrs_result-TakenBy}
use ros2_rust.Client.{
  Client, RequestMap, Delivery, called, sent, insert, remove, dispatch, give, take_response,
  execute, execute_taken,
}

-- The two maps agree at every number but `id`.
abbrev pub SameElsewhere : ℤ → Client → Client → Type 0
SameElsewhere id c c' =
    (k : ℤ) → beq_ℤ id k ≡ false → (c'.requests k ≡ c.requests k) × (c'.futures k ≡ c.futures k)

pub insert_self : (id : ℤ) (n : ℕ) (m : RequestMap) → insert id n m id ≡ some n
unfolding insert
insert_self id n m = ground arith

pub insert_other :
    (id : ℤ) (n : ℕ) (m : RequestMap) (k : ℤ) → beq_ℤ id k ≡ false → insert id n m k ≡ m k
unfolding insert
insert_other id n m k e = rw e (refl)

pub remove_self : (id : ℤ) (m : RequestMap) → remove id m id ≡ none
unfolding remove
remove_self id m = ground arith

pub remove_other : (id : ℤ) (m : RequestMap) (k : ℤ) → beq_ℤ id k ≡ false → remove id m k ≡ m k
unfolding remove
remove_other id m k e = rw e (refl)

module _ {Response : Type 0} where
  -- What is done with a response for number `id`, given what waits for it: the callback is called
  -- and no longer waits, else the future is sent to and no longer waits, else nothing changes.
  abbrev pub Answers :
      Option ℕ → Option ℕ → ℤ → Response → Client → Client × List (Delivery Response) → Type 0
  Answers (some callback) future id res c (c', done) =
      (done ≡ called callback res ∷ []) × (c'.requests id ≡ none) × (c'.futures ≡ c.futures)
  Answers none (some future) id res c (c', done) =
      (done ≡ sent future res ∷ []) × (c'.futures id ≡ none) × (c'.requests ≡ c.requests)
  Answers none none id res c (c', done) = (done ≡ []) × (c' ≡ c)

  give-Answers :
      (callback future : Option ℕ) (id : ℤ) (res : Response) (c : Client)
      → c.futures id ≡ future
      → Answers callback future id res c (give callback id res c)
        × SameElsewhere id c (give callback id res c).0
  give-Answers (some callback) future id res c e =
      ((refl, remove_self id c.requests, refl), λ k n. (remove_other id c.requests k n, refl))
  give-Answers none (some future) id res c e =
      rw e (((refl, remove_self id c.futures, refl), λ k n. (refl, remove_other id c.futures k n)))
  give-Answers none none id res c e = rw e (((refl, refl), λ k n. (refl, refl)))

  pub dispatch-Answers :
      (id : ℤ) (res : Response) (c : Client)
      → Answers (c.requests id) (c.futures id) id res c (dispatch id res c)
        × SameElsewhere id c (dispatch id res c).0
  unfolding dispatch
  dispatch-Answers id res c = give-Answers (c.requests id) (c.futures id) id res c refl

-- Only the error with the number of a spurious wakeup is ignored.
kept :
    {Response : Type 0} ⦃u : Utf8⦄ (error : RclrsError) (c : Client)
    → number error ≢ some (pos (discriminant RclReturnCode.client_take_failed))
    → execute_taken {Response = Response} (err error) c ≡ (err error, c, [])
kept (rcl_error code msg) c h = ground arith
kept (unknown_rcl_error code msg) c h = refl
kept (string_contains_nul text) c h = refl
kept already_added_to_wait_set c h = refl

module _ {Response : Type 0} ⦃u : Utf8⦄ where
  -- What is done with the response that is taken.
  abbrev pub Handled :
      Client
      → Response × ℤ
      → Result RclrsError (Unit {0}) × Client × List (Delivery Response)
      → Type 0
  Handled c (res, id) (result, c', done) =
      (result ≡ ok tt)
      × Answers (c.requests id) (c.futures id) id res c (c', done)
      × SameElsewhere id c c'

  -- What `execute` does, by the return code of the call that takes a response.
  abbrev pub Executes :
      Client
      → RclCall (Response × ℤ)
      → Result RclrsError (Unit {0}) × Client × List (Delivery Response)
      → Type 0
  Executes c taking out =
      TakenBy taking.ret RclReturnCode.client_take_failed (Handled c taking.handle out)
        (out ≡ (ok tt, c, [])) (λ error. out ≡ (err error, c, []))

  took :
      (taking : RclCall (Response × ℤ))
      → (to_rclrs_result taking.ret taking.message).0 ≡ ok tt
      → take_response taking ≡ ok taking.handle
  unfolding take_response
  took taking t = ap (λ r. elim r [ err error ↦ err error | ok _ ↦ ok taking.handle ]) t

  not_taken :
      (taking : RclCall (Response × ℤ)) (error : RclrsError)
      → (to_rclrs_result taking.ret taking.message).0 ≡ err error
      → take_response taking ≡ err error
  unfolding take_response
  not_taken taking error t = ap (λ r. elim r [ err error ↦ err error | ok _ ↦ ok taking.handle ]) t

  -- Executing a client goes by the return code of the call of `rcl` that takes a response. With code 0,
  -- the callback that waits for the response's number is called with it and no longer waits; else the
  -- future that waits for it is sent it and no longer waits; else nothing changes; what waits for any
  -- other number is unchanged, and the result is a success. With the code that there is no response,
  -- 501, nothing changes, and the result is a success too. With any other, nothing changes, and the
  -- result is the error with this code's number.
  pub execute-Executes :
      (taking : RclCall (Response × ℤ)) (c : Client) → Executes c taking (execute taking c)
  unfolding execute discriminant
  execute-Executes taking c =
      let (res, id) = taking.handle in
      elim (to_rclrs_result-TakenBy taking.ret taking.message RclReturnCode.client_take_failed
        (λ z. cc z)) [
          | inl (z, t) ↦ inl (
            z,
            rw (took taking t)
                ((refl, (dispatch-Answers id res c).0, (dispatch-Answers id res c).1)),
          )
          | inr (inl (z, (msg, t))) ↦ inr (
              inl (
                z,
                rw (not_taken taking (rcl_error RclReturnCode.client_take_failed msg) t) (refl),
              ))
          | inr (inr (z, w, error, n, t)) ↦ inr (
              inr (
                z,
                w,
                error,
                n,
                rw (not_taken taking error t) (kept error c (λ same. w (cc (n, same)))),
              ))
        ]
