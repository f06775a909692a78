-- ===== src/Client/Requests/Delivered.antt =====
-- What becomes of a request (rclrs/src/client.rs) before and after its callback is stored.
use ros2_rust.Prelude.{
  ℕ, ◌≡◌, refl, ◌∙◌, sym, ap, subst, false, Option, none, some, List, [], ◌∷◌, ◌++◌, Result, ok,
  err, arith, Bool-cases, inl, inr, ◌⊎◌,
}
use ros2_rust.Prelude.Int.{ℤ, beq_ℤ, beq_ℤ_iff}
use ros2_rust.Parameter.Utf8.{Utf8}
use ros2_rust.ReturnCode.{RclCall, RclrsError, to_rclrs_result}
use ros2_rust.Client.{
  Client, Delivery, called, sent, dispatch, take_response, execute, execute_taken,
  async_send_request_with_callback, call_async, give,
}
use ros2_rust.Client.Dispatch.{insert_other, remove_other}
use ros2_rust.Client.Requests.{
  World, Step, Reach, Sent, Way, IsOnce, sends, finishes, executes, here, then_step, weight,
  waiting, logged, finish, sent_as, sent_as-append, new_world,
}
use ros2_rust.Client.Requests.Invariant.{
  Reach-IsOnce, new_world-IsOnce, delivered_once, execute_taken-Unchanged,
}

kept :
    ⦃u : Utf8⦄ (k : ℤ) (callback : ℕ) (way : Way) (s : RclCall ℤ) (n : ℕ) (c : Client)
    → beq_ℤ s.handle k ≡ false
    → c.requests k ≡ some callback
    → (finish way s n c).requests k ≡ some callback
unfolding async_send_request_with_callback call_async
kept k callback Way.by_callback s n c e h = ground (arith, insert_other s.handle n c.requests k e)
kept k callback Way.by_future s n c e h = ground arith

some-eq : (a b : ℕ) → some a ≡ some b → a ≡ b
some-eq a b h = cc

module _ {Response : Type 0} where
  -- The callback was called with a response for the number.
  abbrev pub Called : ℤ → ℕ → List (ℤ × Delivery Response) → Type 0
  Called k callback [] = ⊥
  Called k callback ((id, called c res) ∷ log) = ((id ≡ k) × (c ≡ callback)) ⊎ Called k callback log
  Called k callback ((id, sent f res) ∷ log) = Called k callback log

  -- The callback waits for its number, or it was called with a response for it.
  abbrev pub IsHandled : ℤ → ℕ → World Response → Type 0
  IsHandled k callback w = (w.client.requests k ≡ some callback) ⊎ Called k callback w.log

  Called-logged :
      (k id : ℤ) (callback : ℕ) (ds : List (Delivery Response)) (log : List (ℤ × Delivery Response))
      → Called k callback log
      → Called k callback (logged id ds log)
  Called-logged k id callback [] log h = h
  Called-logged k id callback (called c res ∷ ds) log h = inr (Called-logged k id callback ds log h)
  Called-logged k id callback (sent f res ∷ ds) log h = Called-logged k id callback ds log h

  module _ ⦃u : Utf8⦄ where
    given :
        (k id : ℤ) (callback : ℕ) (waits future : Option ℕ) (res : Response) (c : Client)
        (log : List (ℤ × Delivery Response))
        → c.requests id ≡ waits
        → c.futures id ≡ future
        → c.requests k ≡ some callback
        → ((give waits id res c).0.requests k ≡ some callback)
          ⊎ Called k callback (logged id (give waits id res c).1 log)
    given k id callback (some b) future res c log e f h = elim (Bool-cases (beq_ℤ id k)) [
      | inl q ↦ inr (
          inl (
            (beq_ℤ_iff id k).0 q,
            some-eq b callback (sym e ∙ ap c.requests ((beq_ℤ_iff id k).0 q) ∙ h),
          ))
      | inr q ↦ inl (remove_other id c.requests k q ∙ h)
    ]
    given k id callback none (some g) res c log e f h = inl (rw f h)
    given k id callback none none res c log e f h = inl (rw f h)

    taken_handled :
        (k id : ℤ) (callback : ℕ) (res : Response) (r : Result RclrsError (Unit {0})) (c : Client)
        (log : List (ℤ × Delivery Response))
        → c.requests k ≡ some callback
        → let out : Result RclrsError (Unit {0}) × Client × List (Delivery Response) =
            execute_taken (elim r [ err error ↦ err error | ok _ ↦ ok (res, id) ]) c in
          (out.1.requests k ≡ some callback) ⊎ Called k callback (logged id out.2 log)
    unfolding dispatch
    taken_handled k id callback res (ok _) c log h =
        given k id callback (c.requests id) (c.futures id) res c log refl refl h
    taken_handled k id callback res (err e) c log h = inl (rw ((execute_taken-Unchanged e c).0) h)

    execute-IsHandled :
        (k : ℤ) (callback : ℕ) (taking : RclCall (Response × ℤ)) (w : World Response)
        → IsHandled k callback w
        → IsHandled k callback (record w {
          client = (execute taking w.client).1;
          log = logged taking.handle.1 (execute taking w.client).2 w.log;
        })
    unfolding execute take_response
    execute-IsHandled k callback taking w (inl h) =
        taken_handled k taking.handle.1 callback taking.handle.0
          (to_rclrs_result taking.ret taking.message).0 w.client w.log h
    execute-IsHandled k callback taking w (inr h) =
        inr (Called-logged k taking.handle.1 callback (execute taking w.client).2 w.log h)

    other_number :
        (k : ℤ) (callback : ℕ) (before after : List Sent) (s : Sent) (w : World Response)
        → IsOnce w
        → w.pending ≡ before ++ (s ∷ after)
        → w.client.requests k ≡ some callback
        → beq_ℤ s.sending.handle k ≡ false
    unfolding weight waiting
    other_number k callback before after s w i e h =
        ground (arith, i.once k, ap (sent_as k) e, sent_as-append k before (s ∷ after), h)

    Step-IsHandled :
        (k : ℤ) (callback : ℕ) (w w' : World Response)
        → IsOnce w
        → Step w w'
        → IsHandled k callback w
        → IsHandled k callback w'
    Step-IsHandled k callback w w' i (sends s e q) h = subst (IsHandled k callback) (sym q) h
    Step-IsHandled k callback w w' i (finishes before after s e q) (inl h) =
        subst (IsHandled k callback) (sym q) (
          inl (
            kept k callback s.way s.sending s.name w.client
              (other_number k callback before after s w i e h) h))
    Step-IsHandled k callback w w' i (finishes before after s e q) (inr h) =
        subst (IsHandled k callback) (sym q) (inr h)
    Step-IsHandled k callback w w' i (executes taking q) h =
        subst (IsHandled k callback) (sym q) (execute-IsHandled k callback taking w h)

    pub Reach-IsHandled :
        (k : ℤ) (callback : ℕ) (w w' : World Response)
        → IsOnce w
        → Reach w w'
        → w.client.requests k ≡ some callback
        → IsHandled k callback w'
    Reach-IsHandled k callback w w' i here h = inl h
    Reach-IsHandled k callback w w' i (then_step v r s) h =
        Step-IsHandled k callback v w' (Reach-IsOnce w v i r) s
          (Reach-IsHandled k callback w v i r h)

    execute_ok :
        (taking : RclCall (Response × ℤ)) (c : Client) (res : Response) (k : ℤ)
        → take_response taking ≡ ok (res, k)
        → (execute taking c).0 ≡ ok tt
    unfolding execute
    execute_ok taking c res k t = rw t (refl)

    nothing_waits :
        (taking : RclCall (Response × ℤ)) (c : Client) (res : Response) (k : ℤ)
        → take_response taking ≡ ok (res, k)
        → waiting k c ≡ 0
        → execute taking c ≡ (ok tt, c, [])
    unfolding execute dispatch waiting
    nothing_waits taking c res k t z = rw t (ground arith)

    answered :
        (k : ℤ) (callback : ℕ) (res : Response) (taking : RclCall (Response × ℤ))
        (w : World Response)
        → take_response taking ≡ ok (res, k)
        → IsHandled k callback w
        → Called k callback (logged k (execute taking w.client).2 w.log)
    unfolding execute dispatch
    answered k callback res taking w t (inl h) = rw (t, h) (inl (refl, refl))
    answered k callback res taking w t (inr h) =
        Called-logged k k callback (execute taking w.client).2 w.log h

    -- Where `rcl` gives each request of the client a number that no other has: a callback that waits
    -- for a number in a state that requests and responses lead to is not lost: in any state that follows,
    -- once a response for the number is taken, the callback has been called with a response for the
    -- number.
    pub waiting_callback-Called :
        (k : ℤ) (callback : ℕ) (res : Response) (taking : RclCall (Response × ℤ))
        (w w' : World Response)
        → Reach new_world w
        → w.client.requests k ≡ some callback
        → Reach w w'
        → take_response taking ≡ ok (res, k)
        → ((execute taking w'.client).0 ≡ ok tt)
          × Called k callback (logged k (execute taking w'.client).2 w'.log)
    waiting_callback-Called k callback res taking w w' r h r' t = (
      execute_ok taking w'.client res k t,
      answered k callback res taking w' t
          (Reach-IsHandled k callback w w' (Reach-IsOnce new_world w new_world-IsOnce r) r' h),
    )

    -- A response that is executed while its request is sent and its callback or future not stored is
    -- lost: executing it succeeds, calls nothing and sends to nothing, and changes nothing of the
    -- client.
    pub early_response_lost :
        (before after : List Sent) (s : Sent) (res : Response) (taking : RclCall (Response × ℤ))
        (w : World Response)
        → Reach new_world w
        → w.pending ≡ before ++ (s ∷ after)
        → take_response taking ≡ ok (res, s.sending.handle)
        → execute taking w.client ≡ (ok tt, w.client, [])
    early_response_lost before after s res taking w r e t =
        nothing_waits taking w.client res s.sending.handle t (
          ground (
            arith,
            delivered_once w s.sending.handle r,
            ap (sent_as s.sending.handle) e,
            sent_as-append s.sending.handle before (s ∷ after),
          ))
