-- ===== src/Client/Requests/Invariant.antt =====
-- Each request's number stands in one place at each time, however sending, storing and executing
-- (rclrs/src/client.rs) interleave.
use ros2_rust.Prelude.{
  ◌+◌, ◌≤◌, ◌≡◌, false, refl, sym, ap, subst, List, [], ◌∷◌, ◌++◌, Result, ok, err, arith,
  Bool-cases, inl, inr,
}
use ros2_rust.Prelude.Int.{ℤ, beq_ℤ, beq_ℤ_iff}
use ros2_rust.Parameter.Utf8.{Utf8}
use ros2_rust.ReturnCode.{
  RclCall, RclrsError, rcl_error, unknown_rcl_error, string_contains_nul, already_added_to_wait_set,
  to_rclrs_result,
}
use ros2_rust.Client.{Client, Delivery, new_client, dispatch, take_response, execute, execute_taken}
use ros2_rust.Client.Requests.{
  World, Step, Reach, Sent, IsOnce, sends, finishes, executes, here, then_step, weight, waiting,
  delivered, logged, give-waiting, finish-waiting, finish, sent_as, sent_as-append, new_world,
  one_if, is_used,
}

module _ {Response : Type 0} where
  abbrev pub Unchanged :
      Client → Result RclrsError (Unit {0}) × Client × List (Delivery Response) → Type 0
  Unchanged c (result, c', done) = (c' ≡ c) × (done ≡ [])

  module _ ⦃u : Utf8⦄ where
    pub execute_taken-Unchanged :
        (e : RclrsError) (c : Client) → Unchanged c (execute_taken (err e) c)
    execute_taken-Unchanged (rcl_error code msg) c = ground arith
    execute_taken-Unchanged (unknown_rcl_error code msg) c = (refl, refl)
    execute_taken-Unchanged (string_contains_nul text) c = (refl, refl)
    execute_taken-Unchanged already_added_to_wait_set c = (refl, refl)

    taken_waiting :
        (k id : ℤ) (res : Response) (r : Result RclrsError (Unit {0})) (c : Client)
        (log : List (ℤ × Delivery Response))
        → let out : Result RclrsError (Unit {0}) × Client × List (Delivery Response) =
            execute_taken (elim r [ err error ↦ err error | ok _ ↦ ok (res, id) ]) c in
          waiting k out.1 + delivered k (logged id out.2 log) ≤ waiting k c + delivered k log
    unfolding dispatch
    taken_waiting k id res (ok _) c log =
        give-waiting k (c.requests id) (c.futures id) id res c log refl refl
    taken_waiting k id res (err e) c log =
        let (same, none_done) = execute_taken-Unchanged e c in rw (same, none_done) (omega arith)

    execute-waiting :
        (k : ℤ) (taking : RclCall (Response × ℤ)) (c : Client) (log : List (ℤ × Delivery Response))
        → waiting k (execute taking c).1
            + delivered k (logged taking.handle.1 (execute taking c).2 log)
          ≤ waiting k c + delivered k log
    unfolding execute take_response
    execute-waiting k taking c log =
        taken_waiting k taking.handle.1 taking.handle.0
          (to_rclrs_result taking.ret taking.message).0 c log

    pub execute-weight :
        (taking : RclCall (Response × ℤ)) (w : World Response) (k : ℤ)
        → weight k (record w {
          client = (execute taking w.client).1;
          log = logged taking.handle.1 (execute taking w.client).2 w.log;
        })
          ≤ weight k w
    unfolding weight
    execute-weight taking w k = omega (arith, execute-waiting k taking w.client w.log)

    pub finish-weight :
        (before after : List Sent) (s : Sent) (w : World Response) (k : ℤ)
        → w.pending ≡ before ++ (s ∷ after)
        → weight k (record w {
          client = finish s.way s.sending s.name w.client;
          pending = before ++ after;
        })
          ≤ weight k w
    unfolding weight
    finish-weight before after s w k e = omega (
      arith,
      finish-waiting k s.way s.sending s.name w.client,
      sent_as-append k before after,
      sent_as-append k before (s ∷ after),
      ap (sent_as k) e,
    )

    send-weight :
        (w : World Response) (s : Sent) (k : ℤ)
        → weight k (record w { used = s.sending.handle ∷ w.used; pending = s ∷ w.pending })
          ≡ one_if (beq_ℤ s.sending.handle k) + weight k w
    unfolding weight
    send-weight w s k = omega arith

    send-IsOnce :
        (w : World Response) (s : Sent)
        → IsOnce w
        → is_used s.sending.handle w.used ≡ false
        → IsOnce (record w { used = s.sending.handle ∷ w.used; pending = s ∷ w.pending })
    send-IsOnce w s i e = record {
      once = λ k. rw (send-weight w s k) (elim (Bool-cases (beq_ℤ s.sending.handle k)) [
        | inl b ↦
            subst (λ j. one_if (beq_ℤ s.sending.handle j) + weight j w ≤ 1)
              ((beq_ℤ_iff s.sending.handle k).0 b) (ground (arith, i.fresh s.sending.handle e))
        | inr b ↦ rw b (omega (arith, i.once k))
      ]);
      fresh = λ k h. elim (Bool-cases (beq_ℤ s.sending.handle k)) [
        | inl b ↦ cc (b, h)
        | inr b ↦ rw (send-weight w s k, b) (omega (arith, i.fresh k (rw b at h)))
      ];
    }

    lighter :
        (w w' : World Response)
        → IsOnce w
        → w'.used ≡ w.used
        → ((k : ℤ) → weight k w' ≤ weight k w)
        → IsOnce w'
    lighter w w' i e h = record {
      once = λ k. omega (arith, h k, i.once k);
      fresh = λ k l. omega (arith, h k, i.fresh k (rw e at l));
    }

    pub Step-IsOnce : (w w' : World Response) → Step w w' → IsOnce w → IsOnce w'
    Step-IsOnce w w' (sends s e q) i = subst IsOnce (sym q) (send-IsOnce w s i e)
    Step-IsOnce w w' (finishes before after s e q) i =
        subst IsOnce (sym q) (lighter w _ i refl (λ k. finish-weight before after s w k e))
    Step-IsOnce w w' (executes taking q) i =
        subst IsOnce (sym q) (lighter w _ i refl (execute-weight taking w))

    pub new_world-IsOnce : IsOnce {Response = Response} new_world
    unfolding weight new_client waiting
    new_world-IsOnce = record { once = λ k. omega arith; fresh = λ k h. refl }

    pub Reach-IsOnce : (v w : World Response) → IsOnce v → Reach v w → IsOnce w
    Reach-IsOnce v w i here = i
    Reach-IsOnce v w i (then_step w' r s) = Step-IsOnce w' w s (Reach-IsOnce v w' i r)

    -- Where `rcl` gives each request of the client a number that no other has: however requests are
    -- sent and stored and responses executed, in any order of these steps, at
    -- most one response is delivered for each number, to one callback or future, and none while the
    -- request is sent and not stored or while a callback or future waits for the number.
    pub delivered_once :
        (w : World Response) (k : ℤ)
        → Reach new_world w
        → sent_as k w.pending + waiting k w.client + delivered k w.log ≤ 1
    unfolding weight
    delivered_once w k r = (Reach-IsOnce new_world w new_world-IsOnce r).once k
