-- ===== src/Subscription/Messages.antt =====
-- What `execute` of rclrs/src/subscription.rs does with a message.
use ros2_rust.Prelude.{◌≡◌, ◌≢◌, refl, some, inl, inr, Result, ok, err, Outcome, returns, arith}
use ros2_rust.Parameter.Utf8.{Utf8}
use ros2_rust.ReturnCode.{
  RclReturnCode, discriminant, RclrsError, RclCall, rcl_error, unknown_rcl_error,
  string_contains_nul, already_added_to_wait_set, to_rclrs_result,
}
use ros2_rust.ReturnCode.Laws.{number}
use ros2_rust.ReturnCode.Taking.{TakenBy, to_rclrs_result-TakenBy}
use ros2_rust.Prelude.Int.{pos}
use ros2_rust.Subscription.{
  AnySubscriptionCallback, RmwMessageInfo, RclTaking, from_rmw_message_info, take_inner, take,
  take_boxed, take_loaned, drop_loan, run_callback, ignore_spurious, execute, regular,
  regular_with_message_info, boxed, boxed_with_message_info, loaned, loaned_with_message_info,
}

module _ {M R S : Type 0} where
  -- The call of `rcl` that a callback takes its message by.
  abbrev pub taking_of : AnySubscriptionCallback M R S → RclTaking R → RclCall (R × RmwMessageInfo)
  taking_of (regular cb) rcl = rcl.take
  taking_of (regular_with_message_info cb) rcl = rcl.take
  taking_of (boxed cb) rcl = rcl.take
  taking_of (boxed_with_message_info cb) rcl = rcl.take
  taking_of (loaned cb) rcl = rcl.take_loaned_message
  taking_of (loaned_with_message_info cb) rcl = rcl.take_loaned_message

  -- The callback, for a message of `rmw`.
  abbrev pub applied : AnySubscriptionCallback M R S → (R → M) → R × RmwMessageInfo → S → S
  applied (regular cb) conv (msg, info) s = cb (conv msg) s
  applied (regular_with_message_info cb) conv (msg, info) s =
      cb (conv msg) (from_rmw_message_info info) s
  applied (boxed cb) conv (msg, info) s = cb (conv msg) s
  applied (boxed_with_message_info cb) conv (msg, info) s =
      cb (conv msg) (from_rmw_message_info info) s
  applied (loaned cb) conv (msg, info) s = cb msg s
  applied (loaned_with_message_info cb) conv (msg, info) s = cb msg (from_rmw_message_info info) s

-- Only the error with the number of a spurious wakeup is ignored.
kept :
    (error : RclrsError)
    → number error ≢ some (pos (discriminant RclReturnCode.subscription_take_failed))
    → ignore_spurious (err error) ≡ err error
kept (rcl_error code msg) h = ground arith
kept (unknown_rcl_error code msg) h = refl
kept (string_contains_nul text) h = refl
kept already_added_to_wait_set h = refl

module _ {M R S : Type 0} ⦃u : Utf8⦄ (conv : R → M) (rcl : RclTaking R) where
  -- What `execute` does, by the return code of the call that takes the message.
  abbrev pub Receives :
      AnySubscriptionCallback M R S → S → Outcome ⊥ (Result RclrsError (Unit {0}) × S) → Type 0
  Receives callback s out =
      TakenBy (taking_of callback rcl).ret RclReturnCode.subscription_take_failed
        (out ≡ returns (ok tt, applied callback conv (taking_of callback rcl).handle s))
        (out ≡ returns (ok tt, s)) (λ error. out ≡ returns (err error, s))

  abbrev taken : AnySubscriptionCallback M R S → Result RclrsError (Unit {0})
  taken callback = (to_rclrs_result (taking_of callback rcl).ret (taking_of callback rcl).message).0

  ran :
      (callback : AnySubscriptionCallback M R S) (s : S)
      → ((msg : R) → drop_loan rcl msg ≡ returns tt)
      → taken callback ≡ ok tt
      → run_callback callback conv rcl s
        ≡ returns (ok tt, applied callback conv (taking_of callback rcl).handle s)
  unfolding run_callback take take_boxed take_loaned take_inner
  ran (regular cb) s d t = rw t (refl)
  ran (regular_with_message_info cb) s d t = rw t (refl)
  ran (boxed cb) s d t = rw t (refl)
  ran (boxed_with_message_info cb) s d t = rw t (refl)
  ran (loaned cb) s d t = rw (t, d rcl.take_loaned_message.handle.0) (refl)
  ran (loaned_with_message_info cb) s d t = rw (t, d rcl.take_loaned_message.handle.0) (refl)

  failed :
      (callback : AnySubscriptionCallback M R S) (s : S) (error : RclrsError)
      → taken callback ≡ err error
      → run_callback callback conv rcl s ≡ returns (err error, s)
  unfolding run_callback take take_boxed take_loaned take_inner
  failed (regular cb) s error t = rw t (refl)
  failed (regular_with_message_info cb) s error t = rw t (refl)
  failed (boxed cb) s error t = rw t (refl)
  failed (boxed_with_message_info cb) s error t = rw t (refl)
  failed (loaned cb) s error t = rw t (refl)
  failed (loaned_with_message_info cb) s error t = rw t (refl)

  -- Where `rcl` accepts the return of a loan, executing a subscription does not panic, and goes by the
  -- return code of the one call that takes a message in the way of the callback. With code 0, the
  -- callback is called with the message, or with the loaned one, and with its information where it asks
  -- for it, and the result is a success. With the code that there is no message, 401, the callback is
  -- not called, and the result is a success too. With any other, the callback is not called, and the
  -- result is the error with this code's number.
  pub execute-Receives :
      (callback : AnySubscriptionCallback M R S) (s : S)
      → ((msg : R) → drop_loan rcl msg ≡ returns tt)
      → Receives callback s (execute callback conv rcl s)
  unfolding execute discriminant
  execute-Receives callback s d =
      let call = taking_of callback rcl in
      elim (to_rclrs_result-TakenBy call.ret call.message RclReturnCode.subscription_take_failed
        (λ z. cc z)) [
          | inl (z, t) ↦ inl (z, rw (ran callback s d t) (refl))
          | inr (inl (z, (msg, t))) ↦ inr (
              inl (
                z,
                rw (failed callback s (rcl_error RclReturnCode.subscription_take_failed msg) t)
                    (refl),
              ))
          | inr (inr (z, w, error, n, t)) ↦ inr (
              inr (
                z,
                w,
                error,
                n,
                rw (failed callback s error t, kept error (λ same. w (cc (n, same)))) (refl),
              ))
        ]
