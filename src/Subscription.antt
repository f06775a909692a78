-- ===== src/Subscription.antt =====
-- rclrs/src/subscription.rs, rclrs/src/subscription/callback.rs, rclrs/src/subscription/message_info.rs and
-- rclrs/src/subscription/readonly_loaned_message.rs: what a subscription does with a message. A callback
-- changes the state `S` of the program; a time is its nanoseconds from the epoch.
pub mod Timestamps
pub mod Messages
use ros2_rust.Prelude.{
  ℕ, suc, ◌≡◌, Bool, true, false, Option, none, some, List, [], ◌∷◌, Result, ok, err, Outcome,
  returns, fails, panics, ◌>>=◌, from_result, if◌then◌else◌,
}
use ros2_rust.Prelude.Int.{ℤ, pos, negsuc, ◌+ℤ◌, ◌-ℤ◌, beq_ℤ, ltb_ℤ}
use ros2_rust.Prelude.Bytes.{Bytes}
use ros2_rust.Parameter.Utf8.{Utf8}
use ros2_rust.ReturnCode.{RclReturnCode, RclrsError, RclCall, rcl_error, to_rclrs_result, checked}

pub record PublisherGid : Type 0 where
  pub gid : Bytes
  pub implementation_identifier : ℕ

-- `rmw_message_info_t`
pub record RmwMessageInfo : Type 0 where
  pub source_timestamp : ℤ
  pub received_timestamp : ℤ
  pub publication_sequence_number : ℕ
  pub reception_sequence_number : ℕ
  pub publisher_gid : PublisherGid

pub record MessageInfo : Type 0 where
  pub source_timestamp : Option ℤ
  pub received_timestamp : Option ℤ
  pub publication_sequence_number : ℕ
  pub reception_sequence_number : ℕ
  pub publisher_gid : PublisherGid

-- `i64::unsigned_abs`
abbrev pub unsigned_abs : ℤ → ℕ
unsigned_abs (pos n) = n
unsigned_abs (negsuc n) = suc n

-- a timestamp in `from_rmw_message_info`, with the epoch at 0
unfoldable pub timestamp : ℤ → Option ℤ
timestamp ts =
    if beq_ℤ ts (pos 0)
    then none
    else if ltb_ℤ ts (pos 0)
    then some (pos 0 -ℤ pos (unsigned_abs ts))
    else some (pos 0 +ℤ pos (unsigned_abs ts))

-- `MessageInfo::from_rmw_message_info`
unfoldable pub from_rmw_message_info : RmwMessageInfo → MessageInfo
unfolding timestamp
from_rmw_message_info info = record {
  source_timestamp = timestamp info.source_timestamp;
  received_timestamp = timestamp info.received_timestamp;
  publication_sequence_number = info.publication_sequence_number;
  reception_sequence_number = info.reception_sequence_number;
  publisher_gid = info.publisher_gid;
}

-- A callback: of a message, a boxed message or a loaned one, which is of the type of `rmw`.
pub data AnySubscriptionCallback (M R S : Type 0) : Type 0 where
  regular : (M → S → S) → AnySubscriptionCallback M R S
  regular_with_message_info : (M → MessageInfo → S → S) → AnySubscriptionCallback M R S
  boxed : (M → S → S) → AnySubscriptionCallback M R S
  boxed_with_message_info : (M → MessageInfo → S → S) → AnySubscriptionCallback M R S
  loaned : (R → S → S) → AnySubscriptionCallback M R S
  loaned_with_message_info : (R → MessageInfo → S → S) → AnySubscriptionCallback M R S

-- What `rcl` does for a subscription: `rcl_take`, `rcl_take_loaned_message`, and the return of a loan.
pub record RclTaking (R : Type 0) : Type 0 where
  pub take : RclCall (R × RmwMessageInfo)
  pub take_loaned_message : RclCall (R × RmwMessageInfo)
  pub return_loaned_message : R → RclCall (Unit {0})

module _ {R : Type 0} ⦃u : Utf8⦄ where
  -- `Subscription::take_inner`
  unfoldable pub take_inner : RclTaking R → Outcome RclrsError (R × MessageInfo)
  take_inner rcl = do
    (rmw_message, info) ← checked rcl.take
    returns (rmw_message, from_rmw_message_info info)

  -- `Subscription::take_loaned`
  unfoldable pub take_loaned : RclTaking R → Outcome RclrsError (R × MessageInfo)
  take_loaned rcl = do
    (msg, info) ← checked rcl.take_loaned_message
    returns (msg, from_rmw_message_info info)

  -- `Drop for ReadOnlyLoanedMessage`
  unfoldable pub drop_loan : RclTaking R → R → Outcome ⊥ (Unit {0})
  drop_loan rcl msg =
      let r = rcl.return_loaned_message msg in
      elim (to_rclrs_result r.ret r.message).0 [ ok _ ↦ returns tt | err error ↦ panics ]

module _ {M R : Type 0} ⦃u : Utf8⦄ where
  -- `Subscription::take` and `take_boxed`, with the conversion of the message type
  unfoldable pub take : (R → M) → RclTaking R → Outcome RclrsError (M × MessageInfo)
  unfolding take_inner
  take from_rmw_message rcl = do
    (rmw_message, info) ← take_inner rcl
    returns (from_rmw_message rmw_message, info)

  unfoldable pub take_boxed : (R → M) → RclTaking R → Outcome RclrsError (M × MessageInfo)
  unfolding take_inner
  take_boxed from_rmw_message rcl = do
    (rmw_message, info) ← take_inner rcl
    returns (from_rmw_message rmw_message, info)

-- the match on the closure's result
abbrev pub ignore_spurious : Result RclrsError (Unit {0}) → Result RclrsError (Unit {0})
ignore_spurious (err (rcl_error RclReturnCode.subscription_take_failed msg)) = ok tt
ignore_spurious other = other

-- `?` on what is taken, and then the callback; an error leaves the closure with the state as it is
abbrev pub then_call :
    {A S : Type 0}
    → Outcome RclrsError A
    → (A → S → Outcome ⊥ S)
    → S
    → Outcome ⊥ (Result RclrsError (Unit {0}) × S)
then_call (returns taken) run s = run taken s >>= λ s'. returns (ok tt, s')
then_call (fails error) run s = returns (err error, s)
then_call panics run s = panics

module _ {M R S : Type 0} ⦃u : Utf8⦄ where
  -- the closure in `execute`; a loaned message is dropped when its callback returns
  unfoldable pub run_callback :
      AnySubscriptionCallback M R S
      → (R → M)
      → RclTaking R
      → S
      → Outcome ⊥ (Result RclrsError (Unit {0}) × S)
  unfolding take take_boxed take_loaned drop_loan
  run_callback (regular cb) conv rcl s =
      then_call (take conv rcl) (λ (msg, info) s. returns (cb msg s)) s
  run_callback (regular_with_message_info cb) conv rcl s =
      then_call (take conv rcl) (λ (msg, info) s. returns (cb msg info s)) s
  run_callback (boxed cb) conv rcl s =
      then_call (take_boxed conv rcl) (λ (msg, info) s. returns (cb msg s)) s
  run_callback (boxed_with_message_info cb) conv rcl s =
      then_call (take_boxed conv rcl) (λ (msg, info) s. returns (cb msg info s)) s
  run_callback (loaned cb) conv rcl s =
      then_call (take_loaned rcl)
        (λ (msg, info) s. let s' = cb msg s in drop_loan rcl msg >>= λ _. returns s') s
  run_callback (loaned_with_message_info cb) conv rcl s =
      then_call (take_loaned rcl)
        (λ (msg, info) s. let s' = cb msg info s in drop_loan rcl msg >>= λ _. returns s') s

  -- `SubscriptionBase::execute`, with the state that the callback leaves
  unfoldable pub execute :
      AnySubscriptionCallback M R S
      → (R → M)
      → RclTaking R
      → S
      → Outcome ⊥ (Result RclrsError (Unit {0}) × S)
  unfolding run_callback
  execute callback conv rcl s = do
    (result, s') ← run_callback callback conv rcl s
    returns (ignore_spurious result, s')
