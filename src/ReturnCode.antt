-- ===== src/ReturnCode.antt =====
-- rclrs/src/error.rs: the return codes of `rcl` and their conversion to results. An `i32` is an integer.
pub mod Laws
pub mod Taking
use ros2_rust.Prelude.{
  ℕ, ◌≡◌, Bool, Option, none, some, List, [], ◌∷◌, Result, err, Outcome, returns, ◌>>=◌,
  from_result, if◌then◌else◌,
}
use ros2_rust.Prelude.Int.{ℤ, pos, beq_ℤ}
use ros2_rust.Prelude.Bytes.{Bytes}
use ros2_rust.Parameter.Utf8.{Utf8, to_cstr}

pub data RclReturnCode : Type 0 where
  ok error timeout unsupported bad_alloc invalid_argument already_init not_init : RclReturnCode
  mismatched_rmw_id topic_name_invalid service_name_invalid unknown_substitution : RclReturnCode
  already_shutdown node_invalid node_invalid_name node_invalid_namespace : RclReturnCode
  node_name_nonexistent publisher_invalid subscription_invalid : RclReturnCode
  subscription_take_failed client_invalid client_take_failed service_invalid : RclReturnCode
  service_take_failed timer_invalid timer_canceled wait_set_invalid wait_set_empty : RclReturnCode
  wait_set_full invalid_remap_rule wrong_lexeme invalid_ros_args invalid_param_rule : RclReturnCode
  invalid_log_level_rule event_invalid event_take_failed lifecycle_state_registered : RclReturnCode
  lifecycle_state_not_registered : RclReturnCode

-- the values of the enumeration's members
unfoldable pub discriminant : RclReturnCode → ℕ
discriminant RclReturnCode.ok = 0
discriminant RclReturnCode.error = 1
discriminant RclReturnCode.timeout = 2
discriminant RclReturnCode.unsupported = 3
discriminant RclReturnCode.bad_alloc = 10
discriminant RclReturnCode.invalid_argument = 11
discriminant RclReturnCode.already_init = 100
discriminant RclReturnCode.not_init = 101
discriminant RclReturnCode.mismatched_rmw_id = 102
discriminant RclReturnCode.topic_name_invalid = 103
discriminant RclReturnCode.service_name_invalid = 104
discriminant RclReturnCode.unknown_substitution = 105
discriminant RclReturnCode.already_shutdown = 106
discriminant RclReturnCode.node_invalid = 200
discriminant RclReturnCode.node_invalid_name = 201
discriminant RclReturnCode.node_invalid_namespace = 202
discriminant RclReturnCode.node_name_nonexistent = 203
discriminant RclReturnCode.publisher_invalid = 300
discriminant RclReturnCode.subscription_invalid = 400
discriminant RclReturnCode.subscription_take_failed = 401
discriminant RclReturnCode.client_invalid = 500
discriminant RclReturnCode.client_take_failed = 501
discriminant RclReturnCode.service_invalid = 600
discriminant RclReturnCode.service_take_failed = 601
discriminant RclReturnCode.timer_invalid = 800
discriminant RclReturnCode.timer_canceled = 801
discriminant RclReturnCode.wait_set_invalid = 900
discriminant RclReturnCode.wait_set_empty = 901
discriminant RclReturnCode.wait_set_full = 902
discriminant RclReturnCode.invalid_remap_rule = 1001
discriminant RclReturnCode.wrong_lexeme = 1002
discriminant RclReturnCode.invalid_ros_args = 1003
discriminant RclReturnCode.invalid_param_rule = 1010
discriminant RclReturnCode.invalid_log_level_rule = 1020
discriminant RclReturnCode.event_invalid = 2000
discriminant RclReturnCode.event_take_failed = 2001
discriminant RclReturnCode.lifecycle_state_registered = 3000
discriminant RclReturnCode.lifecycle_state_not_registered = 3001

-- the arms of `RclReturnCode::try_from`: the member whose number is tested, and the result
abbrev pub arms : List (RclReturnCode × RclReturnCode)
arms =
    (RclReturnCode.ok, RclReturnCode.ok)
    ∷ (RclReturnCode.error, RclReturnCode.error)
    ∷ (RclReturnCode.timeout, RclReturnCode.timeout)
    ∷ (RclReturnCode.unsupported, RclReturnCode.unsupported)
    ∷ (RclReturnCode.bad_alloc, RclReturnCode.bad_alloc)
    ∷ (RclReturnCode.invalid_argument, RclReturnCode.invalid_argument)
    ∷ (RclReturnCode.already_init, RclReturnCode.already_init)
    ∷ (RclReturnCode.not_init, RclReturnCode.not_init)
    ∷ (RclReturnCode.mismatched_rmw_id, RclReturnCode.mismatched_rmw_id)
    ∷ (RclReturnCode.topic_name_invalid, RclReturnCode.topic_name_invalid)
    ∷ (RclReturnCode.service_name_invalid, RclReturnCode.service_name_invalid)
    ∷ (RclReturnCode.unknown_substitution, RclReturnCode.unknown_substitution)
    ∷ (RclReturnCode.already_shutdown, RclReturnCode.already_shutdown)
    ∷ (RclReturnCode.node_invalid, RclReturnCode.node_invalid)
    ∷ (RclReturnCode.node_invalid_name, RclReturnCode.node_invalid_name)
    ∷ (RclReturnCode.node_invalid_namespace, RclReturnCode.node_invalid_namespace)
    ∷ (RclReturnCode.node_name_nonexistent, RclReturnCode.node_name_nonexistent)
    ∷ (RclReturnCode.publisher_invalid, RclReturnCode.publisher_invalid)
    ∷ (RclReturnCode.subscription_invalid, RclReturnCode.subscription_invalid)
    ∷ (RclReturnCode.subscription_take_failed, RclReturnCode.subscription_take_failed)
    ∷ (RclReturnCode.client_invalid, RclReturnCode.client_invalid)
    ∷ (RclReturnCode.client_take_failed, RclReturnCode.client_take_failed)
    ∷ (RclReturnCode.service_invalid, RclReturnCode.service_invalid)
    ∷ (RclReturnCode.service_take_failed, RclReturnCode.service_take_failed)
    ∷ (RclReturnCode.timer_invalid, RclReturnCode.timer_invalid)
    ∷ (RclReturnCode.timer_canceled, RclReturnCode.timer_canceled)
    ∷ (RclReturnCode.wait_set_invalid, RclReturnCode.wait_set_invalid)
    ∷ (RclReturnCode.wait_set_empty, RclReturnCode.wait_set_empty)
    ∷ (RclReturnCode.wait_set_full, RclReturnCode.wait_set_full)
    ∷ (RclReturnCode.invalid_remap_rule, RclReturnCode.invalid_remap_rule)
    ∷ (RclReturnCode.wrong_lexeme, RclReturnCode.wrong_lexeme)
    ∷ (RclReturnCode.invalid_ros_args, RclReturnCode.invalid_ros_args)
    ∷ (RclReturnCode.invalid_param_rule, RclReturnCode.invalid_param_rule)
    ∷ (RclReturnCode.invalid_log_level_rule, RclReturnCode.invalid_log_level_rule)
    ∷ (RclReturnCode.event_invalid, RclReturnCode.event_invalid)
    ∷ (RclReturnCode.event_take_failed, RclReturnCode.event_take_failed)
    ∷ (RclReturnCode.lifecycle_state_registered, RclReturnCode.lifecycle_state_registered)
    ∷ (RclReturnCode.lifecycle_state_not_registered, RclReturnCode.lifecycle_state_not_registered)
    ∷ []

-- `x if x == tested as i32 => arm`, from the first arm on
unfoldable pub first_arm : List (RclReturnCode × RclReturnCode) → ℤ → Result ℤ RclReturnCode
unfolding discriminant
first_arm [] value = err value
first_arm ((tested, arm) ∷ rest) value =
    let later = first_arm rest value in
    if beq_ℤ value (pos (discriminant tested)) then Result.ok arm else later

-- `TryFrom<i32> for RclReturnCode`
unfoldable pub try_from : ℤ → Result ℤ RclReturnCode
unfolding first_arm
try_from value = first_arm arms value

pub data RclrsError : Type 0 where
  rcl_error : RclReturnCode → Option Bytes → RclrsError
  unknown_rcl_error : ℤ → Option Bytes → RclrsError
  string_contains_nul : Bytes → RclrsError
  already_added_to_wait_set : RclrsError

abbrev message_text : ⦃u : Utf8⦄ → Option Bytes → Option Bytes
message_text none = none
message_text ⦃u⦄ (some raw) = some (u.lossy (to_cstr raw))

abbrev known_or_not : Result ℤ RclReturnCode → Option Bytes → RclrsError
known_or_not (Result.ok code) msg = rcl_error code msg
known_or_not (err code) msg = unknown_rcl_error code msg

-- `to_rclrs_result`, with the message of the thread's error state before and after
unfoldable pub to_rclrs_result :
    ⦃u : Utf8⦄ → ℤ → Option Bytes → Result RclrsError (Unit {0}) × Option Bytes
unfolding try_from
to_rclrs_result ret state =
    if beq_ℤ ret (pos 0)
    then (Result.ok tt, state)
    else (err (known_or_not (try_from ret) (message_text state)), none)

-- What a call of `rcl` leaves: its return code, the message of the error state, and what it changes
-- or gives back.
pub record RclCall (R : Type 0) : Type 0 where
  pub ret : ℤ
  pub message : Option Bytes
  pub handle : R

-- `.ok()?`, and then what the call gave back
abbrev pub checked : ⦃u : Utf8⦄ {R : Type 0} → RclCall R → Outcome RclrsError R
checked call = from_result (to_rclrs_result call.ret call.message).0 >>= λ _. returns call.handle
