-- ===== src/ReturnCode/Laws.antt =====
-- The conversion of return codes to results loses no code.
use ros2_rust.Prelude.{
  ◌≡◌, ◌≢◌, ◌↔◌, refl, sym, ◌∙◌, ap, true, false, Option, none, some, List, [], ◌∷◌, Result, ok,
  err, Bool-cases, inl, inr,
}
use ros2_rust.Prelude.Int.{ℤ, pos, beq_ℤ, beq_ℤ_iff}
use ros2_rust.Prelude.Bytes.{Bytes}
use ros2_rust.Parameter.Utf8.{Utf8}
use ros2_rust.ReturnCode.{
  RclReturnCode, discriminant, arms, first_arm, try_from, RclrsError, rcl_error, unknown_rcl_error,
  to_rclrs_result, message_text, known_or_not,
}

pub try_from-discriminant : (c : RclReturnCode) → try_from (pos (discriminant c)) ≡ ok c
unfolding try_from discriminant
try_from-discriminant RclReturnCode.ok = refl
try_from-discriminant RclReturnCode.error = refl
try_from-discriminant RclReturnCode.timeout = refl
try_from-discriminant RclReturnCode.unsupported = refl
try_from-discriminant RclReturnCode.bad_alloc = refl
try_from-discriminant RclReturnCode.invalid_argument = refl
try_from-discriminant RclReturnCode.already_init = refl
try_from-discriminant RclReturnCode.not_init = refl
try_from-discriminant RclReturnCode.mismatched_rmw_id = refl
try_from-discriminant RclReturnCode.topic_name_invalid = refl
try_from-discriminant RclReturnCode.service_name_invalid = refl
try_from-discriminant RclReturnCode.unknown_substitution = refl
try_from-discriminant RclReturnCode.already_shutdown = refl
try_from-discriminant RclReturnCode.node_invalid = refl
try_from-discriminant RclReturnCode.node_invalid_name = refl
try_from-discriminant RclReturnCode.node_invalid_namespace = refl
try_from-discriminant RclReturnCode.node_name_nonexistent = refl
try_from-discriminant RclReturnCode.publisher_invalid = refl
try_from-discriminant RclReturnCode.subscription_invalid = refl
try_from-discriminant RclReturnCode.subscription_take_failed = refl
try_from-discriminant RclReturnCode.client_invalid = refl
try_from-discriminant RclReturnCode.client_take_failed = refl
try_from-discriminant RclReturnCode.service_invalid = refl
try_from-discriminant RclReturnCode.service_take_failed = refl
try_from-discriminant RclReturnCode.timer_invalid = refl
try_from-discriminant RclReturnCode.timer_canceled = refl
try_from-discriminant RclReturnCode.wait_set_invalid = refl
try_from-discriminant RclReturnCode.wait_set_empty = refl
try_from-discriminant RclReturnCode.wait_set_full = refl
try_from-discriminant RclReturnCode.invalid_remap_rule = refl
try_from-discriminant RclReturnCode.wrong_lexeme = refl
try_from-discriminant RclReturnCode.invalid_ros_args = refl
try_from-discriminant RclReturnCode.invalid_param_rule = refl
try_from-discriminant RclReturnCode.invalid_log_level_rule = refl
try_from-discriminant RclReturnCode.event_invalid = refl
try_from-discriminant RclReturnCode.event_take_failed = refl
try_from-discriminant RclReturnCode.lifecycle_state_registered = refl
try_from-discriminant RclReturnCode.lifecycle_state_not_registered = refl

-- Each arm's result is the member that it tests.
abbrev Matching : List (RclReturnCode × RclReturnCode) → Type 0
Matching [] = Unit {0}
Matching ((tested, arm) ∷ rest) = (tested ≡ arm) × Matching rest

arms-Matching : Matching arms
arms-Matching = (
  refl,
  (
    refl,
    (
      refl,
      (
        refl,
        (
          refl,
          (
            refl,
            (
              refl,
              (
                refl,
                (
                  refl,
                  (
                    refl,
                    (
                      refl,
                      (
                        refl,
                        (
                          refl,
                          (
                            refl,
                            (
                              refl,
                              (
                                refl,
                                (
                                  refl,
                                  (
                                    refl,
                                    (
                                      refl,
                                      (
                                        refl,
                                        (
                                          refl,
                                          (
                                            refl,
                                            (
                                              refl,
                                              (
                                                refl,
                                                (
                                                  refl,
                                                  (
                                                    refl,
                                                    (
                                                      refl,
                                                      (
                                                        refl,
                                                        (
                                                          refl,
                                                          (
                                                            refl,
                                                            (
                                                            refl,
                                                            (
                                                            refl,
                                                            (
                                                            refl,
                                                            (
                                                            refl,
                                                            (refl, (refl, (refl, (refl, tt)))),
                                                            ),
                                                            ),
                                                            ),
                                                            ),
                                                          ),
                                                        ),
                                                      ),
                                                    ),
                                                  ),
                                                ),
                                              ),
                                            ),
                                          ),
                                        ),
                                      ),
                                    ),
                                  ),
                                ),
                              ),
                            ),
                          ),
                        ),
                      ),
                    ),
                  ),
                ),
              ),
            ),
          ),
        ),
      ),
    ),
  ),
)

arm_taken :
    (tested arm : RclReturnCode) (rest : List (RclReturnCode × RclReturnCode)) (value : ℤ)
    (c : RclReturnCode)
    → beq_ℤ value (pos (discriminant tested)) ≡ true
    → first_arm ((tested, arm) ∷ rest) value ≡ ok c
    → arm ≡ c
unfolding first_arm
arm_taken tested arm rest value c e h = cc (e, h)

arm_passed :
    (tested arm : RclReturnCode) (rest : List (RclReturnCode × RclReturnCode)) (value : ℤ)
    (c : RclReturnCode)
    → beq_ℤ value (pos (discriminant tested)) ≡ false
    → first_arm ((tested, arm) ∷ rest) value ≡ ok c
    → first_arm rest value ≡ ok c
unfolding first_arm
arm_passed tested arm rest value c e h = cc (e, h)

first_arm_err :
    (cs : List (RclReturnCode × RclReturnCode)) (value code : ℤ)
    → first_arm cs value ≡ err code
    → code ≡ value
unfolding first_arm
first_arm_err [] value code h = cc
first_arm_err ((tested, arm) ∷ rest) value code h =
    elim (Bool-cases (beq_ℤ value (pos (discriminant tested)))) [
      | inl e ↦ cc
      | inr e ↦ first_arm_err rest value code (cc (e, h))
    ]

first_arm_sound :
    (cs : List (RclReturnCode × RclReturnCode)) (value : ℤ) (c : RclReturnCode)
    → Matching cs
    → first_arm cs value ≡ ok c
    → pos (discriminant c) ≡ value
unfolding first_arm
first_arm_sound [] value c m h = cc
first_arm_sound ((tested, arm) ∷ rest) value c (same, m) h =
    elim (Bool-cases (beq_ℤ value (pos (discriminant tested)))) [
      | inl e ↦
          ap (λ k. pos (discriminant k)) (sym (same ∙ arm_taken tested arm rest value c e h))
          ∙ sym ((beq_ℤ_iff value (pos (discriminant tested))).0 e)
      | inr e ↦ first_arm_sound rest value c m (arm_passed tested arm rest value c e h)
    ]

-- The conversion of an `i32` to a return code is inverse to the discriminant: each code comes back,
-- and whatever converts has the number of its code.
pub try_from_iff :
    (value : ℤ) (c : RclReturnCode) → (try_from value ≡ ok c) ↔ (value ≡ pos (discriminant c))
unfolding try_from
try_from_iff value c = (
  λ h. sym (first_arm_sound arms value c arms-Matching h),
  λ e. ap try_from e ∙ try_from-discriminant c,
)

abbrev pub number : RclrsError → Option ℤ
number (rcl_error c msg) = some (pos (discriminant c))
number (unknown_rcl_error value msg) = some value
number e = none

pub numbered :
    (ret : ℤ) (r : Result ℤ RclReturnCode) (msg : Option Bytes)
    → try_from ret ≡ r
    → number (known_or_not r msg) ≡ some ret
unfolding try_from
numbered ret (ok c) msg h = ap some (first_arm_sound arms ret c arms-Matching h)
numbered ret (err code) msg h = ap some (first_arm_err arms ret code h)

-- A return code other than 0 gives an error that has the code's number, whether the code is known
-- or not, and resets the error state.
pub to_rclrs_result-number :
    ⦃u : Utf8⦄ (ret : ℤ) (state : Option Bytes)
    → ret ≢ pos 0
    → (e : RclrsError) × (to_rclrs_result ret state ≡ (err e, none)) × (number e ≡ some ret)
unfolding to_rclrs_result
to_rclrs_result-number ret state h = elim (Bool-cases (beq_ℤ ret (pos 0))) [
  | inl e ↦ absurd (h ((beq_ℤ_iff ret (pos 0)).0 e))
  | inr e ↦ (
    known_or_not (try_from ret) (message_text state),
    rw e,
    numbered ret (try_from ret) (message_text state) refl,
  )
]
