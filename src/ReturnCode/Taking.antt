-- ===== src/ReturnCode/Taking.antt =====
-- What a call of `rcl` comes to, by its return code and `to_rclrs_result` of rclrs/src/error.rs.
use ros2_rust.Prelude.{
  ◌≡◌, ◌≢◌, ◌⊎◌, refl, ◌∙◌, ap, false, Option, some, Result, ok, err, Bool-cases, inl, inr,
}
use ros2_rust.Prelude.Int.{ℤ, pos, beq_ℤ, beq_ℤ_iff}
use ros2_rust.Prelude.Bytes.{Bytes}
use ros2_rust.Parameter.Utf8.{Utf8}
use ros2_rust.ReturnCode.{
  RclReturnCode, discriminant, try_from, RclrsError, rcl_error, to_rclrs_result, message_text,
  known_or_not,
}
use ros2_rust.ReturnCode.Laws.{number, numbered, try_from-discriminant}

-- What taking from `rcl` comes to, by its return code: something is taken, or there was nothing,
-- which has a code of its own, or it fails with an error of the code's number.
abbrev pub TakenBy : ℤ → RclReturnCode → Type 0 → Type 0 → (RclrsError → Type 0) → Type 0
TakenBy ret nothing_there Taken Nothing Failed =
    ((ret ≡ pos 0) × Taken)
    ⊎ ((ret ≡ pos (discriminant nothing_there)) × Nothing)
    ⊎ ((ret ≢ pos 0)
        × (ret ≢ pos (discriminant nothing_there))
        × (e : RclrsError) × (number e ≡ some ret)
        × Failed e)

-- The result of a call of `rcl` by its return code.
abbrev pub ReturnedBy : ℤ → Result RclrsError (Unit {0}) → Type 0
ReturnedBy ret result =
    ((ret ≡ pos 0) × (result ≡ ok tt))
    ⊎ ((ret ≢ pos 0) × (e : RclrsError) × (number e ≡ some ret) × (result ≡ err e))

module _ ⦃u : Utf8⦄ where
  pub to_rclrs_result-ReturnedBy :
      (ret : ℤ) (state : Option Bytes) → ReturnedBy ret (to_rclrs_result ret state).0
  unfolding to_rclrs_result
  to_rclrs_result-ReturnedBy ret state = elim (Bool-cases (beq_ℤ ret (pos 0))) [
    | inl e ↦ inl ((beq_ℤ_iff ret (pos 0)).0 e, rw e (refl))
    | inr e ↦ inr (
      λ z. cc (e, (beq_ℤ_iff ret (pos 0)).1 z),
      known_or_not (try_from ret) (message_text state),
      numbered ret (try_from ret) (message_text state) refl,
      rw e (refl),
    )
  ]

  returned_error :
      (ret : ℤ) (state : Option Bytes)
      → beq_ℤ ret (pos 0) ≡ false
      → (to_rclrs_result ret state).0 ≡ err (known_or_not (try_from ret) (message_text state))
  unfolding to_rclrs_result
  returned_error ret state e = rw e (refl)

  known_code :
      (nothing_there : RclReturnCode) (msg : Option Bytes)
      → known_or_not (try_from (pos (discriminant nothing_there))) msg ≡ rcl_error nothing_there msg
  known_code nothing_there msg = rw (try_from-discriminant nothing_there) (refl)

  pub to_rclrs_result-TakenBy :
      (ret : ℤ) (state : Option Bytes) (nothing_there : RclReturnCode)
      → pos (discriminant nothing_there) ≢ pos 0
      → TakenBy ret nothing_there
          ((to_rclrs_result ret state).0 ≡ ok tt)
          ((msg : Option Bytes) × ((to_rclrs_result ret state).0
              ≡ err (rcl_error nothing_there msg)))
          (λ e. (to_rclrs_result ret state).0 ≡ err e)
  unfolding to_rclrs_result
  to_rclrs_result-TakenBy ret state nothing_there other = elim (Bool-cases (beq_ℤ ret (pos 0))) [
    | inl e ↦ inl ((beq_ℤ_iff ret (pos 0)).0 e, rw e (refl))
    | inr e ↦ elim (Bool-cases (beq_ℤ ret (pos (discriminant nothing_there)))) [
      | inl f ↦
          let same = (beq_ℤ_iff ret (pos (discriminant nothing_there))).0 f in
          inr (
            inl (
              same,
              (
                message_text state,
                returned_error ret state e
                    ∙ ap (λ k. err (known_or_not (try_from k) (message_text state))) same
                    ∙ ap err (known_code nothing_there (message_text state)),
              ),
            ))
      | inr f ↦ inr (
          inr (
            λ z. cc (e, (beq_ℤ_iff ret (pos 0)).1 z),
            λ z. cc (f, (beq_ℤ_iff ret (pos (discriminant nothing_there))).1 z),
            known_or_not (try_from ret) (message_text state),
            numbered ret (try_from ret) (message_text state) refl,
            rw e (refl),
          ))
    ]
  ]
