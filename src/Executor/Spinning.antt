-- ===== src/Executor/Spinning.antt =====
-- When `spin` of rclrs/src/executor.rs returns, and with what.
use ros2_rust.Prelude.{
  ℕ, zero, suc, ◌≡◌, refl, Bool, true, false, Option, none, some, List, [], ◌∷◌, Result, ok, err,
  arith, inl, inr, Bool-cases,
}
use ros2_rust.Parameter.Utf8.{Utf8}
use ros2_rust.ReturnCode.{
  RclReturnCode, RclrsError, rcl_error, unknown_rcl_error, string_contains_nul,
  already_added_to_wait_set,
}
use ros2_rust.WaitSet.{Flags}
use ros2_rust.Executor.{Program, continue_with, spin_one, spin_nodes, spin_once, spin, usable}

module _ {R S : Type 0} (p : Program R S) ⦃u : Utf8⦄ where
  -- No node of the list lives and has a valid context.
  abbrev pub NoneUsable : S → List ℕ → Type 0
  NoneUsable s [] = Unit {0}
  NoneUsable s (n ∷ ns) = (usable p s n ≡ none) × NoneUsable s ns

  spin_once_nothing :
      (timeout : Option ℕ) (nodes : List ℕ) (s : S) (flags : Flags)
      → NoneUsable s nodes
      → spin_once p timeout nodes s flags ≡ (ok tt, s, flags)
  unfolding spin_once spin_nodes spin_one
  spin_once_nothing timeout [] s flags h = refl
  spin_once_nothing timeout (n ∷ ns) s flags (h, hs) =
      rw h (spin_once_nothing timeout ns s flags hs)

  never_returns :
      (rounds : ℕ) (n : ℕ) (ns : List ℕ) (s : S) (flags : Flags)
      → NoneUsable s (n ∷ ns)
      → p.yield_now (n ∷ ns, s) ≡ (n ∷ ns, s)
      → spin p rounds (n ∷ ns) s flags ≡ none
  unfolding spin
  never_returns zero n ns s flags h y = refl
  never_returns (suc k) n ns s flags h y =
      rw (spin_once_nothing none (n ∷ ns) s flags h, y) (never_returns k n ns s flags h y)

  -- While other threads leave it so, `spin` does not return, in any number of rounds, and each
  -- `spin_once` waits for nothing, from a list of nodes that is not empty, of which none lives and
  -- has a valid context.
  pub spin_forever :
      (rounds : ℕ) (n : ℕ) (ns : List ℕ) (s : S) (flags : Flags)
      → NoneUsable s (n ∷ ns)
      → p.yield_now (n ∷ ns, s) ≡ (n ∷ ns, s)
      → (spin p rounds (n ∷ ns) s flags ≡ none)
        × (spin_once p none (n ∷ ns) s flags ≡ (ok tt, s, flags))
  spin_forever rounds n ns s flags h y =
      (never_returns rounds n ns s flags h y, spin_once_nothing none (n ∷ ns) s flags h)

  abbrev pub is_timeout : RclrsError → Bool
  is_timeout (rcl_error RclReturnCode.timeout msg) = true
  is_timeout error = false

  -- What holds where `spin` returns.
  abbrev pub Returned : Option (Result RclrsError (Unit {0}) × List ℕ × S × Flags) → Type 0
  Returned none = Unit {0}
  Returned (some (ok _, nodes, s, flags)) = nodes ≡ []
  Returned (some (err error, nodes, s, flags)) =
      (is_timeout error ≡ false)
      × (s' : S) × (flags' : Flags) × (spin_once p none nodes s' flags' ≡ (err error, s, flags))

  module _
      (again : List ℕ
        → S
        → Flags
        → Option (Result RclrsError (Unit {0}) × List ℕ × S × Flags)) where
    leaves :
        (error : RclrsError) (nodes : List ℕ) (s : S) (flags : Flags)
        → is_timeout error ≡ false
        → continue_with p again nodes (err error, s, flags) ≡ some (err error, nodes, s, flags)
    leaves (rcl_error code msg) nodes s flags h = ground arith
    leaves (unknown_rcl_error code msg) nodes s flags h = refl
    leaves (string_contains_nul text) nodes s flags h = refl
    leaves already_added_to_wait_set nodes s flags h = refl

    goes_on :
        (error : RclrsError) (nodes : List ℕ) (s : S) (flags : Flags)
        → is_timeout error ≡ true
        → continue_with p again nodes (err error, s, flags)
          ≡ again (p.yield_now (nodes, s)).0 (p.yield_now (nodes, s)).1 flags
    goes_on (rcl_error code msg) nodes s flags h = ground arith
    goes_on (unknown_rcl_error code msg) nodes s flags h = cc
    goes_on (string_contains_nul text) nodes s flags h = cc
    goes_on already_added_to_wait_set nodes s flags h = cc

    continued :
        (nodes : List ℕ) (s' : S) (flags' : Flags) (out : Result RclrsError (Unit {0}) × S × Flags)
        → spin_once p none nodes s' flags' ≡ out
        → ((ns : List ℕ) (s : S) (flags : Flags) → Returned (again ns s flags))
        → Returned (continue_with p again nodes out)
    continued nodes s' flags' (ok _, s, flags) e h = h _ _ flags
    continued nodes s' flags' (err error, s, flags) e h = elim (Bool-cases (is_timeout error)) [
      | inl t ↦ rw (goes_on error nodes s flags t) (h _ _ flags)
      | inr t ↦ rw (leaves error nodes s flags t) ((t, s', flags', e))
    ]

  -- In whatever number of rounds `spin` returns, it returns a success only when the list of nodes is
  -- empty, and an error only when it is no timeout and a `spin_once` on these nodes fails with it.
  pub spin-Returned :
      (rounds : ℕ) (nodes : List ℕ) (s : S) (flags : Flags) → Returned (spin p rounds nodes s flags)
  unfolding spin
  spin-Returned zero nodes s flags = tt
  spin-Returned (suc k) [] s flags = refl
  spin-Returned (suc k) (n ∷ ns) s flags =
      continued (spin p k) (n ∷ ns) s flags (spin_once p none (n ∷ ns) s flags) refl
        (spin-Returned k)
