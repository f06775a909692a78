-- ===== src/WaitSet/Exclusive.antt =====
-- An entity is in at most one wait set, and its flag says whether it is in one.
use ros2_rust.Prelude.{
  ℕ, ◌+◌, ◌≡◌, refl, sym, ap, ◌∙◌, subst, Bool, true, false, Option, List, [], ◌∷◌, ◌++◌, Result,
  ok, err, ltb, ◌==◌, if◌then◌else◌, arith, Bool-cases, inl, inr,
}
use ros2_rust.Prelude.Int.{ℤ}
use ros2_rust.Parameter.Utf8.{Utf8}
use ros2_rust.ReturnCode.{RclCall, RclrsError, already_added_to_wait_set, to_rclrs_result}
use ros2_rust.WaitSet.{
  Kind, Rcl, Flags, store, WaitSet, new_guard, drop_guard, drop_guards, push, release, register,
  add, clear, wait, timeout_ns,
}

abbrev pub bit : Bool → ℕ
bit true = 1
bit false = 0

abbrev count : ℕ → List ℕ → ℕ
count e [] = 0
count e (x ∷ xs) = (if x == e then 1 else 0) + count e xs

count-push :
    (e x : ℕ) (xs : List ℕ) → count e (xs ++ x ∷ []) ≡ count e xs + (if x == e then 1 else 0)
count-push e x [] = omega arith
count-push e x (y ∷ xs) = omega (arith, count-push e x xs)

drop_guards_lem :
    (es : List ℕ) (flags : Flags) (e : ℕ)
    → drop_guards es flags e ≡ (if ltb 0 (count e es) then false else flags e)
unfolding drop_guards drop_guard store
drop_guards_lem [] flags e = refl
drop_guards_lem (x ∷ es) flags e = ground (arith, drop_guards_lem es (drop_guard x flags) e)

module _ {R : Type 0} where
  -- How many guards for an entity a wait set has.
  abbrev pub held : ℕ → WaitSet R → ℕ
  held e w =
      count e w.subscriptions + count e w.clients + count e w.guard_conditions + count e w.services

  -- Where `others` counts the guards outside of this wait set: there is one guard for an entity if
  -- its flag is set, and none if it is not.
  pub record IsExclusive (others : ℕ → ℕ) (w : WaitSet R) (flags : Flags) : Type 0 where
    pub one : (e : ℕ) → others e + held e w ≡ bit (flags e)

  held-push :
      (k : Kind) (e x : ℕ) (w : WaitSet R)
      → held e (push k x w) ≡ held e w + (if x == e then 1 else 0)
  unfolding push
  held-push Kind.subscription e x w = omega (arith, count-push e x w.subscriptions)
  held-push Kind.client e x w = omega (arith, count-push e x w.clients)
  held-push Kind.guard_condition e x w = omega (arith, count-push e x w.guard_conditions)
  held-push Kind.service e x w = omega (arith, count-push e x w.services)

  release_lem :
      (w : WaitSet R) (flags : Flags) (e : ℕ)
      → release w flags e ≡ (if ltb 0 (held e w) then false else flags e)
  unfolding release
  release_lem w flags e = ground (
    arith,
    drop_guards_lem w.services
        (drop_guards w.clients (drop_guards w.guard_conditions (drop_guards w.subscriptions flags)))
        e,
    drop_guards_lem w.clients (drop_guards w.guard_conditions (drop_guards w.subscriptions flags))
        e,
    drop_guards_lem w.guard_conditions (drop_guards w.subscriptions flags) e,
    drop_guards_lem w.subscriptions flags e,
  )

  pub released :
      (others : ℕ → ℕ) (w : WaitSet R) (flags : Flags)
      → IsExclusive others w flags
      → (e : ℕ) → others e ≡ bit (release w flags e)
  released others w flags x e = ground (arith, x.one e, release_lem w flags e)

  pushed-IsExclusive :
      (others : ℕ → ℕ) (k : Kind) (x : ℕ) (w : WaitSet R) (flags : Flags)
      → IsExclusive others w flags
      → flags x ≡ false
      → IsExclusive others (push k x w) (store x true flags)
  unfolding store
  pushed-IsExclusive others k x w flags ex free = record {
    one = λ e. ground (arith, ex.one e, held-push k e x w);
  }

  undone-IsExclusive :
      (others : ℕ → ℕ) (x : ℕ) (w : WaitSet R) (flags : Flags)
      → IsExclusive others w flags
      → flags x ≡ false
      → IsExclusive others w (drop_guard x (store x true flags))
  unfolding store drop_guard
  undone-IsExclusive others x w flags ex free = record { one = λ e. ground (arith, ex.one e) }

module _ {R : Type 0} ⦃rcl : Rcl R⦄ ⦃u : Utf8⦄ where
  registered :
      (k : Kind) (x : ℕ) (call : RclCall R) (w : WaitSet R) (flags : Flags)
      → (to_rclrs_result call.ret call.message).0 ≡ ok tt
      → register k x call w flags ≡ (ok tt, push k x (record w { handle = call.handle }), flags)
  unfolding register
  registered k x call w flags e = rw (register, e)

  refused :
      (k : Kind) (x : ℕ) (call : RclCall R) (w : WaitSet R) (flags : Flags) (q : RclrsError)
      → (to_rclrs_result call.ret call.message).0 ≡ err q
      → register k x call w flags ≡ (err q, record w { handle = call.handle }, drop_guard x flags)
  unfolding register
  refused k x call w flags q e = rw (register, e)

  add_used :
      (k : Kind) (x : ℕ) (w : WaitSet R) (flags : Flags)
      → flags x ≡ true
      → add k x w flags ≡ (err already_added_to_wait_set, w, flags)
  unfolding add new_guard
  add_used k x w flags e = rw (add, new_guard, e)

  add_free :
      (k : Kind) (x : ℕ) (w : WaitSet R) (flags : Flags)
      → flags x ≡ false
      → add k x w flags ≡ register k x (rcl.add k x w.handle) w (store x true flags)
  unfolding add new_guard
  add_free k x w flags e = rw (add, new_guard, e)

  registered-IsExclusive :
      (others : ℕ → ℕ) (k : Kind) (x : ℕ) (call : RclCall R) (w : WaitSet R) (flags : Flags)
      → IsExclusive others w flags
      → flags x ≡ false
      → (r : Result RclrsError (Unit {0})) → (to_rclrs_result call.ret call.message).0 ≡ r
      → IsExclusive others
          (register k x call w (store x true flags)).1
          (register k x call w (store x true flags)).2
  unfolding register
  registered-IsExclusive others k x call w flags ex free (ok _) e =
      subst (λ o. IsExclusive others o.1 o.2) (sym (registered k x call w (store x true flags) e))
        (pushed-IsExclusive others k x (record w { handle = call.handle }) flags
          (record { one = ex.one }) free)
  registered-IsExclusive others k x call w flags ex free (err q) e =
      subst (λ o. IsExclusive others o.1 o.2) (sym (refused k x call w (store x true flags) q e))
        (undone-IsExclusive others x (record w { handle = call.handle }) flags
          (record { one = ex.one }) free)

  -- Adding an entity of any kind, whether it succeeds, finds the flag set, or is refused by `rcl`,
  -- keeps it true that there is one guard for each entity whose flag is set and none for the
  -- others, the guards outside of this wait set counted.
  pub add-IsExclusive :
      (others : ℕ → ℕ) (k : Kind) (x : ℕ) (w : WaitSet R) (flags : Flags)
      → IsExclusive others w flags
      → IsExclusive others (add k x w flags).1 (add k x w flags).2
  unfolding add new_guard
  add-IsExclusive others k x w flags ex = elim (Bool-cases (flags x)) [
    | inl used ↦ subst (λ o. IsExclusive others o.1 o.2) (sym (add_used k x w flags used)) ex
    | inr free ↦
        subst (λ o. IsExclusive others o.1 o.2) (sym (add_free k x w flags free))
          (registered-IsExclusive others k x (rcl.add k x w.handle) w flags ex free _ refl)
  ]

  wait_drops :
      (timeout : Option ℕ) (w : WaitSet R) (flags : Flags) (ns : Result RclrsError ℤ)
      → timeout_ns timeout ≡ ns
      → (wait timeout w flags).1 ≡ release w flags
  unfolding wait
  wait_drops timeout w flags (ok ns) e = rw (wait, e)
  wait_drops timeout w flags (err q) e = rw (wait, e)

  -- Waiting consumes the wait set, and thus drops it on every path, errors included: then the flags
  -- that are set are those of the entities that have a guard elsewhere.
  pub wait-Releases :
      (others : ℕ → ℕ) (timeout : Option ℕ) (w : WaitSet R) (flags : Flags) (e : ℕ)
      → IsExclusive others w flags
      → others e ≡ bit ((wait timeout w flags).1 e)
  wait-Releases others timeout w flags e ex =
      released others w flags ex e
      ∙ ap (λ f. bit (f e)) (sym (wait_drops timeout w flags (timeout_ns timeout) refl))

  -- Clearing a wait set keeps one guard for each entity whose flag is set and none for the others,
  -- and the cleared wait set has no guards.
  pub clear-IsExclusive :
      (others : ℕ → ℕ) (w : WaitSet R) (flags : Flags) (e : ℕ)
      → IsExclusive others w flags
      → IsExclusive others (clear w flags).0 (clear w flags).1 × (held e (clear w flags).0 ≡ 0)
  unfolding clear
  clear-IsExclusive others w flags e ex =
      (record { one = λ x. omega (arith, released others w flags ex x) }, refl)
