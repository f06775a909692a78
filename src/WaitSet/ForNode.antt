-- ===== src/WaitSet/ForNode.antt =====
-- The wait set of a node, with all its entities.
use ros2_rust.Prelude.{ℕ, ◌≡◌, refl, sym, subst, List, [], ◌∷◌, length, Result, ok, err, arith}
use ros2_rust.Parameter.Utf8.{Utf8}
use ros2_rust.ReturnCode.{RclCall, RclrsError, to_rclrs_result}
use ros2_rust.WaitSet.{Kind, Rcl, Flags, WaitSet, new, add, add_all, returned, new_for_node}
use ros2_rust.WaitSet.Exclusive.{IsExclusive, bit, released, add-IsExclusive}

module _ {R : Type 0} ⦃rcl : Rcl R⦄ ⦃u : Utf8⦄ where
  add_all-IsExclusive :
      (others : ℕ → ℕ) (k : Kind) (es : List ℕ)
      (state : Result RclrsError (Unit {0}) × WaitSet R × Flags)
      → IsExclusive others state.1 state.2
      → IsExclusive others (add_all k es state).1 (add_all k es state).2
  unfolding add_all
  add_all-IsExclusive others k [] state ex = ex
  add_all-IsExclusive others k (e ∷ es) (err q, w, flags) ex = ex
  add_all-IsExclusive others k (e ∷ es) (ok _, w, flags) ex =
      add_all-IsExclusive others k es (add k e w flags) (add-IsExclusive others k e w flags ex)

  -- The guards agree with the flags: those of the new wait set included, if there is one.
  abbrev pub Balanced : (ℕ → ℕ) → Result RclrsError (WaitSet R) × Flags → Type 0
  Balanced others (ok w, flags) = IsExclusive others w flags
  Balanced others (err q, flags) = (e : ℕ) → others e ≡ bit (flags e)

  returned-Balanced :
      (others : ℕ → ℕ) (state : Result RclrsError (Unit {0}) × WaitSet R × Flags)
      → IsExclusive others state.1 state.2
      → Balanced others (returned state)
  returned-Balanced others (ok _, w, flags) ex = ex
  returned-Balanced others (err q, w, flags) ex = λ e. released others w flags ex e

  fresh-IsExclusive :
      (others : ℕ → ℕ) (h : R) (flags : Flags)
      → ((e : ℕ) → others e ≡ bit (flags e))
      → IsExclusive others
          (record {
            subscriptions = [];
            clients = [];
            guard_conditions = [];
            services = [];
            handle = h;
          })
          flags
  fresh-IsExclusive others h flags b = record { one = λ e. omega (arith, b e) }

module _ (R : Type 0) ⦃rcl : Rcl R⦄ ⦃u : Utf8⦄ where
  abbrev init_call : List ℕ → List ℕ → List ℕ → List ℕ → RclCall R
  init_call ss cs gs vs = rcl.init (length ss) (length gs) 0 (length cs) (length vs) 0

  abbrev empty_set : R → WaitSet R
  empty_set h = record {
    subscriptions = [];
    clients = [];
    guard_conditions = [];
    services = [];
    handle = h;
  }

  made :
      (ss cs gs vs : List ℕ) (flags : Flags)
      → (to_rclrs_result (init_call ss cs gs vs).ret (init_call ss cs gs vs).message).0 ≡ ok tt
      → new_for_node ss cs gs vs flags
        ≡ returned (
            add_all Kind.service vs (
              add_all Kind.guard_condition gs (
                add_all Kind.client cs (
                  add_all Kind.subscription ss
                    (ok tt, empty_set (init_call ss cs gs vs).handle, flags)))))
  unfolding new_for_node new
  made ss cs gs vs flags e = rw (new_for_node, new, e)

  unmade :
      (ss cs gs vs : List ℕ) (flags : Flags) (q : RclrsError)
      → (to_rclrs_result (init_call ss cs gs vs).ret (init_call ss cs gs vs).message).0 ≡ err q
      → new_for_node {R = R} ss cs gs vs flags ≡ (err q, flags)
  unfolding new_for_node new
  unmade ss cs gs vs flags q e = rw (new_for_node, new, e)

  balanced :
      (others : ℕ → ℕ) (ss cs gs vs : List ℕ) (flags : Flags) (r : Result RclrsError (Unit {0}))
      → (to_rclrs_result (init_call ss cs gs vs).ret (init_call ss cs gs vs).message).0 ≡ r
      → ((e : ℕ) → others e ≡ bit (flags e))
      → Balanced {R = R} others (new_for_node ss cs gs vs flags)
  balanced others ss cs gs vs flags (err q) e b =
      subst (Balanced {R = R} others) (sym (unmade ss cs gs vs flags q e)) b
  balanced others ss cs gs vs flags (ok _) e b =
      subst (Balanced {R = R} others) (sym (made ss cs gs vs flags e)) (
        returned-Balanced others _ (
          add_all-IsExclusive others Kind.service vs _ (
            add_all-IsExclusive others Kind.guard_condition gs _ (
              add_all-IsExclusive others Kind.client cs _ (
                add_all-IsExclusive others Kind.subscription ss _
                  (fresh-IsExclusive others (init_call ss cs gs vs).handle flags b))))))

  -- If the flags agree with the guards that there are, then after `new_for_node` they agree too,
  -- with the guards of the new wait set counted where it succeeds, and without any left over where
  -- it fails, at whichever entity.
  pub new_for_node-Balanced :
      (others : ℕ → ℕ) (subscriptions clients guard_conditions services : List ℕ) (flags : Flags)
      → ((e : ℕ) → others e ≡ bit (flags e))
      → Balanced {R = R} others (new_for_node subscriptions clients guard_conditions services flags)
  new_for_node-Balanced others ss cs gs vs flags b = balanced others ss cs gs vs flags _ refl b
