-- ===== src/WaitSet/Ready.antt =====
-- Which entities `WaitSet::wait` reports as ready.
use ros2_rust.Prelude.{
  ℕ, zero, suc, ◌+◌, ◌≡◌, ◌↔◌, refl, sym, subst, true, false, some, List, [], ◌∷◌, get_elem?, arith,
  Bool-cases, inl, inr, Result, ok, err,
}
use ros2_rust.Parameter.Utf8.{Utf8}
use ros2_rust.ReturnCode.{RclCall, RclrsError, to_rclrs_result}
use ros2_rust.WaitSet.{
  waited, ReadyEntities, ready_entities, Kind, Rcl, WaitSet, non_null, collect_ready,
}

abbrev pub Member : ℕ → List ℕ → Type 0
Member e xs = (j : ℕ) × (get_elem? xs j ≡ some e)

module _ {R : Type 0} ⦃rcl : Rcl R⦄ ⦃u : Utf8⦄ where
  -- The entity stands at an index of the list whose entry is not null, counted from `i` on.
  abbrev pub IsReady : Kind → R → ℕ → List ℕ → ℕ → Type 0
  IsReady k r i xs e = (j : ℕ) × (get_elem? xs j ≡ some e) × (rcl.entry k (i + j) r ≡ true)

  later :
      (k : Kind) (r : R) (i x : ℕ) (xs : List ℕ) (e : ℕ)
      → IsReady k r (suc i) xs e
      → IsReady k r i (x ∷ xs) e
  later k r i x xs e (j, at, ready) = (
    suc j,
    at,
    subst (λ n. rcl.entry k n r ≡ true) {x = suc i + j} {y = i + suc j} (omega arith) ready,
  )

  kept :
      (k : Kind) (r : R) (i x : ℕ) (xs : List ℕ)
      → rcl.entry k i r ≡ true
      → non_null k r i (x ∷ xs) ≡ x ∷ non_null k r (suc i) xs
  unfolding non_null
  kept k r i x xs h = rw (non_null, h)

  skipped :
      (k : Kind) (r : R) (i x : ℕ) (xs : List ℕ)
      → rcl.entry k i r ≡ false
      → non_null k r i (x ∷ xs) ≡ non_null k r (suc i) xs
  unfolding non_null
  skipped k r i x xs h = rw (non_null, h)

  head_first :
      (k : Kind) (r : R) (i x : ℕ) (xs : List ℕ) (e : ℕ)
      → rcl.entry k i r ≡ true
      → (Member e (non_null k r (suc i) xs) → IsReady k r (suc i) xs e)
      → Member e (x ∷ non_null k r (suc i) xs)
      → IsReady k r i (x ∷ xs) e
  head_first k r i x xs e set rest (zero, h) =
      (zero, h, subst (λ n. rcl.entry k n r ≡ true) {x = i} {y = i + 0} (omega arith) set)
  head_first k r i x xs e set rest (suc j, h) = later k r i x xs e (rest (j, h))

  reported :
      (k : Kind) (r : R) (i : ℕ) (xs : List ℕ) (e : ℕ)
      → Member e (non_null k r i xs)
      → IsReady k r i xs e
  unfolding non_null
  reported k r i [] e (j, h) = cc
  reported k r i (x ∷ xs) e m = elim (Bool-cases (rcl.entry k i r)) [
    | inr null ↦
        later k r i x xs e
          (reported k r (suc i) xs e (subst (Member e) (skipped k r i x xs null) m))
    | inl set ↦
        head_first k r i x xs e set (λ n. reported k r (suc i) xs e n)
          (subst (Member e) (kept k r i x xs set) m)
  ]

  shifted :
      (k : Kind) (r : R) (i x : ℕ) (xs : List ℕ) (e : ℕ)
      → Member e (non_null k r (suc i) xs)
      → Member e (non_null k r i (x ∷ xs))
  shifted k r i x xs e (j, h) = elim (Bool-cases (rcl.entry k i r)) [
    | inl set ↦ subst (Member e) (sym (kept k r i x xs set)) (suc j, h)
    | inr null ↦ subst (Member e) (sym (skipped k r i x xs null)) (j, h)
  ]

  listed :
      (k : Kind) (r : R) (i : ℕ) (xs : List ℕ) (e : ℕ)
      → IsReady k r i xs e
      → Member e (non_null k r i xs)
  listed k r i [] e (j, h, t) = cc
  listed k r i (x ∷ xs) e (zero, h, t) =
      subst (Member e)
        (sym (
          kept k r i x xs
            (subst (λ n. rcl.entry k n r ≡ true) {x = i + 0} {y = i} (omega arith) t)))
        (zero, h)
  listed k r i (x ∷ xs) e (suc j, h, t) = shifted k r i x xs e (
      listed k r (suc i) xs e
        (j, h, subst (λ n. rcl.entry k n r ≡ true) {x = i + suc j} {y = suc i + j} (omega arith) t))

  collected :
      (r : RclCall R) (w : WaitSet R) (es : ReadyEntities) (o : Result RclrsError (Unit {0}))
      → waited (to_rclrs_result r.ret r.message).0 ≡ o
      → collect_ready r w ≡ ok es
      → ready_entities w r.handle ≡ es
  unfolding collect_ready ready_entities
  collected r w es (ok _) e h =
      let got : collect_ready r w ≡ ok (ready_entities w r.handle) = rw (collect_ready, e) in
      cc (got, h)
  collected r w es (err q) e h =
      let got : collect_ready r w ≡ err q = rw (collect_ready, e) in cc (got, h)

  -- Where `collect_ready`, the part of `wait` after the call of `rcl`, returns the ready entities,
  -- it lists, for each of the four kinds, exactly the entities of the wait set whose entry is not
  -- null after the call.
  pub collect_ready_lem :
      (r : RclCall R) (w : WaitSet R) (es : ReadyEntities) (e : ℕ)
      → collect_ready r w ≡ ok es
      → (Member e es.subscriptions ↔ IsReady Kind.subscription r.handle 0 w.subscriptions e)
        × (Member e es.clients ↔ IsReady Kind.client r.handle 0 w.clients e)
        × (Member e es.guard_conditions
            ↔ IsReady Kind.guard_condition r.handle 0 w.guard_conditions e)
        × (Member e es.services ↔ IsReady Kind.service r.handle 0 w.services e)
  unfolding ready_entities
  collect_ready_lem r w es e h =
      subst
        (λ o.
          (Member e o.subscriptions ↔ IsReady Kind.subscription r.handle 0 w.subscriptions e)
          × (Member e o.clients ↔ IsReady Kind.client r.handle 0 w.clients e)
          × (Member e o.guard_conditions
              ↔ IsReady Kind.guard_condition r.handle 0 w.guard_conditions e)
          × (Member e o.services ↔ IsReady Kind.service r.handle 0 w.services e))
        (collected r w es _ refl h)
        (
          (reported _ _ _ _ e, listed _ _ _ _ e),
          (reported _ _ _ _ e, listed _ _ _ _ e),
          (reported _ _ _ _ e, listed _ _ _ _ e),
          (reported _ _ _ _ e, listed _ _ _ _ e),
        )
