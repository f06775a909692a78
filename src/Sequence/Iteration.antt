-- ===== src/Sequence/Iteration.antt =====
-- Iterating over a sequence by value, and the length that the iterator claims to have.
use ros2_rust.Prelude.{
  ℕ, zero, suc, ◌+◌, ◌-◌, ◌≤◌, ◌<◌, ◌≡◌, refl, sym, ap, ◌∙◌, none, some, List, [], ◌∷◌, length,
  get_elem?, set, drop, arith, Option-cases, inl, inr, length-set,
}
use ros2_rust.Sequence.{SequenceAlloc, Sequence, SequenceIterator, size, next, into_iter, size_hint}

module _ {T : Type 0} where
  drop-set_below : (xs : List T) (i : ℕ) (z : T) → drop (suc i) (set xs i z) ≡ drop (suc i) xs
  drop-set_below [] i z = refl
  drop-set_below (x ∷ xs) zero z = refl
  drop-set_below (x ∷ xs) (suc i) z = drop-set_below xs i z

  drop-some :
      (xs : List T) (i : ℕ) (x : T) → get_elem? xs i ≡ some x → drop i xs ≡ x ∷ drop (suc i) xs
  drop-some [] i x h = cc
  drop-some (y ∷ xs) zero x h = cc
  drop-some (y ∷ xs) (suc i) x h = drop-some xs i x h

  drop-none : (xs : List T) (i : ℕ) → get_elem? xs i ≡ none → drop i xs ≡ []
  drop-none [] zero h = refl
  drop-none [] (suc i) h = refl
  drop-none (y ∷ xs) zero h = cc
  drop-none (y ∷ xs) (suc i) h = drop-none xs i h

  drop-nil : (xs : List T) (i : ℕ) → length xs ≤ i → drop i xs ≡ []
  drop-nil [] zero h = refl
  drop-nil [] (suc i) h = refl
  drop-nil (x ∷ xs) zero h = elim h [ ]
  drop-nil (x ∷ xs) (suc i) h = drop-nil xs i (omega arith)

  length-drop : (n : ℕ) (xs : List T) → length (drop n xs) ≡ length xs - n
  length-drop zero xs = omega arith
  length-drop (suc n) [] = omega arith
  length-drop (suc n) (x ∷ xs) = omega (arith, length-drop n xs)

module _ {T : Type 0} ⦃a : SequenceAlloc T⦄ where
  -- What `for x in it` yields, in at most `n` rounds.
  pub drain : ℕ → SequenceIterator T → List T
  drain zero it = []
  drain (suc n) it = elim (next it) [ none ↦ [] | some step ↦ step.0 ∷ drain n step.1 ]

  abbrev reader : List T → ℕ → SequenceIterator T
  reader xs i = record { seq = record { elements = xs }; idx = i }

  drain_stops :
      (n : ℕ) (xs : List T) (i : ℕ) → get_elem? xs i ≡ none → drain (suc n) (reader xs i) ≡ []
  unfolding drain next
  drain_stops n xs i h = rw (h, drain)

  drain_steps :
      (n : ℕ) (xs : List T) (i : ℕ) (x : T)
      → get_elem? xs i ≡ some x
      → drain (suc n) (reader xs i) ≡ x ∷ drain n (reader (set xs i a.zero) (i + 1))
  unfolding drain next
  drain_steps n xs i x h = rw (h, drain)

  drain-eq-drop :
      (n : ℕ) (xs : List T) (i : ℕ) → length xs < i + n → drain n (reader xs i) ≡ drop i xs
  unfolding drain
  drain-eq-drop zero xs i h = sym (drop-nil xs i (omega arith))
  drain-eq-drop (suc n) xs i h = elim (Option-cases (get_elem? xs i)) [
    | inl e ↦ drain_stops n xs i e ∙ sym (drop-none xs i e)
    | inr (x, e) ↦
        drain_steps n xs i x e
        ∙ ap (λ l. x ∷ l)
            (drain-eq-drop n (set xs i a.zero) (i + 1) (omega (arith, length-set xs i a.zero))
              ∙ ap (λ k. drop k (set xs i a.zero)) {x = i + 1} {y = suc i} (omega arith)
              ∙ drop-set_below xs i a.zero)
        ∙ sym (drop-some xs i x e)
  ]

  -- Iterating over a sequence by value yields its elements in order, and then ends.
  pub drain-into_iter : (s : Sequence T) → drain (size s + 1) (into_iter s) ≡ s.elements
  drain-into_iter s = drain-eq-drop (size s + 1) s.elements 0 (omega arith)

  -- At an index within the sequence, `size_hint` is one more than the number of elements that the
  -- iterator still yields.
  pub size_hint_too_large :
      (it : SequenceIterator T)
      → it.idx ≤ size it.seq
      → size_hint it ≡ length (drain (size it.seq + 1) it) + 1
  unfolding size_hint
  size_hint_too_large it h = omega (
    arith,
    ap length (drain-eq-drop (size it.seq + 1) it.seq.elements it.idx (omega arith)),
    length-drop it.idx it.seq.elements,
  )
