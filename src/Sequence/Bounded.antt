-- ===== src/Sequence/Bounded.antt =====
-- `BoundedSequence<T, N>` of sequence.rs: `bound` is the `N` of the type.
use ros2_rust.Prelude.{
  ℕ, zero, suc, ◌+◌, ◌-◌, ◌≤◌, ◌<◌, ◌≡◌, refl, ap, ◌∙◌, min, false, some, List, [], ◌∷◌, ◌++◌,
  length, take, Outcome, returns, fails, panics, ◌>>=◌, ltb, if◌then◌else◌, arith, call,
  length-append, lt→ltb, ltb→lt, Bool-cases, inl, inr,
}
use ros2_rust.Sequence.{SequenceAlloc, Sequence, size, new, extend}
use ros2_rust.Sequence.Copying.{Allocates}
use ros2_rust.Sequence.Extension.{extend_lem}

within : (a b : ℕ) → ltb a b ≡ false → b ≤ a
within a b h = ground arith

pub record BoundedSequence (T : Type 0) : Type 0 where
  pub inner : Sequence T

pub record SequenceExceedsBoundsError : Type 0 where
  pub len : ℕ
  pub upper_bound : ℕ

-- `usize` subtraction, which panics below zero.
abbrev pub usize_sub : ℕ → ℕ → Outcome ⊥ ℕ
usize_sub a b = if ltb a b then panics else returns (a - b)

room_lem : (bound n : ℕ) → n ≤ bound → usize_sub bound n ≡ returns (bound - n)
room_lem bound n h = ground arith

not-ltb : (a b : ℕ) → b ≤ a → ltb a b ≡ false
not-ltb a b h = ground arith

module _ {T : Type 0} ⦃a : SequenceAlloc T⦄ where
  unfoldable pub try_new : ℕ → ℕ → Outcome SequenceExceedsBoundsError (BoundedSequence T)
  unfolding new
  try_new bound len =
      if ltb bound len
      then fails (record { len = len; upper_bound = bound })
      else do s ← call (new len); returns (record { inner = s })

  -- `BoundedSequence::new`
  unfoldable pub new_bounded : ℕ → ℕ → Outcome ⊥ (BoundedSequence T)
  unfolding new
  new_bounded bound len =
      if ltb bound len then panics else do s ← new len; returns (record { inner = s })

  -- `self.inner.extend(iter.into_iter().take(N - self.inner.size))`
  unfoldable pub extend_bounded : ℕ → ℕ → List T → BoundedSequence T → Outcome ⊥ (BoundedSequence T)
  extend_bounded bound hint items s = do
    room ← usize_sub bound (size s.inner)
    inner ← extend (min hint room) (take room items) s.inner
    returns (record { inner = inner })

  unfoldable pub from_iter_bounded : ℕ → ℕ → List T → Outcome ⊥ (BoundedSequence T)
  unfolding new_bounded extend_bounded
  from_iter_bounded bound hint items = do s ← new_bounded bound 0; extend_bounded bound hint items s

  -- `TryFrom<Vec<T>>`
  unfoldable pub try_from_vec : ℕ → List T → Outcome SequenceExceedsBoundsError (BoundedSequence T)
  try_from_vec bound v =
      if ltb bound (length v)
      then fails (record { len = length v; upper_bound = bound })
      else call (from_iter_bounded bound (length v) v)

  length-take-le : (n : ℕ) (xs : List T) → length (take n xs) ≤ n
  length-take-le zero xs = omega arith
  length-take-le (suc n) [] = omega arith
  length-take-le (suc n) (x ∷ xs) = omega (arith, length-take-le n xs)

  take_all : (n : ℕ) (xs : List T) → length xs ≤ n → take n xs ≡ xs
  take_all zero [] h = refl
  take_all zero (x ∷ xs) h = absurd (omega arith)
  take_all (suc n) [] h = refl
  take_all (suc n) (x ∷ xs) h = ap (λ l. x ∷ l) (take_all n xs (omega arith))

  extend_bounded_steps :
      (bound hint : ℕ) (items : List T) (s : BoundedSequence T) (t : Sequence T)
      → size s.inner ≤ bound
      → extend (min hint (bound - size s.inner)) (take (bound - size s.inner) items) s.inner
        ≡ returns t
      → extend_bounded bound hint items s ≡ returns (record { inner = t })
  unfolding extend_bounded
  extend_bounded_steps bound hint items s t h e = rw (room_lem bound (size s.inner) h) (rw e)

  -- Extending a bounded sequence that is within its bound (at most `2 ^ 63`), with allocations that
  -- succeed, appends the items that fit, drops the others, and stays within the bound.
  pub extend_bounded_lem :
      (bound hint : ℕ) (items : List T) (s : BoundedSequence T)
      → Allocates a
      → bound ≤ 9223372036854775808
      → size s.inner ≤ bound
      → (t : BoundedSequence T) × (extend_bounded bound hint items s ≡ returns t)
        × (t.inner.elements ≡ s.inner.elements ++ take (bound - size s.inner) items)
        × (size t.inner ≤ bound)
  extend_bounded_lem bound hint items s alloc small h =
      let room = bound - size s.inner in
      let kept = length-take-le room items in
      let (t, done, eq) =
        extend_lem (min hint room) (take room items) s.inner alloc (omega (arith, kept)) in
      let len : size t ≡ size s.inner + length (take room items) =
        ap length eq ∙ length-append s.inner.elements (take room items) in
      (
        record { inner = t },
        extend_bounded_steps bound hint items s t h done,
        eq,
        omega (arith, kept, len),
      )

  too_long :
      (bound : ℕ) (v : List T)
      → bound < length v
      → try_from_vec bound v ≡ fails (record { len = length v; upper_bound = bound })
  unfolding try_from_vec
  too_long bound v h = rw (lt→ltb bound (length v) h)

  empty_bounded :
      (bound : ℕ) (l : List T)
      → a.init 0 ≡ some l
      → new_bounded bound 0 ≡ returns (record { inner = record { elements = l } })
  unfolding new_bounded new
  empty_bounded bound l e = rw (not-ltb bound 0 (omega arith)) (rw e)

  collects :
      (bound hint : ℕ) (v l : List T) (t : BoundedSequence T)
      → a.init 0 ≡ some l
      → extend_bounded bound hint v (record { inner = record { elements = l } }) ≡ returns t
      → from_iter_bounded bound hint v ≡ returns t
  collects bound hint v l t e r = unfold from_iter_bounded in rw (empty_bounded bound l e) r

  fits_bound :
      (bound : ℕ) (v : List T) (t : BoundedSequence T)
      → length v ≤ bound
      → from_iter_bounded bound (length v) v ≡ returns t
      → try_from_vec bound v ≡ returns t
  fits_bound bound v t h r = unfold try_from_vec in rw (not-ltb bound (length v) h) (rw r)

  nil-of_length : (l : List T) → length l ≡ 0 → l ≡ []
  nil-of_length [] h = refl
  nil-of_length (x ∷ l) h = absurd (omega arith)

  converted :
      (bound : ℕ) (v : List T)
      → Allocates a
      → bound ≤ 9223372036854775808
      → length v ≤ bound
      → try_from_vec bound v ≡ returns (record { inner = record { elements = v } })
  converted bound v alloc small h =
      let (l, e) = alloc 0 in
      let nil = nil-of_length l (a.sized 0 l e) in
      let empty : BoundedSequence T = record { inner = record { elements = l } } in
      let (t, done, eq, le) =
        extend_bounded_lem bound (length v) v empty alloc small (omega (arith, a.sized 0 l e)) in
      fits_bound bound v t h (collects bound (length v) v l t e done)
      ∙ ap (λ k. returns (record { inner = record { elements = k } }))
          (eq ∙ ap (λ k. k ++ take (bound - length k) v) nil ∙ take_all (bound - 0) v (omega arith))

  -- With a bound of at most `2 ^ 63` and allocations that succeed, converting a vector gives the
  -- sequence of exactly its elements if they are within the bound, and otherwise the error with
  -- the vector's length and the bound.
  pub try_from_vec_lem :
      (bound : ℕ) (v : List T)
      → Allocates a
      → bound ≤ 9223372036854775808
      → try_from_vec bound v ≡ (
          if ltb bound (length v)
          then fails (record { len = length v; upper_bound = bound })
          else returns (record { inner = record { elements = v } }))
  try_from_vec_lem bound v alloc small = elim (Bool-cases (ltb bound (length v))) [
    | inl more ↦ rw more (too_long bound v (ltb→lt bound (length v) more))
    | inr fits ↦ rw fits (converted bound v alloc small (within bound (length v) fits))
  ]
