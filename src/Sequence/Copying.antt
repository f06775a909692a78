-- ===== src/Sequence/Copying.antt =====
-- `resize` of sequence.rs: a new sequence takes over the elements of the old one.
use ros2_rust.Prelude.{
  ℕ, zero, suc, ◌+◌, ◌≤◌, ◌<◌, ◌≡◌, refl, sym, ◌∙◌, subst, none, some, List, [], ◌∷◌, length,
  get_elem?, set, Outcome, returns, ◌==◌, arith, length-set, get_elem?-set_self, get_elem?-set_ne,
  Option-cases, Bool-cases, inl, inr, ==_iff, lt→ltb,
}
use ros2_rust.Sequence.{
  SequenceAlloc, Sequence, SequenceIterator, size, new, next, into_iter, copy_into, resize,
}

-- The elements below `n` are the same.
abbrev pub Agree : {T : Type 0} → ℕ → List T → List T → Type 0
Agree n xs ys = (j : ℕ) → j < n → get_elem? xs j ≡ get_elem? ys j

module _ {T : Type 0} where
  pub eq-of_Agree : (xs ys : List T) → length xs ≡ length ys → Agree (length xs) xs ys → xs ≡ ys
  eq-of_Agree [] [] h a = refl
  eq-of_Agree [] (y ∷ ys) h a = absurd (omega arith)
  eq-of_Agree (x ∷ xs) [] h a = absurd (omega arith)
  eq-of_Agree (x ∷ xs) (y ∷ ys) h a =
      cc (a 0 (omega arith), eq-of_Agree xs ys (omega arith) (λ j lt. a (suc j) (omega arith)))

  pub none-of_get : (xs : List T) (i : ℕ) → get_elem? xs i ≡ none → length xs ≤ i
  none-of_get [] i h = omega arith
  none-of_get (x ∷ xs) zero h = cc
  none-of_get (x ∷ xs) (suc i) h = omega (arith, none-of_get xs i h)

-- Every allocation succeeds.
abbrev pub Allocates : {T : Type 0} → SequenceAlloc T → Type 0
Allocates {T} a = (n : ℕ) → (l : List T) × (a.init n ≡ some l)

module _ {T : Type 0} ⦃a : SequenceAlloc T⦄ where
  -- What the copy loop does from index `i` on, with `n` rounds left.
  record Copied (n i : ℕ) (src : List T) (d r : Sequence T) : Type 0 where
    length_kept : size r ≡ size d
    copied : (j : ℕ) → i ≤ j → j < length src → j < i + n → get_elem? r.elements j ≡ get_elem? src j
    below : (j : ℕ) → j < i → get_elem? r.elements j ≡ get_elem? d.elements j

  abbrev Copies : ℕ → List T → ℕ → Sequence T → Type 0
  Copies n src i d =
      (r : Sequence T) × (copy_into n (record { seq = record { elements = src }; idx = i }) i d
        ≡ returns r)
      × Copied n i src d r

  Copied-none :
      (n i : ℕ) (src : List T) (d : Sequence T) → get_elem? src i ≡ none → Copied n i src d d
  Copied-none n i src d h = record {
    length_kept = refl;
    copied = λ j le lt in_n. absurd (omega (arith, none-of_get src i h));
    below = λ j lt. refl;
  }

  Copied-some :
      (n i : ℕ) (src : List T) (d r : Sequence T) (e : T)
      → i < size d
      → get_elem? src i ≡ some e
      → Copied n (i + 1) (set src i a.zero) (record { elements = set d.elements i e }) r
      → Copied (suc n) i src d r
  Copied-some n i src d r e room h c = record {
    length_kept = c.length_kept ∙ length-set d.elements i e;
    copied = λ j le lt in_n. elim (Bool-cases (j == i)) [
      | inl eq ↦
          subst (λ k. get_elem? r.elements k ≡ get_elem? src k) (sym ((==_iff j i).0 eq))
            (c.below i (omega arith) ∙ get_elem?-set_self d.elements i e room ∙ sym h)
      | inr ne ↦
          c.copied j (ground arith) (rw length-set lt) (omega arith)
          ∙ get_elem?-set_ne src i j a.zero (λ p. ground arith)
    ];
    below = λ j lt. c.below j (omega arith) ∙ get_elem?-set_ne d.elements i j e (λ p. omega arith);
  }

  abbrev reader : List T → ℕ → SequenceIterator T
  reader src i = record { seq = record { elements = src }; idx = i }

  copy_stops :
      (n i : ℕ) (src : List T) (d : Sequence T)
      → get_elem? src i ≡ none
      → copy_into (suc n) (reader src i) i d ≡ returns d
  unfolding copy_into next
  copy_stops n i src d h = rw (h, copy_into)

  copy_steps :
      (n i : ℕ) (src : List T) (d : Sequence T) (x : T)
      → get_elem? src i ≡ some x
      → i < size d
      → copy_into (suc n) (reader src i) i d
        ≡ copy_into n
            (reader (set src i a.zero) (i + 1))
            (i + 1)
            (record { elements = set d.elements i x })
  unfolding copy_into next
  copy_steps n i src d x h room = rw (h, copy_into) (rw (lt→ltb i (size d) room))

  copy_lem : (n : ℕ) (src : List T) (i : ℕ) (d : Sequence T) → i + n ≤ size d → Copies n src i d
  copy_lem zero src i d h = (
    d,
    unfold copy_into in refl,
    record {
      length_kept = refl;
      copied = λ j le lt in_n. absurd (omega arith);
      below = λ j lt. refl;
    },
  )
  copy_lem (suc n) src i d h = elim (Option-cases (get_elem? src i)) [
    | inl e ↦ (d, copy_stops n i src d e, Copied-none (suc n) i src d e)
    | inr (x, e) ↦
        let (r, eq, c) =
          copy_lem n (set src i a.zero) (i + 1) (record { elements = set d.elements i x })
            (omega (arith, length-set d.elements i x)) in
        (
          r,
          copy_steps n i src d x e (omega arith) ∙ eq,
          Copied-some n i src d r x (omega arith) e c,
        )
  ]

  -- The result has the given size and agrees with `xs` below `n`.
  abbrev pub Sized : Outcome ⊥ (Sequence T) → ℕ → ℕ → List T → Type 0
  Sized o len n xs = (r : Sequence T) × (o ≡ returns r) × (size r ≡ len) × Agree n r.elements xs

  pub resize_steps :
      (s : Sequence T) (n : ℕ) (l : List T)
      → a.init n ≡ some l
      → resize s n ≡ copy_into n (into_iter s) 0 (record { elements = l })
  unfolding resize new
  resize_steps s n l h = rw h

  pub resize_lem :
      (s : Sequence T) (n k : ℕ)
      → Allocates a
      → k ≤ n
      → k ≤ size s
      → Sized (resize s n) n k s.elements
  resize_lem s n k alloc kn ks =
      let (l, h) = alloc n in
      let len = a.sized n l h in
      let (r, eq, c) = copy_lem n s.elements 0 (record { elements = l }) (omega (arith, len)) in
      (
        r,
        resize_steps s n l h ∙ eq,
        c.length_kept ∙ len,
        λ j lt. c.copied j (omega arith) (omega arith) (omega arith),
      )
