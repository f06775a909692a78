-- ===== src/Sequence/Extension.antt =====
-- `extend` appends: making room and shrinking change nothing else.
use ros2_rust.Prelude.{
  ℕ, zero, suc, ◌+◌, ◌*◌, ◌^◌, ◌≤◌, ◌<◌, ◌≡◌, refl, sym, ap, ◌∙◌, subst, false, some, List, [], ◌∷◌,
  ◌++◌, length, get_elem?, set, Outcome, returns, ltb, leb, ◌==◌, if◌then◌else◌, arith, length-set,
  length-append, get_elem?-set_self, get_elem?-set_ne, get_elem?-append_left, get_elem?-append_last,
  Bool-cases, inl, inr, ==_iff, lt→ltb,
}
use native.Mathlib.Nat.{pow-succ', mul_assoc}
use mathlib.Core.List.{append_assoc, append-nil}
use ros2_rust.Sequence.{
  SequenceAlloc, Sequence, size, usize_max, saturating_add, power_from, next_power_of_two, resize,
  make_room, push_all, extend,
}
use ros2_rust.Sequence.Copying.{Agree, Allocates, resize_lem, eq-of_Agree}

doubled : (p f n : ℕ) → n ≤ p * 2 ^ suc f → n ≤ p * 2 * 2 ^ f
doubled p f n h =
    subst (λ k. n ≤ k) (ap (λ k. p * k) (pow-succ' 2 f) ∙ sym (mul_assoc p 2 (2 ^ f))) h

power_total : (f p n : ℕ) → n ≤ p * 2 ^ f → (q : ℕ) × (power_from (suc f) p n ≡ returns q) × (n ≤ q)
unfolding power_from
power_total zero p n h = (p, ground arith, omega arith)
power_total (suc f) p n h = elim (Bool-cases (leb n p)) [
  | inl le ↦ (p, rw le, ground arith)
  | inr gt ↦ let (q, e, le) = power_total f (p * 2) n (doubled p f n h) in (q, rw gt e, le)
]

next_power_lem :
    (n : ℕ) → n ≤ 9223372036854775808 → (q : ℕ) × (next_power_of_two n ≡ returns q) × (n ≤ q)
unfolding next_power_of_two
next_power_lem n h = power_total 63 1 n (omega arith)

module _ {T : Type 0} ⦃a : SequenceAlloc T⦄ where
  make_room_grows :
      (s : Sequence T) (cur q : ℕ)
      → cur ≡ size s
      → next_power_of_two (size s + 1) ≡ returns q
      → make_room s cur ≡ resize s q
  unfolding make_room
  make_room_grows s cur q e h = rw ((==_iff cur (size s)).1 e) (rw h)

  make_room_keeps :
      (s : Sequence T) (cur : ℕ) → (cur == size s) ≡ false → make_room s cur ≡ returns s
  unfolding make_room
  make_room_keeps s cur h = rw h

  -- After `make_room` there is an element at `cur`, and those below are as they were.
  abbrev Roomy : Outcome ⊥ (Sequence T) → ℕ → List T → Type 0
  Roomy o cur xs = (r : Sequence T) × (o ≡ returns r) × (cur < size r) × Agree cur r.elements xs

  make_room_lem :
      (s : Sequence T) (cur : ℕ)
      → Allocates a
      → cur ≤ size s
      → cur < 9223372036854775808
      → Roomy (make_room s cur) cur s.elements
  make_room_lem s cur alloc h small = elim (Bool-cases (cur == size s)) [
    | inl e ↦
        let full = (==_iff cur (size s)).0 e in
        let (q, eq, le) = next_power_lem (size s + 1) (omega arith) in
        let (r, done, len, agree) = resize_lem s q cur alloc (omega arith) h in
        (r, make_room_grows s cur q full eq ∙ done, omega (arith, len), agree)
    | inr e ↦ (s, make_room_keeps s cur e, ground arith, λ j lt. refl)
  ]

  Agree-put :
      (s : Sequence T) (cur : ℕ) (x : T) (base : List T)
      → cur < size s
      → length base ≡ cur
      → Agree cur s.elements base
      → Agree (cur + 1) (set s.elements cur x) (base ++ x ∷ [])
  Agree-put s cur x base room len agree j lt = elim (Bool-cases (j == cur)) [
    | inl e ↦
        subst (λ k. get_elem? (set s.elements cur x) k ≡ get_elem? (base ++ x ∷ []) k)
          (sym ((==_iff j cur).0 e))
          (get_elem?-set_self s.elements cur x room
            ∙ sym (
                subst (λ k. get_elem? (base ++ x ∷ []) k ≡ some x) len
                  (get_elem?-append_last base x)))
    | inr e ↦
        get_elem?-set_ne s.elements cur j x (λ p. ground arith)
        ∙ agree j (ground arith)
        ∙ sym (get_elem?-append_left base (x ∷ []) j (ground arith))
  ]

  push_step :
      (x : T) (xs : List T) (s s' : Sequence T) (cur : ℕ)
      → make_room s cur ≡ returns s'
      → cur < size s'
      → push_all (x ∷ xs) s cur
        ≡ push_all xs (record { elements = set s'.elements cur x }) (cur + 1)
  unfolding push_all
  push_step x xs s s' cur h room = rw h (rw (lt→ltb cur (size s') room))

  abbrev Pushed : Outcome ⊥ (Sequence T × ℕ) → List T → Type 0
  Pushed o xs =
      (r : Sequence T) × (o ≡ returns (r, length xs))
      × (length xs ≤ size r)
      × Agree (length xs) r.elements xs

  push_all_lem :
      (xs : List T) (s : Sequence T) (base : List T)
      → Allocates a
      → length base ≤ size s
      → length base + length xs ≤ 9223372036854775808
      → Agree (length base) s.elements base
      → Pushed (push_all xs s (length base)) (base ++ xs)
  push_all_lem [] s base alloc h small agree =
      rw append-nil ((s, unfold push_all in refl, h, agree))
  push_all_lem (x ∷ xs) s base alloc h small agree =
      let (s', room, lt, same) = make_room_lem s (length base) alloc h (omega arith) in
      let longer = length-append base (x ∷ []) in
      let s'' : Sequence T = record { elements = set s'.elements (length base) x } in
      let step : push_all (x ∷ xs) s (length base) ≡ push_all xs s'' (length (base ++ x ∷ [])) =
        push_step x xs s s' (length base) room lt ∙ ap (push_all xs s'') (omega (arith, longer)) in
      let agree' =
        Agree-put s' (length base) x base lt refl (λ j below. same j below ∙ agree j below) in
      let rest =
        push_all_lem xs s'' (base ++ x ∷ []) alloc
          (omega (arith, longer, length-set s'.elements (length base) x)) (omega (arith, longer))
          (λ j below. agree' j (omega (arith, longer))) in
      subst (Pushed (push_all (x ∷ xs) s (length base))) (append_assoc base (x ∷ []) xs)
        (subst (λ o. Pushed o ((base ++ x ∷ []) ++ xs)) (sym step) rest)

  shrink_lem :
      (r : Sequence T) (xs : List T)
      → Allocates a
      → length xs ≤ size r
      → Agree (length xs) r.elements xs
      → (t : Sequence T) × ((if ltb (length xs) (size r) then resize r (length xs) else returns r)
          ≡ returns t)
        × (t.elements ≡ xs)
  shrink_lem r xs alloc h agree = elim (Bool-cases (ltb (length xs) (size r))) [
    | inl lt ↦
        let (t, done, len, same) = resize_lem r (length xs) (length xs) alloc (omega arith) h in
        (
          t,
          rw lt done,
          eq-of_Agree t.elements xs len
              (λ j below. same j (omega (arith, len)) ∙ agree j (omega (arith, len))),
        )
    | inr ge ↦
        let len : size r ≡ length xs = ground arith in
        (r, rw ge, eq-of_Agree r.elements xs len (λ j below. agree j (omega (arith, len))))
  ]

  -- making room for `hint` elements first
  reserve_lem :
      (hint : ℕ) (s : Sequence T)
      → Allocates a
      → size s ≤ usize_max
      → (r : Sequence T) × ((if ltb 0 hint
            then resize s (saturating_add (size s) hint)
            else returns s)
          ≡ returns r)
        × (size s ≤ size r)
        × Agree (size s) r.elements s.elements
  reserve_lem hint s alloc h = elim (Bool-cases (ltb 0 hint)) [
    | inl more ↦
        let (r, done, len, agree) =
          resize_lem s (saturating_add (size s) hint) (size s) alloc (omega arith) (omega arith) in
        (r, rw more done, omega (arith, len), agree)
    | inr none_hinted ↦ (s, rw none_hinted, omega arith, λ j lt. refl)
  ]

  extend_steps :
      (hint : ℕ) (items : List T) (s roomy filled t : Sequence T) (n : ℕ)
      → (if ltb 0 hint then resize s (saturating_add (size s) hint) else returns s) ≡ returns roomy
      → push_all items roomy (size s) ≡ returns (filled, n)
      → (if ltb n (size filled) then resize filled n else returns filled) ≡ returns t
      → extend hint items s ≡ returns t
  unfolding extend
  extend_steps hint items s roomy filled t n p q r = rw (p, q, r)

  -- If every allocation succeeds and the elements number at most `2 ^ 63`, `extend` returns, and the
  -- result is the old elements followed by the items, whatever the iterator's size hint is.
  pub extend_lem :
      (hint : ℕ) (items : List T) (s : Sequence T)
      → Allocates a
      → size s + length items ≤ 9223372036854775808
      → (t : Sequence T) × (extend hint items s ≡ returns t) × (t.elements ≡ s.elements ++ items)
  extend_lem hint items s alloc small =
      let (roomy, p, le, agree) = reserve_lem hint s alloc (omega arith) in
      let (filled, q, fits, same) = push_all_lem items roomy s.elements alloc le small agree in
      let (t, r, eq) = shrink_lem filled (s.elements ++ items) alloc fits same in
      (t, extend_steps hint items s roomy filled t (length (s.elements ++ items)) p q r, eq)
