-- ===== src/Parameter/Range/Admission.antt =====
-- Which integers `ParameterRange<i64>::in_range` lets through, and where it panics.
use ros2_rust.Prelude.{
  ◌+◌, ◌<◌, ◌≡◌, ◌↔◌, inl, inr, refl, ap, ◌∙◌, ◌≢◌, Bool, true, false, Option, none, some, returns,
  panics, arith, Bool-cases,
}
use ros2_rust.Prelude.Int.{ℤ, pos_part, neg_part, ◌≤ℤ◌, ◌-ℤ◌, beq_ℤ, beq_ℤ_iff}
use ros2_rust.Parameter.Range.{
  ParameterRange, in_range_i64, on_step, inside_boundary, i64_order, is_some_and,
}
use ros2_rust.Parameter.Range.Laws.{
  IsValid, Below, Admits, NoOverflow, Positive, Decides, inside-bounds, bounds-inside,
  on_step-Decides,
}

on_step_overflow :
    (l s v : ℤ)
    → l ≤ℤ v
    → 9223372036854775807 + neg_part v + pos_part l < pos_part v + neg_part l
    → on_step (some l) (some s) v ≡ panics
unfolding on_step ◌-ℤ◌
on_step_overflow l s v above far = ground arith

not-upper : (u : Option ℤ) (v : ℤ) → u ≢ some v → is_some_and u (λ w. beq_ℤ w v) ≡ false
not-upper none v h = refl
not-upper (some w) v h = elim (Bool-cases (beq_ℤ w v)) [
  | inl e ↦ absurd (h (ap some ((beq_ℤ_iff w v).0 e)))
  | inr e ↦ e
]

is_upper_iff : (u : Option ℤ) (v : ℤ) → (is_some_and u (λ w. beq_ℤ w v) ≡ true) ↔ (u ≡ some v)
is_upper_iff none v = (λ h. cc, λ h. cc)
is_upper_iff (some w) v = (λ h. ap some ((beq_ℤ_iff w v).0 h), λ h. (beq_ℤ_iff w v).1 (some-inj h))
  where
    some-inj : some w ≡ some v → w ≡ v
    some-inj h = cc

module _ (l u s : Option ℤ) (v : ℤ) where
  abbrev range : ParameterRange ℤ
  range = record { lower = l; upper = u; step = s }

  in_range-outside : inside_boundary range v ≡ false → in_range_i64 range v ≡ returns false
  unfolding in_range_i64
  in_range-outside h = rw h

  in_range-upper :
      inside_boundary range v ≡ true
      → is_some_and u (λ w. beq_ℤ w v) ≡ true
      → in_range_i64 range v ≡ returns true
  unfolding in_range_i64
  in_range-upper h k = rw (h, k)

  in_range-step :
      inside_boundary range v ≡ true
      → is_some_and u (λ w. beq_ℤ w v) ≡ false
      → in_range_i64 range v ≡ on_step l s v
  unfolding in_range_i64
  in_range-step h k = rw (h, k)

  decides_outside :
      inside_boundary range v ≡ false → Decides (in_range_i64 range v) (Admits range v)
  decides_outside out =
      (false, in_range-outside out, (λ e. cc, λ a. cc (out, bounds-inside l u s v a.0 a.1)))

  decides_upper :
      inside_boundary range v ≡ true
      → is_some_and u (λ w. beq_ℤ w v) ≡ true
      → Decides (in_range_i64 range v) (Admits range v)
  decides_upper ins up =
      let b = inside-bounds l u s v ins in
      (true, in_range-upper ins up, (λ _. (b.0, b.1, inl ((is_upper_iff u v).0 up)), λ _. refl))

  decides_step :
      inside_boundary range v ≡ true
      → is_some_and u (λ w. beq_ℤ w v) ≡ false
      → Positive s
      → NoOverflow l v
      → Decides (in_range_i64 range v) (Admits range v)
  decides_step ins below p n =
      let b = inside-bounds l u s v ins in
      let d = on_step-Decides l s v b.0 p n in
      (
        d.0,
        in_range-step ins below ∙ d.1,
        (
          λ e. (b.0, b.1, inr (d.2.0 e)),
          λ a. elim (a.2) [ inl e ↦ cc (below, (is_upper_iff u v).1 e) | inr g ↦ d.2.1 g ],
        ),
      )

  in_range-Decides :
      IsValid range → NoOverflow l v → Decides (in_range_i64 range v) (Admits range v)
  in_range-Decides valid n = elim (Bool-cases (inside_boundary range v)) [
    | inr out ↦ decides_outside out
    | inl ins ↦ elim (Bool-cases (is_some_and u (λ w. beq_ℤ w v))) [
      | inl up ↦ decides_upper ins up
      | inr below ↦ decides_step ins below valid.positive n
    ]
  ]

-- For a valid range, and a value whose distance from the lower limit (if there is one) fits an
-- `i64`, `in_range` returns a Boolean, which is true exactly if the range admits the value: it lies
-- between the limits, and is the upper limit or a whole number of steps above the lower limit.
pub in_range-iff_Admits :
    (r : ParameterRange ℤ) (v : ℤ)
    → IsValid r
    → NoOverflow r.lower v
    → (b : Bool) × (in_range_i64 r v ≡ returns b) × ((b ≡ true) ↔ Admits r v)
in_range-iff_Admits r v valid n = in_range-Decides r.lower r.upper r.step v valid n

-- Where a lower limit and a step are set, a value between the limits other than the upper limit,
-- whose distance from the lower limit exceeds `i64::MAX`, makes `in_range` panic, admitted or not.
pub in_range_overflow :
    (l s v : ℤ) (u : Option ℤ)
    → l ≤ℤ v
    → Below u v
    → u ≢ some v
    → 9223372036854775807 + neg_part v + pos_part l < pos_part v + neg_part l
    → in_range_i64 (record { lower = some l; upper = u; step = some s }) v ≡ panics
in_range_overflow l s v u above below ne far =
    in_range-step (some l) u (some s) v (bounds-inside (some l) u (some s) v above below)
      (not-upper u v ne)
    ∙ on_step_overflow l s v above far
