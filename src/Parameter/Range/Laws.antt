-- ===== src/Parameter/Range/Laws.antt =====
-- What the validation of a range ensures, and which integers a valid range admits.
use native.Mathlib.Nat.{div-add-mod'}
use ros2_rust.Prelude.{
  ℕ, zero, suc, ◌+◌, ◌-◌, ◌*◌, ◌/◌, ◌%◌, ◌≤◌, ◌≡◌, ◌↔◌, ◌⊎◌, refl, Bool, true, Option, none, some,
  Outcome, returns, fails, arith,
}
use ros2_rust.Prelude.Int.{ℤ, pos, negsuc, pos_part, neg_part, ◌≤ℤ◌, ◌+ℤ◌, ◌-ℤ◌, rem, beq_ℤ}
use ros2_rust.Parameter.Range.{
  ParameterRange, invalid_range, validate_range, on_step, inside_boundary, i64_order,
}

abbrev pub Ordered : Option ℤ → Option ℤ → Type 0
Ordered (some l) (some u) = l ≤ℤ u
Ordered _ _ = Unit

abbrev pub Positive : Option ℤ → Type 0
Positive (some s) = pos 1 ≤ℤ s
Positive none = Unit

-- A range whose limits are in order and whose step is positive.
pub record IsValid (r : ParameterRange ℤ) : Type 0 where
  pub ordered : Ordered r.lower r.upper
  pub positive : Positive r.step

pub validate-returns : (r : ParameterRange ℤ) → IsValid r → validate_range r ≡ returns tt
unfolding validate_range
validate-returns r v = ground arith

validate-Ordered :
    (l u s : Option ℤ)
    → validate_range (record { lower = l; upper = u; step = s }) ≡ returns tt
    → Ordered l u
unfolding validate_range
validate-Ordered (some l) (some u) s h = ground arith
validate-Ordered _ _ s h = tt

validate-Positive :
    (l u s : Option ℤ)
    → validate_range (record { lower = l; upper = u; step = s }) ≡ returns tt
    → Positive s
unfolding validate_range
validate-Positive l u (some s) h = ground arith
validate-Positive l u none h = tt

pub validate-IsValid : (r : ParameterRange ℤ) → validate_range r ≡ returns tt → IsValid r
unfolding validate_range
validate-IsValid r h = record {
  ordered = validate-Ordered r.lower r.upper r.step h;
  positive = validate-Positive r.lower r.upper r.step h;
}

pub validate-fails :
    (r : ParameterRange ℤ)
    → (validate_range r ≡ returns tt) ⊎ (validate_range r ≡ fails invalid_range)
unfolding validate_range
validate-fails r = ground arith

abbrev pub Above : Option ℤ → ℤ → Type 0
Above (some l) v = l ≤ℤ v
Above none v = Unit

abbrev pub Below : Option ℤ → ℤ → Type 0
Below (some u) v = v ≤ℤ u
Below none v = Unit

-- `v` is a whole number of steps above the lower limit, where both are set.
abbrev pub OnGrid : Option ℤ → Option ℤ → ℤ → Type 0
OnGrid (some l) (some s) v = (k : ℕ) × (v ≡ l +ℤ pos (k * pos_part s))
OnGrid _ _ v = Unit

-- The documentation of `ParameterRange`: between the limits, and on the grid or the upper limit.
abbrev pub Admits : ParameterRange ℤ → ℤ → Type 0
Admits r v = Above r.lower v × Below r.upper v × ((r.upper ≡ some v) ⊎ OnGrid r.lower r.step v)

-- The distance from the lower limit fits an `i64`, where it is computed.
abbrev pub NoOverflow : Option ℤ → ℤ → Type 0
NoOverflow (some l) v = pos_part v + neg_part l ≤ 9223372036854775807 + neg_part v + pos_part l
NoOverflow none v = Unit

sub-eq-pos : (l v : ℤ) → l ≤ℤ v → v -ℤ l ≡ pos (pos_part v + neg_part l - (neg_part v + pos_part l))
unfolding ◌-ℤ◌
sub-eq-pos l v h = ground arith

div-exact : (d s : ℕ) → d % suc s ≡ 0 → d ≡ d / suc s * suc s
div-exact d s h = omega (arith, div-add-mod' d (suc s))

rem-pos : (d s : ℕ) → rem (pos d) (pos (suc s)) ≡ pos (d % suc s)
rem-pos d s = ground arith

mod-mul : (k s : ℕ) → (k * suc s) % suc s ≡ 0
mod-mul k s = grind arith

step_decides : (d s : ℕ) → (beq_ℤ (pos (d % suc s)) (pos 0) ≡ true) ↔ ((k : ℕ) × (d ≡ k * suc s))
step_decides d s = (λ h. (d / suc s, div-exact d s (ground arith)), λ (k, e). rw e (rw mod-mul))

on_step_lem :
    (l s v : ℤ)
    → l ≤ℤ v
    → pos 1 ≤ℤ s
    → NoOverflow (some l) v
    → on_step (some l) (some s) v ≡ returns (beq_ℤ (rem (v -ℤ l) s) (pos 0))
unfolding on_step ◌-ℤ◌
on_step_lem l s v h p n = ground arith

grid_iff :
    (l v : ℤ) (n k : ℕ)
    → l ≤ℤ v
    → (pos_part v + neg_part l - (neg_part v + pos_part l) ≡ k * n) ↔ (v ≡ l +ℤ pos (k * n))
unfolding ◌+ℤ◌
grid_iff l v n k h = (λ e. ground arith, λ e. ground arith)

pub inside-bounds :
    (l u s : Option ℤ) (v : ℤ)
    → inside_boundary (record { lower = l; upper = u; step = s }) v ≡ true
    → Above l v × Below u v
unfolding inside_boundary
inside-bounds (some l) (some u) s v h = (ground arith, ground arith)
inside-bounds (some l) none s v h = (ground arith, tt)
inside-bounds none (some u) s v h = (tt, ground arith)
inside-bounds none none s v h = (tt, tt)

pub bounds-inside :
    (l u s : Option ℤ) (v : ℤ)
    → Above l v
    → Below u v
    → inside_boundary (record { lower = l; upper = u; step = s }) v ≡ true
unfolding inside_boundary
bounds-inside (some l) (some u) s v a b = ground arith
bounds-inside (some l) none s v a b = ground arith
bounds-inside none (some u) s v a b = ground arith
bounds-inside none none s v a b = refl

-- Where the test of the step is reached, it decides the grid.
abbrev pub Decides : Outcome ⊥ Bool → Type 0 → Type 0
Decides o P = (b : Bool) × (o ≡ returns b) × ((b ≡ true) ↔ P)

on_grid :
    (l s v : ℤ)
    → l ≤ℤ v
    → pos 1 ≤ℤ s
    → (beq_ℤ (rem (v -ℤ l) s) (pos 0) ≡ true) ↔ OnGrid (some l) (some s) v
on_grid l (pos zero) v h p = absurd (omega arith)
on_grid l (negsuc s) v h p = absurd (omega arith)
on_grid l (pos (suc s)) v h p = rw (sub-eq-pos l v h) (
    rw (rem-pos) (
      (
        λ e.
            let g = (step_decides (pos_part v + neg_part l - (neg_part v + pos_part l)) s).0 e in
            (g.0, (grid_iff l v (suc s) g.0 h).0 g.1),
        λ (k, e).
            (step_decides (pos_part v + neg_part l - (neg_part v + pos_part l)) s).1
              (k, (grid_iff l v (suc s) k h).1 e),
      )))

pub on_step-Decides :
    (l s : Option ℤ) (v : ℤ)
    → Above l v
    → Positive s
    → NoOverflow l v
    → Decides (on_step l s v) (OnGrid l s v)
on_step-Decides (some l) (some s) v h p n =
    (beq_ℤ (rem (v -ℤ l) s) (pos 0), on_step_lem l s v h p n, on_grid l s v h p)
on_step-Decides (some l) none v h p n = (true, unfold on_step in refl, (λ _. tt, λ _. refl))
on_step-Decides none (some s) v h p n = (true, unfold on_step in refl, (λ _. tt, λ _. refl))
on_step-Decides none none v h p n = (true, unfold on_step in refl, (λ _. tt, λ _. refl))
