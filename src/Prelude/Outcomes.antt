-- ===== src/Prelude/Outcomes.antt =====
-- Results of calls. `Result` is Rust's; an `Outcome` is a `Result` or a panic (a failed `unwrap`,
-- `unreachable!`, an overflow under overflow checks, a division by zero).
use mathlib.Core.Path.{◌≡◌, refl}
use mathlib.Core.Option.{Option, none, some}
use mathlib.Core.Bool.{Bool, true, false}

pub data Result {ℓ κ} (E : Type ℓ) (A : Type κ) : Type (ℓ ⊔ κ) where
  ok : A → Result E A
  err : E → Result E A

pub data Outcome {ℓ κ} (E : Type ℓ) (A : Type κ) : Type (ℓ ⊔ κ) where
  returns : A → Outcome E A
  fails : E → Outcome E A
  panics : Outcome E A

infixl 5 ◌>>=◌ ◌>>◌
abbrev pub ◌>>=◌ {ℓ κ μ} :
    {E : Type ℓ} {A : Type κ} {B : Type μ} → Outcome E A → (A → Outcome E B) → Outcome E B
returns a >>= f = f a
fails e >>= f = fails e
panics >>= f = panics

abbrev pub ◌>>◌ {ℓ κ μ} :
    {E : Type ℓ} {A : Type κ} {B : Type μ} → Outcome E A → Outcome E B → Outcome E B
m >> k = m >>= λ _. k

-- `?` on a `Result`.
abbrev pub from_result {ℓ κ} : {E : Type ℓ} {A : Type κ} → Result E A → Outcome E A
from_result (ok a) = returns a
from_result (err e) = fails e

-- `.unwrap()` on an `Option`.
abbrev pub unwrap {ℓ κ} : {E : Type ℓ} {A : Type κ} → Option A → Outcome E A
unwrap (some a) = returns a
unwrap none = panics

-- `if b { return Err(e) }`.
abbrev pub fail_if {ℓ} : {E : Type ℓ} → Bool → E → Outcome E (Unit {0})
fail_if true e = fails e
fail_if false e = returns tt

pub >>=-eq-returns {ℓ κ μ} :
    {E : Type ℓ} {A : Type κ} {B : Type μ} (m : Outcome E A) (f : A → Outcome E B) {b : B}
    → (m >>= f) ≡ returns b
    → (a : A) × (m ≡ returns a) × (f a ≡ returns b)
>>=-eq-returns (returns a) f h = (a, refl, h)
>>=-eq-returns (fails e) f h = cc
>>=-eq-returns panics f h = cc

-- A call of a function that returns no `Result`, and can only panic.
abbrev pub call {ℓ κ} : {E : Type ℓ} {A : Type κ} → Outcome ⊥ A → Outcome E A
call (returns a) = returns a
call (fails e) = absurd e
call panics = panics

pub returns-eq {ℓ κ} :
    {E : Type ℓ} {A : Type κ} {a b : A} → ◌≡◌ {A = Outcome E A} (returns a) (returns b) → a ≡ b
returns-eq h = cc

pub >>=-cong {ℓ κ μ} :
    {E : Type ℓ} {A : Type κ} {B : Type μ} (m : Outcome E A) (f g : A → Outcome E B)
    → ((a : A) → f a ≡ g a)
    → (m >>= f) ≡ (m >>= g)
>>=-cong (returns a) f g h = h a
>>=-cong (fails e) f g h = refl
>>=-cong panics f g h = refl

pub >>=_assoc {ℓ κ μ ν} :
    {E : Type ℓ} {A : Type κ} {B : Type μ} {C : Type ν} (m : Outcome E A) (f : A → Outcome E B)
    (g : B → Outcome E C)
    → (m >>= f >>= g) ≡ (m >>= λ a. f a >>= g)
>>=_assoc (returns a) f g = refl
>>=_assoc (fails e) f g = refl
>>=_assoc panics f g = refl
