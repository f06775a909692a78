-- ===== src/Prelude/BTreeMap.antt =====
-- `std::collections::BTreeMap` with text keys, as an association list in the order of the keys.
-- The representation is private: a client has `map_laws`.
use mathlib.Core.Path.{◌≡◌, refl, sym, ◌∙◌}
use mathlib.Core.Bool.{true, false}
use mathlib.Core.Option.{Option, none, some}
use mathlib.Core.Logic.{◌≢◌, ◌⊎◌, inl, inr}
use mathlib.Core.List.{List, [], ◌∷◌}
use native.Mathlib.Omega.{arith}
use ros2_rust.Prelude.Tests.{if◌then◌else◌, Bool-cases}
use ros2_rust.Prelude.Bytes.{Bytes, beq, blt, beq_iff, beq_refl}

pub record BTreeMap {ℓ} (V : Type ℓ) : Type ℓ where
  entries : List (Bytes × V)

module _ {ℓ} {V : Type ℓ} where
  lookup : Bytes → List (Bytes × V) → Option V
  lookup k [] = none
  lookup k ((j, v) ∷ m) = if beq j k then some v else lookup k m

  put : Bytes → V → List (Bytes × V) → List (Bytes × V)
  put k v [] = (k, v) ∷ []
  put k v ((j, w) ∷ m) =
      if beq j k then (k, v) ∷ m else if blt k j then (k, v) ∷ (j, w) ∷ m else (j, w) ∷ put k v m

  without : Bytes → List (Bytes × V) → List (Bytes × V)
  without k [] = []
  without k ((j, v) ∷ m) = let rest = without k m in if beq j k then rest else (j, v) ∷ rest

  keys_of : List (Bytes × V) → List Bytes
  keys_of [] = []
  keys_of ((j, v) ∷ m) = j ∷ keys_of m

  unfoldable pub empty : BTreeMap V
  empty = record { entries = [] }

  unfoldable pub get : Bytes → BTreeMap V → Option V
  unfolding lookup
  get k m = lookup k m.entries

  unfoldable pub insert : Bytes → V → BTreeMap V → BTreeMap V
  unfolding put
  insert k v m = record { entries = put k v m.entries }

  unfoldable pub remove : Bytes → BTreeMap V → BTreeMap V
  unfolding without
  remove k m = record { entries = without k m.entries }

  unfoldable pub keys : BTreeMap V → List Bytes
  unfolding keys_of
  keys m = keys_of m.entries

  lookup-put :
      (k j : Bytes) (v : V) (m : List (Bytes × V))
      → lookup j (put k v m) ≡ (if beq k j then some v else lookup j m)
  unfolding lookup put
  lookup-put k j v [] = refl
  lookup-put k j v ((i, w) ∷ m) =
      ground (arith, beq_iff k j, beq_iff i k, beq_iff i j, lookup-put k j v m)

  lookup-without :
      (k j : Bytes) (m : List (Bytes × V))
      → lookup j (without k m) ≡ (if beq k j then none else lookup j m)
  unfolding lookup without
  lookup-without k j [] = ground arith
  lookup-without k j ((i, w) ∷ m) =
      ground (arith, beq_iff k j, beq_iff i k, beq_iff i j, lookup-without k j m)

  pub get-insert :
      (k j : Bytes) (v : V) (m : BTreeMap V)
      → get j (insert k v m) ≡ (if beq k j then some v else get j m)
  unfolding get insert
  get-insert k j v m = lookup-put k j v m.entries

  pub get-remove :
      (k j : Bytes) (m : BTreeMap V) → get j (remove k m) ≡ (if beq k j then none else get j m)
  unfolding get remove
  get-remove k j m = lookup-without k j m.entries

pub get-empty {ℓ} : {V : Type ℓ} (k : Bytes) → get k (empty {V = V}) ≡ none
unfolding get empty
get-empty k = refl

pub ruleset map_laws = (get-empty, get-insert, get-remove)

module _ {ℓ} {V : Type ℓ} where
  inserted : (k j : Bytes) (v : V) (m : BTreeMap V) → beq k j ≡ true → get j (insert k v m) ≡ some v
  inserted k j v m e = rw (get-insert, e)

  kept : (k j : Bytes) (v : V) (m : BTreeMap V) → beq k j ≡ false → get j (insert k v m) ≡ get j m
  kept k j v m e = rw (get-insert, e)

  removed : (k j : Bytes) (m : BTreeMap V) → beq k j ≡ true → get j (remove k m) ≡ none
  removed k j m e = rw (get-remove, e)

  left : (k j : Bytes) (m : BTreeMap V) → beq k j ≡ false → get j (remove k m) ≡ get j m
  left k j m e = rw (get-remove, e)

  pub get-insert_ne :
      (k j : Bytes) (v : V) (m : BTreeMap V) → k ≢ j → get j (insert k v m) ≡ get j m
  get-insert_ne k j v m h = elim (Bool-cases (beq k j)) [
    | inl e ↦ absurd (h ((beq_iff k j).0 e))
    | inr e ↦ kept k j v m e
  ]

  -- Where an entry of an extended map comes from.
  pub insert-cases :
      (k j : Bytes) (v : V) (m : BTreeMap V) {w : V}
      → get j (insert k v m) ≡ some w
      → ((k ≡ j) × (v ≡ w)) ⊎ ((k ≢ j) × (get j m ≡ some w))
  insert-cases k j v m h = elim (Bool-cases (beq k j)) [
    | inl e ↦ inl ((beq_iff k j).0 e, cc (h, inserted k j v m e))
    | inr e ↦ inr (λ p. cc (e, (beq_iff k j).1 p), sym (kept k j v m e) ∙ h)
  ]

  pub remove-cases :
      (k j : Bytes) (m : BTreeMap V) {w : V}
      → get j (remove k m) ≡ some w
      → (k ≢ j) × (get j m ≡ some w)
  remove-cases k j m h = elim (Bool-cases (beq k j)) [
    | inl e ↦ cc (h, removed k j m e)
    | inr e ↦ (λ p. cc (e, (beq_iff k j).1 p), sym (left k j m e) ∙ h)
  ]

  pub get-insert_self : (k : Bytes) (v : V) (m : BTreeMap V) → get k (insert k v m) ≡ some v
  get-insert_self k v m = rw (get-insert, beq_refl)
