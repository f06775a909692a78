-- ===== src/Parameter/Rmw/Laws.antt =====
-- The conversions of parameter values lose nothing, and reject exactly the unknown types.
use ros2_rust.Prelude.{
  ◌<◌, ◌≡◌, ◌⊎◌, refl, ap, true, List, [], ◌∷◌, map, ok, err, panics, Outcome, returns, fails,
  arith, ◌==◌, ==_iff, Bool-cases, inl, inr, ◌≢◌, ◌↔◌,
}
use ros2_rust.Prelude.Bytes.{Bytes}
use ros2_rust.Parameter.Float.{Float}
use ros2_rust.Parameter.Utf8.{Utf8}
use ros2_rust.Parameter.Value.{ParameterValue}
use ros2_rust.Parameter.Rmw.{
  RmwParameterValue, invalid_parameter_type, rcl_parameter_type, to_rmw, from_rmw, RclVariant,
  num_active, from_rcl_variant,
}

abbrev pub AllValid : ⦃u : Utf8⦄ → List Bytes → Type 0
AllValid ⦃u⦄ [] = Unit
AllValid ⦃u⦄ (s ∷ ss) = (u.valid s ≡ true) × AllValid ss

-- The strings of a value are Rust strings, hence valid UTF-8.
abbrev pub IsText : {F : Type 0} ⦃u : Utf8⦄ → ParameterValue F → Type 0
IsText ⦃u⦄ (ParameterValue.string s) = u.valid s ≡ true
IsText ⦃u⦄ (ParameterValue.string_array ss) = AllValid ss
IsText _ = Unit

map-lossy : ⦃u : Utf8⦄ (ss : List Bytes) → AllValid ss → map u.lossy ss ≡ ss
map-lossy [] h = refl
map-lossy ⦃u⦄ (s ∷ ss) h = cc (u.lossy_valid s h.0, map-lossy ss h.1)

module _ {F : Type 0} ⦃fl : Float F⦄ ⦃u : Utf8⦄ where
  -- A value, its strings valid UTF-8, comes back from its message unchanged, and the message's type
  -- code is the one that `rcl_parameter_type` reports.
  pub from_rmw-to_rmw :
      (v : ParameterValue F)
      → IsText v
      → (from_rmw (to_rmw v) ≡ ok v) × ((to_rmw v).type_ ≡ rcl_parameter_type v)
  unfolding from_rmw to_rmw rcl_parameter_type
  from_rmw-to_rmw (ParameterValue.string s) h =
      (ap (λ t. ok (ParameterValue.string t)) (u.lossy_valid s h), refl)
  from_rmw-to_rmw (ParameterValue.string_array ss) h =
      (ap (λ t. ok (ParameterValue.string_array t)) (map-lossy ss h), refl)
  from_rmw-to_rmw (ParameterValue.bool v) h = (refl, refl)
  from_rmw-to_rmw _ h = (refl, refl)

  needs_one : (var : RclVariant F) → from_rcl_variant {E = ⊥} var ≢ panics → num_active var ≡ 1
  unfolding from_rcl_variant
  needs_one var h = elim (Bool-cases (num_active var == 1)) [
    | inl e ↦ (==_iff (num_active var) 1).0 e
    | inr e ↦ absurd (h (rw e))
  ]

  -- Converting a message fails exactly if its type code is `PARAMETER_NOT_SET` or above the codes
  -- that exist.
  pub from_rmw-eq-err :
      (p : RmwParameterValue F)
      → (from_rmw p ≡ err invalid_parameter_type) ↔ ((p.type_ ≡ 0) ⊎ (9 < p.type_))
  unfolding from_rmw
  from_rmw-eq-err p = (λ h. ground arith, λ h. ground arith)

  -- Converting a variant parsed by `rcl` panics exactly if the number of its fields that are set is
  -- not one: with one field set the code returns, and does not reach its `unreachable!`.
  pub from_rcl_variant-ne-panics :
      (var : RclVariant F) → (num_active var ≡ 1) ↔ (from_rcl_variant {E = ⊥} var ≢ panics)
  unfolding from_rcl_variant
  from_rcl_variant-ne-panics var = (λ h e. ground arith, λ h. needs_one var h)

returned_or_panics :
    {F E : Type 0} (o : Outcome E (ParameterValue F))
    → ((e : E) → o ≢ fails e)
    → o ≢ panics
    → (v : ParameterValue F) × (o ≡ returns v)
returned_or_panics (returns v) f p = (v, refl)
returned_or_panics (fails e) f p = absurd (f e refl)
returned_or_panics panics f p = absurd (p refl)

module _ {F : Type 0} ⦃u : Utf8⦄ where
  -- one field set: the conversion returns, in every error type
  pub from_rcl_variant_total :
      {E : Type 0} (var : RclVariant F)
      → num_active var ≡ 1
      → (v : ParameterValue F) × (from_rcl_variant {E = E} var ≡ returns v)
  unfolding from_rcl_variant
  from_rcl_variant_total {E} var h =
      returned_or_panics (from_rcl_variant {E = E} var) (λ e k. ground arith) (λ k. ground arith)
