-- ===== src/Parameter/Declare/Selection.antt =====
-- How the initial value of a declaration is chosen, and when a declaration fails.
use ros2_rust.Prelude.{
  ◌≡◌, ◌≢◌, ◌⊎◌, inl, inr, refl, sym, subst, Bool, true, false, Option, none, some, returns, fails,
  arith, returns-eq, >>=-eq-returns, if◌then◌else◌,
}
use ros2_rust.Prelude.BTreeMap
use ros2_rust.Parameter.Float.{Float}
use ros2_rust.Parameter.Value.{ParameterVariant}
use ros2_rust.Parameter.Range.{ParameterRanges, in_range, validate, already_declared}
use ros2_rust.Parameter.Storage.{DeclaredStorage, declared}
use ros2_rust.Parameter.Declare.{
  AvailableValues, ParameterBuilder, ParameterInterface, default_initial_value_discriminator,
  get_declaration_initial_value, prior_in_range, override_or_default,
}

module _ {F T : Type 0} ⦃fl : Float F⦄ ⦃v : ParameterVariant F T⦄ where
  abbrev InRange : ParameterRanges F → T → Type 0
  InRange rs x = in_range rs (v.into x) ≡ returns true

  abbrev pub SelectedIn : ParameterRanges F → Option T → Type 0
  SelectedIn rs none = Unit
  SelectedIn rs (some x) = InRange rs x

  pub selection-In :
      (i : ParameterInterface F) (b : ParameterBuilder F T) (o p : Option T)
      → get_declaration_initial_value i b ≡ returns o
      → o ≡ p
      → SelectedIn b.options.ranges p
  unfolding get_declaration_initial_value
  selection-In i b o none h e = tt
  selection-In i b o (some x) h e = ground arith

  pub selection-valid :
      (i : ParameterInterface F) (b : ParameterBuilder F T) (o : Option T)
      → get_declaration_initial_value i b ≡ returns o
      → validate b.options.ranges ≡ returns tt
  unfolding get_declaration_initial_value
  selection-valid i b o h = ground arith

  selection-new :
      (i : ParameterInterface F) (b : ParameterBuilder F T) (o : Option T) (d : DeclaredStorage F)
      → get_declaration_initial_value i b ≡ returns o
      → BTreeMap.get b.name i.parameter_map.storage ≢ some (declared d)
  unfolding get_declaration_initial_value
  selection-new i b o d h e = ground arith

  -- Every selection that is returned was validated: the ranges are valid and the value, if there is
  -- one, lies in them; and the name was not declared before.
  pub selected-InRange :
      (i : ParameterInterface F) (b : ParameterBuilder F T) (o : Option T) (d : DeclaredStorage F)
      → get_declaration_initial_value i b ≡ returns o
      → (validate b.options.ranges ≡ returns tt)
        × SelectedIn b.options.ranges o
        × (BTreeMap.get b.name i.parameter_map.storage ≢ some (declared d))
  selected-InRange i b o d h =
      (selection-valid i b o h, selection-In i b o o h refl, λ e. selection-new i b o d h e)

  -- A declaration of a name that is declared already fails with `AlreadyDeclared`, if its ranges
  -- are valid and the overrides are ignored.
  pub declared_again :
      (i : ParameterInterface F) (b : ParameterBuilder F T) (d : DeclaredStorage F)
      → validate b.options.ranges ≡ returns tt
      → b.ignore_override ≡ true
      → BTreeMap.get b.name i.parameter_map.storage ≡ some (declared d)
      → get_declaration_initial_value i b ≡ fails already_declared
  unfolding get_declaration_initial_value
  declared_again i b d r o g = rw (r, o, g)

  -- Which value the default choice picks: a prior value in range before the override, and the
  -- override before the default.
  abbrev pub NotKept : AvailableValues F T → Type 0
  NotKept available = prior_in_range available.prior_value available.ranges ≡ returns false

  abbrev pub Preferred : AvailableValues F T → Option T → Type 0
  Preferred available o =
      ((x : T) × (available.prior_value ≡ some x) × InRange available.ranges x × (o ≡ some x))
      ⊎ (NotKept available × (x : T) × (available.override_value ≡ some x) × (o ≡ some x))
      ⊎ (NotKept available × (available.override_value ≡ none) × (o ≡ available.default_value))

  fallback :
      (available : AvailableValues F T) (ov : Option T) (o : Option T)
      → NotKept available
      → available.override_value ≡ ov
      → override_or_default ov available.default_value ≡ o
      → Preferred available o
  fallback available (some x) o k e h = inr (inl (k, x, e, sym h))
  fallback available none o k e h = inr (inr (k, e, sym h))

  chosen :
      (available : AvailableValues F T) (p o : Option T) (keep : Bool)
      → available.prior_value ≡ p
      → prior_in_range p available.ranges ≡ returns keep
      → (if keep then p else override_or_default available.override_value available.default_value)
        ≡ o
      → Preferred available o
  chosen available (some x) o true e k h = inl (x, e, k, sym h)
  chosen available none o true e k h = cc
  chosen available p o false e k h =
      fallback available available.override_value o
        (subst (λ q. prior_in_range q available.ranges ≡ returns false) (sym e) k) refl h

  -- The default discriminator returns the prior value if it lies in the range, else the override if
  -- there is one, else the default.
  pub default_discriminator_lem :
      (available : AvailableValues F T) (o : Option T)
      → default_initial_value_discriminator available ≡ returns o
      → Preferred available o
  unfolding default_initial_value_discriminator
  default_discriminator_lem available o h =
      let pick = λ (keep : Bool).
        if keep
        then available.prior_value
        else override_or_default available.override_value available.default_value in
      let (keep, a, rest) =
        >>=-eq-returns (prior_in_range available.prior_value available.ranges)
          (λ keep. returns (pick keep)) h in
      chosen available available.prior_value o keep refl a (returns-eq rest)
