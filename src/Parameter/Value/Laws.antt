-- ===== src/Parameter/Value/Laws.antt =====
-- The ten implementations of `ParameterVariant` obey one contract, the interface of the proofs
-- about declarations.
use ros2_rust.Prelude.{true, ok, ◌≡◌, refl, arith, ◌||◌}
use ros2_rust.Parameter.Value.{
  ParameterValue, ParameterKind, ParameterVariant, kind_eq, kind_of, bool_variant, i64_variant,
  f64_variant, str_variant, u8_array_variant, bool_array_variant, i64_array_variant,
  f64_array_variant, str_array_variant, dynamic_variant,
}

-- `k` is the kind of a declaration that may hold `v`: the value's own kind, or `Dynamic`.
abbrev pub Allows : {F : Type 0} → ParameterKind → ParameterValue F → Type 0
Allows k v = (kind_eq k (kind_of v) || kind_eq k ParameterKind.dynamic) ≡ true

pub record IsLawful {F T : Type 0} (v : ParameterVariant F T) : Type 0 where
  -- what was put in comes out again
  pub round_trip : (x : T) → v.try_from (v.into x) ≡ ok x
  -- only the image of `into` is accepted
  pub exact : (p : ParameterValue F) (x : T) → v.try_from p ≡ ok x → v.into x ≡ p
  -- a value is accepted exactly if a parameter of this kind may hold it
  pub accepts : (p : ParameterValue F) → Allows v.kind p → (x : T) × (v.try_from p ≡ ok x)
  pub sound : (p : ParameterValue F) (x : T) → v.try_from p ≡ ok x → Allows v.kind p

module _ {F : Type 0} where
  pub bool-IsLawful : IsLawful (bool_variant {F = F})
  unfolding kind_eq kind_of
  bool-IsLawful = record {
    round_trip = λ x. refl;
    exact = λ p x h. ground arith;
    accepts = elim [ ParameterValue.bool v ↦ λ h. (v, refl) | _ ↦ λ h. cc ];
    sound = λ p x h. ground arith;
  }

  pub i64-IsLawful : IsLawful (i64_variant {F = F})
  unfolding kind_eq kind_of
  i64-IsLawful = record {
    round_trip = λ x. refl;
    exact = λ p x h. ground arith;
    accepts = elim [ ParameterValue.integer v ↦ λ h. (v, refl) | _ ↦ λ h. cc ];
    sound = λ p x h. ground arith;
  }

  pub f64-IsLawful : IsLawful (f64_variant {F = F})
  unfolding kind_eq kind_of
  f64-IsLawful = record {
    round_trip = λ x. refl;
    exact = λ p x h. ground arith;
    accepts = elim [ ParameterValue.double v ↦ λ h. (v, refl) | _ ↦ λ h. cc ];
    sound = λ p x h. ground arith;
  }

  pub str-IsLawful : IsLawful (str_variant {F = F})
  unfolding kind_eq kind_of
  str-IsLawful = record {
    round_trip = λ x. refl;
    exact = λ p x h. ground arith;
    accepts = elim [ ParameterValue.string v ↦ λ h. (v, refl) | _ ↦ λ h. cc ];
    sound = λ p x h. ground arith;
  }

  pub u8_array-IsLawful : IsLawful (u8_array_variant {F = F})
  unfolding kind_eq kind_of
  u8_array-IsLawful = record {
    round_trip = λ x. refl;
    exact = λ p x h. ground arith;
    accepts = elim [ ParameterValue.byte_array v ↦ λ h. (v, refl) | _ ↦ λ h. cc ];
    sound = λ p x h. ground arith;
  }

  pub bool_array-IsLawful : IsLawful (bool_array_variant {F = F})
  unfolding kind_eq kind_of
  bool_array-IsLawful = record {
    round_trip = λ x. refl;
    exact = λ p x h. ground arith;
    accepts = elim [ ParameterValue.bool_array v ↦ λ h. (v, refl) | _ ↦ λ h. cc ];
    sound = λ p x h. ground arith;
  }

  pub i64_array-IsLawful : IsLawful (i64_array_variant {F = F})
  unfolding kind_eq kind_of
  i64_array-IsLawful = record {
    round_trip = λ x. refl;
    exact = λ p x h. ground arith;
    accepts = elim [ ParameterValue.integer_array v ↦ λ h. (v, refl) | _ ↦ λ h. cc ];
    sound = λ p x h. ground arith;
  }

  pub f64_array-IsLawful : IsLawful (f64_array_variant {F = F})
  unfolding kind_eq kind_of
  f64_array-IsLawful = record {
    round_trip = λ x. refl;
    exact = λ p x h. ground arith;
    accepts = elim [ ParameterValue.double_array v ↦ λ h. (v, refl) | _ ↦ λ h. cc ];
    sound = λ p x h. ground arith;
  }

  pub str_array-IsLawful : IsLawful (str_array_variant {F = F})
  unfolding kind_eq kind_of
  str_array-IsLawful = record {
    round_trip = λ x. refl;
    exact = λ p x h. ground arith;
    accepts = elim [ ParameterValue.string_array v ↦ λ h. (v, refl) | _ ↦ λ h. cc ];
    sound = λ p x h. ground arith;
  }

  pub dynamic-IsLawful : IsLawful (dynamic_variant {F = F})
  unfolding kind_eq kind_of
  dynamic-IsLawful = record {
    round_trip = λ x. refl;
    exact = λ p x h. ground arith;
    accepts = λ p h. (p, refl);
    sound = λ p x h. ground arith;
  }

pub kind_eq_sound : (a b : ParameterKind) → kind_eq a b ≡ true → a ≡ b
unfolding kind_eq
kind_eq_sound a b h = ground arith

-- What a lawful type puts in, a parameter of its kind may hold.
pub into-Allows :
    {F T : Type 0} (v : ParameterVariant F T) → IsLawful v → (x : T) → Allows v.kind (v.into x)
into-Allows v l x = l.sound (v.into x) x (l.round_trip x)
