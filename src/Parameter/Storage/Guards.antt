-- ===== src/Parameter/Storage/Guards.antt =====
-- What could be set before a parameter is stored can still be set afterwards.
use ros2_rust.Prelude.{
  ◌≡◌, refl, ap, ◌∙◌, subst, Option, none, some, returns, returns-eq, Bool-cases, inl, inr,
}
use ros2_rust.Prelude.Bytes.{Bytes, beq, beq_iff}
use ros2_rust.Prelude.BTreeMap
use ros2_rust.Prelude.BTreeMap.{get-insert_self, get-insert_ne}
use ros2_rust.Parameter.Float.{Float}
use ros2_rust.Parameter.Value.{ParameterValue}
use ros2_rust.Parameter.Storage.{
  DeclaredValue, mandatory, optional, read_only, ParameterStorage, declared, undeclared,
  ParameterMap, check_entry, put_undeclared, store_parameter, store_entry, store_declared,
}

module _ {F : Type 0} ⦃fl : Float F⦄ where
  -- the guard that a setting of `k` to `v` passes
  abbrev pub Passes : ParameterMap F → Bytes → ParameterValue F → Type 0
  Passes m k v = check_entry (BTreeMap.get k m.storage) m.allow_undeclared v ≡ returns tt

  -- whatever could be set before can be set after
  abbrev pub Allowing : ParameterMap F → ParameterMap F → Type 0
  Allowing m m' = (k : Bytes) (v : ParameterValue F) → Passes m k v → Passes m' k v

  put-Allowing :
      (m : ParameterMap F) (name : Bytes) (value : ParameterValue F)
      → Allowing m (put_undeclared name value m)
  put-Allowing m name value k v h = elim (Bool-cases (beq name k)) [
    | inl e ↦
        subst (λ j. Passes (put_undeclared name value m) j v) ((beq_iff name k).0 e)
          (set_again m name value v)
    | inr e ↦
        ap (λ o. check_entry o m.allow_undeclared v)
          (get-insert_ne name k (undeclared value) m.storage (λ p. cc (e, (beq_iff name k).1 p)))
        ∙ h
  ]
    where
      set_again :
          (m : ParameterMap F) (name : Bytes) (value v : ParameterValue F)
          → Passes (put_undeclared name value m) name v
      set_again m name value v =
          ap (λ o. check_entry o m.allow_undeclared v)
            (get-insert_self name (undeclared value) m.storage)
          ∙ unfold check_entry in refl

  store_declared-Allowing :
      (x : DeclaredValue F) (value : ParameterValue F) (m m' : ParameterMap F)
      → store_declared x value m ≡ returns m'
      → Allowing m m'
  store_declared-Allowing (mandatory c) value m m' h =
      subst (Allowing m) (returns-eq h) (λ k v p. p)
  store_declared-Allowing (optional c) value m m' h = subst (Allowing m) (returns-eq h) (λ k v p. p)
  store_declared-Allowing (read_only v) value m m' h = cc

  store_entry-Allowing :
      (o : Option (ParameterStorage F)) (name : Bytes) (value : ParameterValue F)
      (m m' : ParameterMap F)
      → store_entry o name value m ≡ returns m'
      → Allowing m m'
  store_entry-Allowing none name value m m' h =
      subst (Allowing m) (returns-eq h) (put-Allowing m name value)
  store_entry-Allowing (some (undeclared v)) name value m m' h =
      subst (Allowing m) (returns-eq h) (put-Allowing m name value)
  store_entry-Allowing (some (declared d)) name value m m' h =
      store_declared-Allowing d.value value m m' h

  -- Storing a parameter never closes a guard that was open.
  pub store-Allowing :
      (name : Bytes) (value : ParameterValue F) (m m' : ParameterMap F)
      → store_parameter name value m ≡ returns m'
      → Allowing m m'
  unfolding store_parameter
  store-Allowing name value m m' h =
      store_entry-Allowing (BTreeMap.get name m.storage) name value m m' h
