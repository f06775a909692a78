-- ===== src/Parameter/Service/Atomic.antt =====
-- `set_parameters_atomically` against `set_parameters`: all settings or none.
use ros2_rust.Prelude.{
  ◌≡◌, ◌⊎◌, inl, inr, refl, sym, ap, ◌∙◌, true, false, Option, none, some, Outcome, returns, fails,
  panics, arith, ok, ◌>>=◌, returns-eq, >>=-eq-returns, List, [], ◌∷◌,
}
use ros2_rust.Prelude.Bytes.{Bytes}
use ros2_rust.Parameter.Float.{Float}
use ros2_rust.Parameter.Utf8.{Utf8, to_str}
use ros2_rust.Parameter.Value.{ParameterValue}
use ros2_rust.Parameter.Rmw.{RmwParameterValue, from_rmw}
use ros2_rust.Parameter.Storage.{
  ParameterMap, Reason, not_utf8, validate_parameter_setting, store_parameter,
}
use ros2_rust.Parameter.Storage.Validation.{validate-inv}
use ros2_rust.Parameter.Storage.Guards.{Passes, Allowing, store-Allowing}
use ros2_rust.Parameter.Service.{
  RmwParameter, SetParametersResult, success, failure, apply_setting, set_one, set_parameters,
  validate_one, validate_all, store_all, set_parameters_atomically, conclude,
}

-- One success for each parameter.
abbrev pub all_succeed : {A : Type 0} → List A → List SetParametersResult
all_succeed [] = []
all_succeed (p ∷ ps) = success ∷ all_succeed ps

module _ {F : Type 0} ⦃fl : Float F⦄ ⦃u : Utf8⦄ where
  Passes-validate :
      (m : ParameterMap F) (name : Bytes) (rmw : RmwParameterValue F) (value : ParameterValue F)
      → from_rmw rmw ≡ ok value
      → Passes m name value
      → validate_parameter_setting m name rmw ≡ returns value
  unfolding validate_parameter_setting
  Passes-validate m name rmw value e h = rw (e, h)

  set_validated :
      (param : RmwParameter F) (m m' : ParameterMap F) (name : Bytes) (value : ParameterValue F)
      → to_str param.name ≡ some name
      → validate_parameter_setting m name param.value ≡ returns value
      → store_parameter name value m ≡ returns m'
      → set_one param m ≡ returns (success, m')
  unfolding set_one
  set_validated param m m' name value n e h = ap (λ o. on_name o) n ∙ rw (e, h)
    where
      on_name : Option Bytes → Outcome ⊥ (SetParametersResult × ParameterMap F)
      on_name none = returns (failure not_utf8, m)
      on_name (some k) = apply_setting (validate_parameter_setting m k param.value) k m

  validate_one-inv :
      (param : RmwParameter F) (m : ParameterMap F) (name : Bytes) (value : ParameterValue F)
      → validate_one param m ≡ returns (name, value)
      → (to_str param.name ≡ some name)
        × (validate_parameter_setting m name param.value ≡ returns value)
  unfolding validate_one
  validate_one-inv param m name value h = ground arith

  -- one validated parameter is set, and the guards of the others stay open
  store_first :
      (param : RmwParameter F) (m0 m m' : ParameterMap F) (name : Bytes) (value : ParameterValue F)
      → Allowing m0 m
      → validate_one param m0 ≡ returns (name, value)
      → store_parameter name value m ≡ returns m'
      → (set_one param m ≡ returns (success, m')) × Allowing m0 m'
  store_first param m0 m m' name value keep h stores =
      let (n, valid) = validate_one-inv param m0 name value h in
      let inv = validate-inv m0 name param.value value valid in
      (
        set_validated param m m' name value n
            (Passes-validate m name param.value value inv.0 (keep name value inv.1)) stores,
        λ k v open_guard. store-Allowing name value m m' stores k v (keep k v open_guard),
      )

  cons_success :
      (param : RmwParameter F) (params : List (RmwParameter F)) (m m1 m' : ParameterMap F)
      (rs : List SetParametersResult)
      → set_one param m ≡ returns (success, m1)
      → set_parameters params m1 ≡ returns (rs, m')
      → set_parameters (param ∷ params) m ≡ returns (success ∷ rs, m')
  unfolding set_parameters
  cons_success param params m m1 m' rs a b = rw (a, b)

  stored-set :
      (params : List (RmwParameter F)) (m0 m m' : ParameterMap F)
      (results : List (Bytes × ParameterValue F))
      → Allowing m0 m
      → validate_all params m0 ≡ returns results
      → store_all results m ≡ returns m'
      → set_parameters params m ≡ returns (all_succeed params, m')
  unfolding validate_all store_all
  stored-set [] m0 m m' results keep h s =
      let s' = ap (λ l. store_all l m) (returns-eq h) ∙ s in
      unfold set_parameters in ap (λ k. returns ([], k)) (returns-eq s')
  stored-set (param ∷ params) m0 m m' results keep h s =
      let (first, a, rest) =
        >>=-eq-returns (validate_one param m0)
          (λ f. validate_all params m0 >>= λ o. returns (f ∷ o)) h in
      let (others, b, done) =
        >>=-eq-returns (validate_all params m0) (λ o. returns (first ∷ o)) rest in
      let s' = ap (λ l. store_all l m) (returns-eq done) ∙ s in
      let (m1, stores, more) =
        >>=-eq-returns (store_parameter first.0 first.1 m) (store_all others) s' in
      let (one, keep') = store_first param m0 m m1 first.0 first.1 keep a stores in
      cons_success param params m m1 m' (all_succeed params) one
        (stored-set params m0 m1 m' others keep' b more)

  concluded :
      (params : List (RmwParameter F)) (m : ParameterMap F)
      (o : Outcome Reason (List (Bytes × ParameterValue F))) (r : SetParametersResult)
      (m' : ParameterMap F)
      → validate_all params m ≡ o
      → conclude o m ≡ returns (r, m')
      → ((r.successful ≡ false) × (m' ≡ m))
        ⊎ ((r.successful ≡ true) × (set_parameters params m ≡ returns (all_succeed params, m')))
  concluded params m (returns results) r m' v h =
      let (k, stores, done) = >>=-eq-returns (store_all results m) (λ k. returns (success, k)) h in
      let e = returns-eq done in
      inr (
        sym (ap (λ p. p.0.successful) e),
        stored-set params m m m' results (λ k v p. p) v (stores ∙ ap (λ p. returns p.1) e),
      )
  concluded params m (fails q) r m' v h =
      let e = returns-eq h in inl (sym (ap (λ p. p.0.successful) e), sym (ap (λ p. p.1) e))
  concluded params m panics r m' v h = cc

  -- Where `set_parameters_atomically` answers, it is all or nothing: either it reports a failure and
  -- the map is as it was, or it reports success, and `set_parameters` of the same request would
  -- have succeeded for every parameter and left the same map.
  pub atomic-eq-set_parameters :
      (params : List (RmwParameter F)) (m : ParameterMap F) (r : SetParametersResult)
      (m' : ParameterMap F)
      → set_parameters_atomically params m ≡ returns (r, m')
      → ((r.successful ≡ false) × (m' ≡ m))
        ⊎ ((r.successful ≡ true) × (set_parameters params m ≡ returns (all_succeed params, m')))
  unfolding set_parameters_atomically
  atomic-eq-set_parameters params m r m' h = concluded params m (validate_all params m) r m' refl h
