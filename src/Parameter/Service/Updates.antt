-- ===== src/Parameter/Service/Updates.antt =====
-- `set_parameters`, one parameter at a time, and what `get_parameters` reports afterwards.
use ros2_rust.Prelude.{
  suc, ◌≡◌, ◌⊎◌, inl, inr, refl, sym, ap, ◌∙◌, subst, true, false, Option, none, some, Outcome,
  returns, fails, panics, arith, ok, ◌>>=◌, returns-eq, >>=-eq-returns, List, [], ◌∷◌, length,
  Option-cases,
}
use ros2_rust.Prelude.Bytes.{Bytes}
use ros2_rust.Prelude.BTreeMap
use ros2_rust.Parameter.Float.{Float}
use ros2_rust.Parameter.Utf8.{Utf8, to_str}
use ros2_rust.Parameter.Value.{ParameterValue}
use ros2_rust.Parameter.Rmw.{RmwParameterValue, from_rmw, to_rmw}
use ros2_rust.Parameter.Storage.{
  ParameterStorage, declared, undeclared, ParameterMap, Reason, validate_parameter_setting,
}
use ros2_rust.Parameter.Storage.Invariant.{IsWellFormed}
use ros2_rust.Parameter.Storage.Validation.{Stored, validated-Stores, entry_value}
use ros2_rust.Parameter.Service.{
  RmwParameter, SetParametersResult, success, apply_setting, set_one, set_parameters, get_entry,
  get_parameters,
}

module _ {F : Type 0} ⦃fl : Float F⦄ ⦃u : Utf8⦄ where
  -- The parameter was set: its name is UTF-8, its value converts, and the map holds it now.
  pub record Applied (param : RmwParameter F) (m m' : ParameterMap F) : Type 0 where
    pub name : Bytes
    pub value : ParameterValue F
    pub named : to_str param.name ≡ some name
    pub converts : from_rmw param.value ≡ ok value
    pub stored : Stored name value m m'

  -- Either nothing happened and the result says so, or the setting was applied.
  abbrev pub Answered :
      RmwParameter F → ParameterMap F → SetParametersResult → ParameterMap F → Type 0
  Answered param m r m' =
      ((r.successful ≡ false) × (m' ≡ m)) ⊎ ((r.successful ≡ true) × Applied param m m')

  apply-Answered :
      (o : Outcome Reason (ParameterValue F)) (name : Bytes) (param : RmwParameter F)
      (m : ParameterMap F) (r : SetParametersResult) (m' : ParameterMap F)
      → IsWellFormed m
      → to_str param.name ≡ some name
      → validate_parameter_setting m name param.value ≡ o
      → apply_setting o name m ≡ returns (r, m')
      → Answered param m r m'
  unfolding apply_setting
  apply-Answered (returns value) name param m r m' w n h e =
      let (converts, written) = validated-Stores m name param.value value w h in
      let (m1, stores, stored) = written in
      let e' = returns-eq (sym (ap (λ o. o >>= λ k. returns (success, k)) stores) ∙ e) in
      inr (
        sym (ap (λ p. p.0.successful) e'),
        record {
          name = name;
          value = value;
          named = n;
          converts = converts;
          stored = subst (Stored name value m) (ap (λ p. p.1) e') stored;
        },
      )
  apply-Answered (fails q) name param m r m' w n h e =
      let e' = returns-eq e in inl (sym (ap (λ p. p.0.successful) e'), sym (ap (λ p. p.1) e'))
  apply-Answered panics name param m r m' w n h e = cc

  unnamed :
      (param : RmwParameter F) (m : ParameterMap F) (r : SetParametersResult) (m' : ParameterMap F)
      → to_str param.name ≡ none
      → set_one param m ≡ returns (r, m')
      → (r.successful ≡ false) × (m' ≡ m)
  unfolding set_one
  unnamed param m r m' e h = ground arith

  named :
      (param : RmwParameter F) (m : ParameterMap F) (name : Bytes) (r : SetParametersResult)
      (m' : ParameterMap F)
      → to_str param.name ≡ some name
      → set_one param m ≡ returns (r, m')
      → apply_setting (validate_parameter_setting m name param.value) name m ≡ returns (r, m')
  unfolding set_one
  named param m name r m' e h = ground arith

  -- One setting of `set_parameters`, in a well-formed map: where it answers, either the answer is a
  -- failure and the map is as it was, or it is a success and the map has the value for the name.
  pub set_one-Answered :
      (param : RmwParameter F) (m : ParameterMap F) (r : SetParametersResult) (m' : ParameterMap F)
      → IsWellFormed m
      → set_one param m ≡ returns (r, m')
      → Answered param m r m'
  set_one-Answered param m r m' w h = elim (Option-cases (to_str param.name)) [
    | inl e ↦ inl (unnamed param m r m' e h)
    | inr (name, e) ↦
        apply-Answered (validate_parameter_setting m name param.value) name param m r m' w e refl
          (named param m name r m' e h)
  ]

  Answered-IsWellFormed :
      (param : RmwParameter F) (m : ParameterMap F) (r : SetParametersResult) (m' : ParameterMap F)
      → IsWellFormed m
      → Answered param m r m'
      → IsWellFormed m'
  Answered-IsWellFormed param m r m' w (inl same) = subst IsWellFormed (sym same.1) w
  Answered-IsWellFormed param m r m' w (inr applied) = applied.1.stored.well_formed

  -- Where `set_parameters` answers, in a well-formed map, it has kept the map well-formed whatever
  -- the client sent, and its results are as many as the parameters of the request.
  pub set_parameters-IsWellFormed :
      (params : List (RmwParameter F)) (m : ParameterMap F) (rs : List SetParametersResult)
      (m' : ParameterMap F)
      → IsWellFormed m
      → set_parameters params m ≡ returns (rs, m')
      → IsWellFormed m' × (length rs ≡ length params)
  unfolding set_parameters
  set_parameters-IsWellFormed [] m rs m' w h =
      let e = returns-eq h in (subst IsWellFormed (ap (λ p. p.1) e) w, ap (λ p. length p.0) (sym e))
  set_parameters-IsWellFormed (param ∷ params) m rs m' w h =
      let (first, a, rest) =
        >>=-eq-returns (set_one param m)
          (λ f. set_parameters params f.1 >>= λ o. returns (f.0 ∷ o.0, o.1)) h in
      let (others, b, done) =
        >>=-eq-returns (set_parameters params first.1) (λ o. returns (first.0 ∷ o.0, o.1)) rest in
      let e = returns-eq done in
      let w1 =
        Answered-IsWellFormed param m first.0 first.1 w
          (set_one-Answered param m first.0 first.1 w a) in
      let (w2, len) = set_parameters-IsWellFormed params first.1 others.0 others.1 w1 b in
      (subst IsWellFormed (ap (λ p. p.1) e) w2, ap (λ p. length p.0) (sym e) ∙ ap suc len)

  entry_reports :
      (m : ParameterMap F) (o : Option (ParameterStorage F)) (value : ParameterValue F)
      → entry_value m.cells o ≡ returns (some value)
      → get_entry m o ≡ returns (to_rmw value)
  unfolding get_entry
  entry_reports m none value h = cc
  entry_reports m (some (declared d)) value h = rw h
  entry_reports m (some (undeclared v)) value h = ap (λ o. value_of o) h
    where
      value_of : Outcome ⊥ (Option (ParameterValue F)) → Outcome ⊥ (RmwParameterValue F)
      value_of (returns (some v)) = returns (to_rmw v)
      value_of _ = panics

  reports_one :
      (raw name : Bytes) (m : ParameterMap F) (answer : RmwParameterValue F)
      → to_str raw ≡ some name
      → get_entry m (BTreeMap.get name m.storage) ≡ returns answer
      → get_parameters (raw ∷ []) m ≡ returns (answer ∷ [])
  unfolding get_parameters
  reports_one raw name m answer n h = ground arith

  -- After a successful setting in a well-formed map, `get_parameters` with the name of the request
  -- answers the message form of the value of the request.
  pub get_parameters-set_one :
      (param : RmwParameter F) (m : ParameterMap F) (r : SetParametersResult) (m' : ParameterMap F)
      → IsWellFormed m
      → set_one param m ≡ returns (r, m')
      → r.successful ≡ true
      → (value : ParameterValue F) × (from_rmw param.value ≡ ok value)
        × (get_parameters (param.name ∷ []) m' ≡ returns (to_rmw value ∷ []))
  get_parameters-set_one param m r m' w h good = elim (set_one-Answered param m r m' w h) [
    | inl bad ↦ cc (bad.0)
    | inr done ↦
        let a = done.1 in
        (
          a.value,
          a.converts,
          reports_one param.name a.name m' (to_rmw a.value) a.named
              (entry_reports m' (BTreeMap.get a.name m'.storage) a.value a.stored.set),
        )
  ]
