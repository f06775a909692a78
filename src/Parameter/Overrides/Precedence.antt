-- ===== src/Parameter/Overrides/Precedence.antt =====
-- Which override a parameter gets, and how its declaration uses it.
use ros2_rust.Prelude.{
  ◌≡◌, refl, sym, ap, ◌∙◌, subst, true, false, Option, none, some, ◌++◌, returns, ok, returns-eq,
}
use ros2_rust.Prelude.Bytes.{Bytes}
use ros2_rust.Prelude.BTreeMap
use ros2_rust.Prelude.BTreeMap.{BTreeMap, get-empty}
use ros2_rust.Parameter.Utf8.{Utf8}
use ros2_rust.Parameter.Value.{ParameterValue}
use ros2_rust.Parameter.Rmw.{RclVariant, from_rcl_variant}
use ros2_rust.Parameter.Float.{Float}
use ros2_rust.Parameter.Value.{ParameterVariant}
use ros2_rust.Parameter.Range.{validate, in_range}
use ros2_rust.Parameter.Storage.{ParameterMap, ParameterStorage}
use ros2_rust.Parameter.Declare.{
  ParameterBuilder, ParameterInterface, default_initial_value_discriminator,
  get_declaration_initial_value,
}
use ros2_rust.Parameter.Reachable.{default_map}
use ros2_rust.ReturnCode.{RclrsError, RclCall, checked}
use ros2_rust.Parameter.Overrides.{
  RclParams, rcl_params_iter, resolve_parameter_overrides, new_interface, wildcard,
}
use ros2_rust.Parameter.Overrides.Assignments.{
  last_of, or_else, last_of-append, AllOne, AllOne-append, assigned, chain, resolve-chain, Overlay,
  insert_params-Overlay,
}

module _ {F : Type 0} ⦃u : Utf8⦄ where
  -- The last value that the nodes with a name give to a parameter.
  abbrev pub given : Bytes → Option (RclParams F) → Bytes → Option (RclVariant F)
  given node params k = last_of k (assigned node (rcl_params_iter params))

  -- The node's own arguments before the global ones, and in both the node's name before "/**".
  abbrev pub preferred :
      Bytes → Option (RclParams F) → Option (RclParams F) → Bytes → Option (RclVariant F)
  preferred fqn node global k =
      or_else (given fqn node k)
        (or_else (given wildcard node k) (or_else (given fqn global k) (given wildcard global k)))

  abbrev pub HasOneEach : Bytes → Option (RclParams F) → Type 0
  HasOneEach fqn params = AllOne (chain fqn params)

  or_else_assoc :
      (a b c : Option (RclVariant F)) → or_else a (or_else b c) ≡ or_else (or_else a b) c
  or_else_assoc none b c = refl
  or_else_assoc (some v) b c = refl

  last_of-chain :
      (fqn k : Bytes) (node global : Option (RclParams F))
      → last_of k (chain fqn global ++ chain fqn node) ≡ preferred fqn node global k
  last_of-chain fqn k node global =
      last_of-append k (chain fqn global) (chain fqn node)
      ∙ ap (λ o. or_else o (last_of k (chain fqn global)))
          (last_of-append k (assigned wildcard (rcl_params_iter node))
            (assigned fqn (rcl_params_iter node)))
      ∙ sym
          (or_else_assoc (given fqn node k) (given wildcard node k) (last_of k (chain fqn global)))
      ∙ ap (λ o. or_else (given fqn node k) (or_else (given wildcard node k) o))
          (last_of-append k (assigned wildcard (rcl_params_iter global))
            (assigned fqn (rcl_params_iter global)))

  -- Where `rcl` gives the parameters of the node's arguments and of the global ones, each with one
  -- field set, resolving them returns a map, which has for each name the last value given to it, of
  -- the first of these sources that has one: the node's arguments for the node, those for "/**", the
  -- global arguments for the node, those for "/**"; and no value where none of them has.
  pub resolve_parameter_overrides_lem :
      (fqn : Bytes) (node global : RclCall (Option (RclParams F)))
      (node_params global_params : Option (RclParams F)) (k : Bytes)
      → checked node ≡ returns node_params
      → checked global ≡ returns global_params
      → HasOneEach fqn node_params
      → HasOneEach fqn global_params
      → (m : BTreeMap (ParameterValue F)) × (resolve_parameter_overrides fqn node global
          ≡ returns m)
        × Overlay (preferred fqn node_params global_params k) none (BTreeMap.get k m)
  resolve_parameter_overrides_lem fqn node global np gp k n g one_n one_g =
      let (m, done, overlay) =
        insert_params-Overlay (chain fqn gp ++ chain fqn np) BTreeMap.empty
          (AllOne-append (chain fqn gp) (chain fqn np) one_g one_n) in
      (
        m,
        resolve-chain fqn node global np gp n g ∙ done,
        subst (λ o. Overlay o none (BTreeMap.get k m)) (last_of-chain fqn k np gp)
            (subst
              (λ old. Overlay (last_of k (chain fqn gp ++ chain fqn np)) old (BTreeMap.get k m))
              (get-empty k) (overlay k)),
      )

  made_interface :
      (fqn : Bytes) (node global : RclCall (Option (RclParams F))) (m : BTreeMap (ParameterValue F))
      → resolve_parameter_overrides fqn node global ≡ returns m
      → new_interface fqn node global
        ≡ returns (record { parameter_map = default_map; override_map = m })
  unfolding new_interface default_map
  made_interface fqn node global m e = rw e

module _ {F : Type 0} ⦃fl : Float F⦄ where
  pub not_declared : (k : Bytes) → BTreeMap.get k (default_map {F = F}).storage ≡ none
  unfolding default_map
  not_declared k = get-empty {V = ParameterStorage F} k

  pub overrides_made :
      ⦃u : Utf8⦄ (fqn : Bytes) (node global : RclCall (Option (RclParams F)))
      (node_params global_params : Option (RclParams F)) (k : Bytes) (var : RclVariant F)
      (value : ParameterValue F)
      → checked node ≡ returns node_params
      → checked global ≡ returns global_params
      → HasOneEach fqn node_params
      → HasOneEach fqn global_params
      → preferred fqn node_params global_params k ≡ some var
      → from_rcl_variant {E = RclrsError} var ≡ returns value
      → (m : BTreeMap (ParameterValue F)) × (new_interface fqn node global
          ≡ returns (record { parameter_map = default_map; override_map = m }))
        × (BTreeMap.get k m ≡ some value)
  overrides_made fqn node global np gp k var value n g one_n one_g p c =
      let (m, done, overlay) =
        resolve_parameter_overrides_lem fqn node global np gp k n g one_n one_g in
      let (w, cw, got) = subst (λ o. Overlay o none (BTreeMap.get k m)) p overlay in
      (
        m,
        made_interface fqn node global m done,
        got ∙ ap some (returns-eq {E = RclrsError} (sym cw ∙ c)),
      )

module _ {F T : Type 0} ⦃fl : Float F⦄ ⦃v : ParameterVariant F T⦄ where
  pub overridden :
      (m : BTreeMap (ParameterValue F)) (declared : ParameterMap F) (b : ParameterBuilder F T)
      (value : ParameterValue F) (x : T)
      → BTreeMap.get b.name declared.storage ≡ none
      → b.ignore_override ≡ false
      → b.discriminator ≡ default_initial_value_discriminator
      → validate b.options.ranges ≡ returns tt
      → in_range b.options.ranges (v.into x) ≡ returns true
      → v.try_from value ≡ ok x
      → BTreeMap.get b.name m ≡ some value
      → get_declaration_initial_value (record { parameter_map = declared; override_map = m }) b
        ≡ returns (some x)
  unfolding get_declaration_initial_value default_initial_value_discriminator
  overridden m declared b value x free ig d r ir c g = rw (r, ig, g, c, free, d, ir) (refl)

  -- In a node whose arguments `rcl` has parsed, with one field set in each value, and whose parameters
  -- have, after whatever declarations and writes, no entry for a name, so that it is neither
  -- declared nor set: where the preferred override of the name converts to the declared type and lies
  -- in the declared ranges, which are valid, the declaration's initial value is this override,
  -- whatever the default is, if the overrides are not ignored and the discriminator is the default one.
  pub new_interface-overridden :
      ⦃u : Utf8⦄ (fqn : Bytes) (node global : RclCall (Option (RclParams F)))
      (node_params global_params : Option (RclParams F)) (declared : ParameterMap F)
      (b : ParameterBuilder F T) (var : RclVariant F) (value : ParameterValue F) (x : T)
      → checked node ≡ returns node_params
      → checked global ≡ returns global_params
      → HasOneEach fqn node_params
      → HasOneEach fqn global_params
      → preferred fqn node_params global_params b.name ≡ some var
      → from_rcl_variant {E = RclrsError} var ≡ returns value
      → v.try_from value ≡ ok x
      → BTreeMap.get b.name declared.storage ≡ none
      → b.ignore_override ≡ false
      → b.discriminator ≡ default_initial_value_discriminator
      → validate b.options.ranges ≡ returns tt
      → in_range b.options.ranges (v.into x) ≡ returns true
      → (i : ParameterInterface F) × (new_interface fqn node global ≡ returns i)
        × (get_declaration_initial_value (record i { parameter_map = declared }) b
            ≡ returns (some x))
  new_interface-overridden fqn node global np gp declared b var value x n g one_n one_g p c t free
        ig d r ir =
      let (m, made, got) =
        overrides_made fqn node global np gp b.name var value n g one_n one_g p c in
      (
        record { parameter_map = default_map; override_map = m },
        made,
        overridden m declared b value x free ig d r ir t got,
      )
