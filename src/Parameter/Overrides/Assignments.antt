-- ===== src/Parameter/Overrides/Assignments.antt =====
-- The overrides that apply to a node as one list of assignments, in the order in which they are made.
use ros2_rust.Prelude.{
  ◌≡◌, refl, sym, ap, ◌∙◌, inl, inr, true, false, Option, none, some, List, [], ◌∷◌, ◌++◌, returns,
  ◌>>=◌, >>=-cong, >>=_assoc, Bool-cases, if◌then◌else◌, arith,
}
use ros2_rust.Prelude.Bytes.{Bytes, beq}
use ros2_rust.Prelude.BTreeMap
use ros2_rust.Prelude.BTreeMap.{BTreeMap, get-insert}
use ros2_rust.Parameter.Utf8.{Utf8}
use ros2_rust.Parameter.Value.{ParameterValue}
use ros2_rust.Parameter.Rmw.{RclVariant, from_rcl_variant, num_active}
use ros2_rust.Parameter.Rmw.Laws.{from_rcl_variant_total}
use ros2_rust.ReturnCode.{RclrsError, RclCall, checked}
use ros2_rust.Parameter.Overrides.{
  RclParams, RclNodeParams, rcl_params_iter, param_items, insert_params, insert_node, insert_nodes,
  insert_arguments, resolve_parameter_overrides, wildcard,
}

module _ {F : Type 0} where
  -- Of several assignments to a name the last one counts.
  abbrev pub last_of : Bytes → List (Bytes × RclVariant F) → Option (RclVariant F)
  last_of k [] = none
  last_of k ((n, v) ∷ rest) = elim (last_of k rest) [
    | some w ↦ some w
    | none ↦ if beq n k then some v else none
  ]

  abbrev pub or_else : Option (RclVariant F) → Option (RclVariant F) → Option (RclVariant F)
  or_else none o = o
  or_else (some v) o = some v

  pub last_of-append :
      (k : Bytes) (xs ys : List (Bytes × RclVariant F))
      → last_of k (xs ++ ys) ≡ or_else (last_of k ys) (last_of k xs)
  last_of-append k [] ys = ground arith
  last_of-append k ((n, v) ∷ xs) ys = ground (arith, last_of-append k xs ys)

  -- `rcl` sets exactly one field of each variant.
  abbrev pub AllOne : List (Bytes × RclVariant F) → Type 0
  AllOne [] = Unit
  AllOne ((n, v) ∷ rest) = (num_active v ≡ 1) × AllOne rest

  pub AllOne-append :
      (xs ys : List (Bytes × RclVariant F)) → AllOne xs → AllOne ys → AllOne (xs ++ ys)
  AllOne-append [] ys h k = k
  AllOne-append (x ∷ xs) ys h k = (h.0, AllOne-append xs ys h.1 k)

module _ {F : Type 0} ⦃u : Utf8⦄ where
  -- The assignments of the nodes with a name, one node after the other.
  abbrev pub assigned : Bytes → List (Bytes × RclNodeParams F) → List (Bytes × RclVariant F)
  assigned key [] = []
  assigned key ((name, p) ∷ ns) =
      if beq name key
      then param_items p.parameter_names p.parameter_values ++ assigned key ns
      else assigned key ns

  insert_params-append :
      (xs ys : List (Bytes × RclVariant F)) (m : BTreeMap (ParameterValue F))
      → insert_params (xs ++ ys) m ≡ (insert_params xs m >>= insert_params ys)
  unfolding insert_params
  insert_params-append [] ys m = refl
  insert_params-append ((n, v) ∷ xs) ys m =
      >>=-cong (from_rcl_variant v) (λ value. insert_params (xs ++ ys) (BTreeMap.insert n value m))
        (λ value. insert_params xs (BTreeMap.insert n value m) >>= insert_params ys)
        (λ value. insert_params-append xs ys (BTreeMap.insert n value m))
      ∙ sym (
          >>=_assoc (from_rcl_variant v) (λ value. insert_params xs (BTreeMap.insert n value m))
            (insert_params ys))

  matched :
      (key : Bytes) (n : Bytes × RclNodeParams F) (m : BTreeMap (ParameterValue F))
      → beq n.0 key ≡ true
      → insert_node key n m ≡ insert_params (param_items n.1.parameter_names n.1.parameter_values) m
  unfolding insert_node
  matched key (name, p) m e = rw e

  unmatched :
      (key : Bytes) (n : Bytes × RclNodeParams F) (m : BTreeMap (ParameterValue F))
      → beq n.0 key ≡ false
      → insert_node key n m ≡ returns m
  unfolding insert_node
  unmatched key (name, p) m e = rw e

  taken :
      (key name : Bytes) (p : RclNodeParams F) (ns : List (Bytes × RclNodeParams F))
      → beq name key ≡ true
      → param_items p.parameter_names p.parameter_values ++ assigned key ns
        ≡ assigned key ((name, p) ∷ ns)
  taken key name p ns e = rw e

  passed :
      (key name : Bytes) (p : RclNodeParams F) (ns : List (Bytes × RclNodeParams F))
      → beq name key ≡ false
      → assigned key ns ≡ assigned key ((name, p) ∷ ns)
  passed key name p ns e = rw e

  pub insert_nodes-assigned :
      (key : Bytes) (ns : List (Bytes × RclNodeParams F)) (m : BTreeMap (ParameterValue F))
      → insert_nodes key ns m ≡ insert_params (assigned key ns) m
  unfolding insert_nodes insert_params
  insert_nodes-assigned key [] m = refl
  insert_nodes-assigned key ((name, p) ∷ ns) m =
      let items = param_items p.parameter_names p.parameter_values in
      elim (Bool-cases (beq name key)) [
        | inl e ↦
            ap (λ o. o >>= insert_nodes key ns) (matched key (name, p) m e)
            ∙ >>=-cong (insert_params items m) (insert_nodes key ns)
                (insert_params (assigned key ns)) (insert_nodes-assigned key ns)
            ∙ sym (insert_params-append items (assigned key ns) m)
            ∙ ap (λ xs. insert_params xs m) (taken key name p ns e)
        | inr e ↦
            ap (λ o. o >>= insert_nodes key ns) (unmatched key (name, p) m e)
            ∙ insert_nodes-assigned key ns m
            ∙ ap (λ xs. insert_params xs m) (passed key name p ns e)
      ]

  -- All assignments for a node, those that count more behind those that count less.
  abbrev pub chain : Bytes → Option (RclParams F) → List (Bytes × RclVariant F)
  chain fqn params =
      assigned wildcard (rcl_params_iter params) ++ assigned fqn (rcl_params_iter params)

  insert_arguments-chain :
      (fqn : Bytes) (call : RclCall (Option (RclParams F))) (params : Option (RclParams F))
      (m : BTreeMap (ParameterValue F))
      → checked call ≡ returns params
      → insert_arguments fqn call m ≡ insert_params (chain fqn params) m
  unfolding insert_arguments
  insert_arguments-chain fqn call params m e =
      let nodes = rcl_params_iter params in
      ap
        (λ o. o >>= λ p.
          insert_nodes wildcard (rcl_params_iter p) m >>= insert_nodes fqn (rcl_params_iter p))
        e
      ∙ ap (λ o. o >>= insert_nodes fqn nodes) (insert_nodes-assigned wildcard nodes m)
      ∙ >>=-cong (insert_params (assigned wildcard nodes) m) (insert_nodes fqn nodes)
          (insert_params (assigned fqn nodes)) (insert_nodes-assigned fqn nodes)
      ∙ sym (insert_params-append (assigned wildcard nodes) (assigned fqn nodes) m)

  -- Where both calls of `rcl` succeed, resolving the overrides is making these assignments.
  pub resolve-chain :
      (fqn : Bytes) (node global : RclCall (Option (RclParams F)))
      (node_params global_params : Option (RclParams F))
      → checked node ≡ returns node_params
      → checked global ≡ returns global_params
      → resolve_parameter_overrides fqn node global
        ≡ insert_params (chain fqn global_params ++ chain fqn node_params) BTreeMap.empty
  unfolding resolve_parameter_overrides
  resolve-chain fqn node global np gp n g =
      ap (λ o. o >>= insert_arguments fqn node)
        (insert_arguments-chain fqn global gp BTreeMap.empty g)
      ∙ >>=-cong (insert_params (chain fqn gp) BTreeMap.empty) (insert_arguments fqn node)
          (insert_params (chain fqn np)) (λ m. insert_arguments-chain fqn node np m n)
      ∙ sym (insert_params-append (chain fqn gp) (chain fqn np) BTreeMap.empty)

  -- What an assignment does to the value of a name, if there is one.
  abbrev pub Overlay :
      Option (RclVariant F) → Option (ParameterValue F) → Option (ParameterValue F) → Type 0
  Overlay none old new = new ≡ old
  Overlay (some var) old new =
      (value : ParameterValue F) × (from_rcl_variant {E = RclrsError} var ≡ returns value)
      × (new ≡ some value)

  Overlay-first :
      (k n : Bytes) (v : RclVariant F) (value : ParameterValue F) (later : Option (RclVariant F))
      (old mid new : Option (ParameterValue F))
      → from_rcl_variant {E = RclrsError} v ≡ returns value
      → mid ≡ (if beq n k then some value else old)
      → Overlay later mid new
      → Overlay (elim later [ some w ↦ some w | none ↦ if beq n k then some v else none ]) old new
  Overlay-first k n v value (some w) old mid new c e o = o
  Overlay-first k n v value none old mid new c e o = elim (Bool-cases (beq n k)) [
    | inl t ↦ rw t (value, c, o ∙ e ∙ ap (λ b. if b then some value else old) t)
    | inr f ↦ rw f (o ∙ e ∙ ap (λ b. if b then some value else old) f)
  ]

  insert_step :
      (n : Bytes) (v : RclVariant F) (rest : List (Bytes × RclVariant F))
      (m : BTreeMap (ParameterValue F)) (value : ParameterValue F)
      → from_rcl_variant {E = RclrsError} v ≡ returns value
      → insert_params ((n, v) ∷ rest) m ≡ insert_params rest (BTreeMap.insert n value m)
  unfolding insert_params
  insert_step n v rest m value e = ap (λ o. o >>= λ x. insert_params rest (BTreeMap.insert n x m)) e

  -- Assignments of variants that have one field return, and to each name the last one counts.
  pub insert_params-Overlay :
      (items : List (Bytes × RclVariant F)) (m : BTreeMap (ParameterValue F))
      → AllOne items
      → (m' : BTreeMap (ParameterValue F)) × (insert_params items m ≡ returns m')
        × ((k : Bytes) → Overlay (last_of k items) (BTreeMap.get k m) (BTreeMap.get k m'))
  unfolding insert_params
  insert_params-Overlay [] m one = (m, refl, λ k. refl)
  insert_params-Overlay ((n, v) ∷ rest) m one =
      let (value, c) = from_rcl_variant_total {E = RclrsError} v one.0 in
      let (m', done, overlay) = insert_params-Overlay rest (BTreeMap.insert n value m) one.1 in
      (
        m',
        insert_step n v rest m value c ∙ done,
        λ k.
            Overlay-first k n v value (last_of k rest) (BTreeMap.get k m)
              (BTreeMap.get k (BTreeMap.insert n value m)) (BTreeMap.get k m') c
              (get-insert n k value m) (overlay k),
      )
