-- ===== src/Parameter/Overrides.antt =====
-- rclrs/src/parameter/override_map.rs, and `ParameterInterface::new` of rclrs/src/parameter.rs: the
-- parameter overrides of the command line, as `rcl` has parsed them.
pub mod Assignments
pub mod Precedence
use ros2_rust.Prelude.{
  ℕ, Option, none, some, List, [], ◌∷◌, Outcome, returns, ◌>>=◌, Bool, true, false, ◌==◌,
  if◌then◌else◌,
}
use ros2_rust.Prelude.Bytes.{Bytes, beq}
use ros2_rust.Prelude.BTreeMap
use ros2_rust.Prelude.BTreeMap.{BTreeMap}
use ros2_rust.Parameter.Utf8.{Utf8, to_cstr}
use ros2_rust.Parameter.Value.{ParameterValue}
use ros2_rust.Parameter.Rmw.{RclVariant, from_rcl_variant}
use ros2_rust.Parameter.Storage.{ParameterMap}
use ros2_rust.Parameter.Declare.{ParameterInterface}
use ros2_rust.ReturnCode.{RclrsError, RclCall, checked}

-- `rcl_node_params_t` and `rcl_params_t`: the names are C strings, and a null pointer to the latter
-- is `none`.
pub record RclNodeParams (F : Type 0) : Type 0 where
  pub parameter_names : List Bytes
  pub parameter_values : List (RclVariant F)

pub record RclParams (F : Type 0) : Type 0 where
  pub node_names : List Bytes
  pub params : List (RclNodeParams F)

-- `CStr::from_ptr(p).to_string_lossy().into_owned()`
abbrev pub owned : ⦃u : Utf8⦄ → Bytes → Bytes
owned ⦃u⦄ raw = u.lossy (to_cstr raw)

-- the byte '/'
abbrev pub slash : ℕ
slash = 47

-- `if !name.starts_with('/') { name.insert(0, '/') }`
unfoldable pub absolute : Bytes → Bytes
absolute [] = slash ∷ []
absolute (c ∷ cs) = if c == slash then c ∷ cs else slash ∷ c ∷ cs

-- the text "/**"
abbrev pub wildcard : Bytes
wildcard = 47 ∷ 42 ∷ 42 ∷ []

module _ {F : Type 0} ⦃u : Utf8⦄ where
  -- what `RclParamsIter` yields: its two slices are read in step, to the end of the shorter one
  unfoldable pub node_items : List Bytes → List (RclNodeParams F) → List (Bytes × RclNodeParams F)
  unfolding absolute
  node_items names [] = []
  node_items [] (p ∷ ps) = []
  node_items (n ∷ ns) (p ∷ ps) = (absolute (owned n), p) ∷ node_items ns ps

  -- `RclParamsIter::new`, where no parameters on the command line are a null pointer
  unfoldable pub rcl_params_iter : Option (RclParams F) → List (Bytes × RclNodeParams F)
  unfolding node_items
  rcl_params_iter none = []
  rcl_params_iter (some p) = node_items p.node_names p.params

  -- what `RclNodeParamsIter` yields
  unfoldable pub param_items : List Bytes → List (RclVariant F) → List (Bytes × RclVariant F)
  param_items [] vs = []
  param_items (n ∷ ns) [] = []
  param_items (n ∷ ns) (v ∷ vs) = (owned n, v) ∷ param_items ns vs

  -- the innermost loop
  unfoldable pub insert_params :
      List (Bytes × RclVariant F)
      → BTreeMap (ParameterValue F)
      → Outcome RclrsError (BTreeMap (ParameterValue F))
  insert_params [] map = returns map
  insert_params ((param_name, variant) ∷ rest) map = do
    value ← from_rcl_variant variant
    insert_params rest (BTreeMap.insert param_name value map)

  unfoldable pub insert_node :
      Bytes
      → Bytes × RclNodeParams F
      → BTreeMap (ParameterValue F)
      → Outcome RclrsError (BTreeMap (ParameterValue F))
  unfolding insert_params param_items
  insert_node name_to_match (node_name, node_params) map =
      if beq node_name name_to_match
      then insert_params (param_items node_params.parameter_names node_params.parameter_values) map
      else returns map

  -- the loop over the nodes
  unfoldable pub insert_nodes :
      Bytes
      → List (Bytes × RclNodeParams F)
      → BTreeMap (ParameterValue F)
      → Outcome RclrsError (BTreeMap (ParameterValue F))
  unfolding insert_node
  insert_nodes name_to_match [] map = returns map
  insert_nodes name_to_match (n ∷ ns) map = do
    map' ← insert_node name_to_match n map
    insert_nodes name_to_match ns map'

  -- the body of the outer loop, for what `rcl_arguments_get_param_overrides` gives
  unfoldable pub insert_arguments :
      Bytes
      → RclCall (Option (RclParams F))
      → BTreeMap (ParameterValue F)
      → Outcome RclrsError (BTreeMap (ParameterValue F))
  unfolding insert_nodes rcl_params_iter
  insert_arguments node_fqn arguments map = do
    rcl_params ← checked arguments
    map' ← insert_nodes wildcard (rcl_params_iter rcl_params) map
    insert_nodes node_fqn (rcl_params_iter rcl_params) map'

  unfoldable pub resolve_parameter_overrides :
      Bytes
      → RclCall (Option (RclParams F))
      → RclCall (Option (RclParams F))
      → Outcome RclrsError (BTreeMap (ParameterValue F))
  unfolding insert_arguments
  resolve_parameter_overrides node_fqn node_arguments global_arguments = do
    map ← insert_arguments node_fqn global_arguments BTreeMap.empty
    insert_arguments node_fqn node_arguments map

  -- `ParameterInterface::new`, for the node's fully qualified name, which `rcl` gives
  unfoldable pub new_interface :
      Bytes
      → RclCall (Option (RclParams F))
      → RclCall (Option (RclParams F))
      → Outcome RclrsError (ParameterInterface F)
  unfolding resolve_parameter_overrides
  new_interface fqn node_arguments global_arguments = do
    override_map ← resolve_parameter_overrides fqn node_arguments global_arguments
    returns (record {
      parameter_map = record {
        storage = BTreeMap.empty;
        allow_undeclared = false;
        cells = record { mandatory = []; optional = [] };
      };
      override_map = override_map;
    })
