-- ===== src/Graph.antt =====
-- rclrs/src/node/graph.rs: what a node asks of `rcl` about the other nodes and topics. The calls of `rcl`
-- are arguments; a C string of `rcl` is read as text.
pub mod Names
use ros2_rust.Prelude.{
  ℕ, ◌≡◌, Bool, Option, none, some, List, [], ◌∷◌, map, Outcome, returns, ◌>>=◌, from_result,
  if◌then◌else◌,
}
use ros2_rust.Prelude.Bytes.{Bytes, beq}
use ros2_rust.Parameter.Utf8.{Utf8}
use ros2_rust.ReturnCode.{RclrsError, RclCall, checked}
use ros2_rust.Parameter.Overrides.{owned}
use ros2_rust.Arguments.{c_string}

-- `HashMap<String, Vec<String>>`
abbrev pub TopicNamesAndTypes : Type 0
TopicNamesAndTypes = Bytes → Option (List Bytes)

pub record NodeNameInfo : Type 0 where
  pub name : Bytes
  pub namespace : Bytes

pub record TopicEndpointInfo : Type 0 where
  pub node_name : Bytes
  pub node_namespace : Bytes
  pub topic_type : Bytes

-- `rmw_names_and_types_t`: its two arrays, of one length
abbrev pub RmwNamesAndTypes : Type 0
RmwNamesAndTypes = List (Bytes × List Bytes)

-- `HashMap::insert`
unfoldable pub insert_types : Bytes → List Bytes → TopicNamesAndTypes → TopicNamesAndTypes
insert_types name types names_and_types k = if beq name k then some types else names_and_types k

module _ ⦃u : Utf8⦄ where
  -- the loop of `convert_names_and_types`
  unfoldable pub convert_from : RmwNamesAndTypes → TopicNamesAndTypes → TopicNamesAndTypes
  unfolding insert_types
  convert_from [] names_and_types = names_and_types
  convert_from ((name, types) ∷ rest) names_and_types =
      convert_from rest (insert_types (owned name) (map owned types) names_and_types)

  unfoldable pub convert_names_and_types : RmwNamesAndTypes → TopicNamesAndTypes
  unfolding convert_from
  convert_names_and_types rcl = convert_from rcl (λ k. none)

  -- `Node::get_names_and_types_by_node`, for the getter of publishers, subscriptions, services or clients;
  -- the getter's return code is not looked at
  unfoldable pub get_names_and_types_by_node :
      (Bytes → Bytes → RclCall RmwNamesAndTypes)
      → Bytes
      → Bytes
      → Outcome RclrsError TopicNamesAndTypes
  unfolding convert_names_and_types c_string
  get_names_and_types_by_node getter node namespace = do
    node_name ← from_result (c_string node)
    node_namespace ← from_result (c_string namespace)
    let got = getter node_name node_namespace
    returns (convert_names_and_types got.handle)

  -- `Node::get_topic_names_and_types`
  unfoldable pub get_topic_names_and_types :
      RclCall RmwNamesAndTypes → Outcome RclrsError TopicNamesAndTypes
  unfolding convert_names_and_types
  get_topic_names_and_types getting = do
    rcl_names_and_types ← checked getting
    returns (convert_names_and_types rcl_names_and_types)

  -- the two arrays of `rcl_get_node_names`, in step
  unfoldable pub zip_names : List Bytes → List Bytes → List NodeNameInfo
  zip_names [] namespaces = []
  zip_names (n ∷ ns) [] = []
  zip_names (n ∷ ns) (s ∷ ss) = record { name = owned n; namespace = owned s } ∷ zip_names ns ss

  -- `Node::get_node_names`
  unfoldable pub get_node_names :
      RclCall (List Bytes × List Bytes) → Outcome RclrsError (List NodeNameInfo)
  unfolding zip_names
  get_node_names getting = do
    (names, namespaces) ← checked getting
    returns (zip_names names namespaces)

  unfoldable pub zip_enclaves : List NodeNameInfo → List Bytes → List (NodeNameInfo × Bytes)
  zip_enclaves [] enclaves = []
  zip_enclaves (n ∷ ns) [] = []
  zip_enclaves (n ∷ ns) (e ∷ es) = (n, owned e) ∷ zip_enclaves ns es

  -- `Node::get_node_names_with_enclaves`
  unfoldable pub get_node_names_with_enclaves :
      RclCall (List Bytes × List Bytes × List Bytes)
      → Outcome RclrsError (List (NodeNameInfo × Bytes))
  unfolding zip_names zip_enclaves
  get_node_names_with_enclaves getting = do
    (names, namespaces, enclaves) ← checked getting
    returns (zip_enclaves (zip_names names namespaces) enclaves)

  -- `Node::get_service_names_and_types`, for the node's own name and namespace
  unfoldable pub get_service_names_and_types :
      (Bytes → Bytes → RclCall RmwNamesAndTypes)
      → Bytes
      → Bytes
      → Outcome RclrsError TopicNamesAndTypes
  unfolding get_names_and_types_by_node
  get_service_names_and_types rcl_get_service_names name namespace =
      get_names_and_types_by_node rcl_get_service_names name namespace

  -- `Node::count_publishers` and `Node::count_subscriptions`
  unfoldable pub count_endpoints : (Bytes → RclCall ℕ) → Bytes → Outcome RclrsError ℕ
  unfolding c_string
  count_endpoints counter topic = do
    topic_name ← from_result (c_string topic)
    checked (counter topic_name)

  abbrev pub endpoint : Bytes × Bytes × Bytes → TopicEndpointInfo
  endpoint (node_name, node_namespace, topic_type) = record {
    node_name = owned node_name;
    node_namespace = owned node_namespace;
    topic_type = owned topic_type;
  }

  -- `Node::get_publisher_subscriber_info_by_topic`
  unfoldable pub get_publisher_subscriber_info_by_topic :
      (Bytes → RclCall (List (Bytes × Bytes × Bytes)))
      → Bytes
      → Outcome RclrsError (List TopicEndpointInfo)
  unfolding c_string
  get_publisher_subscriber_info_by_topic getter topic = do
    topic_name ← from_result (c_string topic)
    infos ← checked (getter topic_name)
    returns (map endpoint infos)
