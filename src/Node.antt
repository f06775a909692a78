-- ===== src/Node.antt =====
-- rclrs/src/node.rs and rclrs/src/node/builder.rs: the entities of a node, and how a node is described. An
-- entity is named by its flag, as in WaitSet; the node holds weak pointers to its entities.
pub mod Entities
use ros2_rust.Prelude.{
  ℕ, ◌≡◌, Bool, true, false, Option, none, some, List, [], ◌∷◌, ◌++◌, Result, ok, err, Outcome,
  returns, ◌>>=◌, from_result, if◌then◌else◌,
}
use ros2_rust.Prelude.Bytes.{Bytes}
use ros2_rust.Parameter.Utf8.{Utf8}
use ros2_rust.ReturnCode.{RclrsError, RclCall, checked}
use ros2_rust.Arguments.{c_string, c_strings}
use ros2_rust.Clock.{ClockType}
use ros2_rust.Qos.{QosProfile, qos_profile_clock}
use ros2_rust.Executor.{Node}

pub record NodeBuilder : Type 0 where
  pub name : Bytes
  pub namespace : Bytes
  pub use_global_arguments : Bool
  pub arguments : List Bytes
  pub enable_rosout : Bool
  pub start_parameter_services : Bool
  pub clock_type : ClockType
  pub clock_qos : QosProfile

-- `NodeBuilder::new`; the namespace is "/"
unfoldable pub new_builder : Bytes → NodeBuilder
new_builder name = record {
  name = name;
  namespace = 47 ∷ [];
  use_global_arguments = true;
  arguments = [];
  enable_rosout = true;
  start_parameter_services = true;
  clock_type = ClockType.ros_time;
  clock_qos = qos_profile_clock;
}

-- The setters of `NodeBuilder`.
unfoldable pub set_namespace : Bytes → NodeBuilder → NodeBuilder
set_namespace namespace b = record b { namespace = namespace }

unfoldable pub set_use_global_arguments : Bool → NodeBuilder → NodeBuilder
set_use_global_arguments enable b = record b { use_global_arguments = enable }

unfoldable pub set_arguments : List Bytes → NodeBuilder → NodeBuilder
set_arguments arguments b = record b { arguments = arguments }

unfoldable pub set_enable_rosout : Bool → NodeBuilder → NodeBuilder
set_enable_rosout enable b = record b { enable_rosout = enable }

unfoldable pub set_start_parameter_services : Bool → NodeBuilder → NodeBuilder
set_start_parameter_services start b = record b { start_parameter_services = start }

unfoldable pub set_clock_type : ClockType → NodeBuilder → NodeBuilder
set_clock_type clock_type b = record b { clock_type = clock_type }

unfoldable pub set_clock_qos : QosProfile → NodeBuilder → NodeBuilder
set_clock_qos clock_qos b = record b { clock_qos = clock_qos }

-- `rcl_node_options_t`, with the arguments `A` that `rcl` has parsed
pub record NodeOptions (A : Type 0) : Type 0 where
  pub arguments : A
  pub use_global_arguments : Bool
  pub enable_rosout : Bool

-- `NodeBuilder::create_rcl_node_options`
unfoldable pub create_rcl_node_options :
    {A : Type 0}
    → ⦃u : Utf8⦄ → (List Bytes → RclCall A)
    → NodeBuilder
    → Outcome RclrsError (NodeOptions A)
unfolding c_strings
create_rcl_node_options parse_arguments b = do
  cstring_args ← c_strings b.arguments
  arguments ← checked (parse_arguments cstring_args)
  returns (record {
    arguments = arguments;
    use_global_arguments = b.use_global_arguments;
    enable_rosout = b.enable_rosout;
  })

-- The lists of a node, behind their locks.
pub record NodeEntities : Type 0 where
  pub clients_mtx : List ℕ
  pub guard_conditions_mtx : List ℕ
  pub services_mtx : List ℕ
  pub subscriptions_mtx : List ℕ

-- the lists in `NodeBuilder::build`
abbrev pub no_entities : NodeEntities
no_entities = record {
  clients_mtx = [];
  guard_conditions_mtx = [];
  services_mtx = [];
  subscriptions_mtx = [];
}

-- `Node::create_client`, `create_service`, `create_subscription`: an error of the constructor is passed
-- on, and an entity that was made is in the list
unfoldable pub create_client :
    Result RclrsError ℕ → NodeEntities → Result RclrsError ℕ × NodeEntities
create_client (ok client) n = (ok client, record n { clients_mtx = n.clients_mtx ++ client ∷ [] })
create_client (err error) n = (err error, n)

unfoldable pub create_service :
    Result RclrsError ℕ → NodeEntities → Result RclrsError ℕ × NodeEntities
create_service (ok service) n =
    (ok service, record n { services_mtx = n.services_mtx ++ service ∷ [] })
create_service (err error) n = (err error, n)

unfoldable pub create_subscription :
    Result RclrsError ℕ → NodeEntities → Result RclrsError ℕ × NodeEntities
create_subscription (ok subscription) n =
    (ok subscription, record n { subscriptions_mtx = n.subscriptions_mtx ++ subscription ∷ [] })
create_subscription (err error) n = (err error, n)

-- `Node::create_guard_condition`, with a callback or without
unfoldable pub create_guard_condition : ℕ → NodeEntities → NodeEntities
create_guard_condition guard_condition n = record n {
  guard_conditions_mtx = n.guard_conditions_mtx ++ guard_condition ∷ [];
}

-- `.iter().filter_map(Weak::upgrade).collect()`
unfoldable pub live : (ℕ → Bool) → List ℕ → List ℕ
live alive [] = []
live alive (e ∷ es) = let rest = live alive es in if alive e then e ∷ rest else rest

-- `Node::live_subscriptions`, `live_clients`, `live_guard_conditions` and `live_services`
unfoldable pub live_entities : (ℕ → Bool) → NodeEntities → Node
unfolding live
live_entities alive n = record {
  subscriptions = live alive n.subscriptions_mtx;
  clients = live alive n.clients_mtx;
  guard_conditions = live alive n.guard_conditions_mtx;
  services = live alive n.services_mtx;
}
