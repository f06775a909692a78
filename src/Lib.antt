-- ===== src/Lib.antt =====
-- A model of the parts of ros2_rust that keep state and decide: the parameters of a node, the wait
-- sets, the executor and the entities that it executes, the clocks and time sources of nodes, quality
-- of service, the arguments and the graph, the return codes of `rcl`, times, and the sequences and
-- strings of messages.
--
-- A node has a parameter map (rclrs/src/parameter.rs), which its own code changes through handles
-- and by name, and which clients change by services (rclrs/src/parameter/service.rs). Both sides
-- check values against the kind and the ranges of a declaration before they store them. Declarations
-- take overrides from the command line (rclrs/src/parameter/override_map.rs); one of them decides what
-- the node's time source (rclrs/src/time_source.rs) does with its clock. An executor
-- (rclrs/src/executor.rs) makes a wait set of a node's live entities (rclrs/src/node.rs,
-- rclrs/src/wait.rs), and executes those that are ready: subscriptions, clients and services.
--
--   Prelude: names of the libraries, results with panics (Outcome), integers, text, `BTreeMap`.
--   Parameter/Float, Parameter/Utf8: `f64` and the UTF-8 functions, arguments of the model.
--   Parameter/Value, Parameter/Rmw: rclrs/src/parameter/value.rs. `into` and `try_from` of a type are
--     the fields of ParameterVariant; IsLawful says what its clients use, and Value/Laws fills it for
--     every type of the source. RmwParameterValue is the message of vendor/rcl_interfaces.
--   Parameter/Range: rclrs/src/parameter/range.rs. An `i64` is an integer, and a subtraction that
--     leaves the range of `i64`, or a remainder by zero, is a panic.
--   Parameter/Storage: `ParameterMap` of rclrs/src/parameter.rs. A declared value is behind a lock that the
--     map and the handle share: it is a cell of the map's `cells`, and both name the same cell.
--   Parameter/Declare: `ParameterBuilder` and the three kinds of declaration. A discriminator is a
--     function that returns or panics. A declaration takes the lock on the map twice:
--     it chooses the initial value on the map that the interface has at the first, and stores it in the
--     map that it finds at the second, which other threads may have changed.
--   Parameter/Handles: `MandatoryParameter`, `OptionalParameter`, `ReadOnlyParameter` and `Parameters`.
--   Parameter/Service: the handlers of the parameter services. The map is locked during a request, so
--     one request is one step.
--   Parameter/Listing: its handler `list_parameters`, with names as bytes.
--   Parameter/Reachable: all of these as steps on one map.
--   Parameter/Overrides: rclrs/src/parameter/override_map.rs and `ParameterInterface::new`. The parameters
--     that `rcl` has parsed are lists; no value of an array is missing.
--   ReturnCode: rclrs/src/error.rs. Each `x if x == tested => result` arm is a pair
--     of the list `arms`.
--   WaitSet: rclrs/src/wait.rs and rclrs/src/wait/exclusivity_guard.rs. An entity is named by its flag, and
--     the flags are a memory; what `rcl` does is the argument Rcl.
--   Sequence: rosidl_runtime_rs/src/sequence.rs. The elements are a list; the C functions that allocate
--     are the argument SequenceAlloc, and a theorem that needs their success says so.
--   Time: rclrs/src/time.rs, and what rclrs/src/time_source.rs reads from a `/clock` message.
--   Clock, TimeSource: rclrs/src/clock.rs and rclrs/src/time_source.rs. A clock and its sources share an
--     `rcl_clock_t` of a heap by its address; the calls of `rcl` are the argument RclClock, and what it
--     documents is IsDocumented. UseSimTime joins the parameter of this name with the overrides.
--   Client: rclrs/src/client.rs. Callbacks and futures are numbers; Requests has the interleavings of
--     the two steps that send and store a request with those of an executor. `rcl` gives each request of
--     a client a number of its own, in any order.
--   Executor: rclrs/src/executor.rs, over the wait sets. What callbacks and other threads do to the rest of
--     the program is the argument Program; a callback may take and release guards for wait sets of its own.
--   Service: rclrs/src/service.rs, and a request of a client to a service and back.
--   Subscription: rclrs/src/subscription.rs with callback.rs, message_info.rs and
--     readonly_loaned_message.rs of its directory. A loaned message is dropped when its callback returns,
--     since it cannot outlive the call.
--   Qos: rclrs/src/qos.rs. The constants of `rmw` are the argument RmwPolicies.
--   Strings: rosidl_runtime_rs/src/string.rs. RosString is both `String` and `WString`, by a StringKind, which
--     is what the macro `string_impl` takes.
--   Arguments: rclrs/src/arguments.rs. Graph: rclrs/src/node/graph.rs. Node: rclrs/src/node.rs and
--     rclrs/src/node/builder.rs. What `rcl` gives back is an argument; its arrays are lists, and texts are
--     bytes.
--   Tests: sample inputs, runs, and the theorems applied to them.
--
-- Loops are structural, on the request's lists or a sequence's items. `next_power_of_two` has 64 rounds,
-- one for each power that a 64-bit `usize` holds; `drain` has one round more than there are elements; `spin` has a
-- number of rounds that the theorems leave open.
--
-- Locks are taken for granted: a poisoned lock, which needs a panic while it is held, is not modelled.
-- Not modelled: the creation and destruction of entities, contexts and nodes, and publishers, which
-- are calls of `rcl`; dynamic messages, which load libraries; the generator, in Python.
pub mod Prelude
pub mod Parameter
pub mod Sequence
pub mod Strings
pub mod Arguments
pub mod Graph
pub mod Node
pub mod Qos
pub mod ReturnCode
pub mod Service
pub mod Subscription
pub mod Time
pub mod Client
pub mod Clock
pub mod Executor
pub mod TimeSource
pub mod WaitSet
pub mod Tests
