-- ===== src/Executor.antt =====
-- rclrs/src/executor.rs, and `spin_once` and `spin` of rclrs/src/lib.rs. A node is named by the
-- address of its `Arc`, and an entity by its flag, as in WaitSet. `S` is the state of the rest of the
-- program, which callbacks and other threads change; the lock on the list of nodes is held while
-- `spin_once` runs, so the list is changed between its calls only. The
-- flags are changed by the wait sets of `spin_once` and by callbacks; those that other threads change
-- are left out.
pub mod Guards
pub mod Spinning
use ros2_rust.Prelude.{
  ℕ, zero, suc, ◌≡◌, Bool, true, false, not, Option, none, some, List, [], ◌∷◌, ◌++◌, Result, ok,
  err, ◌==◌, if◌then◌else◌,
}
use ros2_rust.Parameter.Utf8.{Utf8}
use ros2_rust.ReturnCode.{RclReturnCode, RclrsError, rcl_error}
use ros2_rust.WaitSet.{Kind, Rcl, Flags, WaitSet, ReadyEntities, new_for_node, wait}

-- The live entities of a node.
pub record Node : Type 0 where
  pub subscriptions : List ℕ
  pub clients : List ℕ
  pub guard_conditions : List ℕ
  pub services : List ℕ

-- What a state of the program says, and does: whether a node lives, and then with which entities and
-- whether its context is valid, `rcl`, the callbacks of an entity, which may have wait sets of their own
-- and so change flags, and the other threads at a yield.
pub record Program (R S : Type 0) : Type 0 where
  pub upgrade : S → ℕ → Option Node
  pub context_is_valid : S → ℕ → Bool
  pub rcl : S → Rcl R
  pub execute : Kind → ℕ → S → Flags → Result RclrsError (Unit {0}) × S × Flags
  pub yield_now : List ℕ × S → List ℕ × S

-- `SingleThreadedExecutor::new`
abbrev pub new_executor : List ℕ
new_executor = []

-- `SingleThreadedExecutor::add_node`
unfoldable pub add_node : ℕ → List ℕ → List ℕ
add_node node nodes = nodes ++ node ∷ []

-- what `retain` keeps: a node that is dead, or is another one
unfoldable pub remove_node : (ℕ → Option Node) → ℕ → List ℕ → List ℕ
remove_node upgrade node [] = []
remove_node upgrade node (n ∷ ns) =
    let rest = remove_node upgrade node ns in
    elim (upgrade n) [ none ↦ n ∷ rest | some _ ↦ if n == node then rest else n ∷ rest ]

module _ {R S : Type 0} (p : Program R S) ⦃u : Utf8⦄ where
  -- a loop over ready entities of one kind, which an error leaves
  unfoldable pub execute_all :
      Kind
      → List ℕ
      → Result RclrsError (Unit {0}) × S × Flags
      → Result RclrsError (Unit {0}) × S × Flags
  execute_all k [] state = state
  execute_all k (e ∷ es) (err error, s, flags) = (err error, s, flags)
  execute_all k (e ∷ es) (ok _, s, flags) = execute_all k es (p.execute k e s flags)

  unfoldable pub execute_ready :
      ReadyEntities → S → Flags → Result RclrsError (Unit {0}) × S × Flags
  unfolding execute_all
  execute_ready ready s flags = execute_all Kind.service ready.services (
      execute_all Kind.client ready.clients
        (execute_all Kind.subscription ready.subscriptions (ok tt, s, flags)))

  -- with a wait set's result, and the flags that it leaves to the callbacks
  abbrev pub finish_node :
      Result RclrsError ReadyEntities × Flags → S → Result RclrsError (Unit {0}) × S × Flags
  finish_node (err error, flags) s = (err error, s, flags)
  finish_node (ok ready, flags) s = execute_ready ready s flags

  abbrev pub wait_for :
      Option ℕ
      → Result RclrsError (WaitSet R) × Flags
      → S
      → Result RclrsError (Unit {0}) × S × Flags
  wait_for timeout (err error, flags) s = (err error, s, flags)
  wait_for timeout (ok w, flags) s = finish_node (wait ⦃rcl = p.rcl s⦄ timeout w flags) s

  -- the body of the loop of `spin_once`
  unfoldable pub spin_node : Option ℕ → Node → S → Flags → Result RclrsError (Unit {0}) × S × Flags
  unfolding execute_ready
  spin_node timeout n s flags =
      wait_for timeout
        (new_for_node ⦃rcl = p.rcl s⦄ n.subscriptions n.clients n.guard_conditions n.services flags)
        s

  abbrev pub filter_valid : Bool → Option Node → Option Node
  filter_valid valid none = none
  filter_valid true (some n) = some n
  filter_valid false (some n) = none

  -- the node, where it lives and its context is valid: the two filters
  unfoldable pub usable : S → ℕ → Option Node
  usable s node = filter_valid (p.context_is_valid s node) (p.upgrade s node)

  unfoldable pub spin_one :
      Option ℕ → Option Node → S → Flags → Result RclrsError (Unit {0}) × S × Flags
  unfolding spin_node
  spin_one timeout none s flags = (ok tt, s, flags)
  spin_one timeout (some n) s flags = spin_node timeout n s flags

  -- the loop of `spin_once`, which an error leaves
  unfoldable pub spin_nodes :
      Option ℕ
      → List ℕ
      → Result RclrsError (Unit {0}) × S × Flags
      → Result RclrsError (Unit {0}) × S × Flags
  unfolding spin_one usable
  spin_nodes timeout [] state = state
  spin_nodes timeout (node ∷ nodes) (err error, s, flags) = (err error, s, flags)
  spin_nodes timeout (node ∷ nodes) (ok _, s, flags) =
      spin_nodes timeout nodes (spin_one timeout (usable s node) s flags)

  unfoldable pub spin_once :
      Option ℕ → List ℕ → S → Flags → Result RclrsError (Unit {0}) × S × Flags
  unfolding spin_nodes
  spin_once timeout nodes s flags = spin_nodes timeout nodes (ok tt, s, flags)

  -- what `spin` does with the result of `spin_once`, where `again` is the next round
  abbrev pub continue_with :
      (List ℕ → S → Flags → Option (Result RclrsError (Unit {0}) × List ℕ × S × Flags))
      → List ℕ
      → Result RclrsError (Unit {0}) × S × Flags
      → Option (Result RclrsError (Unit {0}) × List ℕ × S × Flags)
  continue_with again nodes (ok _, s, flags) =
      let (nodes', s') = p.yield_now (nodes, s) in again nodes' s' flags
  continue_with again nodes (err (rcl_error RclReturnCode.timeout msg), s, flags) =
      let (nodes', s') = p.yield_now (nodes, s) in again nodes' s' flags
  continue_with again nodes (err error, s, flags) = some (err error, nodes, s, flags)

  -- `spin`, for a number of rounds: `none` where it has not returned by then
  unfoldable pub spin :
      ℕ → List ℕ → S → Flags → Option (Result RclrsError (Unit {0}) × List ℕ × S × Flags)
  unfolding spin_once
  spin zero nodes s flags = none
  spin (suc rounds) [] s flags = some (ok tt, [], s, flags)
  spin (suc rounds) (n ∷ ns) s flags =
      continue_with (spin rounds) (n ∷ ns) (spin_once none (n ∷ ns) s flags)
