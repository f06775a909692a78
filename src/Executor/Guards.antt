-- ===== src/Executor/Guards.antt =====
-- The guards of the wait sets that `spin_once` of rclrs/src/executor.rs makes.
use ros2_rust.Prelude.{ℕ, ◌≡◌, Option, none, some, List, [], ◌∷◌, Result, ok, err}
use ros2_rust.Parameter.Utf8.{Utf8}
use ros2_rust.ReturnCode.{RclrsError}
use ros2_rust.WaitSet.{Kind, Flags, WaitSet, ReadyEntities, wait}
use ros2_rust.WaitSet.Exclusive.{bit, wait-Releases}
use ros2_rust.WaitSet.ForNode.{Balanced, new_for_node-Balanced}
use ros2_rust.Executor.{
  Node, Program, execute_all, execute_ready, finish_node, wait_for, spin_node, spin_one, spin_nodes,
  spin_once, usable,
}

-- The flags that are set are those of the guards counted by `others`.
abbrev pub Agree : (ℕ → ℕ) → Flags → Type 0
Agree others flags = (e : ℕ) → others e ≡ bit (flags e)

module _ {S : Type 0} where
  -- The flags that are set are those of the guards that the rest of the program has in its state.
  abbrev pub AgreeIn : (S → ℕ → ℕ) → Result RclrsError (Unit {0}) × S × Flags → Type 0
  AgreeIn others (result, s, flags) = Agree (others s) flags

module _ {R S : Type 0} where
  -- The callbacks take and release guards of their own only.
  abbrev pub KeepsGuards : Program R S → (S → ℕ → ℕ) → Type 0
  KeepsGuards p others =
      (k : Kind) (e : ℕ) (s : S) (flags : Flags)
      → Agree (others s) flags
      → AgreeIn others (p.execute k e s flags)

module _ {R S : Type 0} (p : Program R S) ⦃u : Utf8⦄ (others : S → ℕ → ℕ)
    (keeps : KeepsGuards p others) where
  execute_all-AgreeIn :
      (k : Kind) (es : List ℕ) (state : Result RclrsError (Unit {0}) × S × Flags)
      → AgreeIn others state
      → AgreeIn others (execute_all p k es state)
  unfolding execute_all
  execute_all-AgreeIn k [] state h = h
  execute_all-AgreeIn k (e ∷ es) (err q, s, flags) h = h
  execute_all-AgreeIn k (e ∷ es) (ok _, s, flags) h =
      execute_all-AgreeIn k es (p.execute k e s flags) (keeps k e s flags h)

  finish_node-AgreeIn :
      (out : Result RclrsError ReadyEntities × Flags) (s : S)
      → Agree (others s) out.1
      → AgreeIn others (finish_node p out s)
  unfolding execute_ready
  finish_node-AgreeIn (err q, flags) s h = h
  finish_node-AgreeIn (ok ready, flags) s h = execute_all-AgreeIn Kind.service ready.services _ (
      execute_all-AgreeIn Kind.client ready.clients _
        (execute_all-AgreeIn Kind.subscription ready.subscriptions (ok tt, s, flags) h))

  wait_for-AgreeIn :
      (timeout : Option ℕ) (made : Result RclrsError (WaitSet R) × Flags) (s : S)
      → Balanced ⦃rcl = p.rcl s⦄ (others s) made
      → AgreeIn others (wait_for p timeout made s)
  wait_for-AgreeIn timeout (err q, flags) s h = h
  wait_for-AgreeIn timeout (ok w, flags) s h =
      finish_node-AgreeIn (wait ⦃rcl = p.rcl s⦄ timeout w flags) s
        (λ e. wait-Releases ⦃rcl = p.rcl s⦄ (others s) timeout w flags e h)

  spin_one-AgreeIn :
      (timeout : Option ℕ) (n : Option Node) (s : S) (flags : Flags)
      → Agree (others s) flags
      → AgreeIn others (spin_one p timeout n s flags)
  unfolding spin_one spin_node
  spin_one-AgreeIn timeout none s flags h = h
  spin_one-AgreeIn timeout (some n) s flags h = wait_for-AgreeIn timeout _ s (
      new_for_node-Balanced R ⦃rcl = p.rcl s⦄ (others s) n.subscriptions n.clients
        n.guard_conditions n.services flags h)

  spin_nodes-AgreeIn :
      (timeout : Option ℕ) (nodes : List ℕ) (state : Result RclrsError (Unit {0}) × S × Flags)
      → AgreeIn others state
      → AgreeIn others (spin_nodes p timeout nodes state)
  unfolding spin_nodes
  spin_nodes-AgreeIn timeout [] state h = h
  spin_nodes-AgreeIn timeout (n ∷ ns) (err q, s, flags) h = h
  spin_nodes-AgreeIn timeout (n ∷ ns) (ok _, s, flags) h =
      spin_nodes-AgreeIn timeout ns (spin_one p timeout (usable p s n) s flags)
        (spin_one-AgreeIn timeout (usable p s n) s flags h)

  -- The rest of the program may have guards, which a callback can take and release, and each callback
  -- keeps it so that the entities whose flags are set are those that have a guard, once each. If it is
  -- so before `spin_once`, it is so after it: on every path, also where making or waiting on a node's
  -- wait set or a callback fails, no guard of its own is left.
  pub spin_once-Agree :
      (timeout : Option ℕ) (nodes : List ℕ) (s : S) (flags : Flags)
      → Agree (others s) flags
      → AgreeIn others (spin_once p timeout nodes s flags)
  unfolding spin_once
  spin_once-Agree timeout nodes s flags h = spin_nodes-AgreeIn timeout nodes (ok tt, s, flags) h
