-- ===== src/WaitSet.antt =====
-- rclrs/src/wait.rs and rclrs/src/wait/exclusivity_guard.rs: sets of entities to wait on. An entity
-- is named by its flag `in_use_by_wait_set`, which all clones of its `Arc` share; `Flags` is the
-- memory of these flags. A guard is dropped where the source's scope ends, which clears its flag.
pub mod Exclusive
pub mod Ready
pub mod ForNode
use ros2_rust.Prelude.{
  ℕ, zero, suc, ◌+◌, ◌≡◌, Bool, true, false, Option, none, some, List, [], ◌∷◌, ◌++◌, length,
  Result, ok, err, leb, length, ◌==◌, if◌then◌else◌,
}
use ros2_rust.Prelude.Bytes.{Bytes}
use ros2_rust.Parameter.Utf8.{Utf8}
use ros2_rust.ReturnCode.{
  RclCall, RclReturnCode, RclrsError, rcl_error, already_added_to_wait_set, to_rclrs_result,
}
use ros2_rust.Prelude.Int.{ℤ, pos, negsuc, i64_max}

pub data Kind : Type 0 where
  subscription client guard_condition service : Kind

-- What the code of `rcl` does with its wait set `R`.
pub record Rcl (R : Type 0) : Type 0 where
  pub init : ℕ → ℕ → ℕ → ℕ → ℕ → ℕ → RclCall R
  pub add : Kind → ℕ → R → RclCall R
  pub clear : R → R
  pub wait : ℤ → R → RclCall R
  -- The entry for an index is not null after the wait.
  pub entry : Kind → ℕ → R → Bool

abbrev pub Flags : Type 0
Flags = ℕ → Bool

-- `AtomicBool::store`
unfoldable pub store : ℕ → Bool → Flags → Flags
store e b flags = λ x. if e == x then b else flags x

pub record WaitSet (R : Type 0) : Type 0 where
  pub subscriptions : List ℕ
  pub clients : List ℕ
  pub guard_conditions : List ℕ
  pub services : List ℕ
  pub handle : R

pub record ReadyEntities : Type 0 where
  pub subscriptions : List ℕ
  pub clients : List ℕ
  pub guard_conditions : List ℕ
  pub services : List ℕ

-- `ExclusivityGuard::new`, by compare-and-exchange
unfoldable pub new_guard : ℕ → Flags → Result RclrsError Flags
unfolding store
new_guard e flags = if flags e then err already_added_to_wait_set else ok (store e true flags)

-- `ExclusivityGuard::drop`, for one guard and for a vector of guards
unfoldable pub drop_guard : ℕ → Flags → Flags
unfolding store
drop_guard e flags = store e false flags

unfoldable pub drop_guards : List ℕ → Flags → Flags
unfolding drop_guard
drop_guards [] flags = flags
drop_guards (e ∷ es) flags = drop_guards es (drop_guard e flags)

-- the timeout in nanoseconds, where -1 is no timeout
unfoldable pub timeout_ns : Option ℕ → Result RclrsError ℤ
timeout_ns none = ok (negsuc 0)
timeout_ns (some ns) =
    if leb ns i64_max then ok (pos ns) else err (rcl_error RclReturnCode.invalid_argument none)

-- the result of `rcl_wait`, where an empty wait set is no error
abbrev pub waited : Result RclrsError (Unit {0}) → Result RclrsError (Unit {0})
waited (err (rcl_error RclReturnCode.wait_set_empty msg)) = ok tt
waited r = r

module _ {R : Type 0} where
  -- The vector that `add_*` pushes to.
  unfoldable pub push : Kind → ℕ → WaitSet R → WaitSet R
  push Kind.subscription e w = record w { subscriptions = w.subscriptions ++ e ∷ [] }
  push Kind.client e w = record w { clients = w.clients ++ e ∷ [] }
  push Kind.guard_condition e w = record w { guard_conditions = w.guard_conditions ++ e ∷ [] }
  push Kind.service e w = record w { services = w.services ++ e ∷ [] }

  -- Dropping the wait set, or clearing its vectors, drops the guards in them.
  unfoldable pub release : WaitSet R → Flags → Flags
  unfolding drop_guards
  release w flags =
      drop_guards w.services
        (drop_guards w.clients (drop_guards w.guard_conditions (drop_guards w.subscriptions flags)))

module _ {R : Type 0} ⦃rcl : Rcl R⦄ ⦃u : Utf8⦄ where
  -- `WaitSet::new`
  unfoldable pub new : ℕ → ℕ → ℕ → ℕ → ℕ → ℕ → Result RclrsError (WaitSet R)
  new subscriptions guard_conditions timers clients services events =
      let made = rcl.init subscriptions guard_conditions timers clients services events in
      elim (to_rclrs_result made.ret made.message).0 [
        | err error ↦ err error
        | ok _ ↦ ok (record {
          subscriptions = [];
          clients = [];
          guard_conditions = [];
          services = [];
          handle = made.handle;
        })
      ]

  -- the call of `rcl_wait_set_add_*`, with the guard made: on an error the guard is dropped
  unfoldable pub register :
      Kind → ℕ → RclCall R → WaitSet R → Flags → Result RclrsError (Unit {0}) × WaitSet R × Flags
  unfolding push drop_guard
  register k e r w flags = elim (to_rclrs_result r.ret r.message).0 [
    | err error ↦ (err error, record w { handle = r.handle }, drop_guard e flags)
    | ok _ ↦ (ok tt, push k e (record w { handle = r.handle }), flags)
  ]

  -- what the four `add_*` have in common
  unfoldable pub add :
      Kind → ℕ → WaitSet R → Flags → Result RclrsError (Unit {0}) × WaitSet R × Flags
  unfolding register new_guard
  add k e w flags = elim (new_guard e flags) [
    | err error ↦ (err error, w, flags)
    | ok flags' ↦ register k e (rcl.add k e w.handle) w flags'
  ]

  unfoldable pub add_subscription :
      ℕ → WaitSet R → Flags → Result RclrsError (Unit {0}) × WaitSet R × Flags
  unfolding add
  add_subscription = add Kind.subscription

  unfoldable pub add_client :
      ℕ → WaitSet R → Flags → Result RclrsError (Unit {0}) × WaitSet R × Flags
  unfolding add
  add_client = add Kind.client

  unfoldable pub add_guard_condition :
      ℕ → WaitSet R → Flags → Result RclrsError (Unit {0}) × WaitSet R × Flags
  unfolding add
  add_guard_condition = add Kind.guard_condition

  unfoldable pub add_service :
      ℕ → WaitSet R → Flags → Result RclrsError (Unit {0}) × WaitSet R × Flags
  unfolding add
  add_service = add Kind.service

  -- one of the loops of `new_for_node`, which an error leaves
  unfoldable pub add_all :
      Kind
      → List ℕ
      → Result RclrsError (Unit {0}) × WaitSet R × Flags
      → Result RclrsError (Unit {0}) × WaitSet R × Flags
  unfolding add
  add_all k [] state = state
  add_all k (e ∷ es) (err error, w, flags) = (err error, w, flags)
  add_all k (e ∷ es) (ok _, w, flags) = add_all k es (add k e w flags)

  -- On an error the wait set goes out of scope, and is dropped.
  abbrev pub returned :
      Result RclrsError (Unit {0}) × WaitSet R × Flags → Result RclrsError (WaitSet R) × Flags
  returned (err error, w, flags) = (err error, release w flags)
  returned (ok _, w, flags) = (ok w, flags)

  -- `WaitSet::new_for_node`, for the live entities of the node
  unfoldable pub new_for_node :
      List ℕ → List ℕ → List ℕ → List ℕ → Flags → Result RclrsError (WaitSet R) × Flags
  unfolding new add_all release
  new_for_node subscriptions clients guard_conditions services flags =
      elim (new (length subscriptions) (length guard_conditions) 0 (length clients)
        (length services) 0) [
          | err error ↦ (err error, flags)
          | ok w ↦ returned (
              add_all Kind.service services (
                add_all Kind.guard_condition guard_conditions (
                  add_all Kind.client clients
                    (add_all Kind.subscription subscriptions (ok tt, w, flags)))))
        ]

  unfoldable pub clear : WaitSet R → Flags → WaitSet R × Flags
  unfolding release
  clear w flags = (
    record {
      subscriptions = [];
      clients = [];
      guard_conditions = [];
      services = [];
      handle = rcl.clear w.handle;
    },
    release w flags,
  )

  -- the loop over the entries of one kind, from index `i` on
  unfoldable pub non_null : Kind → R → ℕ → List ℕ → List ℕ
  non_null k r i [] = []
  non_null k r i (e ∷ es) =
      let rest = non_null k r (suc i) es in if rcl.entry k i r then e ∷ rest else rest

  unfoldable pub ready_entities : WaitSet R → R → ReadyEntities
  unfolding non_null
  ready_entities w r = record {
    subscriptions = non_null Kind.subscription r 0 w.subscriptions;
    clients = non_null Kind.client r 0 w.clients;
    guard_conditions = non_null Kind.guard_condition r 0 w.guard_conditions;
    services = non_null Kind.service r 0 w.services;
  }

  unfoldable pub collect_ready : RclCall R → WaitSet R → Result RclrsError ReadyEntities
  unfolding ready_entities
  collect_ready r w = elim (waited (to_rclrs_result r.ret r.message).0) [
    | err error ↦ err error
    | ok _ ↦ ok (ready_entities w r.handle)
  ]

  -- `WaitSet::wait`, which takes the wait set: it is dropped on every path
  unfoldable pub wait : Option ℕ → WaitSet R → Flags → Result RclrsError ReadyEntities × Flags
  unfolding timeout_ns collect_ready release
  wait timeout w flags = elim (timeout_ns timeout) [
    | err error ↦ (err error, release w flags)
    | ok ns ↦ (collect_ready (rcl.wait ns w.handle) w, release w flags)
  ]
