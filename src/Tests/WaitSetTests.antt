-- ===== src/Tests/WaitSetTests.antt =====
-- The theorems on wait sets and return codes, applied to a wait set of two subscriptions.
use ros2_rust.Prelude.{
  ℕ, zero, suc, ◌+◌, ◌≡◌, ◌≢◌, ◌↔◌, refl, Bool, true, false, none, [], ◌∷◌, ok, arith,
}
use ros2_rust.Prelude.Int.{pos, negsuc}
use ros2_rust.ReturnCode.{RclCall, RclReturnCode, discriminant, try_from, to_rclrs_result}
use ros2_rust.ReturnCode.Laws.{try_from_iff}
use ros2_rust.WaitSet.{Kind, Rcl, Flags, WaitSet, ReadyEntities, add, collect_ready}
use ros2_rust.WaitSet.Exclusive.{IsExclusive, bit, held, add-IsExclusive}
use ros2_rust.WaitSet.Ready.{Member, IsReady, collect_ready_lem}
use ros2_rust.Tests.Samples.{plain_text}

abbrev pub done : RclCall ℕ
done = record { ret = pos 0; message = none; handle = 0 }

-- Every call succeeds, and after a wait the entries with index 0 are not null.
instance abbrev pub sample_rcl : Rcl ℕ
sample_rcl = record {
  init = λ a b c d e f. done;
  add = λ k e r. done;
  clear = λ r. r;
  wait = λ ns r. done;
  entry = λ k i r. first i;
}
  where
    first : ℕ → Bool
    first zero = true
    first (suc i) = false

abbrev two : WaitSet ℕ
two = record {
  subscriptions = 0 ∷ 1 ∷ [];
  clients = [];
  guard_conditions = [];
  services = [];
  handle = 0;
}

abbrev flags : Flags
flags zero = true
flags (suc zero) = true
flags _ = false

abbrev nobody : ℕ → ℕ
nobody e = 0

two-IsExclusive : IsExclusive nobody two flags
two-IsExclusive = record { one = counted }
  where
    counted : (e : ℕ) → nobody e + held e two ≡ bit (flags e)
    counted zero = refl
    counted (suc zero) = refl
    counted (suc (suc e)) = ground arith

add-IsExclusive_example :
    IsExclusive nobody (add Kind.client 5 two flags).1 (add Kind.client 5 two flags).2
add-IsExclusive_example = add-IsExclusive nobody Kind.client 5 two flags two-IsExclusive

abbrev first_ready : ReadyEntities
first_ready = record { subscriptions = 0 ∷ []; clients = []; guard_conditions = []; services = [] }

ready_run : collect_ready done two ≡ ok first_ready
unfolding collect_ready to_rclrs_result
ready_run = refl

collect_ready_lem_example :
    (Member 0 (0 ∷ []) ↔ IsReady {R = ℕ} Kind.subscription 0 0 (0 ∷ 1 ∷ []) 0)
    × (Member 0 [] ↔ IsReady {R = ℕ} Kind.client 0 0 [] 0)
    × (Member 0 [] ↔ IsReady {R = ℕ} Kind.guard_condition 0 0 [] 0)
    × (Member 0 [] ↔ IsReady {R = ℕ} Kind.service 0 0 [] 0)
collect_ready_lem_example = collect_ready_lem done two first_ready 0 ready_run

try_from_iff_example :
    (try_from (pos 901) ≡ ok RclReturnCode.wait_set_empty)
    ↔ (pos 901 ≡ pos (discriminant RclReturnCode.wait_set_empty))
try_from_iff_example = try_from_iff (pos 901) RclReturnCode.wait_set_empty

minus_one : negsuc 0 ≢ pos 0
minus_one h = cc

abbrev no_flags : Flags
no_flags e = false
