-- ===== src/Tests/ExecutorTests.antt =====
-- The theorems on the executor, applied to a program with two nodes, of which one is dead.
use ros2_rust.ReturnCode.{to_rclrs_result}
use ros2_rust.Prelude.{
  ℕ, zero, suc, ◌≡◌, refl, true, false, Option, some, none, [], ◌∷◌, ok, ◌==◌, ◌||◌, arith,
}
use ros2_rust.WaitSet.{Flags, wait, new_for_node}
use ros2_rust.Executor.{Node, Program, spin_once, spin, usable}
use ros2_rust.WaitSet.Exclusive.{bit}
use ros2_rust.Executor.Guards.{AgreeIn, KeepsGuards, spin_once-Agree}
use ros2_rust.Executor.Spinning.{spin_forever, Returned, spin-Returned}
use ros2_rust.Tests.Samples.{plain_text}
use ros2_rust.Tests.WaitSetTests.{sample_rcl}

abbrev listener : Node
listener = record {
  subscriptions = 3 ∷ 4 ∷ [];
  clients = [];
  guard_conditions = [];
  services = 5 ∷ [];
}

-- Node 0 lives, and the state counts the callbacks that have run. A callback leaves entity 9 with a
-- guard.
abbrev program : Program ℕ ℕ
program = record {
  upgrade = λ s n. living n;
  context_is_valid = λ s n. true;
  rcl = λ s. sample_rcl;
  execute = λ k e s flags. (ok tt, suc s, λ x. (x == 9) || flags x);
  yield_now = λ state. state;
}
  where
    living : ℕ → Option Node
    living zero = some listener
    living (suc n) = none

abbrev no_flags : Flags
no_flags e = false

-- The first subscription and the first service are ready.
run_once : (spin_once program none (1 ∷ 0 ∷ []) 0 no_flags).1 ≡ 2
unfolding spin_once new_for_node to_rclrs_result wait
run_once = refl

-- The guard of entity 9 is there once a callback has run.
abbrev others : ℕ → ℕ → ℕ
others zero e = 0
others (suc s) e = bit (e == 9)

kept : KeepsGuards program others
kept k e zero flags h = λ x. ground (arith, h x)
kept k e (suc s) flags h = λ x. ground (arith, h x)

spin_once-Agree_example : AgreeIn others (spin_once program none (1 ∷ 0 ∷ []) 0 no_flags)
spin_once-Agree_example =
    spin_once-Agree program others kept none (1 ∷ 0 ∷ []) 0 no_flags (λ e. refl)

dead : usable program 0 1 ≡ none
unfolding usable
dead = refl

spin_forever_example :
    (spin program 100 (1 ∷ []) 0 no_flags ≡ none)
    × (spin_once program none (1 ∷ []) 0 no_flags ≡ (ok tt, 0, no_flags))
spin_forever_example = spin_forever program 100 1 [] 0 no_flags (dead, tt) refl

spin-Returned_example : Returned program (spin program 100 [] 0 no_flags)
spin-Returned_example = spin-Returned program 100 [] 0 no_flags
