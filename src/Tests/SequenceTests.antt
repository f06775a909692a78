-- ===== src/Tests/SequenceTests.antt =====
-- The theorems on sequences, applied to sequences of numbers.
use ros2_rust.Prelude.{
  ℕ, ◌+◌, ◌-◌, ◌≤◌, ◌≡◌, refl, List, [], ◌∷◌, ◌++◌, length, take, replicate, returns, arith,
}
use ros2_rust.Sequence.{Sequence, extend, size, size_hint, into_iter}
use ros2_rust.Sequence.Copying.{Allocates}
use ros2_rust.Sequence.Extension.{extend_lem}
use ros2_rust.Sequence.Bounded.{BoundedSequence, extend_bounded, extend_bounded_lem}
use ros2_rust.Sequence.Iteration.{drain, drain-into_iter, size_hint_too_large}
use ros2_rust.Tests.Samples.{zeroed}

abbrev pair : Sequence ℕ
pair = record { elements = 7 ∷ 8 ∷ [] }

abbrev more : List ℕ
more = 1 ∷ 2 ∷ 3 ∷ []

zeroed-Allocates : Allocates zeroed
zeroed-Allocates n = (replicate n 0, refl)

extend_lem_example :
    (t : Sequence ℕ) × (extend 5 more pair ≡ returns t) × (t.elements ≡ pair.elements ++ more)
extend_lem_example = extend_lem 5 more pair zeroed-Allocates (omega arith)

extend_bounded_lem_example :
    (t : BoundedSequence ℕ) × (extend_bounded 4 3 more (record { inner = pair }) ≡ returns t)
    × (t.inner.elements ≡ pair.elements ++ take (4 - size pair) more)
    × (size t.inner ≤ 4)
extend_bounded_lem_example =
    extend_bounded_lem 4 3 more (record { inner = pair }) zeroed-Allocates (omega arith)
      (omega arith)

drain-into_iter_example : drain (size pair + 1) (into_iter pair) ≡ 7 ∷ 8 ∷ []
drain-into_iter_example = drain-into_iter pair

size_hint_too_large_example :
    size_hint (into_iter pair) ≡ length (drain (size pair + 1) (into_iter pair)) + 1
size_hint_too_large_example = size_hint_too_large (into_iter pair) (omega arith)
