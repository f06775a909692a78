-- ===== src/Tests/Samples.antt =====
-- Sample instances for the parts of the model that are arguments, and a node with one parameter.
use ros2_rust.Prelude.{
  ℕ, zero, suc, ◌+◌, ◌-◌, ◌*◌, ◌/◌, ◌≡◌, refl, ap, false, true, none, some, [], ◌∷◌, length,
  replicate, returns, ltb, leb, some-eq, sym, ◌∙◌,
}
use ros2_rust.Prelude.Int.{ℤ, pos, ◌-ℤ◌}
use ros2_rust.Prelude.Bytes.{Bytes, beq}
use ros2_rust.Prelude.BTreeMap
use ros2_rust.Parameter.Float.{Float}
use ros2_rust.Parameter.Utf8.{Utf8}
use ros2_rust.Parameter.Value.{ParameterValue, ParameterKind, i64_variant}
use ros2_rust.Parameter.Range.{ParameterRange, ParameterRanges, validate, in_range}
use ros2_rust.Parameter.Storage.{DeclaredStorage, ParameterMap, declared, mandatory}
use ros2_rust.Parameter.Storage.Invariant.{IsWellFormed}
use ros2_rust.Parameter.Declare.{
  ParameterBuilder, ParameterInterface, MandatoryParameter, declare, with_default, with_range,
  declare_mandatory,
}
use ros2_rust.Parameter.Reachable.{default_map, Reach, Reach-IsWellFormed, Step}
use ros2_rust.Parameter.Value.Laws.{i64-IsLawful}
use ros2_rust.Parameter.Handles.Invariant.{IsLive}
use ros2_rust.Parameter.Service.{RmwParameter}
use ros2_rust.Parameter.Rmw.{to_rmw}
use ros2_rust.Sequence.{SequenceAlloc}

-- Whole numbers stand in for the floating-point numbers.
instance abbrev pub whole_numbers : Float ℕ
whole_numbers = record {
  lt = ltb;
  le = leb;
  sub = λ a b. a - b;
  add = λ a b. a + b;
  mul = λ a b. a * b;
  div = λ a b. a / b;
  abs = λ a. a;
  round = λ a. a;
  zero = 0;
  epsilon = 0;
  hundred = 100;
  neg_infinity = 0;
  infinity = 1000000;
}

-- Every text is valid.
instance abbrev pub plain_text : Utf8
plain_text = record { valid = λ b. true; lossy = λ b. b; lossy_valid = λ b h. refl }

pub length-replicate : (n : ℕ) → length {A = ℕ} (replicate n 0) ≡ n
length-replicate zero = refl
length-replicate (suc n) = ap suc (length-replicate n)

-- Allocation always succeeds.
instance abbrev pub zeroed : SequenceAlloc ℕ
zeroed = record {
  zero = 0;
  init = λ n. some (replicate n 0);
  sized = λ n l h. ap length (some-eq (sym h)) ∙ length-replicate n;
}

-- the name "a"
abbrev pub speed : Bytes
speed = 97 ∷ []

abbrev pub speed_range : ParameterRange ℤ
speed_range = record { lower = some (pos 0); upper = some (pos 10); step = some (pos 2) }

abbrev pub speed_ranges : ParameterRanges ℕ
speed_ranges = record { float = none; integer = some speed_range }

abbrev pub empty_node : ParameterInterface ℕ
empty_node = record { parameter_map = default_map; override_map = BTreeMap.empty }

abbrev pub speed_builder : ParameterBuilder ℕ ℤ
speed_builder = with_range (with_default (declare ⦃v = i64_variant⦄ speed) (pos 4)) speed_ranges

abbrev pub speed_handle : MandatoryParameter ℕ
speed_handle = record { name = speed; value = 0; ranges = speed_ranges }

abbrev pub speed_entry : DeclaredStorage ℕ
speed_entry = record {
  value = mandatory 0;
  kind = ParameterKind.integer;
  options = record { description = []; constraints = []; ranges = speed_ranges };
}

-- The node after the declaration, where the parameter has a value.
abbrev pub node_with : ℤ → ParameterMap ℕ
node_with x = record {
  storage = BTreeMap.insert speed (declared speed_entry) BTreeMap.empty;
  allow_undeclared = false;
  cells = record { mandatory = ParameterValue.integer x ∷ []; optional = [] };
}

pub speed_declared :
    declare_mandatory ⦃v = i64_variant⦄ empty_node speed_builder default_map
    ≡ returns (speed_handle, node_with (pos 4))
unfolding declare_mandatory declare with_default with_range default_map validate BTreeMap.get
    BTreeMap.empty in_range ◌-ℤ◌
speed_declared = refl

pub node_Reach : Reach (node_with (pos 4))
node_Reach = Reach.next (Reach.start default_map refl) (
    Step.declares_mandatory i64_variant i64-IsLawful empty_node speed_builder speed_handle
      speed_declared)

pub node-IsWellFormed : IsWellFormed (node_with (pos 4))
node-IsWellFormed = Reach-IsWellFormed node_Reach

-- A request to set the parameter.
abbrev pub speed_request : ℤ → RmwParameter ℕ
speed_request x = record { name = speed; value = to_rmw (ParameterValue.integer x) }

pub speed_stored : BTreeMap.get speed (node_with (pos 4)).storage ≡ some (declared speed_entry)
unfolding BTreeMap.get BTreeMap.insert BTreeMap.empty beq
speed_stored = refl

pub speed_IsLive : IsLive ParameterKind.integer speed_handle (node_with (pos 4))
speed_IsLive = record {
  entry = speed_entry;
  stored = speed_stored;
  shares = refl;
  kind = refl;
  ranges = refl;
}
