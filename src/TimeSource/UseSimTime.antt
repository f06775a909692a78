-- ===== src/TimeSource/UseSimTime.antt =====
-- The parameter `use_sim_time` of a node, from the command line to its time source: `attach_node` of
-- rclrs/src/time_source.rs, on the parameters of rclrs/src/parameter.rs.
use ros2_rust.Prelude.{
  ℕ, ◌≡◌, refl, ◌∙◌, ap, Bool, true, false, Option, none, some, List, [], ◌∷◌, ◌++◌, length,
  Outcome, returns, fails, panics, ◌>>=◌,
}
use ros2_rust.Prelude.Int.{ℤ}
use ros2_rust.Prelude.Bytes.{Bytes}
use ros2_rust.Parameter.Float.{Float}
use ros2_rust.Parameter.Utf8.{Utf8}
use ros2_rust.Parameter.Value.{ParameterValue, ParameterKind, bool_variant}
use ros2_rust.Parameter.Rmw.{RclVariant, from_rcl_variant}
use ros2_rust.Parameter.Range.{DeclarationError, validate, in_range}
use ros2_rust.Parameter.Storage.{ParameterMap, read_only}
use ros2_rust.Parameter.Declare.{
  ParameterBuilder, ParameterInterface, ReadOnlyParameter, declare, with_default, declare_read_only,
  get_declaration_initial_value, default_initial_value_discriminator, store_declared,
}
use ros2_rust.Parameter.Handles.{get_read_only}
use ros2_rust.Parameter.Overrides.{RclParams, new_interface}
use ros2_rust.Parameter.Overrides.Precedence.{
  HasOneEach, preferred, overrides_made, overridden, not_declared,
}
use ros2_rust.Parameter.Reachable.{default_map}
use ros2_rust.ReturnCode.{RclCall, RclrsError, checked}
use ros2_rust.Clock.{ClockType, RclClock, system, steady}
use ros2_rust.Clock.Laws.{IsDocumented, make_lem}
use ros2_rust.TimeSource.{TimeSource, NodeCalls, initial_clock, build, set_sim_time, attach_node}
use ros2_rust.TimeSource.Steps.{IsAttached, Works, free_source}
use ros2_rust.TimeSource.Simulated.{attach-Gives}

-- the text "use_sim_time"
abbrev pub use_sim_time : Bytes
use_sim_time = 117 ∷ 115 ∷ 101 ∷ 95 ∷ 115 ∷ 105 ∷ 109 ∷ 95 ∷ 116 ∷ 105 ∷ 109 ∷ 101 ∷ []

-- `.unwrap()` on the result of a declaration
abbrev pub declared_or_panic : {A : Type 0} → Outcome DeclarationError A → Outcome ⊥ A
declared_or_panic (returns a) = returns a
declared_or_panic (fails error) = panics
declared_or_panic panics = panics

abbrev pub sim_time_builder : {F : Type 0} → ⦃fl : Float F⦄ → ParameterBuilder F Bool
sim_time_builder = with_default (declare ⦃v = bool_variant⦄ use_sim_time) false

module _ {F C : Type 0} ⦃fl : Float F⦄ ⦃rcl : RclClock C⦄ ⦃u : Utf8⦄ where
  -- `TimeSource::attach_node`, with the declaration of the parameter
  unfoldable pub declare_and_attach :
      NodeCalls
      → ℕ
      → ParameterInterface F
      → TimeSource
      → List C
      → Outcome ⊥ (TimeSource × ParameterMap F × List C)
  declare_and_attach calls node i ts heap = do
    (param, m) ←
        declared_or_panic (declare_read_only ⦃v = bool_variant⦄ i sim_time_builder i.parameter_map)
    value ← get_read_only ⦃v = bool_variant⦄ param
    (ts', heap') ← attach_node calls node value ts heap
    returns (ts', m, heap')

module _ (F : Type 0) ⦃fl : Float F⦄ where
  builder_name : (sim_time_builder {F = F}).name ≡ use_sim_time
  unfolding with_default declare
  builder_name = refl

  builder_discriminator :
      (sim_time_builder {F = F}).discriminator
      ≡ default_initial_value_discriminator ⦃v = bool_variant⦄
  unfolding with_default declare
  builder_discriminator = refl

  builder_override : (sim_time_builder {F = F}).ignore_override ≡ false
  unfolding with_default declare
  builder_override = refl

  ranges_valid : validate (sim_time_builder {F = F}).options.ranges ≡ returns tt
  unfolding with_default declare validate
  ranges_valid = refl

  value_inside :
      (x : Bool)
      → in_range (sim_time_builder {F = F}).options.ranges (ParameterValue.bool x) ≡ returns true
  unfolding with_default declare in_range
  value_inside x = refl

module _ {F : Type 0} ⦃fl : Float F⦄ where
  declared :
      (i : ParameterInterface F) (x : Bool)
      → get_declaration_initial_value ⦃v = bool_variant⦄ i sim_time_builder ≡ returns (some x)
      → (p : ReadOnlyParameter F) × (m : ParameterMap F) × (declare_read_only ⦃v = bool_variant⦄ i
            sim_time_builder i.parameter_map
          ≡ returns (p, m))
        × (get_read_only ⦃v = bool_variant⦄ p ≡ returns x)
  unfolding declare_read_only get_read_only
  declared i x e = (
    record { name = (sim_time_builder {F = F}).name; value = ParameterValue.bool x },
    store_declared (sim_time_builder {F = F}).name ParameterKind.bool
        (read_only (ParameterValue.bool x)) (sim_time_builder {F = F}).options i.parameter_map.cells
        i.parameter_map,
    rw e (refl),
    refl,
  )

-- What a new time source for a type of clock becomes by attaching it to a node.
abbrev pub Follows :
    {C : Type 0} ⦃rcl : RclClock C⦄ ⦃u : Utf8⦄ {IsFresh : C → Type 0} {Shows : ℤ → C → Type 0}
    → IsDocumented rcl IsFresh Shows
    → ℕ
    → Bool
    → ClockType
    → TimeSource × List C
    → Type 0
Follows doc node x ClockType.ros_time state = IsAttached doc node x none state
Follows doc node x ClockType.system_time (ts, heap) =
    (ts.clock.kind ≡ ClockType.system_time)
    × (ts.clock_source ≡ none)
    × (ts.clock_subscription ≡ none)
Follows doc node x ClockType.steady_time (ts, heap) =
    (ts.clock.kind ≡ ClockType.steady_time)
    × (ts.clock_source ≡ none)
    × (ts.clock_subscription ≡ none)

-- What is built for system or steady time.
abbrev clean_source : ClockType → ℕ → TimeSource
clean_source clock_type address = record {
  node = none;
  clock = record { kind = clock_type; rcl_clock = address };
  clock_source = none;
  requested_clock_type = clock_type;
  clock_subscription = none;
  last_received_time = none;
  use_sim_time = none;
}

module _ {C : Type 0} ⦃rcl : RclClock C⦄ ⦃u : Utf8⦄ {IsFresh : C → Type 0} {Shows : ℤ → C → Type 0}
    (doc : IsDocumented rcl IsFresh Shows) (calls : NodeCalls) (node : ℕ)
    (w : Works calls node) where
  attach-Follows :
      (clock_type : ClockType) (x : Bool) (heap : List C)
      → (new : TimeSource × List C) × (state : TimeSource × List C) × (build clock_type heap
          ≡ returns new)
        × (attach_node calls node x new.0 new.1 ≡ returns state)
        × Follows doc node x clock_type state
  unfolding build initial_clock system steady attach_node set_sim_time
  attach-Follows ClockType.ros_time x heap =
      let h1 : List C = heap ++ (rcl.init ClockType.system_time).handle ∷ [] in
      let (state, done, a) = attach-Gives doc calls node w x (length heap) h1 in
      (
        (free_source none (length heap) none none, h1),
        state,
        rw (make_lem ClockType.system_time heap (doc.makes ClockType.system_time)) (refl),
        done,
        a,
      )
  attach-Follows ClockType.system_time x heap = (
    (
      clean_source ClockType.system_time (length heap),
      heap ++ (rcl.init ClockType.system_time).handle ∷ [],
    ),
    _,
    rw (make_lem ClockType.system_time heap (doc.makes ClockType.system_time)) (refl),
    refl,
    (refl, refl, refl),
  )
  attach-Follows ClockType.steady_time x heap = (
    (
      clean_source ClockType.steady_time (length heap),
      heap ++ (rcl.init ClockType.steady_time).handle ∷ [],
    ),
    _,
    rw (make_lem ClockType.steady_time heap (doc.makes ClockType.steady_time)) (refl),
    refl,
    (refl, refl, refl),
  )

  -- In a node whose arguments `rcl` has parsed, with one field set in each value, and whose preferred
  -- override of `use_sim_time` is a Boolean: where `rcl`'s clocks behave as documented, the node lives
  -- and its subscription can be created, building a time source for a type of clock, and attaching it
  -- with the declaration of the parameter as the first of the node, returns. A source for ROS time
  -- then has a clock of ROS time, its own clock source and a subscription if the override is true, and
  -- a clock of system time and neither of the others if it is false. A source for system or steady
  -- time has a clock of this type and neither of the others, whatever the override is.
  pub use_sim_time-Follows :
      {F : Type 0} ⦃fl : Float F⦄ (fqn : Bytes) (arguments global : RclCall (Option (RclParams F)))
      (node_params global_params : Option (RclParams F)) (var : RclVariant F) (x : Bool)
      (clock_type : ClockType) (heap : List C)
      → checked arguments ≡ returns node_params
      → checked global ≡ returns global_params
      → HasOneEach fqn node_params
      → HasOneEach fqn global_params
      → preferred fqn node_params global_params use_sim_time ≡ some var
      → from_rcl_variant {E = RclrsError} var ≡ returns (ParameterValue.bool x)
      → (i : ParameterInterface F) × (new : TimeSource × List C) × (state : TimeSource × List C)
        × (m : ParameterMap F) × (new_interface fqn arguments global ≡ returns i)
        × (build clock_type heap ≡ returns new)
        × (declare_and_attach calls node i new.0 new.1 ≡ returns (state.0, m, state.1))
        × Follows doc node x clock_type state
  unfolding declare_and_attach
  use_sim_time-Follows {F = F} fqn arguments global np gp var x clock_type heap n g one_n one_g pref
        conv =
      let (overrides, made, got) =
        overrides_made fqn arguments global np gp (sim_time_builder {F = F}).name var
          (ParameterValue.bool x) n g one_n one_g
          (ap (λ (name : Bytes). preferred fqn np gp name) (builder_name F) ∙ pref) conv in
      let i : ParameterInterface F = record {
        parameter_map = default_map;
        override_map = overrides;
      } in
      let (p, m, d, get) = declared i x (
        overridden ⦃v = bool_variant⦄ overrides default_map sim_time_builder (ParameterValue.bool x)
          x (not_declared (sim_time_builder {F = F}).name) (builder_override F)
          (builder_discriminator F) (ranges_valid F) (value_inside F x) refl got) in
      let (new, state, built, done, a) = attach-Follows clock_type x heap in
      (i, new, state, m, made, built, rw (d, get, done) (refl), a)
