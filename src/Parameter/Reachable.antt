-- ===== src/Parameter/Reachable.antt =====
-- The parameter storage of a node as a transition system: every call that changes it, from inside
-- the node or by a service request, and what holds in every state that is reached.
use ros2_rust.Prelude.{◌≡◌, sym, subst, inl, inr, [], false, Option, some, List, returns}
use ros2_rust.Prelude.Bytes.{Bytes}
use ros2_rust.Prelude.BTreeMap
use ros2_rust.Prelude.BTreeMap.{BTreeMap, get-empty}
use ros2_rust.Parameter.Float.{Float}
use ros2_rust.Parameter.Utf8.{Utf8}
use ros2_rust.Parameter.Value.{ParameterValue, ParameterVariant, ParameterKind}
use ros2_rust.Parameter.Value.Laws.{IsLawful}
use ros2_rust.Parameter.Range.{validate}
use ros2_rust.Parameter.Storage.{ParameterMap, ParameterStorage, DeclaredStorage, declared, read}
use ros2_rust.Parameter.Storage.Invariant.{IsWellFormed, FitsOption, remove-IsWellFormed}
use ros2_rust.Parameter.Declare.{
  ParameterBuilder, ParameterInterface, MandatoryParameter, OptionalParameter, ReadOnlyParameter,
  declare_mandatory, declare_optional, declare_read_only,
}
use ros2_rust.Parameter.Declare.Invariant.{
  declare_mandatory-IsWellFormed, declare_optional-IsWellFormed, declare_read_only-IsWellFormed,
}
use ros2_rust.Parameter.Handles.{
  set_mandatory, set_optional, unset_optional, drop_mandatory, drop_optional, drop_read_only, set,
  allow_undeclared,
}
use ros2_rust.Parameter.Handles.Invariant.{
  IsLive, IsLiveOptional, set_mandatory-IsWellFormed, set_optional-IsWellFormed,
  unset_optional-IsWellFormed, set-IsWellFormed,
}
use ros2_rust.Parameter.Service.{
  RmwParameter, SetParametersResult, set_parameters, set_parameters_atomically,
}
use ros2_rust.Parameter.Service.Updates.{set_parameters-IsWellFormed}
use ros2_rust.Parameter.Service.Atomic.{atomic-eq-set_parameters, all_succeed}

-- `ParameterMap::default()`
unfoldable pub default_map : {F : Type 0} → ParameterMap F
default_map = record {
  storage = BTreeMap.empty;
  allow_undeclared = false;
  cells = record { mandatory = []; optional = [] };
}

module _ {F : Type 0} ⦃fl : Float F⦄ ⦃u : Utf8⦄ where
  -- One call. A handle is used while it is live: its drop, which takes it, clears the entry. A declaration
  -- has chosen its initial value earlier, on any map, and stores it now.
  pub data Step (m m' : ParameterMap F) : Type 1 where
    declares_mandatory :
        {T : Type 0} (v : ParameterVariant F T)
        → IsLawful v
        → (i : ParameterInterface F) (b : ParameterBuilder F T) (p : MandatoryParameter F)
        → declare_mandatory ⦃v = v⦄ i b m ≡ returns (p, m')
        → Step m m'
    declares_optional :
        {T : Type 0} (v : ParameterVariant F T)
        → IsLawful v
        → (i : ParameterInterface F) (b : ParameterBuilder F T) (p : OptionalParameter F)
        → declare_optional ⦃v = v⦄ i b m ≡ returns (p, m')
        → Step m m'
    declares_read_only :
        {T : Type 0} (v : ParameterVariant F T)
        → IsLawful v
        → (i : ParameterInterface F) (b : ParameterBuilder F T) (p : ReadOnlyParameter F)
        → declare_read_only ⦃v = v⦄ i b m ≡ returns (p, m')
        → Step m m'
    sets_mandatory :
        {T : Type 0} (v : ParameterVariant F T)
        → IsLawful v
        → (p : MandatoryParameter F) (x : T) → IsLive v.kind p m
        → set_mandatory ⦃v = v⦄ p x m ≡ returns m'
        → Step m m'
    sets_optional :
        {T : Type 0} (v : ParameterVariant F T)
        → IsLawful v
        → (p : OptionalParameter F) (x : T) → IsLiveOptional v.kind p m
        → set_optional ⦃v = v⦄ p x m ≡ returns m'
        → Step m m'
    unsets :
        (k : ParameterKind) (p : OptionalParameter F)
        → IsLiveOptional k p m
        → m' ≡ unset_optional p m
        → Step m m'
    drops_mandatory : (p : MandatoryParameter F) → m' ≡ drop_mandatory p m → Step m m'
    drops_optional : (p : OptionalParameter F) → m' ≡ drop_optional p m → Step m m'
    drops_read_only : (p : ReadOnlyParameter F) → m' ≡ drop_read_only p m → Step m m'
    sets_by_name :
        {T : Type 0} (v : ParameterVariant F T)
        → IsLawful v
        → (name : Bytes) (x : T) → set ⦃v = v⦄ name x m ≡ returns m'
        → Step m m'
    allows : m' ≡ allow_undeclared m → Step m m'
    serves :
        (params : List (RmwParameter F)) (rs : List SetParametersResult)
        → set_parameters params m ≡ returns (rs, m')
        → Step m m'
    serves_atomically :
        (params : List (RmwParameter F)) (r : SetParametersResult)
        → set_parameters_atomically params m ≡ returns (r, m')
        → Step m m'

  pub data Reach : ParameterMap F → Type 1 where
    start : (m : ParameterMap F) → m ≡ default_map → Reach m
    next : {m m' : ParameterMap F} → Reach m → Step m m' → Reach m'

  atomic-IsWellFormed :
      (params : List (RmwParameter F)) (m : ParameterMap F) (r : SetParametersResult)
      (m' : ParameterMap F)
      → IsWellFormed m
      → set_parameters_atomically params m ≡ returns (r, m')
      → IsWellFormed m'
  atomic-IsWellFormed params m r m' w h = elim (atomic-eq-set_parameters params m r m' h) [
    | inl same ↦ subst IsWellFormed (sym same.1) w
    | inr done ↦ (set_parameters-IsWellFormed params m (all_succeed params) m' w done.1).0
  ]

  allow_undeclared-IsWellFormed :
      (m : ParameterMap F) → IsWellFormed m → IsWellFormed (allow_undeclared m)
  unfolding allow_undeclared
  allow_undeclared-IsWellFormed m w = record { sound = w.sound; apart = w.apart }

  default_map-IsWellFormed : IsWellFormed (default_map {F = F})
  unfolding default_map
  default_map-IsWellFormed = record {
    sound = λ n d h. cc (get-empty {V = ParameterStorage F} n);
    apart = λ n k d e h g s. cc (h, get-empty {V = ParameterStorage F} n);
  }

  drop-IsWellFormed :
      (name : Bytes) (m m' : ParameterMap F)
      → IsWellFormed m
      → m' ≡ record m { storage = BTreeMap.remove name m.storage }
      → IsWellFormed m'
  drop-IsWellFormed name m m' w h = subst IsWellFormed (sym h) (remove-IsWellFormed m name w)

  Step-IsWellFormed : {m m' : ParameterMap F} → Step m m' → IsWellFormed m → IsWellFormed m'
  unfolding drop_mandatory drop_optional drop_read_only
  Step-IsWellFormed {m} {m'} (declares_mandatory v l i b p h) w =
      (declare_mandatory-IsWellFormed ⦃v = v⦄ l i b m p m' w h).0
  Step-IsWellFormed {m} {m'} (declares_optional v l i b p h) w =
      declare_optional-IsWellFormed ⦃v = v⦄ l i b m p m' w h
  Step-IsWellFormed {m} {m'} (declares_read_only v l i b p h) w =
      declare_read_only-IsWellFormed ⦃v = v⦄ l i b m p m' w h
  Step-IsWellFormed {m} {m'} (sets_mandatory v l p x live h) w =
      set_mandatory-IsWellFormed ⦃v = v⦄ l p x m m' w live h
  Step-IsWellFormed {m} {m'} (sets_optional v l p x live h) w =
      set_optional-IsWellFormed ⦃v = v⦄ l p x m m' w live h
  Step-IsWellFormed {m} {m'} (unsets k p live h) w =
      subst IsWellFormed (sym h) (unset_optional-IsWellFormed k p m w live)
  Step-IsWellFormed {m} {m'} (drops_mandatory p h) w = drop-IsWellFormed p.name m m' w h
  Step-IsWellFormed {m} {m'} (drops_optional p h) w = drop-IsWellFormed p.name m m' w h
  Step-IsWellFormed {m} {m'} (drops_read_only p h) w = drop-IsWellFormed p.name m m' w h
  Step-IsWellFormed {m} {m'} (sets_by_name v l name x h) w =
      set-IsWellFormed ⦃v = v⦄ l name x m m' w h
  Step-IsWellFormed {m} {m'} (allows h) w =
      subst IsWellFormed (sym h) (allow_undeclared-IsWellFormed m w)
  Step-IsWellFormed {m} {m'} (serves params rs h) w =
      (set_parameters-IsWellFormed params m rs m' w h).0
  Step-IsWellFormed {m} {m'} (serves_atomically params r h) w =
      atomic-IsWellFormed params m r m' w h

  -- Every map that the calls reach from the empty one is well-formed, where a handle is written to
  -- only while it is live, and the types of the values convert lawfully.
  pub Reach-IsWellFormed : {m : ParameterMap F} → Reach m → IsWellFormed m
  Reach-IsWellFormed (start m e) = subst IsWellFormed (sym e) default_map-IsWellFormed
  Reach-IsWellFormed (next r s) = Step-IsWellFormed s (Reach-IsWellFormed r)

  -- In every map that the calls reach from the empty one, where a handle is written to only while it
  -- is live and the types of the values convert lawfully, also where other calls come between the choice
  -- of a declaration's initial value and its storing, each declared parameter can be read without a panic, and the value that it has, if any, is of the declared kind and in the declared
  -- ranges, which are valid.
  pub reachable_value :
      {m : ParameterMap F}
      → Reach m
      → (name : Bytes) (d : DeclaredStorage F) → BTreeMap.get name m.storage ≡ some (declared d)
      → (o : Option (ParameterValue F)) × (read m.cells d.value ≡ returns o)
        × FitsOption d o
        × (validate d.options.ranges ≡ returns tt)
  reachable_value {m} r name d g =
      let s = (Reach-IsWellFormed r).sound name d g in (s.current, s.reads, s.fits, s.valid)
