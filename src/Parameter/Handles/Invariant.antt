-- ===== src/Parameter/Handles/Invariant.antt =====
-- The handles and `Parameters` keep the invariant of the storage, and a handle's reads do not panic.
use ros2_rust.Prelude.{◌≡◌, refl, sym, subst, true, Option, none, some, returns, arith, returns-eq}
use ros2_rust.Prelude.Bytes.{Bytes}
use ros2_rust.Prelude.BTreeMap
use ros2_rust.Parameter.Float.{Float}
use ros2_rust.Parameter.Value.{ParameterValue, ParameterKind, ParameterVariant, kind_eq}
use ros2_rust.Parameter.Value.Laws.{Allows, IsLawful, into-Allows, kind_eq_sound}
use ros2_rust.Parameter.Range.{in_range}
use ros2_rust.Parameter.Storage.{
  DeclaredValue, mandatory, optional, read_only, DeclaredStorage, ParameterStorage, declared,
  undeclared, ParameterMap, write_mandatory, write_optional,
}
use ros2_rust.Parameter.Storage.Invariant.{
  IsWellFormed, Fits, write_mandatory-IsWellFormed, write_optional-IsWellFormed,
  put_undeclared-IsWellFormed,
}
use ros2_rust.Parameter.Declare.{MandatoryParameter, OptionalParameter}
use ros2_rust.Parameter.Handles.{
  set_mandatory, set_optional, unset_optional, set, set_declared, set_entry, set_value,
}

module _ {F : Type 0} ⦃fl : Float F⦄ where
  set_value-IsWellFormed :
      (value : DeclaredValue F) (name : Bytes) (d : DeclaredStorage F) (p : ParameterValue F)
      (m m' : ParameterMap F)
      → IsWellFormed m
      → BTreeMap.get name m.storage ≡ some (declared d)
      → d.value ≡ value
      → Fits d p
      → set_value value p m ≡ returns m'
      → IsWellFormed m'
  set_value-IsWellFormed (mandatory c) name d p m m' w g e fits h =
      subst IsWellFormed (returns-eq h) (write_mandatory-IsWellFormed m name d c p w g e fits)
  set_value-IsWellFormed (optional c) name d p m m' w g e fits h =
      subst IsWellFormed (returns-eq h) (write_optional-IsWellFormed m name d c (some p) w g e fits)
  set_value-IsWellFormed (read_only q) name d p m m' w g e fits h = cc

module _ {F T : Type 0} ⦃fl : Float F⦄ ⦃v : ParameterVariant F T⦄ (lawful : IsLawful v) where
  set_declared-inv :
      (d : DeclaredStorage F) (x : T) (m m' : ParameterMap F)
      → set_declared d x m ≡ returns m'
      → (kind_eq v.kind d.kind ≡ true)
        × (in_range d.options.ranges (v.into x) ≡ returns true)
        × (set_value d.value (v.into x) m ≡ returns m')
  unfolding set_declared
  set_declared-inv d x m m' h = (ground arith, ground arith, ground arith)

  set_entry-IsWellFormed :
      (o : Option (ParameterStorage F)) (name : Bytes) (x : T) (m m' : ParameterMap F)
      → BTreeMap.get name m.storage ≡ o
      → IsWellFormed m
      → set_entry o name x m ≡ returns m'
      → IsWellFormed m'
  set_entry-IsWellFormed none name x m m' g w h =
      subst IsWellFormed (returns-eq h) (put_undeclared-IsWellFormed m name (v.into x) w)
  set_entry-IsWellFormed (some (undeclared p)) name x m m' g w h =
      subst IsWellFormed (returns-eq h) (put_undeclared-IsWellFormed m name (v.into x) w)
  set_entry-IsWellFormed (some (declared d)) name x m m' g w h =
      let inv = set_declared-inv d x m m' h in
      set_value-IsWellFormed d.value name d (v.into x) m m' w g refl
        (
          subst (λ k. Allows k (v.into x)) (kind_eq_sound v.kind d.kind inv.0)
              (into-Allows v lawful x),
          inv.1,
        )
        inv.2

  -- `Parameters::set` keeps the invariant, for every type of parameter.
  pub set-IsWellFormed :
      (name : Bytes) (x : T) (m m' : ParameterMap F)
      → IsWellFormed m
      → set name x m ≡ returns m'
      → IsWellFormed m'
  unfolding set
  set-IsWellFormed name x m m' w h =
      set_entry-IsWellFormed (BTreeMap.get name m.storage) name x m m' refl w h

-- The handle `p` of a declaration with kind `k` is the owner of an entry of the map: the entry
-- shares its lock and has its ranges. The maps of `Declare` give such handles.
pub record IsLive {F : Type 0} (k : ParameterKind) (p : MandatoryParameter F) (m : ParameterMap F)
    : Type 0 where
  pub entry : DeclaredStorage F
  pub stored : BTreeMap.get p.name m.storage ≡ some (declared entry)
  pub shares : entry.value ≡ mandatory p.value
  pub kind : entry.kind ≡ k
  pub ranges : entry.options.ranges ≡ p.ranges

module _ {F T : Type 0} ⦃fl : Float F⦄ ⦃v : ParameterVariant F T⦄ (lawful : IsLawful v) where
  pub set_mandatory-inv :
      (p : MandatoryParameter F) (x : T) (m m' : ParameterMap F)
      → set_mandatory p x m ≡ returns m'
      → (in_range p.ranges (v.into x) ≡ returns true)
        × (record m { cells = write_mandatory p.value (v.into x) m.cells } ≡ m')
  unfolding set_mandatory
  set_mandatory-inv p x m m' h = (ground arith, ground arith)

  live-Fits :
      (p : MandatoryParameter F) (x : T) (m : ParameterMap F) (l : IsLive v.kind p m)
      → in_range p.ranges (v.into x) ≡ returns true
      → Fits l.entry (v.into x)
  live-Fits p x m l h = (
    subst (λ k. Allows k (v.into x)) (sym l.kind) (into-Allows v lawful x),
    subst (λ r. in_range r (v.into x) ≡ returns true) (sym l.ranges) h,
  )

  -- A write through a live handle keeps the invariant.
  pub set_mandatory-IsWellFormed :
      (p : MandatoryParameter F) (x : T) (m m' : ParameterMap F)
      → IsWellFormed m
      → IsLive v.kind p m
      → set_mandatory p x m ≡ returns m'
      → IsWellFormed m'
  set_mandatory-IsWellFormed p x m m' w l h =
      let inv = set_mandatory-inv p x m m' h in
      subst IsWellFormed inv.1 (
        write_mandatory-IsWellFormed m p.name l.entry p.value (v.into x) w l.stored l.shares
          (live-Fits p x m l inv.0))

-- The same for the handle of an optional parameter.
pub record IsLiveOptional {F : Type 0} (k : ParameterKind) (p : OptionalParameter F)
    (m : ParameterMap F) : Type 0 where
  pub entry : DeclaredStorage F
  pub stored : BTreeMap.get p.name m.storage ≡ some (declared entry)
  pub shares : entry.value ≡ optional p.value
  pub kind : entry.kind ≡ k
  pub ranges : entry.options.ranges ≡ p.ranges

module _ {F T : Type 0} ⦃fl : Float F⦄ ⦃v : ParameterVariant F T⦄ (lawful : IsLawful v) where
  set_optional-inv :
      (p : OptionalParameter F) (x : T) (m m' : ParameterMap F)
      → set_optional p x m ≡ returns m'
      → (in_range p.ranges (v.into x) ≡ returns true)
        × (record m { cells = write_optional p.value (some (v.into x)) m.cells } ≡ m')
  unfolding set_optional
  set_optional-inv p x m m' h = (ground arith, ground arith)

  -- A write through a live optional handle keeps the invariant.
  pub set_optional-IsWellFormed :
      (p : OptionalParameter F) (x : T) (m m' : ParameterMap F)
      → IsWellFormed m
      → IsLiveOptional v.kind p m
      → set_optional p x m ≡ returns m'
      → IsWellFormed m'
  set_optional-IsWellFormed p x m m' w l h =
      let inv = set_optional-inv p x m m' h in
      let fits : Fits l.entry (v.into x) = (
        subst (λ k. Allows k (v.into x)) (sym l.kind) (into-Allows v lawful x),
        subst (λ r. in_range r (v.into x) ≡ returns true) (sym l.ranges) inv.0,
      ) in
      subst IsWellFormed inv.1 (
        write_optional-IsWellFormed m p.name l.entry p.value (some (v.into x)) w l.stored l.shares
          fits)

module _ {F : Type 0} ⦃fl : Float F⦄ where
  -- Unsetting an optional parameter keeps the invariant.
  pub unset_optional-IsWellFormed :
      (k : ParameterKind) (p : OptionalParameter F) (m : ParameterMap F)
      → IsWellFormed m
      → IsLiveOptional k p m
      → IsWellFormed (unset_optional p m)
  unfolding unset_optional
  unset_optional-IsWellFormed k p m w l =
      write_optional-IsWellFormed m p.name l.entry p.value none w l.stored l.shares tt
