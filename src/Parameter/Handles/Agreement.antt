-- ===== src/Parameter/Handles/Agreement.antt =====
-- The handle of a parameter and the lookup by its name see the same value.
use ros2_rust.Prelude.{ℕ, ◌≡◌, sym, ap, ◌∙◌, subst, Option, none, some, returns, arith, ok}
use ros2_rust.Prelude.Bytes.{Bytes}
use ros2_rust.Prelude.BTreeMap
use ros2_rust.Parameter.Float.{Float}
use ros2_rust.Parameter.Value.{ParameterValue, ParameterVariant}
use ros2_rust.Parameter.Value.Laws.{Allows, IsLawful}
use ros2_rust.Parameter.Storage.{
  mandatory, DeclaredStorage, declared, ParameterMap, write_mandatory, read,
}
use ros2_rust.Parameter.Storage.Invariant.{
  IsWellFormed, IsSound, Fits, FitsOption, read-write_mandatory_self,
}
use ros2_rust.Parameter.Declare.{MandatoryParameter}
use ros2_rust.Parameter.Handles.{set_mandatory, get_mandatory, get, get_entry}
use ros2_rust.Parameter.Handles.Invariant.{IsLive, set_mandatory-inv}

module _ {F : Type 0} where
  never_none : (m : ParameterMap F) (c : ℕ) → ¬ (read m.cells (mandatory c) ≡ returns none)
  unfolding read
  never_none m c h = ground arith

module _ {F T : Type 0} ⦃v : ParameterVariant F T⦄ where
  read_handle :
      (p : MandatoryParameter F) (x : T) (m : ParameterMap F) (w : ParameterValue F)
      → v.try_from w ≡ ok x
      → read m.cells (mandatory p.value) ≡ returns (some w)
      → get_mandatory p m ≡ returns x
  unfolding read get_mandatory
  read_handle p x m w e h = ground arith

  read_entry :
      (d : DeclaredStorage F) (x : T) (m : ParameterMap F) (w : ParameterValue F)
      → v.try_from w ≡ ok x
      → read m.cells d.value ≡ returns (some w)
      → get_entry (some (declared d)) m ≡ returns (some x)
  read_entry d x m w e h = rw (h, e)

  read_name :
      (name : Bytes) (d : DeclaredStorage F) (x : T) (m : ParameterMap F) (w : ParameterValue F)
      → BTreeMap.get name m.storage ≡ some (declared d)
      → v.try_from w ≡ ok x
      → read m.cells d.value ≡ returns (some w)
      → get name m ≡ returns (some x)
  unfolding get
  read_name name d x m w g e h = ap (λ o. get_entry {T = T} o m) g ∙ read_entry d x m w e h

module _ {F T : Type 0} ⦃fl : Float F⦄ ⦃v : ParameterVariant F T⦄ (lawful : IsLawful v) where
  both_read :
      (p : MandatoryParameter F) (x : T) (m : ParameterMap F) (w : ParameterValue F)
      → IsLive v.kind p m
      → v.try_from w ≡ ok x
      → read m.cells (mandatory p.value) ≡ returns (some w)
      → (get_mandatory p m ≡ returns x) × (get p.name m ≡ returns (some x))
  both_read p x m w l e h = (
    read_handle p x m w e h,
    read_name p.name l.entry x m w l.stored e (ap (read m.cells) l.shares ∙ h),
  )

  -- For a type whose values convert lawfully: after a successful write through the handle of a declared mandatory parameter, in a well-formed
  -- map, the handle reads the value that was written, and so does `Parameters::get` by its name.
  pub get-set_mandatory :
      (p : MandatoryParameter F) (x : T) (m m' : ParameterMap F)
      → IsWellFormed m
      → IsLive v.kind p m
      → set_mandatory p x m ≡ returns m'
      → (get_mandatory p m' ≡ returns x) × (get p.name m' ≡ returns (some x))
  get-set_mandatory p x m m' w l h =
      let inv = set_mandatory-inv lawful p x m m' h in
      let s = w.sound p.name l.entry l.stored in
      let cells' = write_mandatory p.value (v.into x) m.cells in
      subst (λ k. (get_mandatory p k ≡ returns x) × (get p.name k ≡ returns (some x))) inv.1
        (both_read p x (record m { cells = cells' }) (v.into x)
          (record {
            entry = l.entry;
            stored = l.stored;
            shares = l.shares;
            kind = l.kind;
            ranges = l.ranges;
          })
          (lawful.round_trip x)
          (read-write_mandatory_self m.cells p.value (v.into x)
            (ap (read m.cells) (sym l.shares) ∙ s.reads)))

  -- a mandatory parameter always has a value
  mandatory_value :
      (m : ParameterMap F) (d : DeclaredStorage F) (c : ℕ)
      → d.value ≡ mandatory c
      → IsSound m.cells d
      → (w : ParameterValue F) × (read m.cells (mandatory c) ≡ returns (some w)) × Fits d w
  mandatory_value m d c e s = go s.current (ap (read m.cells) (sym e) ∙ s.reads) s.fits
    where
      go :
          (o : Option (ParameterValue F))
          → read m.cells (mandatory c) ≡ returns o
          → FitsOption d o
          → (w : ParameterValue F) × (read m.cells (mandatory c) ≡ returns (some w)) × Fits d w
      go (some w) h fits = (w, h, fits)
      go none h fits = absurd (never_none m c h)

  -- For a type whose values convert lawfully: in a well-formed map the handle of a declared mandatory parameter can be read without a panic,
  -- and `Parameters::get` by its name returns the same value.
  pub get_mandatory-eq-get :
      (p : MandatoryParameter F) (m : ParameterMap F)
      → IsWellFormed m
      → IsLive v.kind p m
      → (x : T) × (get_mandatory p m ≡ returns x) × (get p.name m ≡ returns (some x))
  get_mandatory-eq-get p m w l =
      let (value, reads, fits) =
        mandatory_value m l.entry p.value l.shares (w.sound p.name l.entry l.stored) in
      let (x, e) = lawful.accepts value (subst (λ k. Allows k value) l.kind fits.0) in
      let (a, b) = both_read p x m value l e reads in (x, a, b)
