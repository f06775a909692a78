-- ===== src/Parameter/Storage/Invariant.antt =====
-- The invariant of the storage: what a declared parameter holds has the declared kind and lies in
-- the declared range, and no two parameters share a lock.
use native.Mathlib.Decide.{ℕ_discrete}
use ros2_rust.Prelude.{
  ℕ, ◌<◌, ◌≡◌, inl, inr, refl, sym, ap, ◌∙◌, subst, true, Option, none, some, returns, get_elem?,
  length, Option-cases, get_elem?-set_self, get_elem?-set_ne, lt_of_get_elem?, arith,
}
use ros2_rust.Prelude.Bytes.{Bytes}
use ros2_rust.Prelude.BTreeMap
use ros2_rust.Prelude.BTreeMap.{BTreeMap, insert-cases, remove-cases}
use ros2_rust.Parameter.Float.{Float}
use ros2_rust.Parameter.Value.{ParameterValue}
use ros2_rust.Parameter.Value.Laws.{Allows}
use ros2_rust.Parameter.Range.{in_range, validate}
use ros2_rust.Parameter.Storage.{
  DeclaredValue, mandatory, optional, read_only, DeclaredStorage, declared, undeclared, Cells,
  ParameterMap, read, write_mandatory, write_optional, put_undeclared,
}

-- Both values are in the same lock.
abbrev pub SameCell : {F : Type 0} → DeclaredValue F → DeclaredValue F → Type 0
SameCell (mandatory a) (mandatory b) = a ≡ b
SameCell (optional a) (optional b) = a ≡ b
SameCell _ _ = ⊥

module _ {F : Type 0} ⦃fl : Float F⦄ where
  -- The declaration may hold this value.
  abbrev pub Fits : DeclaredStorage F → ParameterValue F → Type 0
  Fits d v = Allows d.kind v × (in_range d.options.ranges v ≡ returns true)

  abbrev pub FitsOption : DeclaredStorage F → Option (ParameterValue F) → Type 0
  FitsOption d none = Unit
  FitsOption d (some v) = Fits d v

  -- The declaration's ranges were validated, and its value can be read and fits.
  pub record IsSound (cells : Cells F) (d : DeclaredStorage F) : Type 0 where
    pub current : Option (ParameterValue F)
    pub reads : read cells d.value ≡ returns current
    pub fits : FitsOption d current
    pub valid : validate d.options.ranges ≡ returns tt

  pub record IsWellFormed (m : ParameterMap F) : Type 0 where
    pub sound :
        (n : Bytes) (d : DeclaredStorage F)
        → BTreeMap.get n m.storage ≡ some (declared d)
        → IsSound m.cells d
    pub apart :
        (n k : Bytes) (d e : DeclaredStorage F)
        → BTreeMap.get n m.storage ≡ some (declared d)
        → BTreeMap.get k m.storage ≡ some (declared e)
        → SameCell d.value e.value
        → n ≡ k

  same_entry :
      (n k : Bytes) (m : ParameterMap F) {d e : DeclaredStorage F}
      → n ≡ k
      → BTreeMap.get n m.storage ≡ some (declared d)
      → BTreeMap.get k m.storage ≡ some (declared e)
      → d ≡ e
  same_entry n k m p h g = cc (ap (λ j. BTreeMap.get j m.storage) p)

  -- A lock that a write does not name reads as before.
  pub read-write_mandatory_ne :
      (cells : Cells F) (c : ℕ) (v : ParameterValue F) (x : DeclaredValue F)
      → ¬ SameCell (mandatory c) x
      → read (write_mandatory c v cells) x ≡ read cells x
  unfolding read
  read-write_mandatory_ne cells c v (mandatory a) h = rw (get_elem?-set_ne cells.mandatory c a v h)
  read-write_mandatory_ne cells c v (optional a) h = refl
  read-write_mandatory_ne cells c v (read_only a) h = refl

  pub read-write_optional_ne :
      (cells : Cells F) (c : ℕ) (v : Option (ParameterValue F)) (x : DeclaredValue F)
      → ¬ SameCell (optional c) x
      → read (write_optional c v cells) x ≡ read cells x
  unfolding read
  read-write_optional_ne cells c v (mandatory a) h = refl
  read-write_optional_ne cells c v (optional a) h = rw (get_elem?-set_ne cells.optional c a v h)
  read-write_optional_ne cells c v (read_only a) h = refl

  pub mandatory_lt :
      (cells : Cells F) (c : ℕ) {o : Option (ParameterValue F)}
      → read cells (mandatory c) ≡ returns o
      → c < length cells.mandatory
  unfolding read
  mandatory_lt cells c h = elim (Option-cases (get_elem? cells.mandatory c)) [
    | inl e ↦ ground arith
    | inr (v, e) ↦ lt_of_get_elem? cells.mandatory c e
  ]

  pub optional_lt :
      (cells : Cells F) (c : ℕ) {o : Option (ParameterValue F)}
      → read cells (optional c) ≡ returns o
      → c < length cells.optional
  unfolding read
  optional_lt cells c h = elim (Option-cases (get_elem? cells.optional c)) [
    | inl e ↦ ground arith
    | inr (v, e) ↦ lt_of_get_elem? cells.optional c e
  ]

  pub read-write_mandatory_self :
      (cells : Cells F) (c : ℕ) (v : ParameterValue F) {o : Option (ParameterValue F)}
      → read cells (mandatory c) ≡ returns o
      → read (write_mandatory c v cells) (mandatory c) ≡ returns (some v)
  read-write_mandatory_self cells c v h =
      let lt = mandatory_lt cells c h in
      unfold read in rw (get_elem?-set_self cells.mandatory c v lt)

  pub read-write_optional_self :
      (cells : Cells F) (c : ℕ) (v : Option (ParameterValue F)) {o : Option (ParameterValue F)}
      → read cells (optional c) ≡ returns o
      → read (write_optional c v cells) (optional c) ≡ returns v
  read-write_optional_self cells c v h =
      let lt = optional_lt cells c h in unfold read in rw (get_elem?-set_self cells.optional c v lt)

  same_cell : (x y : DeclaredValue F) → Dec (SameCell x y)
  same_cell (mandatory a) (mandatory b) = ℕ_discrete a b
  same_cell (mandatory a) (optional b) = no (λ h. h)
  same_cell (mandatory a) (read_only b) = no (λ h. h)
  same_cell (optional a) (mandatory b) = no (λ h. h)
  same_cell (optional a) (optional b) = ℕ_discrete a b
  same_cell (optional a) (read_only b) = no (λ h. h)
  same_cell (read_only a) y = no (λ h. h)

  -- What has the same value at its lock stays sound.
  unchanged-IsSound :
      (cells cells' : Cells F) (d : DeclaredStorage F)
      → read cells' d.value ≡ read cells d.value
      → IsSound cells d
      → IsSound cells' d
  unchanged-IsSound cells cells' d h s = record {
    current = s.current;
    reads = h ∙ s.reads;
    fits = s.fits;
    valid = s.valid;
  }

  -- A change of the locks that touches only the lock of one parameter, and leaves that parameter
  -- sound, keeps the invariant.
  touch-IsWellFormed :
      (m : ParameterMap F) (cells' : Cells F) (n : Bytes) (d : DeclaredStorage F)
      → IsWellFormed m
      → BTreeMap.get n m.storage ≡ some (declared d)
      → ((x : DeclaredValue F) → ¬ SameCell d.value x → read cells' x ≡ read m.cells x)
      → IsSound cells' d
      → IsWellFormed (record m { cells = cells' })
  touch-IsWellFormed m cells' n d w h rest now = record {
    sound = λ k e g. elim (same_cell d.value e.value) [
      | yes s ↦ subst (IsSound cells') (same_entry n k m (w.apart n k d e h g s) h g) now
      | no apart ↦ unchanged-IsSound m.cells cells' e (rest e.value apart) (w.sound k e g)
    ];
    apart = w.apart;
  }

  pub write_mandatory-IsWellFormed :
      (m : ParameterMap F) (n : Bytes) (d : DeclaredStorage F) (c : ℕ) (v : ParameterValue F)
      → IsWellFormed m
      → BTreeMap.get n m.storage ≡ some (declared d)
      → d.value ≡ mandatory c
      → Fits d v
      → IsWellFormed (record m { cells = write_mandatory c v m.cells })
  write_mandatory-IsWellFormed m n d c v w h p fits =
      let s = w.sound n d h in
      touch-IsWellFormed m (write_mandatory c v m.cells) n d w h
        (λ x ne.
          read-write_mandatory_ne m.cells c v x
            (λ same. ne (subst (λ y. SameCell y x) (sym p) same)))
        (record {
          current = some v;
          reads =
              ap (read (write_mandatory c v m.cells)) p
              ∙ read-write_mandatory_self m.cells c v (ap (read m.cells) (sym p) ∙ s.reads);
          fits = fits;
          valid = s.valid;
        })

  pub write_optional-IsWellFormed :
      (m : ParameterMap F) (n : Bytes) (d : DeclaredStorage F) (c : ℕ)
      (v : Option (ParameterValue F))
      → IsWellFormed m
      → BTreeMap.get n m.storage ≡ some (declared d)
      → d.value ≡ optional c
      → FitsOption d v
      → IsWellFormed (record m { cells = write_optional c v m.cells })
  write_optional-IsWellFormed m n d c v w h p fits =
      let s = w.sound n d h in
      touch-IsWellFormed m (write_optional c v m.cells) n d w h
        (λ x ne.
          read-write_optional_ne m.cells c v x
            (λ same. ne (subst (λ y. SameCell y x) (sym p) same)))
        (record {
          current = v;
          reads =
              ap (read (write_optional c v m.cells)) p
              ∙ read-write_optional_self m.cells c v (ap (read m.cells) (sym p) ∙ s.reads);
          fits = fits;
          valid = s.valid;
        })

  -- an undeclared value says nothing of the declared ones
  pub put_undeclared-IsWellFormed :
      (m : ParameterMap F) (n : Bytes) (v : ParameterValue F)
      → IsWellFormed m
      → IsWellFormed (put_undeclared n v m)
  put_undeclared-IsWellFormed m n v w = record {
    sound = λ k e g. w.sound k e (older n k v m g);
    apart = λ k j d e g h. w.apart k j d e (older n k v m g) (older n j v m h);
  }
    where
      older :
          (n k : Bytes) (v : ParameterValue F) (m : ParameterMap F) {e : DeclaredStorage F}
          → BTreeMap.get k (BTreeMap.insert n (undeclared v) m.storage) ≡ some (declared e)
          → BTreeMap.get k m.storage ≡ some (declared e)
      older n k v m g = elim (insert-cases n k (undeclared v) m.storage g) [
        | inl both ↦ cc (both.1)
        | inr old ↦ old.1
      ]

  pub remove-IsWellFormed :
      (m : ParameterMap F) (n : Bytes)
      → IsWellFormed m
      → IsWellFormed (record m { storage = BTreeMap.remove n m.storage })
  remove-IsWellFormed m n w = record {
    sound = λ k e g. w.sound k e (remove-cases n k m.storage g).1;
    apart = λ k j d e g h.
        w.apart k j d e (remove-cases n k m.storage g).1 (remove-cases n j m.storage h).1;
  }
