-- ===== src/Parameter/Storage/Growth.antt =====
-- A new declaration gets a lock of its own, and keeps the invariant of the storage.
use ros2_rust.Prelude.{
  ◌≡◌, ◌⊎◌, inl, inr, sym, ◌∙◌, subst, Option, some, [], ◌∷◌, ◌++◌, returns, arith, length,
  get_elem?-append_left, get_elem?-append_last,
}
use ros2_rust.Prelude.Bytes.{Bytes}
use ros2_rust.Prelude.BTreeMap
use ros2_rust.Prelude.BTreeMap.{insert-cases}
use ros2_rust.Parameter.Float.{Float}
use ros2_rust.Parameter.Value.{ParameterValue}
use ros2_rust.Parameter.Storage.{
  DeclaredValue, mandatory, optional, read_only, DeclaredStorage, declared, Cells, ParameterMap,
  read,
}
use ros2_rust.Parameter.Storage.Invariant.{
  IsWellFormed, IsSound, SameCell, mandatory_lt, optional_lt,
}

module _ {F : Type 0} ⦃fl : Float F⦄ where
  abbrev Readable : Cells F → DeclaredValue F → Type 0
  Readable cells x = (o : Option (ParameterValue F)) × (read cells x ≡ returns o)

  -- `cells'` has the readable locks of `cells`, and the lock of `y` is not among them.
  pub record Fresh (cells cells' : Cells F) (y : DeclaredValue F) : Type 0 where
    pub keeps :
        (x : DeclaredValue F) (o : Option (ParameterValue F))
        → read cells x ≡ returns o
        → read cells' x ≡ returns o
    pub new :
        (x : DeclaredValue F) (o : Option (ParameterValue F))
        → read cells x ≡ returns o
        → ¬ SameCell y x

  SameCell-sym : (x y : DeclaredValue F) → SameCell x y → SameCell y x
  SameCell-sym (mandatory a) (mandatory b) h = sym h
  SameCell-sym (optional a) (optional b) h = sym h
  SameCell-sym (mandatory a) (optional b) h = h
  SameCell-sym (mandatory a) (read_only b) h = h
  SameCell-sym (optional a) (mandatory b) h = h
  SameCell-sym (optional a) (read_only b) h = h
  SameCell-sym (read_only a) y h = absurd h

  abbrev pub grown : ParameterMap F → Cells F → Bytes → DeclaredStorage F → ParameterMap F
  grown m cells' name d = record m {
    storage = BTreeMap.insert name (declared d) m.storage;
    cells = cells';
  }

  -- an entry of the grown map is the new one or an old one
  abbrev Origin : ParameterMap F → Bytes → DeclaredStorage F → Bytes → DeclaredStorage F → Type 0
  Origin m name d k e = ((name ≡ k) × (d ≡ e)) ⊎ (BTreeMap.get k m.storage ≡ some (declared e))

  origin :
      (m : ParameterMap F) (name : Bytes) (d : DeclaredStorage F) (k : Bytes)
      (e : DeclaredStorage F)
      → BTreeMap.get k (BTreeMap.insert name (declared d) m.storage) ≡ some (declared e)
      → Origin m name d k e
  origin m name d k e g = elim (insert-cases name k (declared d) m.storage g) [
    | inl new ↦ inl (new.0, declared-eq new.1)
    | inr old ↦ inr old.1
  ]
    where
      declared-eq : declared d ≡ declared e → d ≡ e
      declared-eq h = cc

  grown-apart :
      (m : ParameterMap F) (cells' : Cells F) (name : Bytes) (d : DeclaredStorage F) (n k : Bytes)
      (a b : DeclaredStorage F)
      → IsWellFormed m
      → Fresh m.cells cells' d.value
      → Origin m name d n a
      → Origin m name d k b
      → SameCell a.value b.value
      → n ≡ k
  grown-apart m cells' name d n k a b w f (inl p) (inl q) same = sym p.0 ∙ q.0
  grown-apart m cells' name d n k a b w f (inl p) (inr q) same =
      let s = w.sound k b q in
      absurd
        (f.new b.value s.current s.reads (subst (λ e. SameCell e.value b.value) (sym p.1) same))
  grown-apart m cells' name d n k a b w f (inr p) (inl q) same =
      let s = w.sound n a p in
      absurd (
        f.new a.value s.current s.reads
          (subst (λ e. SameCell e.value a.value) (sym q.1) (SameCell-sym a.value b.value same)))
  grown-apart m cells' name d n k a b w f (inr p) (inr q) same = w.apart n k a b p q same

  grown-IsSound :
      (m : ParameterMap F) (cells' : Cells F) (name : Bytes) (d : DeclaredStorage F) (k : Bytes)
      (e : DeclaredStorage F)
      → IsWellFormed m
      → Fresh m.cells cells' d.value
      → IsSound cells' d
      → Origin m name d k e
      → IsSound cells' e
  grown-IsSound m cells' name d k e w f now (inl p) = subst (IsSound cells') p.1 now
  grown-IsSound m cells' name d k e w f now (inr q) =
      let s = w.sound k e q in
      record {
        current = s.current;
        reads = f.keeps e.value s.current s.reads;
        fits = s.fits;
        valid = s.valid;
      }

  pub grown-IsWellFormed :
      (m : ParameterMap F) (cells' : Cells F) (name : Bytes) (d : DeclaredStorage F)
      → IsWellFormed m
      → Fresh m.cells cells' d.value
      → IsSound cells' d
      → IsWellFormed (grown m cells' name d)
  grown-IsWellFormed m cells' name d w f now = record {
    sound = λ k e g. grown-IsSound m cells' name d k e w f now (origin m name d k e g);
    apart = λ n k a b g h same.
        grown-apart m cells' name d n k a b w f (origin m name d n a g) (origin m name d k b h)
          same;
  }

  keeps_mandatory :
      (cells : Cells F) (v : ParameterValue F) (x : DeclaredValue F) (o : Option (ParameterValue F))
      → read cells x ≡ returns o
      → read (record cells { mandatory = cells.mandatory ++ v ∷ [] }) x ≡ returns o
  keeps_mandatory cells v (mandatory c) o h =
      let lt = mandatory_lt cells c h in
      unfold read in rw (get_elem?-append_left cells.mandatory (v ∷ []) c lt) h
  keeps_mandatory cells v (optional c) o h = unfold read in h
  keeps_mandatory cells v (read_only c) o h = unfold read in h

  keeps_optional :
      (cells : Cells F) (v : Option (ParameterValue F)) (x : DeclaredValue F)
      (o : Option (ParameterValue F))
      → read cells x ≡ returns o
      → read (record cells { optional = cells.optional ++ v ∷ [] }) x ≡ returns o
  keeps_optional cells v (optional c) o h =
      let lt = optional_lt cells c h in
      unfold read in rw (get_elem?-append_left cells.optional (v ∷ []) c lt) h
  keeps_optional cells v (mandatory c) o h = unfold read in h
  keeps_optional cells v (read_only c) o h = unfold read in h

  new_mandatory :
      (cells : Cells F) (x : DeclaredValue F) (o : Option (ParameterValue F))
      → read cells x ≡ returns o
      → ¬ SameCell (mandatory (length cells.mandatory)) x
  new_mandatory cells (mandatory c) o h same = omega (arith, mandatory_lt cells c h)
  new_mandatory cells (optional c) o h same = same
  new_mandatory cells (read_only c) o h same = same

  new_optional :
      (cells : Cells F) (x : DeclaredValue F) (o : Option (ParameterValue F))
      → read cells x ≡ returns o
      → ¬ SameCell (optional (length cells.optional)) x
  new_optional cells (optional c) o h same = omega (arith, optional_lt cells c h)
  new_optional cells (mandatory c) o h same = same
  new_optional cells (read_only c) o h same = same

  pub Fresh-mandatory :
      (cells : Cells F) (v : ParameterValue F)
      → Fresh cells
          (record cells { mandatory = cells.mandatory ++ v ∷ [] })
          (mandatory (length cells.mandatory))
  Fresh-mandatory cells v = record { keeps = keeps_mandatory cells v; new = new_mandatory cells }

  pub Fresh-optional :
      (cells : Cells F) (v : Option (ParameterValue F))
      → Fresh cells
          (record cells { optional = cells.optional ++ v ∷ [] })
          (optional (length cells.optional))
  Fresh-optional cells v = record { keeps = keeps_optional cells v; new = new_optional cells }

  pub Fresh-read_only : (cells : Cells F) (v : ParameterValue F) → Fresh cells cells (read_only v)
  Fresh-read_only cells v = record { keeps = λ x o h. h; new = λ x o h same. same }

  pub read_last_mandatory :
      (cells : Cells F) (v : ParameterValue F)
      → read
          (record cells { mandatory = cells.mandatory ++ v ∷ [] })
          (mandatory (length cells.mandatory))
        ≡ returns (some v)
  unfolding read
  read_last_mandatory cells v = rw (get_elem?-append_last cells.mandatory v)

  pub read_last_optional :
      (cells : Cells F) (v : Option (ParameterValue F))
      → read
          (record cells { optional = cells.optional ++ v ∷ [] })
          (optional (length cells.optional))
        ≡ returns v
  unfolding read
  read_last_optional cells v = rw (get_elem?-append_last cells.optional v)
