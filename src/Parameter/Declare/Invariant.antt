-- ===== src/Parameter/Declare/Invariant.antt =====
-- Each kind of declaration keeps the invariant of the storage, and returns a handle that owns the
-- entry it made.
use ros2_rust.Prelude.{
  ◌≡◌, refl, sym, ap, ◌∙◌, subst, Option, none, some, [], ◌∷◌, ◌++◌, returns, returns-eq,
  >>=-eq-returns, length, ◌>>=◌,
}
use ros2_rust.Prelude.BTreeMap.{get-insert_self}
use ros2_rust.Parameter.Float.{Float}
use ros2_rust.Parameter.Value.{ParameterVariant}
use ros2_rust.Parameter.Value.Laws.{IsLawful, into-Allows}
use ros2_rust.Parameter.Storage.{
  DeclaredValue, mandatory, optional, read_only, DeclaredStorage, declared, ParameterMap, Cells,
  read,
}
use ros2_rust.Parameter.Storage.Invariant.{IsWellFormed, IsSound, FitsOption}
use ros2_rust.Parameter.Storage.Growth.{
  grown, grown-IsWellFormed, Fresh-mandatory, Fresh-optional, Fresh-read_only, read_last_mandatory,
  read_last_optional,
}
use ros2_rust.Parameter.Declare.{
  ParameterBuilder, ParameterInterface, MandatoryParameter, OptionalParameter, ReadOnlyParameter,
  get_declaration_initial_value, declare_mandatory, declare_optional, declare_read_only,
  into_option, available_value,
}
use ros2_rust.Parameter.Declare.Selection.{selection-In, selection-valid}
use ros2_rust.Parameter.Handles.Invariant.{IsLive}

available-inv : {T : Type 0} (o : Option T) (x : T) → available_value o ≡ returns x → o ≡ some x
available-inv none x h = cc
available-inv (some y) x h = cc

module _ {F T : Type 0} ⦃fl : Float F⦄ ⦃v : ParameterVariant F T⦄ (lawful : IsLawful v) where
  -- the entry that a declaration makes
  abbrev made : ParameterBuilder F T → DeclaredValue F → DeclaredStorage F
  made b value = record { value = value; kind = v.kind; options = b.options }

  selected-Fits :
      (i : ParameterInterface F) (b : ParameterBuilder F T) (o : Option T) (value : DeclaredValue F)
      → get_declaration_initial_value i b ≡ returns o
      → FitsOption (made b value) (into_option o)
  selected-Fits i b none value h = tt
  selected-Fits i b (some x) value h =
      (into-Allows v lawful x, selection-In i b (some x) (some x) h refl)

  made-IsSound :
      (i : ParameterInterface F) (b : ParameterBuilder F T) (o : Option T) (value : DeclaredValue F)
      (cells' : Cells F)
      → get_declaration_initial_value i b ≡ returns o
      → read cells' value ≡ returns (into_option o)
      → IsSound cells' (made b value)
  made-IsSound i b o value cells' h r = record {
    current = into_option o;
    reads = r;
    fits = selected-Fits i b o value h;
    valid = selection-valid i b o h;
  }

  abbrev mandatory_cells : ParameterMap F → T → Cells F
  mandatory_cells m x = record m.cells { mandatory = m.cells.mandatory ++ v.into x ∷ [] }

  abbrev mandatory_result :
      ParameterBuilder F T → ParameterMap F → T → MandatoryParameter F × ParameterMap F
  mandatory_result b m x = (
    record { name = b.name; value = length m.cells.mandatory; ranges = b.options.ranges },
    grown m (mandatory_cells m x) b.name (made b (mandatory (length m.cells.mandatory))),
  )

  mandatory-inv :
      (i : ParameterInterface F) (b : ParameterBuilder F T) (m : ParameterMap F)
      (r : MandatoryParameter F × ParameterMap F)
      → declare_mandatory i b m ≡ returns r
      → (x : T) × (get_declaration_initial_value i b ≡ returns (some x))
        × (mandatory_result b m x ≡ r)
  unfolding declare_mandatory
  mandatory-inv i b m r h =
      let (o, a, rest) =
        >>=-eq-returns (get_declaration_initial_value i b)
          (λ o. available_value o >>= λ x. returns (mandatory_result b m x)) h in
      let (x, e, done) =
        >>=-eq-returns (available_value o) (λ x. returns (mandatory_result b m x)) rest in
      (x, a ∙ ap returns (available-inv o x e), returns-eq done)

  mandatory_result-IsWellFormed :
      (i : ParameterInterface F) (b : ParameterBuilder F T) (m : ParameterMap F) (x : T)
      → IsWellFormed m
      → get_declaration_initial_value i b ≡ returns (some x)
      → IsWellFormed (mandatory_result b m x).1
  mandatory_result-IsWellFormed i b m x w h =
      grown-IsWellFormed m (mandatory_cells m x) b.name
        (made b (mandatory (length m.cells.mandatory))) w (Fresh-mandatory m.cells (v.into x))
        (made-IsSound i b (some x) (mandatory (length m.cells.mandatory)) (mandatory_cells m x) h
          (read_last_mandatory m.cells (v.into x)))

  abbrev optional_cells : ParameterMap F → Option T → Cells F
  optional_cells m x = record m.cells { optional = m.cells.optional ++ into_option x ∷ [] }

  abbrev optional_result :
      ParameterBuilder F T → ParameterMap F → Option T → OptionalParameter F × ParameterMap F
  optional_result b m x = (
    record { name = b.name; value = length m.cells.optional; ranges = b.options.ranges },
    grown m (optional_cells m x) b.name (made b (optional (length m.cells.optional))),
  )

  optional-inv :
      (i : ParameterInterface F) (b : ParameterBuilder F T) (m : ParameterMap F)
      (r : OptionalParameter F × ParameterMap F)
      → declare_optional i b m ≡ returns r
      → (x : Option T) × (get_declaration_initial_value i b ≡ returns x)
        × (optional_result b m x ≡ r)
  unfolding declare_optional
  optional-inv i b m r h =
      let (o, a, done) =
        >>=-eq-returns (get_declaration_initial_value i b) (λ o. returns (optional_result b m o))
          h in
      (o, a, returns-eq done)

  optional_result-IsWellFormed :
      (i : ParameterInterface F) (b : ParameterBuilder F T) (m : ParameterMap F) (x : Option T)
      → IsWellFormed m
      → get_declaration_initial_value i b ≡ returns (x)
      → IsWellFormed (optional_result b m x).1
  optional_result-IsWellFormed i b m x w h =
      grown-IsWellFormed m (optional_cells m x) b.name (made b (optional (length m.cells.optional)))
        w (Fresh-optional m.cells (into_option x))
        (made-IsSound i b (x) (optional (length m.cells.optional)) (optional_cells m x) h
          (read_last_optional m.cells (into_option x)))

  abbrev read_only_cells : ParameterMap F → T → Cells F
  read_only_cells m x = m.cells

  abbrev read_only_result :
      ParameterBuilder F T → ParameterMap F → T → ReadOnlyParameter F × ParameterMap F
  read_only_result b m x = (
    record { name = b.name; value = v.into x },
    grown m (read_only_cells m x) b.name (made b (read_only (v.into x))),
  )

  read_only-inv :
      (i : ParameterInterface F) (b : ParameterBuilder F T) (m : ParameterMap F)
      (r : ReadOnlyParameter F × ParameterMap F)
      → declare_read_only i b m ≡ returns r
      → (x : T) × (get_declaration_initial_value i b ≡ returns (some x))
        × (read_only_result b m x ≡ r)
  unfolding declare_read_only
  read_only-inv i b m r h =
      let (o, a, rest) =
        >>=-eq-returns (get_declaration_initial_value i b)
          (λ o. available_value o >>= λ x. returns (read_only_result b m x)) h in
      let (x, e, done) =
        >>=-eq-returns (available_value o) (λ x. returns (read_only_result b m x)) rest in
      (x, a ∙ ap returns (available-inv o x e), returns-eq done)

  read_only_result-IsWellFormed :
      (i : ParameterInterface F) (b : ParameterBuilder F T) (m : ParameterMap F) (x : T)
      → IsWellFormed m
      → get_declaration_initial_value i b ≡ returns (some x)
      → IsWellFormed (read_only_result b m x).1
  read_only_result-IsWellFormed i b m x w h =
      grown-IsWellFormed m (read_only_cells m x) b.name (made b (read_only (v.into x))) w
        (Fresh-read_only m.cells (v.into x))
        (made-IsSound i b (some x) (read_only (v.into x)) (read_only_cells m x) h
          (unfold read in refl))

  mandatory_result-IsLive :
      (b : ParameterBuilder F T) (m : ParameterMap F) (x : T)
      → let (p, m') = mandatory_result b m x in IsLive v.kind p m'
  mandatory_result-IsLive b m x = record {
    entry = made b (mandatory (length m.cells.mandatory));
    stored =
        get-insert_self b.name (declared (made b (mandatory (length m.cells.mandatory)))) m.storage;
    shares = refl;
    kind = refl;
    ranges = refl;
  }

  -- For a type whose values convert lawfully: a successful declaration of a mandatory parameter in a well-formed map keeps it well-formed,
  -- and its handle, which has the name of the builder, owns the new entry.
  pub declare_mandatory-IsWellFormed :
      (i : ParameterInterface F) (b : ParameterBuilder F T) (m : ParameterMap F)
      (p : MandatoryParameter F) (m' : ParameterMap F)
      → IsWellFormed m
      → declare_mandatory i b m ≡ returns (p, m')
      → IsWellFormed m' × IsLive v.kind p m' × (p.name ≡ b.name)
  declare_mandatory-IsWellFormed i b m p m' w h =
      let (x, a, e) = mandatory-inv i b m (p, m') h in
      (
        subst (λ r. IsWellFormed r.1) e (mandatory_result-IsWellFormed i b m x w a),
        subst (λ r. IsLive v.kind r.0 r.1) e (mandatory_result-IsLive b m x),
        sym (ap (λ r. r.0.name) e),
      )

  -- A successful declaration of an optional parameter keeps the map well-formed.
  pub declare_optional-IsWellFormed :
      (i : ParameterInterface F) (b : ParameterBuilder F T) (m : ParameterMap F)
      (p : OptionalParameter F) (m' : ParameterMap F)
      → IsWellFormed m
      → declare_optional i b m ≡ returns (p, m')
      → IsWellFormed m'
  declare_optional-IsWellFormed i b m p m' w h =
      let (x, a, e) = optional-inv i b m (p, m') h in
      subst (λ r. IsWellFormed r.1) e (optional_result-IsWellFormed i b m x w a)

  -- A successful declaration of a read-only parameter keeps the map well-formed.
  pub declare_read_only-IsWellFormed :
      (i : ParameterInterface F) (b : ParameterBuilder F T) (m : ParameterMap F)
      (p : ReadOnlyParameter F) (m' : ParameterMap F)
      → IsWellFormed m
      → declare_read_only i b m ≡ returns (p, m')
      → IsWellFormed m'
  declare_read_only-IsWellFormed i b m p m' w h =
      let (x, a, e) = read_only-inv i b m (p, m') h in
      subst (λ r. IsWellFormed r.1) e (read_only_result-IsWellFormed i b m x w a)
