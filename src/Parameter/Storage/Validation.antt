-- ===== src/Parameter/Storage/Validation.antt =====
-- A setting that passes validation is stored without a panic, changes the parameter of its name to
-- the value and no other, and keeps the invariant.
use ros2_rust.Prelude.{
  ℕ, ◌≡◌, ◌≢◌, refl, sym, ap, ◌∙◌, subst, false, Option, none, some, Outcome, returns, arith,
  Result, ok, err, ◌>>=◌, returns-eq, >>=-eq-returns,
}
use ros2_rust.Prelude.Bytes.{Bytes}
use ros2_rust.Prelude.BTreeMap
use ros2_rust.Prelude.BTreeMap.{get-insert_self, get-insert_ne}
use ros2_rust.Parameter.Float.{Float}
use ros2_rust.Parameter.Utf8.{Utf8}
use ros2_rust.Parameter.Value.{ParameterValue}
use ros2_rust.Parameter.Rmw.{RmwParameterValue, RmwParameterConversionError, from_rmw}
use ros2_rust.Parameter.Storage.{
  DeclaredValue, mandatory, optional, read_only, DeclaredStorage, ParameterStorage, declared,
  undeclared, ParameterMap, Cells, read, read_only_value, write_mandatory, write_optional,
  put_undeclared, store_parameter, store_entry, store_declared, check_declared, check_entry, typed,
  validate_parameter_setting,
}
use ros2_rust.Parameter.Storage.Invariant.{
  IsWellFormed, SameCell, Fits, write_mandatory-IsWellFormed, write_optional-IsWellFormed,
  put_undeclared-IsWellFormed, read-write_mandatory_self, read-write_optional_self,
  read-write_mandatory_ne, read-write_optional_ne,
}

module _ {F : Type 0} where
  abbrev pub entry_value :
      Cells F → Option (ParameterStorage F) → Outcome ⊥ (Option (ParameterValue F))
  entry_value cells none = returns none
  entry_value cells (some (declared d)) = read cells d.value
  entry_value cells (some (undeclared v)) = returns (some v)

  -- The value that the map has for a name, `none` if it has none.
  abbrev pub current_value : ParameterMap F → Bytes → Outcome ⊥ (Option (ParameterValue F))
  current_value m name = entry_value m.cells (BTreeMap.get name m.storage)

module _ {F : Type 0} ⦃fl : Float F⦄ where
  -- What storing `value` under `name` does to the map.
  pub record Stored (name : Bytes) (value : ParameterValue F) (m m' : ParameterMap F) : Type 0 where
    pub well_formed : IsWellFormed m'
    pub set : current_value m' name ≡ returns (some value)
    pub others : (k : Bytes) → name ≢ k → current_value m' k ≡ current_value m k
    pub setting : m'.allow_undeclared ≡ m.allow_undeclared

  check_declared-inv :
      (d : DeclaredStorage F) (value : ParameterValue F)
      → check_declared d value ≡ returns tt
      → Fits d value × (read_only_value d.value ≡ false)
  unfolding check_declared
  check_declared-inv d value h = ((ground arith, ground arith), ground arith)

  put-Stored :
      (name : Bytes) (value : ParameterValue F) (m : ParameterMap F)
      → IsWellFormed m
      → Stored name value m (put_undeclared name value m)
  put-Stored name value m w = record {
    well_formed = put_undeclared-IsWellFormed m name value w;
    set = ap (entry_value m.cells) (get-insert_self name (undeclared value) m.storage);
    others =
        λ k ne. ap (entry_value m.cells) (get-insert_ne name k (undeclared value) m.storage ne);
    setting = refl;
  }

  -- the value of another name is in another lock
  other_value :
      (cells' : Cells F) (name k : Bytes) (d : DeclaredStorage F) (m : ParameterMap F)
      → IsWellFormed m
      → BTreeMap.get name m.storage ≡ some (declared d)
      → ((x : DeclaredValue F) → ¬ SameCell d.value x → read cells' x ≡ read m.cells x)
      → name ≢ k
      → (o : Option (ParameterStorage F)) → BTreeMap.get k m.storage ≡ o
      → entry_value cells' o ≡ entry_value m.cells o
  other_value cells' name k d m w g rest ne none h = refl
  other_value cells' name k d m w g rest ne (some (undeclared v)) h = refl
  other_value cells' name k d m w g rest ne (some (declared e)) h =
      rest e.value (λ same. ne (w.apart name k d e g h same))

  write_mandatory-Stored :
      (name : Bytes) (value : ParameterValue F) (m : ParameterMap F) (d : DeclaredStorage F) (c : ℕ)
      → IsWellFormed m
      → BTreeMap.get name m.storage ≡ some (declared d)
      → d.value ≡ mandatory c
      → Fits d value
      → Stored name value m (record m { cells = write_mandatory c value m.cells })
  write_mandatory-Stored name value m d c w g e fits =
      let cells' = write_mandatory c value m.cells in
      record {
        well_formed = write_mandatory-IsWellFormed m name d c value w g e fits;
        set =
            ap (entry_value cells') g
            ∙ ap (read cells') e
            ∙ read-write_mandatory_self m.cells c value
                (ap (read m.cells) (sym e) ∙ (w.sound name d g).reads);
        others = λ k ne.
            other_value cells' name k d m w g
              (λ x out.
                read-write_mandatory_ne m.cells c value x
                  (λ same. out (subst (λ y. SameCell y x) (sym e) same)))
              ne (BTreeMap.get k m.storage) refl;
        setting = refl;
      }

  write_optional-Stored :
      (name : Bytes) (value : ParameterValue F) (m : ParameterMap F) (d : DeclaredStorage F) (c : ℕ)
      → IsWellFormed m
      → BTreeMap.get name m.storage ≡ some (declared d)
      → d.value ≡ optional c
      → Fits d value
      → Stored name value m (record m { cells = write_optional c (some value) m.cells })
  write_optional-Stored name value m d c w g e fits =
      let cells' = write_optional c (some value) m.cells in
      record {
        well_formed = write_optional-IsWellFormed m name d c (some value) w g e fits;
        set =
            ap (entry_value cells') g
            ∙ ap (read cells') e
            ∙ read-write_optional_self m.cells c (some value)
                (ap (read m.cells) (sym e) ∙ (w.sound name d g).reads);
        others = λ k ne.
            other_value cells' name k d m w g
              (λ x out.
                read-write_optional_ne m.cells c (some value) x
                  (λ same. out (subst (λ y. SameCell y x) (sym e) same)))
              ne (BTreeMap.get k m.storage) refl;
        setting = refl;
      }

  abbrev pub Stores :
      Outcome ⊥ (ParameterMap F) → Bytes → ParameterValue F → ParameterMap F → Type 0
  Stores o name value m = (m' : ParameterMap F) × (o ≡ returns m') × Stored name value m m'

  store_declared-Stores :
      (x : DeclaredValue F) (name : Bytes) (value : ParameterValue F) (m : ParameterMap F)
      (d : DeclaredStorage F)
      → IsWellFormed m
      → BTreeMap.get name m.storage ≡ some (declared d)
      → d.value ≡ x
      → Fits d value
      → read_only_value x ≡ false
      → Stores (store_declared x value m) name value m
  unfolding read_only_value
  store_declared-Stores (mandatory c) name value m d w g e fits writable =
      (_, refl, write_mandatory-Stored name value m d c w g e fits)
  store_declared-Stores (optional c) name value m d w g e fits writable =
      (_, refl, write_optional-Stored name value m d c w g e fits)
  store_declared-Stores (read_only v) name value m d w g e fits writable = cc

  store_entry-Stores :
      (o : Option (ParameterStorage F)) (name : Bytes) (value : ParameterValue F)
      (m : ParameterMap F)
      → IsWellFormed m
      → BTreeMap.get name m.storage ≡ o
      → check_entry o m.allow_undeclared value ≡ returns tt
      → Stores (store_entry o name value m) name value m
  unfolding check_entry
  store_entry-Stores none name value m w g h = (_, refl, put-Stored name value m w)
  store_entry-Stores (some (undeclared v)) name value m w g h = (_, refl, put-Stored name value m w)
  store_entry-Stores (some (declared d)) name value m w g h =
      let inv = check_declared-inv d value h in
      store_declared-Stores d.value name value m d w g refl inv.0 inv.1

  pub checked-Stores :
      (name : Bytes) (value : ParameterValue F) (m : ParameterMap F)
      → IsWellFormed m
      → check_entry (BTreeMap.get name m.storage) m.allow_undeclared value ≡ returns tt
      → Stores (store_parameter name value m) name value m
  unfolding store_parameter
  checked-Stores name value m w h =
      store_entry-Stores (BTreeMap.get name m.storage) name value m w refl h

  typed-inv :
      (r : Result RmwParameterConversionError (ParameterValue F)) {value : ParameterValue F}
      → typed r ≡ returns value
      → r ≡ ok value
  typed-inv (ok v) h = cc
  typed-inv (err e) h = cc

  pub validate-inv :
      ⦃u : Utf8⦄ (m : ParameterMap F) (name : Bytes) (rmw : RmwParameterValue F)
      (value : ParameterValue F)
      → validate_parameter_setting m name rmw ≡ returns value
      → (from_rmw rmw ≡ ok value)
        × (check_entry (BTreeMap.get name m.storage) m.allow_undeclared value ≡ returns tt)
  unfolding validate_parameter_setting
  validate-inv m name rmw value h =
      let checks =
        λ (v : ParameterValue F). check_entry (BTreeMap.get name m.storage) m.allow_undeclared v in
      let (v, a, rest) =
        >>=-eq-returns (typed (from_rmw rmw)) (λ v. checks v >>= λ _. returns v) h in
      let (_, b, same) = >>=-eq-returns (checks v) (λ _. returns v) rest in
      let e = returns-eq same in
      (typed-inv (from_rmw rmw) a ∙ ap ok e, subst (λ k. checks k ≡ returns tt) e b)

  -- In a well-formed map, a setting that passes validation is stored: the `unreachable!` of
  -- `store_parameter` is not reached, the parameter then has the value of the request, every other
  -- name keeps its value, and the map stays well-formed.
  pub validated-Stores :
      ⦃u : Utf8⦄ (m : ParameterMap F) (name : Bytes) (rmw : RmwParameterValue F)
      (value : ParameterValue F)
      → IsWellFormed m
      → validate_parameter_setting m name rmw ≡ returns value
      → (from_rmw rmw ≡ ok value) × Stores (store_parameter name value m) name value m
  validated-Stores m name rmw value w h =
      let inv = validate-inv m name rmw value h in (inv.0, checked-Stores name value m w inv.1)
