-- ===== src/Arguments/Extraction.antt =====
-- What is extracted from a program's arguments (rclrs/src/arguments.rs).
use ros2_rust.Prelude.{
  ℕ, zero, suc, ◌<◌, ◌≡◌, ◌≢◌, ◌⊎◌, inl, inr, refl, false, some, Outcome, fails, List, [], ◌∷◌, map,
  length, returns, get_elem?, arith,
}
use ros2_rust.Prelude.Int.{ℤ, pos}
use ros2_rust.Prelude.Bytes.{Bytes}
use ros2_rust.Parameter.Utf8.{Utf8}
use ros2_rust.ReturnCode.{RclCall, RclrsError, checked}
use ros2_rust.ReturnCode.Laws.{number}
use ros2_rust.ReturnCode.Taking.{to_rclrs_result-ReturnedBy}
use ros2_rust.Arguments.{
  has_nul, c_string, c_strings, RclArguments, extract, extract_counted, get_rcl_arguments,
  extract_non_ros_args, finish,
}

-- The extracted arguments are those at the indices, in their order.
abbrev pub Picks : List ℕ → List Bytes → List Bytes → Type 0
Picks [] args out = out ≡ []
Picks (i ∷ is) args [] = ⊥
Picks (i ∷ is) args (o ∷ out) = (get_elem? args i ≡ some o) × Picks is args out

abbrev pub AllBelow : ℕ → List ℕ → Type 0
AllBelow n [] = Unit {0}
AllBelow n (i ∷ is) = (i < n) × AllBelow n is

abbrev pub NoNul : List Bytes → Type 0
NoNul [] = Unit {0}
NoNul (s ∷ ss) = (has_nul s ≡ false) × NoNul ss

elem_at : (i : ℕ) (args : List Bytes) → i < length args → (o : Bytes) × (get_elem? args i ≡ some o)
elem_at i [] h = elim h [ ]
elem_at zero (a ∷ rest) h = (a, refl)
elem_at (suc i) (a ∷ rest) h = elem_at i rest (omega arith)

extract-Picks :
    (is : List ℕ) (args : List Bytes)
    → AllBelow (length args) is
    → (out : List Bytes) × (extract (length is) (map pos is) args ≡ returns out) × Picks is args out
unfolding extract
extract-Picks [] args h = ([], refl, refl)
extract-Picks (i ∷ is) args (h, hs) =
    let (o, e) = elem_at i args h in
    let (out, done, picks) = extract-Picks is args hs in (o ∷ out, rw (e, done) (refl), (e, picks))

c_strings_lem : (args : List Bytes) → NoNul args → c_strings args ≡ returns args
unfolding c_strings c_string
c_strings_lem [] h = refl
c_strings_lem (s ∷ ss) (h, hs) = rw (h, c_strings_lem ss hs) (refl)

module _ ⦃u : Utf8⦄ where
  counted-Picks :
      (is : List ℕ) (args : List Bytes) (indices : RclCall (List ℤ))
      → checked indices ≡ returns (map pos is)
      → AllBelow (length args) is
      → (out : List Bytes) × (extract_counted (length is) indices args ≡ returns out)
        × Picks is args out
  counted-Picks [] args indices c h = ([], refl, refl)
  counted-Picks (i ∷ is) args indices c h =
      let (out, done, picks) = extract-Picks (i ∷ is) args h in (out, rw c done, picks)

  -- The extracted arguments, or the error of finishing what `rcl` has parsed, by its return code.
  abbrev pub FinishedBy : ℤ → List Bytes → Outcome RclrsError (List Bytes) → Type 0
  FinishedBy ret out result =
      ((ret ≡ pos 0) × (result ≡ returns out))
      ⊎ ((ret ≢ pos 0) × (e : RclrsError) × (number e ≡ some ret) × (result ≡ fails e))

  finish-FinishedBy :
      (out : List Bytes) (fini : RclCall (Unit {0}))
      → FinishedBy fini.ret out (finish (returns out) fini)
  finish-FinishedBy out fini = elim (to_rclrs_result-ReturnedBy fini.ret fini.message) [
    | inl (z, e) ↦ inl (z, rw e (refl))
    | inr (z, error, n, e) ↦ inr (z, error, n, rw e (refl))
  ]

  -- Where no argument contains NUL, `rcl` parses them, and gives as many indices as it counts, all of
  -- arguments that there are: the extracted arguments are those at the indices, in their order, if
  -- `rcl` finishes with code 0 what it has parsed, and else the result is the error with the number of
  -- the code that finishing returns.
  pub extract_non_ros_args-Picks :
      {A : Type 0} (rcl : RclArguments A) (args : List Bytes) (a : A) (is : List ℕ)
      → NoNul args
      → checked (rcl.parse_arguments args) ≡ returns a
      → rcl.get_count a ≡ pos (length is)
      → checked (rcl.get_indices a) ≡ returns (map pos is)
      → AllBelow (length args) is
      → (out : List Bytes) × Picks is args out
        × FinishedBy (rcl.fini a).ret out (extract_non_ros_args rcl args)
  unfolding extract_non_ros_args get_rcl_arguments
  extract_non_ros_args-Picks rcl args a is n p c g h =
      let (out, done, picks) = counted-Picks is args (rcl.get_indices a) g h in
      (out, picks, rw (c_strings_lem args n, p, c, done) (finish-FinishedBy out (rcl.fini a)))
