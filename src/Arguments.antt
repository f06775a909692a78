-- ===== src/Arguments.antt =====
-- rclrs/src/arguments.rs: the arguments of a program that are not for ROS. How `rcl` parses them is an
-- argument; it gives the indices of those it has not parsed.
pub mod Extraction
use ros2_rust.Prelude.{
  ℕ, zero, suc, ◌≡◌, Bool, true, false, Option, none, some, List, [], ◌∷◌, Result, ok, err, Outcome,
  returns, fails, panics, ◌>>=◌, unwrap, from_result, get_elem?, ◌==◌, ◌||◌, if◌then◌else◌,
}
use ros2_rust.Prelude.Int.{ℤ, pos, negsuc}
use ros2_rust.Prelude.Bytes.{Bytes}
use ros2_rust.Parameter.Utf8.{Utf8}
use ros2_rust.ReturnCode.{RclrsError, string_contains_nul, RclCall, checked}

abbrev pub has_nul : Bytes → Bool
has_nul [] = false
has_nul (c ∷ cs) = (c == 0) || has_nul cs

-- `CString::new`, with the error that the program makes of its own
unfoldable pub c_string : Bytes → Result RclrsError Bytes
c_string s = if has_nul s then err (string_contains_nul s) else ok s

-- the collected C strings, or the first error
unfoldable pub c_strings : List Bytes → Outcome RclrsError (List Bytes)
unfolding c_string
c_strings [] = returns []
c_strings (s ∷ ss) = do c ← from_result (c_string s); cs ← c_strings ss; returns (c ∷ cs)

-- What `rcl` does with arguments `A`.
pub record RclArguments (A : Type 0) : Type 0 where
  pub parse_arguments : List Bytes → RclCall A
  pub get_count : A → ℤ
  pub get_indices : A → RclCall (List ℤ)
  pub fini : A → RclCall (Unit {0})

-- `usize::try_from(args_count).unwrap()`
abbrev pub to_count : ℤ → Outcome RclrsError ℕ
to_count (pos n) = returns n
to_count (negsuc n) = panics

-- `args.get(index as usize).unwrap()`: a negative index is a number beyond the end
abbrev pub arg_at : ℤ → List Bytes → Outcome RclrsError Bytes
arg_at (pos i) args = unwrap (get_elem? args i)
arg_at (negsuc i) args = panics

-- the loop over the indices, of which there are as many as the count says
unfoldable pub extract : ℕ → List ℤ → List Bytes → Outcome RclrsError (List Bytes)
extract zero indices args = returns []
extract (suc n) [] args = panics
extract (suc n) (i ∷ is) args = do
  arg ← arg_at i args
  rest ← extract n is args
  returns (arg ∷ rest)

module _ ⦃u : Utf8⦄ where
  abbrev pub extract_counted : ℕ → RclCall (List ℤ) → List Bytes → Outcome RclrsError (List Bytes)
  extract_counted zero indices args = returns []
  extract_counted (suc n) indices args = do is ← checked indices; extract (suc n) is args

  unfoldable pub get_rcl_arguments :
      ℤ → RclCall (List ℤ) → List Bytes → Outcome RclrsError (List Bytes)
  unfolding extract
  get_rcl_arguments count indices args = do
    args_count ← to_count count
    extract_counted args_count indices args

  -- the arguments of `rcl` are finished, unless the program has panicked
  abbrev pub finish :
      Outcome RclrsError (List Bytes) → RclCall (Unit {0}) → Outcome RclrsError (List Bytes)
  finish (returns extracted) fini = checked fini >>= λ _. returns extracted
  finish (fails error) fini = checked fini >>= λ _. fails error
  finish panics fini = panics

  unfoldable pub extract_non_ros_args :
      {A : Type 0} → RclArguments A → List Bytes → Outcome RclrsError (List Bytes)
  unfolding c_strings get_rcl_arguments
  extract_non_ros_args rcl args = do
    cstring_args ← c_strings args
    rcl_arguments ← checked (rcl.parse_arguments cstring_args)
    finish (get_rcl_arguments (rcl.get_count rcl_arguments) (rcl.get_indices rcl_arguments) args)
        (rcl.fini rcl_arguments)
