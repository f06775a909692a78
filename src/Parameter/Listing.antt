-- ===== src/Parameter/Listing.antt =====
-- `list_parameters` of rclrs/src/parameter/service.rs: the names below some prefixes, to a depth.
pub mod Laws
use ros2_rust.Prelude.{
  ℕ, suc, ◌+◌, Bool, true, false, ◌&&◌, ◌||◌, Option, none, some, List, [], ◌∷◌, ◌++◌, length, drop,
  ltb, ◌==◌, if◌then◌else◌,
}
use ros2_rust.Prelude.Bytes.{Bytes, beq, starts_with}
use ros2_rust.Prelude.BTreeMap
use ros2_rust.Prelude.BTreeMap.{BTreeMap}
use ros2_rust.Parameter.Storage.{ParameterMap}

pub record ListParametersResult : Type 0 where
  pub names : List Bytes
  pub prefixes : List Bytes

-- the byte '.'
abbrev pub dot : ℕ
dot = 46

unfoldable pub dots : Bytes → ℕ
dots [] = 0
dots (c ∷ cs) = (if c == dot then 1 else 0) + dots cs

-- the closure `check_parameter_name_depth`, where 0 is `DEPTH_RECURSIVE`
unfoldable pub check_parameter_name_depth : ℕ → Bytes → Bool
unfolding dots
check_parameter_name_depth depth substring = if depth == 0 then true else ltb (dots substring) depth

-- the closure of `any`
unfoldable pub below_prefix : ℕ → Bytes → Bytes → Bool
unfolding check_parameter_name_depth
below_prefix depth name prefix =
    let extended = prefix ++ dot ∷ [] in
    beq name prefix
    || ltb (length extended) (length name)
      && starts_with name extended
      && check_parameter_name_depth depth (drop (length extended) name)

unfoldable pub any_prefix : ℕ → Bytes → List Bytes → Bool
unfolding below_prefix
any_prefix depth name [] = false
any_prefix depth name (p ∷ ps) = below_prefix depth name p || any_prefix depth name ps

-- the closure of the first `filter_map`
unfoldable pub wanted : ℕ → List Bytes → Bytes → Bool
unfolding any_prefix
wanted depth [] name = check_parameter_name_depth depth name
wanted depth (p ∷ ps) name = any_prefix depth name (p ∷ ps)

unfoldable pub filter_names : ℕ → List Bytes → List Bytes → List Bytes
unfolding wanted
filter_names depth prefixes [] = []
filter_names depth prefixes (n ∷ ns) =
    let rest = filter_names depth prefixes ns in if wanted depth prefixes n then n ∷ rest else rest

-- `name.rfind('.')` and the text before it
unfoldable pub parent : Bytes → Option Bytes
parent [] = none
parent (c ∷ cs) = elim (parent cs) [
  | some p ↦ some (c ∷ p)
  | none ↦ if c == dot then some [] else none
]

abbrev add_parent : Option Bytes → BTreeMap (Unit {0}) → BTreeMap (Unit {0})
add_parent none set = set
add_parent (some p) set = BTreeMap.insert p tt set

-- the set of the names' prefixes
unfoldable pub parents : List Bytes → BTreeMap (Unit {0})
unfolding parent
parents [] = BTreeMap.empty
parents (n ∷ ns) = add_parent (parent n) (parents ns)

unfoldable pub list_parameters :
    {F : Type 0} → ℕ → List Bytes → ParameterMap F → ListParametersResult
unfolding filter_names parents
list_parameters depth prefixes m =
    let names = filter_names depth prefixes (BTreeMap.keys m.storage) in
    record { names = names; prefixes = BTreeMap.keys (parents names) }
