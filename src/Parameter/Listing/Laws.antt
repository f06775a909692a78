-- ===== src/Parameter/Listing/Laws.antt =====
-- Which names `list_parameters` lists.
use ros2_rust.Prelude.{ℕ, ◌<◌, ◌≡◌, ◌≢◌, ◌⊎◌, List, [], ◌∷◌, ◌++◌}
use ros2_rust.Prelude.Bytes.{Bytes}
use ros2_rust.Prelude.BTreeMap
use ros2_rust.Parameter.Listing.{dot, dots}

abbrev pub Member : Bytes → List Bytes → Type 0
Member n [] = ⊥
Member n (x ∷ xs) = (n ≡ x) ⊎ Member n xs

-- No more levels than the request's depth asks for, where 0 is any number.
abbrev pub WithinDepth : ℕ → Bytes → Type 0
WithinDepth depth s = (depth ≡ 0) ⊎ (dots s < depth)

-- The name is the prefix, or has something after the prefix and a dot, within the depth.
abbrev pub Below : ℕ → Bytes → Bytes → Type 0
Below depth name prefix =
    (name ≡ prefix)
    ⊎ ((rest : Bytes) × (rest ≢ [])
        × (name ≡ (prefix ++ dot ∷ []) ++ rest)
        × WithinDepth depth rest)

abbrev pub Wanted : ℕ → List Bytes → Bytes → Type 0
Wanted depth [] name = WithinDepth depth name
Wanted depth (p ∷ ps) name = (q : Bytes) × Member q (p ∷ ps) × Below depth name q
