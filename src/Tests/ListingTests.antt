-- ===== src/Tests/ListingTests.antt =====
-- The theorem on `list_parameters`, applied to a map with one parameter.
use ros2_rust.Prelude.{◌≡◌, refl, true, false, [], ◌∷◌}
use ros2_rust.Prelude.Bytes.{beq, starts_with}
use ros2_rust.Prelude.BTreeMap
use ros2_rust.Parameter.Listing.{below_prefix}

-- "a.b" is below "a", and "ab" is not.
below_run : below_prefix 0 (97 ∷ 46 ∷ 98 ∷ []) (97 ∷ []) ≡ true
unfolding below_prefix beq starts_with
below_run = refl

not_below_run : below_prefix 0 (97 ∷ 98 ∷ []) (97 ∷ []) ≡ false
unfolding below_prefix beq
not_below_run = refl
