-- ===== src/Graph/Names.antt =====
-- What the names and types of rclrs/src/node/graph.rs hold.
use ros2_rust.Prelude.{
  ◌≡◌, refl, ap, Bool, true, false, Option, none, some, List, [], ◌∷◌, map, Outcome, returns, fails,
  if◌then◌else◌,
}
use ros2_rust.Prelude.Bytes.{Bytes, beq}
use ros2_rust.Parameter.Utf8.{Utf8}
use ros2_rust.ReturnCode.{RclrsError, RclCall, string_contains_nul}
use ros2_rust.Parameter.Overrides.{owned}
use ros2_rust.Arguments.{c_string, has_nul}
use ros2_rust.Graph.{
  RmwNamesAndTypes, TopicNamesAndTypes, insert_types, convert_from, convert_names_and_types,
  get_names_and_types_by_node,
}

module _ ⦃u : Utf8⦄ where
  -- The types of the last entry with a name, or `other` where there is none.
  abbrev pub last_types : Bytes → RmwNamesAndTypes → Option (List Bytes) → Option (List Bytes)
  last_types k [] other = other
  last_types k ((name, types) ∷ rest) other =
      last_types k rest (if beq (owned name) k then some (map owned types) else other)

  convert_from_lem :
      (k : Bytes) (rcl : RmwNamesAndTypes) (m : TopicNamesAndTypes)
      → convert_from rcl m k ≡ last_types k rcl (m k)
  unfolding convert_from insert_types
  convert_from_lem k [] m = refl
  convert_from_lem k ((name, types) ∷ rest) m =
      convert_from_lem k rest (insert_types (owned name) (map owned types) m)

  -- What a node learns, by whether the name and the namespace contain NUL. In an error no getter is
  -- asked: any other gives the same.
  abbrev pub Learns :
      (Bytes → Bytes → RclCall RmwNamesAndTypes)
      → Bytes
      → Bytes
      → Bool
      → Bool
      → ((Bytes → Bytes → RclCall RmwNamesAndTypes) → Outcome RclrsError TopicNamesAndTypes)
      → Type 0
  Learns getter node namespace true nul out =
      (other : Bytes → Bytes → RclCall RmwNamesAndTypes)
      → out other ≡ fails (string_contains_nul node)
  Learns getter node namespace false true out =
      (other : Bytes → Bytes → RclCall RmwNamesAndTypes)
      → out other ≡ fails (string_contains_nul namespace)
  Learns getter node namespace false false out =
      out getter ≡ returns (λ k. last_types k (getter node namespace).handle none)

  converted : (rcl : RmwNamesAndTypes) → convert_names_and_types rcl ≡ (λ k. last_types k rcl none)
  unfolding convert_names_and_types
  converted rcl = λ i. λ k. convert_from_lem k rcl (λ name. none) i

  learns :
      (getter : Bytes → Bytes → RclCall RmwNamesAndTypes) (node namespace : Bytes) (a b : Bool)
      → has_nul node ≡ a
      → has_nul namespace ≡ b
      → Learns getter node namespace a b (λ g. get_names_and_types_by_node g node namespace)
  unfolding get_names_and_types_by_node c_string
  learns getter node namespace true b e f = λ other. rw e (refl)
  learns getter node namespace false true e f = λ other. rw (e, f) (refl)
  learns getter node namespace false false e f =
      rw (e, f) (ap returns (converted (getter node namespace).handle))

  -- A node asks for the topics and types of another. Where the node's name or its namespace contains
  -- NUL, the result is an error with the first of the two that does, whatever `rcl` would answer. Else
  -- it is a success, also where `rcl` returns an error: a map that has for each name the types of the
  -- last entry with this name in the array that `rcl` filled, and nothing where it filled none.
  pub get_names_and_types_by_node-Learns :
      (getter : Bytes → Bytes → RclCall RmwNamesAndTypes) (node namespace : Bytes)
      → Learns getter node namespace
          (has_nul node)
          (has_nul namespace)
          (λ g. get_names_and_types_by_node g node namespace)
  get_names_and_types_by_node-Learns getter node namespace =
      learns getter node namespace (has_nul node) (has_nul namespace) refl refl
