-- ===== src/Tests/NodeTests.antt =====
-- The theorems on arguments and on the graph, applied to three arguments and to two topics.
use ros2_rust.Prelude.{ℕ, ◌≡◌, refl, List, [], ◌∷◌, length, map, returns, none, arith}
use ros2_rust.Prelude.Int.{pos}
use ros2_rust.Prelude.Bytes.{Bytes}
use ros2_rust.ReturnCode.{RclCall, checked, to_rclrs_result}
use ros2_rust.Arguments.{RclArguments, extract_non_ros_args, has_nul}
use ros2_rust.Arguments.Extraction.{Picks, FinishedBy, extract_non_ros_args-Picks}
use ros2_rust.Graph.{RmwNamesAndTypes, get_names_and_types_by_node}
use ros2_rust.Graph.Names.{Learns, get_names_and_types_by_node-Learns}
use ros2_rust.Tests.Samples.{plain_text}

abbrev done : {A : Type 0} → A → RclCall A
done a = record { ret = pos 0; message = none; handle = a }

-- The second argument is for ROS.
abbrev args : List Bytes
args = (97 ∷ []) ∷ (98 ∷ []) ∷ (99 ∷ []) ∷ []

abbrev parser : RclArguments ℕ
parser = record {
  parse_arguments = λ cs. done (length cs);
  get_count = λ n. pos 2;
  get_indices = λ n. done (pos 0 ∷ pos 2 ∷ []);
  fini = λ n. done tt;
}

parsed : checked (parser.parse_arguments args) ≡ returns 3
unfolding to_rclrs_result
parsed = refl

indices : checked (parser.get_indices 3) ≡ returns (map pos (0 ∷ 2 ∷ []))
unfolding to_rclrs_result
indices = refl

extract_non_ros_args-Picks_example :
    (out : List Bytes) × Picks (0 ∷ 2 ∷ []) args out
    × FinishedBy (parser.fini 3).ret out (extract_non_ros_args parser args)
extract_non_ros_args-Picks_example =
    extract_non_ros_args-Picks parser args 3 (0 ∷ 2 ∷ []) (refl, (refl, (refl, tt))) parsed refl
      indices (omega arith)

-- A getter that fails, with nothing in its array.
abbrev getter : Bytes → Bytes → RclCall RmwNamesAndTypes
getter node namespace = record { ret = pos 203; message = none; handle = [] }

error_dropped :
    get_names_and_types_by_node getter (97 ∷ []) (47 ∷ []) ≡ returns (λ (name : Bytes). none)
unfolding get_names_and_types_by_node
error_dropped = refl

get_names_and_types_by_node-Learns_example :
    Learns getter
      (97 ∷ [])
      (47 ∷ [])
      (has_nul (97 ∷ []))
      (has_nul (47 ∷ []))
      (λ g. get_names_and_types_by_node g (97 ∷ []) (47 ∷ []))
get_names_and_types_by_node-Learns_example =
    get_names_and_types_by_node-Learns getter (97 ∷ []) (47 ∷ [])
