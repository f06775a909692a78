-- ===== src/Tests/ConversionTests.antt =====
-- The theorems on ranges and on message conversions, applied to sample values.
use ros2_rust.Prelude.{
  ℕ, ◌≡◌, ◌≢◌, ◌↔◌, refl, Bool, true, none, some, [], ◌∷◌, returns, panics, ok, arith, some-eq,
}
use ros2_rust.Prelude.Int.{ℤ, pos, negsuc, ◌≤ℤ◌}
use ros2_rust.Parameter.Value.{ParameterValue}
use ros2_rust.Parameter.Range.{in_range_i64}
use ros2_rust.Parameter.Range.Laws.{IsValid, Admits}
use ros2_rust.Parameter.Range.Admission.{in_range-iff_Admits, in_range_overflow}
use ros2_rust.Parameter.Rmw.{
  RmwParameterValue, to_rmw, from_rmw, rcl_parameter_type, RclVariant, default_rmw,
}
use ros2_rust.Parameter.Rmw.Laws.{from_rmw-to_rmw}
use ros2_rust.Tests.Samples.{whole_numbers, plain_text, speed_range}

-- The least `i64`.
abbrev lowest : ℤ
lowest = negsuc 9223372036854775807

speed_range-IsValid : IsValid speed_range
speed_range-IsValid = record { ordered = omega arith; positive = omega arith }

in_range-iff_Admits_example :
    (b : Bool) × (in_range_i64 speed_range (pos 6) ≡ returns b)
    × ((b ≡ true) ↔ Admits speed_range (pos 6))
in_range-iff_Admits_example =
    in_range-iff_Admits speed_range (pos 6) speed_range-IsValid (omega arith)

lowest-below : lowest ≤ℤ pos 0
lowest-below = omega arith

not_the_limit : some (pos 10) ≢ some (pos 0)
not_the_limit h = cc (some-eq h)

in_range_overflow_example :
    in_range_i64
      (record { lower = some lowest; upper = some (pos 10); step = some (pos 2) })
      (pos 0)
    ≡ panics
in_range_overflow_example =
    in_range_overflow lowest (pos 2) (pos 0) (some (pos 10)) lowest-below (omega arith)
      not_the_limit (omega arith)

abbrev text : ParameterValue ℕ
text = ParameterValue.string_array ((104 ∷ 105 ∷ []) ∷ [] ∷ [])

from_rmw-to_rmw_example :
    (from_rmw (to_rmw text) ≡ ok text) × ((to_rmw text).type_ ≡ rcl_parameter_type text)
from_rmw-to_rmw_example = from_rmw-to_rmw text (refl, (refl, tt))

abbrev unknown : RmwParameterValue ℕ
unknown = record default_rmw { type_ = 12 }

abbrev flag : RclVariant ℕ
flag = record {
  bool_value = some true;
  integer_value = none;
  double_value = none;
  string_value = none;
  byte_array_value = none;
  bool_array_value = none;
  integer_array_value = none;
  double_array_value = none;
  string_array_value = none;
}
