-- ===== src/Parameter/Rmw.antt =====
-- `rcl_interfaces::msg::rmw::ParameterValue`, its conversions from and to `ParameterValue`, the
-- type codes, and the values that `rcl` parses from the command line: rclrs/src/parameter/value.rs.
pub mod Laws
use ros2_rust.Prelude.{
  ℕ, ◌+◌, ◌≡◌, Bool, true, false, not, Option, none, some, List, [], ◌∷◌, map, Result, ok, err,
  Outcome, returns, panics, if◌then◌else◌, ◌==◌,
}
use ros2_rust.Prelude.Int.{ℤ, pos}
use ros2_rust.Prelude.Bytes.{Bytes}
use ros2_rust.Parameter.Float.{Float}
use ros2_rust.Parameter.Utf8.{Utf8, to_cstr}
use ros2_rust.Parameter.Value.{ParameterValue}

pub record RmwParameterValue (F : Type 0) : Type 0 where
  pub type_ : ℕ
  pub bool_value : Bool
  pub integer_value : ℤ
  pub double_value : F
  pub string_value : Bytes
  pub byte_array_value : List ℕ
  pub bool_array_value : List Bool
  pub integer_array_value : List ℤ
  pub double_array_value : List F
  pub string_array_value : List Bytes

-- `ParameterType`
abbrev pub parameter_not_set : ℕ
parameter_not_set = 0

abbrev pub parameter_bool : ℕ
parameter_bool = 1

abbrev pub parameter_integer : ℕ
parameter_integer = 2

abbrev pub parameter_double : ℕ
parameter_double = 3

abbrev pub parameter_string : ℕ
parameter_string = 4

abbrev pub parameter_byte_array : ℕ
parameter_byte_array = 5

abbrev pub parameter_bool_array : ℕ
parameter_bool_array = 6

abbrev pub parameter_integer_array : ℕ
parameter_integer_array = 7

abbrev pub parameter_double_array : ℕ
parameter_double_array = 8

abbrev pub parameter_string_array : ℕ
parameter_string_array = 9

module _ {F : Type 0} where
  -- `ParameterValue::rcl_parameter_type`
  unfoldable pub rcl_parameter_type : ParameterValue F → ℕ
  rcl_parameter_type (ParameterValue.bool _) = parameter_bool
  rcl_parameter_type (ParameterValue.integer _) = parameter_integer
  rcl_parameter_type (ParameterValue.double _) = parameter_double
  rcl_parameter_type (ParameterValue.string _) = parameter_string
  rcl_parameter_type (ParameterValue.byte_array _) = parameter_byte_array
  rcl_parameter_type (ParameterValue.bool_array _) = parameter_bool_array
  rcl_parameter_type (ParameterValue.integer_array _) = parameter_integer_array
  rcl_parameter_type (ParameterValue.double_array _) = parameter_double_array
  rcl_parameter_type (ParameterValue.string_array _) = parameter_string_array

module _ {F : Type 0} ⦃fl : Float F⦄ where
  abbrev pub default_rmw : RmwParameterValue F
  default_rmw = record {
    type_ = parameter_not_set;
    bool_value = false;
    integer_value = pos 0;
    double_value = fl.zero;
    string_value = [];
    byte_array_value = [];
    bool_array_value = [];
    integer_array_value = [];
    double_array_value = [];
    string_array_value = [];
  }

  -- `impl From<ParameterValue> for RmwParameterValue`
  unfoldable pub to_rmw : ParameterValue F → RmwParameterValue F
  to_rmw (ParameterValue.bool v) = record default_rmw { type_ = parameter_bool; bool_value = v }
  to_rmw (ParameterValue.integer v) = record default_rmw {
    type_ = parameter_integer;
    integer_value = v;
  }
  to_rmw (ParameterValue.double v) = record default_rmw {
    type_ = parameter_double;
    double_value = v;
  }
  to_rmw (ParameterValue.string v) = record default_rmw {
    type_ = parameter_string;
    string_value = v;
  }
  to_rmw (ParameterValue.byte_array v) = record default_rmw {
    type_ = parameter_byte_array;
    byte_array_value = v;
  }
  to_rmw (ParameterValue.bool_array v) = record default_rmw {
    type_ = parameter_bool_array;
    bool_array_value = v;
  }
  to_rmw (ParameterValue.integer_array v) = record default_rmw {
    type_ = parameter_integer_array;
    integer_array_value = v;
  }
  to_rmw (ParameterValue.double_array v) = record default_rmw {
    type_ = parameter_double_array;
    double_array_value = v;
  }
  to_rmw (ParameterValue.string_array v) = record default_rmw {
    type_ = parameter_string_array;
    string_array_value = v;
  }

pub data RmwParameterConversionError : Type 0 where
  invalid_parameter_type : RmwParameterConversionError

-- `impl TryFrom<RmwParameterValue> for ParameterValue`; `to_string` of a ROS string is lossy.
unfoldable pub from_rmw :
    {F : Type 0} ⦃u : Utf8⦄
    → RmwParameterValue F
    → Result RmwParameterConversionError (ParameterValue F)
from_rmw ⦃u⦄ p =
    if p.type_ == parameter_bool
    then ok (ParameterValue.bool p.bool_value)
    else if p.type_ == parameter_integer
    then ok (ParameterValue.integer p.integer_value)
    else if p.type_ == parameter_double
    then ok (ParameterValue.double p.double_value)
    else if p.type_ == parameter_string
    then ok (ParameterValue.string (u.lossy p.string_value))
    else if p.type_ == parameter_byte_array
    then ok (ParameterValue.byte_array p.byte_array_value)
    else if p.type_ == parameter_bool_array
    then ok (ParameterValue.bool_array p.bool_array_value)
    else if p.type_ == parameter_integer_array
    then ok (ParameterValue.integer_array p.integer_array_value)
    else if p.type_ == parameter_double_array
    then ok (ParameterValue.double_array p.double_array_value)
    else if p.type_ == parameter_string_array
    then ok (ParameterValue.string_array (map u.lossy p.string_array_value))
    else err invalid_parameter_type

-- `rcl_variant_t`: each field is a pointer, null or to a value. A C string is its bytes, of which
-- those before a NUL count.
pub record RclVariant (F : Type 0) : Type 0 where
  pub bool_value : Option Bool
  pub integer_value : Option ℤ
  pub double_value : Option F
  pub string_value : Option Bytes
  pub byte_array_value : Option (List ℕ)
  pub bool_array_value : Option (List Bool)
  pub integer_array_value : Option (List ℤ)
  pub double_array_value : Option (List F)
  pub string_array_value : Option (List Bytes)

abbrev is_set : {A : Type 0} → Option A → ℕ
is_set none = 0
is_set (some _) = 1

abbrev pub num_active : {F : Type 0} → RclVariant F → ℕ
num_active var =
    is_set var.bool_value
    + (is_set var.integer_value
        + (is_set var.double_value
            + (is_set var.string_value
                + (is_set var.byte_array_value
                    + (is_set var.bool_array_value
                        + (is_set var.integer_array_value
                            + (is_set var.double_array_value + is_set var.string_array_value)))))))

abbrev or_else : {A E B : Type 0} → Option A → (A → B) → Outcome E B → Outcome E B
or_else none f o = o
or_else (some a) f o = returns (f a)

-- `ParameterValue::from_rcl_variant`
unfoldable pub from_rcl_variant :
    {F E : Type 0} ⦃u : Utf8⦄ → RclVariant F → Outcome E (ParameterValue F)
unfolding to_cstr
from_rcl_variant ⦃u⦄ var =
    if not (num_active var == 1)
    then panics
    else or_else var.bool_value ParameterValue.bool (
        or_else var.integer_value ParameterValue.integer (
          or_else var.double_value ParameterValue.double (
            or_else var.string_value (λ s. ParameterValue.string (u.lossy (to_cstr s)))
              (or_else var.byte_array_value ParameterValue.byte_array (
                or_else var.bool_array_value ParameterValue.bool_array (
                  or_else var.integer_array_value ParameterValue.integer_array (
                    or_else var.double_array_value ParameterValue.double_array (
                      or_else var.string_array_value
                        (λ ss. ParameterValue.string_array (map (λ s. u.lossy (to_cstr s)) ss))
                        panics))))))))
