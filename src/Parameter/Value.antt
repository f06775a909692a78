-- ===== src/Parameter/Value.antt =====
-- `ParameterValue`, `ParameterKind` and the trait `ParameterVariant` of
-- rclrs/src/parameter/value.rs. An `i64` is an integer, a `u8` a number, a string its UTF-8 bytes.
pub mod Laws
use ros2_rust.Prelude.{ℕ, List, Bool, Result, ok, err, ◌==◌}
use ros2_rust.Prelude.Int.{ℤ}
use ros2_rust.Prelude.Bytes.{Bytes}

pub data ParameterValue (F : Type 0) : Type 0 where
  bool : Bool → ParameterValue F
  integer : ℤ → ParameterValue F
  double : F → ParameterValue F
  string : Bytes → ParameterValue F
  byte_array : List ℕ → ParameterValue F
  bool_array : List Bool → ParameterValue F
  integer_array : List ℤ → ParameterValue F
  double_array : List F → ParameterValue F
  string_array : List Bytes → ParameterValue F

pub data ParameterKind : Type 0 where
  bool integer double string byte_array bool_array integer_array : ParameterKind
  double_array string_array dynamic : ParameterKind

-- `std::mem::discriminant`, by the order of the variants.
unfoldable pub discriminant : ParameterKind → ℕ
discriminant ParameterKind.bool = 0
discriminant ParameterKind.integer = 1
discriminant ParameterKind.double = 2
discriminant ParameterKind.string = 3
discriminant ParameterKind.byte_array = 4
discriminant ParameterKind.bool_array = 5
discriminant ParameterKind.integer_array = 6
discriminant ParameterKind.double_array = 7
discriminant ParameterKind.string_array = 8
discriminant ParameterKind.dynamic = 9

-- The derived `PartialEq` of `ParameterKind`.
unfoldable pub kind_eq : ParameterKind → ParameterKind → Bool
unfolding discriminant
kind_eq a b = discriminant a == discriminant b

pub data ParameterValueError : Type 0 where
  out_of_range type_mismatch read_only : ParameterValueError

-- `ParameterVariant`: `Into<ParameterValue> + TryFrom<ParameterValue>` and `kind()`. The
-- associated `Range` becomes ranges by `no_ranges`, `from_integer` or `from_float`.
pub record ParameterVariant (F T : Type 0) : Type 0 where
  pub kind : ParameterKind
  pub into : T → ParameterValue F
  pub try_from : ParameterValue F → Result ParameterValueError T

module _ {F : Type 0} where
  -- `ParameterValue::kind`
  unfoldable pub kind_of : ParameterValue F → ParameterKind
  kind_of (ParameterValue.bool _) = ParameterKind.bool
  kind_of (ParameterValue.integer _) = ParameterKind.integer
  kind_of (ParameterValue.double _) = ParameterKind.double
  kind_of (ParameterValue.string _) = ParameterKind.string
  kind_of (ParameterValue.byte_array _) = ParameterKind.byte_array
  kind_of (ParameterValue.bool_array _) = ParameterKind.bool_array
  kind_of (ParameterValue.integer_array _) = ParameterKind.integer_array
  kind_of (ParameterValue.double_array _) = ParameterKind.double_array
  kind_of (ParameterValue.string_array _) = ParameterKind.string_array

  abbrev to_bool : ParameterValue F → Result ParameterValueError Bool
  to_bool (ParameterValue.bool v) = ok v
  to_bool _ = err type_mismatch

  abbrev to_i64 : ParameterValue F → Result ParameterValueError ℤ
  to_i64 (ParameterValue.integer v) = ok v
  to_i64 _ = err type_mismatch

  abbrev to_f64 : ParameterValue F → Result ParameterValueError F
  to_f64 (ParameterValue.double v) = ok v
  to_f64 _ = err type_mismatch

  abbrev to_str : ParameterValue F → Result ParameterValueError Bytes
  to_str (ParameterValue.string v) = ok v
  to_str _ = err type_mismatch

  abbrev to_u8_array : ParameterValue F → Result ParameterValueError (List ℕ)
  to_u8_array (ParameterValue.byte_array v) = ok v
  to_u8_array _ = err type_mismatch

  abbrev to_bool_array : ParameterValue F → Result ParameterValueError (List Bool)
  to_bool_array (ParameterValue.bool_array v) = ok v
  to_bool_array _ = err type_mismatch

  abbrev to_i64_array : ParameterValue F → Result ParameterValueError (List ℤ)
  to_i64_array (ParameterValue.integer_array v) = ok v
  to_i64_array _ = err type_mismatch

  abbrev to_f64_array : ParameterValue F → Result ParameterValueError (List F)
  to_f64_array (ParameterValue.double_array v) = ok v
  to_f64_array _ = err type_mismatch

  abbrev to_str_array : ParameterValue F → Result ParameterValueError (List Bytes)
  to_str_array (ParameterValue.string_array v) = ok v
  to_str_array _ = err type_mismatch

  abbrev pub bool_variant : ParameterVariant F Bool
  bool_variant = record {
    kind = ParameterKind.bool;
    into = ParameterValue.bool;
    try_from = to_bool;
  }

  abbrev pub i64_variant : ParameterVariant F ℤ
  i64_variant = record {
    kind = ParameterKind.integer;
    into = ParameterValue.integer;
    try_from = to_i64;
  }

  abbrev pub f64_variant : ParameterVariant F F
  f64_variant = record {
    kind = ParameterKind.double;
    into = ParameterValue.double;
    try_from = to_f64;
  }

  abbrev pub str_variant : ParameterVariant F Bytes
  str_variant = record {
    kind = ParameterKind.string;
    into = ParameterValue.string;
    try_from = to_str;
  }

  abbrev pub u8_array_variant : ParameterVariant F (List ℕ)
  u8_array_variant = record {
    kind = ParameterKind.byte_array;
    into = ParameterValue.byte_array;
    try_from = to_u8_array;
  }

  abbrev pub bool_array_variant : ParameterVariant F (List Bool)
  bool_array_variant = record {
    kind = ParameterKind.bool_array;
    into = ParameterValue.bool_array;
    try_from = to_bool_array;
  }

  abbrev pub i64_array_variant : ParameterVariant F (List ℤ)
  i64_array_variant = record {
    kind = ParameterKind.integer_array;
    into = ParameterValue.integer_array;
    try_from = to_i64_array;
  }

  abbrev pub f64_array_variant : ParameterVariant F (List F)
  f64_array_variant = record {
    kind = ParameterKind.double_array;
    into = ParameterValue.double_array;
    try_from = to_f64_array;
  }

  abbrev pub str_array_variant : ParameterVariant F (List Bytes)
  str_array_variant = record {
    kind = ParameterKind.string_array;
    into = ParameterValue.string_array;
    try_from = to_str_array;
  }

  -- `T = ParameterValue`: a parameter that may change its type.
  abbrev pub dynamic_variant : ParameterVariant F (ParameterValue F)
  dynamic_variant = record { kind = ParameterKind.dynamic; into = λ v. v; try_from = λ v. ok v }
