-- ===== src/Parameter/Utf8.antt =====
-- What the program uses of Rust's UTF-8 functions and of C strings.
use ros2_rust.Prelude.{◌≡◌, Bool, true, Option, none, some, [], ◌∷◌, if◌then◌else◌, ◌==◌}
use ros2_rust.Prelude.Bytes.{Bytes}

-- `std::str::from_utf8(b).is_ok()` and `String::from_utf8_lossy`, which leaves valid text as it is.
pub record Utf8 : Type 0 where
  pub valid : Bytes → Bool
  pub lossy : Bytes → Bytes
  pub lossy_valid : (b : Bytes) → valid b ≡ true → lossy b ≡ b

-- `CStr::from_ptr`: the bytes before the first NUL.
unfoldable pub to_cstr : Bytes → Bytes
to_cstr [] = []
to_cstr (c ∷ cs) = if c == 0 then [] else c ∷ to_cstr cs

-- `name.to_cstr().to_str().ok()`
unfoldable pub to_str : ⦃u : Utf8⦄ → Bytes → Option Bytes
unfolding to_cstr
to_str ⦃u⦄ b = let c = to_cstr b in if u.valid c then some c else none
