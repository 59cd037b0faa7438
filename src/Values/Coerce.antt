-- ===== src/Values/Coerce.antt =====
-- any_t and its conversion to integer types, to bool_t and from text.
use oocore.Prelude.{Bool, true, false, Option, none, some, not, if◌then◌else◌}
use oocore.Registry.Tables.{Text, same_text}
use oocore.Guid.{Guid}
use oocore.Values.Int.{ℤ, pos, eqb_ℤ, IntType}
use oocore.Values.Convert.{CastResult, valid, overflow, unrelated, int_conv}

-- The integers of TypeInfo
pub data IntKind : Type 0 where
  byte int16 uint16 int32 uint32 int64 uint64 : IntKind

-- numeric_limits of byte_t to uint64_t
unfoldable pub type_of : IntKind → IntType
type_of byte = record { is_signed = false; digits = 8 }
type_of int16 = record { is_signed = true; digits = 15 }
type_of uint16 = record { is_signed = false; digits = 16 }
type_of int32 = record { is_signed = true; digits = 31 }
type_of uint32 = record { is_signed = false; digits = 32 }
type_of int64 = record { is_signed = true; digits = 63 }
type_of uint64 = record { is_signed = false; digits = 64 }

-- any_t. F is the type of floating numbers, float4_t and float8_t.
pub data Value (F : Type 0) : Type 0 where
  void : Value F
  bool : Bool → Value F
  int : IntKind → ℤ → Value F
  float4 float8 : F → Value F
  guid : Guid → Value F
  text : Text → Value F

-- What is not modelled: floating numbers, the readers of numbers, and the texts of booleans and of
-- other values. A reader gives the value and whether it has come to the end of the text.
pub record Env (F : Type 0) : Type 0 where
  pub float_to_int : IntType → F → ℤ → CastResult × ℤ
  pub is_nonzero : F → Bool
  pub strto64 : Text → ℤ × Bool
  pub strtou64 : Text → ℤ × Bool
  pub true_text : Text
  pub false_text : Text
  -- The conversions to string_t and to float8_t, and the comparisons of floating numbers
  pub to_text : Value F → Option Text
  pub to_float8 : Value F → Option F
  pub same_float4 : F → F → Bool
  pub same_float8 : F → F → Bool

-- What is read is converted if the whole text has been read.
unfoldable pub scanned : IntType → IntKind → ℤ × Bool → ℤ → CastResult × ℤ
scanned to kind (v, whole) old = if whole then int_conv to (type_of kind) old v else (overflow, old)

module _ {F : Type 0} (env : Env F) where
  -- integer_scanner_t and unsigned_integer_scanner_t
  unfoldable pub scan : IntType → Text → ℤ → CastResult × ℤ
  scan to s old =
      if to.is_signed
      then scanned to int64 (env.strto64 s) old
      else scanned to uint64 (env.strtou64 s) old

  -- Coerce to an integer type, of which `old` is the value before
  unfoldable pub coerce_int : IntType → Value F → ℤ → CastResult × ℤ
  coerce_int to void old = (unrelated, old)
  coerce_int to (bool b) old = (valid, if b then pos 1 else pos 0)
  coerce_int to (int kind v) old = int_conv to (type_of kind) old v
  coerce_int to (float4 x) old = env.float_to_int to x old
  coerce_int to (float8 x) old = env.float_to_int to x old
  coerce_int to (guid g) old = (unrelated, old)
  coerce_int to (text s) old = scan to s old

  unfoldable pub coerce_bool : Value F → Option Bool
  coerce_bool void = none
  coerce_bool (bool b) = some b
  coerce_bool (int kind v) = some (not (eqb_ℤ v (pos 0)))
  coerce_bool (float4 x) = some (env.is_nonzero x)
  coerce_bool (float8 x) = some (env.is_nonzero x)
  coerce_bool (guid g) = none
  coerce_bool (text s) =
      if same_text s env.true_text
      then some true
      else if same_text s env.false_text
      then some false
      else none
