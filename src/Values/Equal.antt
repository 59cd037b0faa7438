-- ===== src/Values/Equal.antt =====
-- any_t::equal, and OOCore_any_t_equal for values of different types.
use oocore.Prelude.{ℕ, Bool, true, false, not, ◌&&◌, ◌||◌, ◌==◌, Option, none, some, if◌then◌else◌}
use oocore.Registry.Tables.{same_text}
use oocore.Guid.{Guid, from_string}
use oocore.Values.Int.{ℤ, pos, eqb_ℤ}
use oocore.Values.Convert.{CastResult, valid, overflow, precision_loss, unrelated}
use oocore.Values.Coerce.{
  IntKind, byte, int16, uint16, int32, uint32, int64, uint64, type_of, Value, void, bool, int,
  float4, float8, guid, text, Env, coerce_int, coerce_bool,
}

-- TypeInfo::Type
unfoldable pub number_of : IntKind → ℕ
number_of byte = 2
number_of int16 = 3
number_of uint16 = 4
number_of int32 = 5
number_of uint32 = 6
number_of int64 = 7
number_of uint64 = 8

unfoldable pub same_guid : Guid → Guid → Bool
same_guid x y =
    (x.data1 == y.data1)
    && (x.data2 == y.data2)
    && (x.data3 == y.data3)
    && (x.a == y.a)
    && (x.b == y.b)
    && (x.c == y.c)
    && (x.d == y.d)
    && (x.e == y.e)
    && (x.f == y.f)
    && (x.g == y.g)
    && (x.h == y.h)

unfoldable pub same_bool : Bool → Bool → Bool
same_bool true b = b
same_bool false b = not b

-- any_compare: both values are converted, and then compared.
unfoldable pub both : {A : Type 0} → (A → A → Bool) → Option A → Option A → Bool
both same none y = false
both same (some x) none = false
both same (some x) (some y) = same x y

unfoldable pub if_valid : CastResult × ℤ → Option ℤ
if_valid (valid, v) = some v
if_valid (overflow, v) = none
if_valid (precision_loss, v) = none
if_valid (unrelated, v) = none

module _ {F : Type 0} where
  unfoldable pub get_type : Value F → ℕ
  get_type void = 0
  get_type (bool b) = 1
  get_type (int kind v) = number_of kind
  get_type (float4 x) = 9
  get_type (float8 x) = 10
  get_type (text s) = 11
  get_type (guid g) = 12

  unfoldable pub coerce_guid : Value F → Option Guid
  coerce_guid void = none
  coerce_guid (bool b) = none
  coerce_guid (int kind v) = none
  coerce_guid (float4 x) = none
  coerce_guid (float8 x) = none
  coerce_guid (guid g) = some g
  coerce_guid (text s) = from_string s

  -- Of one or both values
  unfoldable pub either_is : ℕ → Value F → Value F → Bool
  either_is type lhs rhs = (get_type lhs == type) || (get_type rhs == type)

  module _ (env : Env F) where
    unfoldable pub any_t_equal : Value F → Value F → Bool
    any_t_equal lhs rhs =
        if either_is 0 lhs rhs
        then get_type lhs == get_type rhs
        else if either_is 12 lhs rhs
        then both same_guid (coerce_guid lhs) (coerce_guid rhs)
        else if either_is 11 lhs rhs
        then both same_text (env.to_text lhs) (env.to_text rhs)
        else if either_is 1 lhs rhs
        then both same_bool (coerce_bool env lhs) (coerce_bool env rhs)
        else if either_is 10 lhs rhs || either_is 9 lhs rhs
        then both env.same_float8 (env.to_float8 lhs) (env.to_float8 rhs)
        else if either_is 8 lhs rhs
        then both eqb_ℤ (if_valid (coerce_int env (type_of uint64) lhs (pos 0)))
            (if_valid (coerce_int env (type_of uint64) rhs (pos 0)))
        else both eqb_ℤ (if_valid (coerce_int env (type_of int64) lhs (pos 0)))
            (if_valid (coerce_int env (type_of int64) rhs (pos 0)))

    -- Of the same type
    unfoldable pub equal_values : Value F → Value F → Bool
    equal_values void void = true
    equal_values (bool a) (bool b) = same_bool a b
    equal_values (int kind x) (int kind' y) = eqb_ℤ x y
    equal_values (float4 x) (float4 y) = env.same_float4 x y
    equal_values (float8 x) (float8 y) = env.same_float8 x y
    equal_values (guid g) (guid g') = same_guid g g'
    equal_values (text s) (text s') = same_text s s'
    equal_values _ _ = false

    -- Two values in different places
    unfoldable pub equal : Value F → Value F → Bool
    equal lhs rhs =
        if get_type rhs == get_type lhs then equal_values lhs rhs else any_t_equal lhs rhs
