-- ===== src/Values/Convert.antt =====
-- int_conv: the conversion of an integer to another integer type.
use oocore.Prelude.{Bool, true, false, ◌||◌, leb, if◌then◌else◌}
use oocore.Values.Int.{ℤ, pos, ltb_ℤ, IntType, max_of, min_of, static_cast}

-- any_t::CastResult
pub data CastResult : Type 0 where
  valid overflow precision_loss unrelated : CastResult

-- Assign what is cast, if the test of an overflow fails
unfoldable pub assign_unless : Bool → IntType → ℤ → ℤ → CastResult × ℤ
assign_unless overflows t old v = if overflows then (overflow, old) else (valid, static_cast t v)

-- The specialisations of int_conv by the signs of both types, and whether the target has as many
-- digits. `old` is what the target holds before.
unfoldable pub int_conv_signs : Bool → Bool → Bool → IntType → IntType → ℤ → ℤ → CastResult × ℤ
int_conv_signs false false true to from old v = assign_unless false to old v
int_conv_signs true true true to from old v = assign_unless false to old v
int_conv_signs false true true to from old v = assign_unless (ltb_ℤ v (pos 0)) to old v
int_conv_signs false true false to from old v =
    assign_unless (ltb_ℤ v (pos 0) || ltb_ℤ (static_cast from (max_of to)) v) to old v
int_conv_signs true false no_trunc to from old v =
    assign_unless (ltb_ℤ (static_cast from (max_of to)) v) to old v
int_conv_signs false false false to from old v = assign_unless (ltb_ℤ (max_of to) v) to old v
int_conv_signs true true false to from old v =
    assign_unless (ltb_ℤ v (min_of to) || ltb_ℤ (max_of to) v) to old v

unfoldable pub int_conv : IntType → IntType → ℤ → ℤ → CastResult × ℤ
int_conv to from old v =
    int_conv_signs to.is_signed from.is_signed (leb from.digits to.digits) to from old v
