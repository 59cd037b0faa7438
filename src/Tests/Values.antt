-- ===== src/Tests/Values.antt =====
-- The conversions and the equality of dynamic values at concrete inputs.
use oocore.Prelude.{ℕ, ◌≡◌, refl, true, none, [], ◌∷◌}
use oocore.Values.Int.{pos, negsuc, eqb_ℤ, ltb_ℤ, has_value}
use oocore.Values.Convert.{overflow, assign_unless, int_conv_signs, int_conv}
use oocore.Values.Coerce.{byte, int32, uint64, type_of, bool, int, Env, coerce_bool}
use oocore.Values.Exact.{exact, int_conv-exact}
use oocore.Values.Equal.{number_of, get_type, either_is, both, same_bool, any_t_equal, equal}
use oocore.Values.Same.{equal-ints}

-- -1 has no place in a byte_t
int_conv-exact_example :
    int_conv (type_of byte) (type_of int32) (pos 7) (negsuc 0)
    ≡ exact (type_of byte) (pos 7) (negsuc 0)
unfolding has_value type_of
int_conv-exact_example = int_conv-exact (type_of byte) (type_of int32) (pos 7) (negsuc 0) refl

refused : int_conv (type_of byte) (type_of int32) (pos 7) (negsuc 0) ≡ (overflow, pos 7)
unfolding int_conv int_conv_signs assign_unless ltb_ℤ type_of
refused = refl

abbrev plain : Env ℕ
plain = record {
  float_to_int = λ to x old. (overflow, old);
  is_nonzero = λ x. true;
  strto64 = λ s. (pos 0, true);
  strtou64 = λ s. (pos 0, true);
  true_text = 116 ∷ [];
  false_text = 102 ∷ [];
  to_text = λ v. none;
  to_float8 = λ v. none;
  same_float4 = λ x y. true;
  same_float8 = λ x y. true;
}

equal-ints_example :
    equal plain (int int32 (negsuc 0)) (int uint64 (pos 18446744073709551615))
    ≡ eqb_ℤ (negsuc 0) (pos 18446744073709551615)
unfolding has_value type_of
equal-ints_example = equal-ints plain int32 uint64 (negsuc 0) (pos 18446744073709551615) refl refl

-- A boolean is equal to two numbers that differ.
true_is_5 : equal plain (bool true) (int int32 (pos 5)) ≡ true
unfolding equal get_type number_of any_t_equal either_is both coerce_bool same_bool eqb_ℤ
true_is_5 = refl

true_is_7 : equal plain (bool true) (int int32 (pos 7)) ≡ true
unfolding equal get_type number_of any_t_equal either_is both coerce_bool same_bool eqb_ℤ
true_is_7 = refl
