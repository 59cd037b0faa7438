-- ===== src/Tests/Numbers.antt =====
-- The formats of numbers at concrete inputs.
use oocore.Prelude.{ℕ, ◌≡◌, refl, true, false, none, some, [], ◌∷◌, ◌==◌}
use oocore.Guid.{head}
use oocore.Values.Int.{pos, negsuc, has_value}
use oocore.Values.Convert.{overflow}
use oocore.Values.Coerce
use oocore.Values.Coerce.{int16, type_of, text, coerce_int}
use oocore.Values.Exact.{exact}
use oocore.Strings.{memchr, find1, byte_at, left}
use oocore.Formatting.Decimal.{Text}
use oocore.Formatting.Numbers.Locale.{MonetarySign, Lconv, Env}
use oocore.Formatting.Numbers.{unsigned, decimal, parse_numfmt, fmt_number, to_string_int, strto64}
use oocore.Formatting.Numbers.Coerced.{coerce_int-to_string_int}
use oocore.Strings.Oneof.{is_in}
use oocore.Formatting.Parts.{to_string_bool}
use oocore.Formatting.Two.{to_string_bool-two}

abbrev plain : Env ℕ
plain = record {
  find = λ s t. memchr s (head t);
  same_text = λ s t. head s == head t;
  print_fixed = λ p x. [];
  print_scientific = λ c p x. [];
  print_general = λ c p x. [];
  to_int64 = λ x. pos x;
  to_uint64 = λ x. x;
  from_int64 = λ v. 0;
  from_uint64 = λ n. n;
  is_negative = λ x. false;
}

abbrev unsigned_money : MonetarySign
unsigned_money = record { cs_precedes = 1; sep_by_space = 0; sign_posn = 1; sign = [] }

abbrev english : Lconv
english = record {
  decimal_point = 46 ∷ [];
  thousands_sep = 44 ∷ [];
  grouping = 3 ∷ [];
  mon_decimal_point = 46 ∷ [];
  mon_thousands_sep = 44 ∷ [];
  mon_grouping = 3 ∷ [];
  frac_digits = 2;
  currency_symbol = 36 ∷ [];
  positive = unsigned_money;
  negative = record unsigned_money { sign = 45 ∷ [] };
}

-- 1234567 as N0
grouped :
    fmt_number plain english (unsigned 1234567) (some 0)
    ≡ 49 ∷ 44 ∷ 50 ∷ 51 ∷ 52 ∷ 44 ∷ 53 ∷ 54 ∷ 55 ∷ []
unfolding fmt_number memchr
grouped = refl

-- -123 as N0 is "-,123".
sign_grouped :
    to_string_int plain english (negsuc 122) (78 ∷ 48 ∷ []) 8 ≡ some (45 ∷ 44 ∷ 49 ∷ 50 ∷ 51 ∷ [])
unfolding to_string_int memchr
sign_grouped = refl

-- 0 as R is nothing.
zero_lost : to_string_int plain english (pos 0) (82 ∷ []) 4 ≡ some []
unfolding to_string_int memchr
zero_lost = refl

-- -1 as x
wrapped :
    to_string_int plain english (negsuc 0) (120 ∷ 49 ∷ []) 1
    ≡ some (
        102 ∷ 102 ∷ 102 ∷ 102 ∷ 102 ∷ 102 ∷ 102 ∷ 102 ∷ 102 ∷ 102 ∷ 102 ∷ 102 ∷ 102 ∷ 102 ∷ 102
        ∷ 102 ∷ [])
unfolding to_string_int memchr
wrapped = refl

-- A letter and what is no digit is the letter alone, but 4 characters are no standard format.
letters : parse_numfmt (68 ∷ 45 ∷ 51 ∷ []) ≡ some (decimal, true, none)
unfolding parse_numfmt
letters = refl

abbrev values : Coerce.Env ℕ
values = record {
  float_to_int = λ to x old. (overflow, old);
  is_nonzero = λ x. true;
  strto64 = strto64;
  strtou64 = λ s. (pos 0, true);
  true_text = 116 ∷ [];
  false_text = 102 ∷ [];
  to_text = λ v. none;
  to_float8 = λ v. none;
  same_float4 = λ x y. true;
  same_float8 = λ x y. true;
}

-- -45 as D5
coerce_int-to_string_int_example :
    (t : Text) × (to_string_int plain english (negsuc 44) (68 ∷ 53 ∷ []) 4 ≡ some t)
    × (coerce_int values (type_of int16) (text t) (pos 0)
        ≡ exact (type_of int16) (pos 0) (negsuc 44))
unfolding type_of has_value parse_numfmt
coerce_int-to_string_int_example =
    coerce_int-to_string_int values plain english (type_of int16) (negsuc 44) (pos 0) (68 ∷ 53 ∷ [])
      4 decimal true (some 5) (λ s. refl) refl refl refl refl

-- on;off
to_string_bool-two_example :
    to_string_bool false (111 ∷ 110 ∷ 59 ∷ 111 ∷ 102 ∷ 102 ∷ []) ≡ some (111 ∷ 102 ∷ 102 ∷ [])
unfolding is_in
to_string_bool-two_example =
    to_string_bool-two false (111 ∷ 110 ∷ []) (111 ∷ 102 ∷ 102 ∷ []) (refl, refl, (refl, refl, tt))
      (refl, refl, (refl, refl, (refl, refl, tt)))

-- A semicolon between quotes, ';';n, parts nothing.
quoted : to_string_bool true (39 ∷ 59 ∷ 39 ∷ 59 ∷ 110 ∷ []) ≡ some (39 ∷ 59 ∷ 39 ∷ [])
unfolding to_string_bool find1 memchr byte_at left
quoted = refl
