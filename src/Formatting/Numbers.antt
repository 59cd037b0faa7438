-- ===== src/Formatting/Numbers.antt =====
-- The standard formats of numbers in src/OOCore/Formatting.cpp, in its branch for POSIX.
pub mod Locale
pub mod Prints
pub mod Read
pub mod Coerced
pub mod Grouped
use oocore.Prelude.{
  ℕ, zero, suc, ◌+◌, ◌-◌, ◌%◌, ◌^◌, ◌/◌, Bool, true, false, not, ◌&&◌, ◌||◌, Option, none, some,
  List, [], ◌∷◌, ◌++◌, ◌==◌, ltb, leb, if◌then◌else◌, length, drop, take,
}
use oocore.Guid.{head, hex_digit}
use oocore.Values.Int.{ℤ, pos, negsuc, residue}
use oocore.Formatting.Decimal.{
  Text, digits, zeros, print_precise, print_unsigned, print_signed, print_signed_precise, is_digit,
  strtol,
}
use oocore.Formatting.Numbers.Locale.{Lconv, Env, do_intl, undo_intl, do_intl_mon}
use oocore.Formatting.Numbers.Prints.{exp_strip, fraction, print_hex}

-- num_fmt
pub data NumFmt : Type 0 where
  unspecified currency decimal scientific fixed_point general number round_trip hexadecimal : NumFmt

-- A number of one of the types that the templates are used with
pub data Number (F : Type 0) : Type 0 where
  signed : ℤ → Number F
  unsigned : ℕ → Number F
  float : F → Number F

-- The letter of a format, and whether it is a capital
unfoldable pub letter : ℕ → Option (NumFmt × Bool)
letter c =
    if c == 99
    then some (currency, false)
    else if c == 67
    then some (currency, true)
    else if c == 100
    then some (decimal, false)
    else if c == 68
    then some (decimal, true)
    else if c == 101
    then some (scientific, false)
    else if c == 69
    then some (scientific, true)
    else if c == 102
    then some (fixed_point, false)
    else if c == 70
    then some (fixed_point, true)
    else if c == 103
    then some (general, false)
    else if c == 71
    then some (general, true)
    else if c == 110
    then some (number, false)
    else if c == 78
    then some (number, true)
    else if c == 114
    then some (round_trip, false)
    else if c == 82
    then some (round_trip, true)
    else if c == 120
    then some (hexadecimal, false)
    else if c == 88
    then some (hexadecimal, true)
    else none

unfoldable pub magnitude : ℤ → ℕ
magnitude (pos n) = n
magnitude (negsuc n) = suc n

-- The precision behind the letter, none for -1; the outer none is a format that is refused.
unfoldable pub precision_of : Text → Option (Option ℕ)
unfolding is_digit strtol magnitude
precision_of s =
    if is_digit (head s)
    then (if head (strtol s).1 == 0 then some (some (magnitude (strtol s).0)) else none)
    else some none

-- parse_numfmt: none where it returns false
unfoldable pub parse_numfmt : Text → Option (NumFmt × Bool × Option ℕ)
unfolding letter precision_of
parse_numfmt [] = some (unspecified, true, none)
parse_numfmt (c ∷ s) = if ltb 3 (suc (length s)) then none else elim (letter c) [
  | none ↦ none
  | some (fmt, capital) ↦ elim (precision_of s) [ none ↦ none | some p ↦ some (fmt, capital, p) ]
]

unfoldable pub or_default : Option ℕ → ℕ → ℕ
or_default none d = d
or_default (some p) d = p

-- The precision where none is given, of a locale that may leave it open
unfoldable pub frac_digits : Lconv → ℕ
frac_digits lc = if lc.frac_digits == 127 then 2 else lc.frac_digits

unfoldable pub drop_sign : Text → Text
drop_sign [] = []
drop_sign (c ∷ s) = if (c == 45) || (c == 43) then s else c ∷ s

unfoldable pub general_precision : Option ℕ → ℕ → ℕ
general_precision none def_precision = def_precision
general_precision (some zero) def_precision = def_precision
general_precision (some (suc p)) def_precision = suc p

-- The precisions of the byte widths
unfoldable pub width_precision : ℕ → ℕ
width_precision w = if w == 1 then 3 else if w == 2 then 5 else if w == 4 then 10 else 19

module _ {F : Type 0} (env : Env F) (lc : Lconv) where
  unfoldable pub fmt_fixed_i : Number F → ℕ → Text
  unfolding print_signed print_unsigned fraction
  fmt_fixed_i (signed v) precision = print_signed v ++ fraction lc precision
  fmt_fixed_i (unsigned n) precision = print_unsigned n ++ fraction lc precision
  fmt_fixed_i (float x) precision = env.print_fixed (some precision) x

  unfoldable pub is_negative : Number F → Bool
  is_negative (signed (pos n)) = false
  is_negative (signed (negsuc n)) = true
  is_negative (unsigned n) = false
  is_negative (float x) = env.is_negative x

  unfoldable pub fmt_currency : Number F → Option ℕ → Text
  unfolding fmt_fixed_i is_negative drop_sign do_intl_mon frac_digits or_default
  fmt_currency v precision =
      let s = fmt_fixed_i v (or_default precision (frac_digits lc)) in
      do_intl_mon env lc (drop_sign s) (is_negative v)

  unfoldable pub fmt_number : Number F → Option ℕ → Text
  unfolding fmt_fixed_i do_intl frac_digits or_default
  fmt_number v precision =
      (do_intl env lc (fmt_fixed_i v (or_default precision (frac_digits lc))) true).0

  unfoldable pub fmt_fixed : Number F → Option ℕ → Text
  unfolding fmt_fixed_i do_intl frac_digits or_default
  fmt_fixed v precision =
      (do_intl env lc (fmt_fixed_i v (or_default precision (frac_digits lc))) false).0

  -- fmt_decimal with fmt_decimal_i
  unfoldable pub fmt_decimal : Number F → Option ℕ → Text
  unfolding print_signed print_signed_precise print_unsigned print_precise
  fmt_decimal (signed v) none = print_signed v
  fmt_decimal (signed v) (some p) = print_signed_precise p v
  fmt_decimal (unsigned n) none = print_unsigned n
  fmt_decimal (unsigned n) (some p) = print_precise p n
  fmt_decimal (float x) none = print_signed (env.to_int64 x)
  fmt_decimal (float x) (some p) = print_signed_precise p (env.to_int64 x)

  -- fmt_hex with fmt_hex_i; the cast to uint64_t wraps around
  unfoldable pub fmt_hex : Number F → Bool → Option ℕ → Text
  unfolding print_hex residue
  fmt_hex (signed v) capital precision = print_hex capital precision (residue (2 ^ 64) v)
  fmt_hex (unsigned n) capital precision = print_hex capital precision n
  fmt_hex (float x) capital precision = print_hex capital precision (env.to_uint64 x)

  unfoldable pub to_double : Number F → F
  to_double (signed v) = env.from_int64 v
  to_double (unsigned n) = env.from_uint64 n
  to_double (float x) = x

  unfoldable pub fmt_scientific : Number F → Bool → Option ℕ → Text
  unfolding to_double do_intl exp_strip or_default
  fmt_scientific v capital precision =
      let s = env.print_scientific capital (or_default precision 6) (to_double v) in
      exp_strip (do_intl env lc s false).0 3 true

  unfoldable pub fmt_general_i : Number F → Bool → Option ℕ → Text
  unfolding print_signed print_signed_precise print_unsigned digits zeros exp_strip
  fmt_general_i (signed v) capital none = print_signed v
  fmt_general_i (signed v) capital (some p) = print_signed_precise p v
  fmt_general_i (unsigned n) capital none = print_unsigned n
  fmt_general_i (unsigned n) capital (some p) = zeros (p - length (digits n)) ++ digits n
  fmt_general_i (float x) capital precision =
      exp_strip (env.print_general capital precision x) 2 true

  unfoldable pub fmt_general : Number F → Bool → Option ℕ → Bool → Text
  unfolding fmt_general_i do_intl undo_intl
  fmt_general v capital precision use_locale =
      if use_locale
      then (do_intl env lc (fmt_general_i v capital precision) false).0
      else undo_intl env lc (fmt_general_i v capital precision)

  -- fmt_round_trip; the loop for a double makes one round, whatever is read back.
  unfoldable pub fmt_round_trip : Number F → ℕ → Text
  unfolding fmt_decimal fmt_general
  fmt_round_trip (signed v) def_precision = fmt_decimal (signed v) (some 0)
  fmt_round_trip (unsigned n) def_precision = fmt_decimal (unsigned n) (some 0)
  fmt_round_trip (float x) def_precision = fmt_general (float x) false (some def_precision) false

  -- The switch of fmt_recurse
  unfoldable pub fmt_standard : Number F → NumFmt → Bool → Option ℕ → ℕ → Text
  unfolding fmt_currency fmt_decimal fmt_scientific fmt_fixed fmt_number fmt_hex fmt_round_trip
      fmt_general general_precision
  fmt_standard v currency capital precision def = fmt_currency v precision
  fmt_standard v decimal capital precision def = fmt_decimal v precision
  fmt_standard v scientific capital precision def = fmt_scientific v capital precision
  fmt_standard v fixed_point capital precision def = fmt_fixed v precision
  fmt_standard v number capital precision def = fmt_number v precision
  fmt_standard v hexadecimal capital precision def = fmt_hex v capital precision
  fmt_standard v round_trip capital precision def = fmt_round_trip v def
  fmt_standard v general capital precision def =
      fmt_general v capital (some (general_precision precision def)) true
  fmt_standard v unspecified capital precision def = fmt_general v capital none true

  -- fmt_recurse, none where the format is a custom one
  unfoldable pub fmt_recurse : Number F → Text → ℕ → Option Text
  unfolding parse_numfmt fmt_standard
  fmt_recurse v format def = elim (parse_numfmt format) [
    | none ↦ none
    | some (fmt, capital, precision) ↦ some (fmt_standard v fmt capital precision def)
  ]

  -- OOCore_to_string_int_t, OOCore_to_string_uint_t and OOCore_to_string_float_t
  unfoldable pub to_string_int : ℤ → Text → ℕ → Option Text
  unfolding fmt_recurse width_precision
  to_string_int v format width = fmt_recurse (signed v) format (width_precision width)

  unfoldable pub to_string_uint : ℕ → Text → ℕ → Option Text
  unfolding fmt_recurse width_precision
  to_string_uint n format width = fmt_recurse (unsigned n) format (width_precision width)

  unfoldable pub to_string_float : F → Text → ℕ → Option Text
  unfolding fmt_recurse
  to_string_float x format width = fmt_recurse (float x) format (if width == 4 then 7 else 15)

-- OOCore_strto64 with base 10: the number, and whether the end is npos, the end of the text
unfoldable pub strto64 : Text → ℤ × Bool
unfolding strtol
strto64 s = ((strtol s).0, length (strtol s).1 == 0)
