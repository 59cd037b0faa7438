-- ===== src/Formatting/Numbers/Prints.antt =====
-- The hexadecimal numbers of printf, exp_strip and the decimal point in src/OOCore/Formatting.cpp.
use oocore.Prelude.{
  ℕ, zero, suc, ◌+◌, ◌-◌, ◌%◌, ◌/◌, Bool, ◌&&◌, ◌||◌, Option, none, some, [], ◌∷◌, ◌++◌, ◌==◌, ltb,
  leb, if◌then◌else◌, length, drop, take,
}
use oocore.Guid.{hex_digit}
use oocore.Formatting.Decimal.{Text, zeros}
use oocore.Formatting.Numbers.Locale.{Lconv}

-- %X and %x, and their precision
unfoldable pub hex_letter : Bool → ℕ → ℕ
unfolding hex_digit
hex_letter capital d = if capital || ltb d 10 then hex_digit d else 87 + d

unfoldable pub hex_from : ℕ → Bool → ℕ → Text
unfolding hex_letter
hex_from zero capital n = []
hex_from (suc fuel) capital n =
    let rest = hex_from fuel capital (n / 16) in
    if ltb n 16 then hex_letter capital n ∷ [] else rest ++ hex_letter capital (n % 16) ∷ []

unfoldable pub print_hex : Bool → Option ℕ → ℕ → Text
unfolding hex_from zeros
print_hex capital none n = hex_from (suc n) capital n
print_hex capital (some p) n =
    if (p == 0) && (n == 0)
    then []
    else zeros (p - length (hex_from (suc n) capital n)) ++ hex_from (suc n) capital n

-- strcspn of "Ee"
unfoldable pub exp_place : Text → ℕ
exp_place [] = 0
exp_place (c ∷ s) = if (c == 69) || (c == 101) then 0 else suc (exp_place s)

-- The zeros in front that are more than `precision` digits
unfoldable pub trim_zeros : Text → ℕ → Text
trim_zeros [] precision = []
trim_zeros (c ∷ s) precision =
    if (c == 48) && leb precision (length s) then trim_zeros s precision else c ∷ s

unfoldable pub exponent : Text → ℕ → Text
unfolding trim_zeros zeros
exponent s precision = let s' = trim_zeros s precision in zeros (precision - length s') ++ s'

-- The sign of the exponent, and the rest of the text
unfoldable pub exp_sign : Bool → Text → Text × Text
exp_sign show_plus [] = ([], [])
exp_sign show_plus (c ∷ s) =
    if c == 43
    then (if show_plus then 43 ∷ [] else [], s)
    else if c == 45
    then (45 ∷ [], s)
    else ([], c ∷ s)

-- exp_strip, of a text that is not empty and no shorter than the precision, as printf's are
unfoldable pub exp_strip : Text → ℕ → Bool → Text
unfolding exp_place exp_sign exponent
exp_strip s precision show_plus =
    if leb (length s) (exp_place s + 1)
    then s
    else let (sign, rest) = exp_sign show_plus (drop (exp_place s + 1) s) in
      take (exp_place s + 1) s ++ (sign ++ exponent rest precision)

-- The decimal point and the zeros behind it
unfoldable pub fraction : Lconv → ℕ → Text
unfolding zeros
fraction lc zero = []
fraction lc (suc n) = lc.decimal_point ++ zeros (suc n)
