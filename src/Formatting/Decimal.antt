-- ===== src/Formatting/Decimal.antt =====
-- The decimal numbers of the C library, as src/OOCore/Formatting.cpp uses them: %d, %u and their
-- precision in printf, and strtol and strtoul in base 10, for longs of 64 bits.
pub mod Reads
use oocore.Prelude.{
  ℕ, zero, suc, ◌+◌, ◌-◌, ◌*◌, ◌/◌, ◌%◌, ◌^◌, Bool, true, false, not, ◌&&◌, List, [], ◌∷◌, ◌++◌,
  ◌==◌, ltb, leb, if◌then◌else◌, length, drop,
}
use oocore.Guid.{head, skip_space}
use oocore.Values.Int.{ℤ, pos, negsuc}

abbrev pub Text : Type 0
Text = List ℕ

-- The digits of a number; a round takes one off, so as many rounds as the number says are enough.
unfoldable pub digits_from : ℕ → ℕ → Text
digits_from zero n = []
digits_from (suc fuel) n =
    let rest = digits_from fuel (n / 10) in
    if ltb n 10 then (48 + n) ∷ [] else rest ++ (48 + n % 10) ∷ []

unfoldable pub digits : ℕ → Text
unfolding digits_from
digits n = digits_from (suc n) n

unfoldable pub zeros : ℕ → Text
zeros zero = []
zeros (suc n) = 48 ∷ zeros n

-- %.*u: at least `precision` digits, and none at all for 0 with the precision 0
unfoldable pub print_precise : ℕ → ℕ → Text
unfolding digits zeros
print_precise precision n =
    if (precision == 0) && (n == 0) then [] else zeros (precision - length (digits n)) ++ digits n

-- %u and %d
unfoldable pub print_unsigned : ℕ → Text
unfolding digits
print_unsigned n = digits n

unfoldable pub print_signed : ℤ → Text
unfolding digits
print_signed (pos n) = digits n
print_signed (negsuc n) = 45 ∷ digits (suc n)

-- %.*d
unfoldable pub print_signed_precise : ℕ → ℤ → Text
unfolding print_precise
print_signed_precise precision (pos n) = print_precise precision n
print_signed_precise precision (negsuc n) = 45 ∷ print_precise precision (suc n)

-- priv_isdigit
unfoldable pub is_digit : ℕ → Bool
is_digit c = leb 48 c && leb c 57

-- The number at the front, and what is behind it
unfoldable pub scan : ℕ → Text → ℕ × Text
unfolding is_digit
scan value [] = (value, [])
scan value (c ∷ cs) = if is_digit c then scan (value * 10 + (c - 48)) cs else (value, c ∷ cs)

-- Where there is no digit, the end is the beginning `all`. A number out of range becomes the largest or
-- the least of its type; strtoul lets a negative number wrap around.
unfoldable pub read_unsigned : Text → Bool → Text → ℕ × Text
unfolding scan is_digit
read_unsigned all negative s =
    let (value, rest) = scan 0 s in
    if not (is_digit (head s))
    then (0, all)
    else if leb (2 ^ 64) value
    then (2 ^ 64 - 1, rest)
    else (if negative then (2 ^ 64 - value) % 2 ^ 64 else value, rest)

unfoldable pub minus : ℕ → ℤ
minus zero = pos 0
minus (suc n) = negsuc n

unfoldable pub read_signed : Text → Bool → Text → ℤ × Text
unfolding scan is_digit minus
read_signed all negative s =
    let (value, rest) = scan 0 s in
    if not (is_digit (head s))
    then (pos 0, all)
    else if negative
    then (if ltb (2 ^ 63) value then negsuc (2 ^ 63 - 1) else minus value, rest)
    else (if leb (2 ^ 63) value then pos (2 ^ 63 - 1) else pos value, rest)

unfoldable pub strtoul : Text → ℕ × Text
unfolding read_unsigned skip_space
strtoul s =
    let t = skip_space s in
    if head t == 45
    then read_unsigned s true (drop 1 t)
    else if head t == 43
    then read_unsigned s false (drop 1 t)
    else read_unsigned s false t

unfoldable pub strtol : Text → ℤ × Text
unfolding read_signed skip_space
strtol s =
    let t = skip_space s in
    if head t == 45
    then read_signed s true (drop 1 t)
    else if head t == 43
    then read_signed s false (drop 1 t)
    else read_signed s false t
