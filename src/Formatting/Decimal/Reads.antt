-- ===== src/Formatting/Decimal/Reads.antt =====
-- What the readers make of printed numbers.
use oocore.Prelude.{
  ℕ, zero, suc, ◌+◌, ◌-◌, ◌*◌, ◌/◌, ◌%◌, ◌^◌, ◌<◌, ◌≡◌, inl, inr, refl, ◌∙◌, true, false, ◌&&◌, [],
  ◌∷◌, ◌++◌, ◌==◌, ltb, leb, length, Bool-cases, arith, ++-assoc, length-append, ◌≤◌,
}
use oocore.Guid.{head, skip_space}
use oocore.Values.Int.{ℤ, pos, negsuc, has_value, eqb_ℤ}
use oocore.Formatting.Decimal.{
  Text, digits_from, digits, zeros, print_precise, print_signed, print_signed_precise, is_digit,
  scan, read_signed, minus, strtol, read_unsigned, strtoul,
}

-- A text that goes on with something else than a digit
abbrev pub EndsNumber : Text → Type 0
EndsNumber rest = is_digit (head rest) ≡ false

scan-stop : (value : ℕ) (rest : Text) → EndsNumber rest → scan value rest ≡ (value, rest)
unfolding scan
scan-stop value [] e = refl
scan-stop value (c ∷ cs) e = rw e refl

is_digit_of : (d : ℕ) → d < 10 → is_digit (48 + d) ≡ true
unfolding is_digit
is_digit_of d h = ground (arith, h)

-- scan over digits that were printed, into a value before it
scan-digits_from :
    (fuel n : ℕ) (rest : Text) → n < fuel → scan 0 (digits_from fuel n ++ rest) ≡ scan n rest
unfolding digits_from scan is_digit
scan-digits_from zero n rest h = absurd (omega (arith, h))
scan-digits_from (suc fuel) n rest h = elim (Bool-cases (ltb n 10)) [
  | inl small ↦ rw small (ground (arith, small))
  | inr large ↦
      let d : 48 + n % 10 - 48 ≡ n % 10 = omega arith in
      let whole : n / 10 * 10 + n % 10 ≡ n = omega arith in
      rw (large, ++-assoc (digits_from fuel (n / 10)) ((48 + n % 10) ∷ []) rest)
        (scan-digits_from fuel (n / 10) ((48 + n % 10) ∷ rest) (ground (arith, h, large))
          ∙ rw (is_digit_of (n % 10) (omega arith), d, whole) refl)
]

-- What a printed number is to the readers: a digit in front, and the number before `rest`
abbrev pub Printed : ℕ → Text → Text → Type 0
Printed n s rest = (is_digit (head s) ≡ true) × (scan 0 s ≡ (n, rest))

digits_from-head :
    (fuel n : ℕ) (rest : Text) → n < fuel → is_digit (head (digits_from fuel n ++ rest)) ≡ true
unfolding digits_from
digits_from-head zero n rest h = absurd (omega (arith, h))
digits_from-head (suc fuel) n rest h = elim (Bool-cases (ltb n 10)) [
  | inl small ↦ rw small (is_digit_of n (ground (arith, small)))
  | inr large ↦
      rw (large, ++-assoc (digits_from fuel (n / 10)) ((48 + n % 10) ∷ []) rest)
        (digits_from-head fuel (n / 10) ((48 + n % 10) ∷ rest) (ground (arith, h, large)))
]

pub digits-Printed : (n : ℕ) (rest : Text) → EndsNumber rest → Printed n (digits n ++ rest) rest
unfolding digits
digits-Printed n rest e = (
  digits_from-head (suc n) n rest (omega arith),
  scan-digits_from (suc n) n rest (omega arith) ∙ scan-stop n rest e,
)

zeros-Printed : (k n : ℕ) (s rest : Text) → Printed n s rest → Printed n (zeros k ++ s) rest
unfolding zeros scan is_digit
zeros-Printed zero n s rest p = p
zeros-Printed (suc k) n s rest p = (refl, (zeros-Printed k n s rest p).1)

print_precise-Printed :
    (precision n : ℕ) (rest : Text)
    → ((precision == 0) && (n == 0)) ≡ false
    → EndsNumber rest
    → Printed n (print_precise precision n ++ rest) rest
unfolding print_precise
print_precise-Printed precision n rest some_digit e =
    rw (some_digit, ++-assoc (zeros (precision - length (digits n))) (digits n) rest)
      (zeros-Printed (precision - length (digits n)) n (digits n ++ rest) rest
        (digits-Printed n rest e))

skip_space-digit : (s : Text) → is_digit (head s) ≡ true → skip_space s ≡ s
unfolding skip_space is_digit
skip_space-digit [] e = refl
skip_space-digit (c ∷ cs) e = ground (arith, e)

-- What the readers give for a number and for one behind a minus
module _ (n : ℕ) (s rest : Text) (printed : Printed n s rest) where
  read_signed-pos : (all : Text) → n < 2 ^ 63 → read_signed all false s ≡ (pos n, rest)
  unfolding read_signed
  read_signed-pos all h =
      let below : leb (2 ^ 63) n ≡ false = ground (arith, h) in
      rw (read_signed, printed.0, printed.1, below) refl

  read_signed-neg : (all : Text) → n < 2 ^ 63 + 1 → read_signed all true s ≡ (minus n, rest)
  unfolding read_signed
  read_signed-neg all h =
      let below : ltb (2 ^ 63) n ≡ false = ground (arith, h) in
      rw (read_signed, printed.0, printed.1, below) refl

  not_sign : ((head s == 45) ≡ false) × ((head s == 43) ≡ false)
  unfolding is_digit
  not_sign = ground (arith, printed.0)

  strtol-pos : n < 2 ^ 63 → strtol s ≡ (pos n, rest)
  unfolding strtol
  strtol-pos h =
      let no_sign = not_sign in
      rw (skip_space-digit s printed.0, no_sign.0, no_sign.1) (read_signed-pos s h)

  strtol-neg : n < 2 ^ 63 + 1 → strtol (45 ∷ s) ≡ (minus n, rest)
  unfolding strtol skip_space
  strtol-neg h = read_signed-neg (45 ∷ s) h

  pub strtoul-pos : n < 2 ^ 64 → strtoul s ≡ (n, rest)
  unfolding strtoul
  strtoul-pos h =
      let no_sign = not_sign in
      let below : leb (2 ^ 64) n ≡ false = ground (arith, h) in
      rw
        (
          skip_space-digit s printed.0,
          no_sign.0,
          no_sign.1,
          read_unsigned,
          printed.0,
          printed.1,
          below,
        )
        refl

-- strtol reads a number of 64 bits back that printf has printed, up to a character that is no digit.
pub strtol-print_signed_precise :
    (precision : ℕ) (v : ℤ) (rest : Text)
    → has_value (record { is_signed = true; digits = 63 }) v ≡ true
    → ((precision == 0) && eqb_ℤ v (pos 0)) ≡ false
    → EndsNumber rest
    → strtol (print_signed_precise precision v ++ rest) ≡ (v, rest)
unfolding print_signed_precise has_value eqb_ℤ minus
strtol-print_signed_precise precision (pos n) rest has some_digit e =
    strtol-pos n (print_precise precision n ++ rest) rest
      (print_precise-Printed precision n rest some_digit e) (ground (arith, has))
strtol-print_signed_precise precision (negsuc n) rest has some_digit e =
    let nonzero : ((precision == 0) && (suc n == 0)) ≡ false = ground arith in
    strtol-neg (suc n) (print_precise precision (suc n) ++ rest) rest
      (print_precise-Printed precision (suc n) rest nonzero e) (ground (arith, has))

pub strtol-print_signed :
    (v : ℤ) (rest : Text)
    → has_value (record { is_signed = true; digits = 63 }) v ≡ true
    → EndsNumber rest
    → strtol (print_signed v ++ rest) ≡ (v, rest)
unfolding print_signed has_value minus
strtol-print_signed (pos n) rest has e =
    strtol-pos n (digits n ++ rest) rest (digits-Printed n rest e) (ground (arith, has))
strtol-print_signed (negsuc n) rest has e =
    strtol-neg (suc n) (digits (suc n) ++ rest) rest (digits-Printed (suc n) rest e)
      (ground (arith, has))

pub digits-some : (n : ℕ) → 1 ≤ length (digits n)
unfolding digits digits_from
digits-some n = elim (Bool-cases (ltb n 10)) [
  | inl e ↦ rw e (omega arith)
  | inr e ↦
      let sum = length-append (digits_from n (n / 10)) ((48 + n % 10) ∷ []) in
      rw e (omega (arith, sum))
]

pub digits-head : (n : ℕ) (rest : Text) → is_digit (head (digits n ++ rest)) ≡ true
unfolding digits
digits-head n rest = digits_from-head (suc n) n rest (omega arith)
