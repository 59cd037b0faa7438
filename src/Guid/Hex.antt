-- ===== src/Guid/Hex.antt =====
-- Hexadecimal digits, printed and read.
use native.Mathlib.Nat.{mod-lt, one-le-pow, pow-suc, mod-eq_of_lt, div-div-eq-div-mul, add-suc}
use oocore.Prelude.{
  ++-assoc, ++-[], ℕ, zero, suc, ◌+◌, ◌*◌, ◌/◌, ◌%◌, ◌^◌, ◌≤◌, ◌<◌, ◌≡◌, refl, sym, ap, ◌∙◌, true,
  false, some, List, [], ◌∷◌, ◌++◌, ◌||◌, arith, ◌==◌, leb, length,
}
use oocore.Guid.{
  hex_digit, print_hex, head, digit_value, is_xdigit, scan, after_prefix, skip_space, read_number,
  strtoul, read_field,
}

digit_value-hex_digit : (d : ℕ) → d < 16 → digit_value (hex_digit d) ≡ some d
unfolding digit_value hex_digit
digit_value-hex_digit d h = ground (arith, h)

mod_sixteen : (v p : ℕ) → 0 < p → v % (p * 16) ≡ v / 16 % p * 16 + v % 16
mod_sixteen v p h = grind (arith, mod-lt)

-- Reading n printed digits adds them to the number so far.
pub scan-print_hex :
    (n v value : ℕ) (rest : List ℕ)
    → scan value (print_hex n v ++ rest) ≡ scan (value * 16 ^ n + v % 16 ^ n) rest
unfolding print_hex scan
scan-print_hex zero v value rest = ap (λ t. scan t rest) (omega arith)
scan-print_hex (suc n) v value rest =
    let pos : 0 < 16 ^ n = one-le-pow n 16 (omega arith) in
    let d = v % 16 in
    let digit = digit_value-hex_digit d (omega arith) in
    let sum : (value * 16 ^ n + v / 16 % 16 ^ n) * 16 + d ≡ value * 16 ^ suc n + v % 16 ^ suc n =
      rw pow-suc (rw (mod_sixteen v (16 ^ n) pos) (omega arith)) in
    ap (scan value) (++-assoc (print_hex n (v / 16)) (hex_digit d ∷ []) rest)
    ∙ scan-print_hex n (v / 16) value (hex_digit d ∷ rest)
    ∙ rw (scan, digit) (ap (λ t. scan t rest) sum)

-- The printed number starts with its highest digit.
print_hex-top : (n v : ℕ) → print_hex (suc n) v ≡ hex_digit (v / 16 ^ n % 16) ∷ print_hex n v
unfolding print_hex
print_hex-top zero v = ap (λ t. hex_digit (t % 16) ∷ []) (omega arith)
print_hex-top (suc n) v =
    let top : v / 16 / 16 ^ n ≡ v / 16 ^ suc n =
      div-div-eq-div-mul v 16 (16 ^ n) ∙ ap (λ t. v / t) (rw pow-suc (omega arith)) in
    ap (λ t. t ++ hex_digit (v % 16) ∷ []) (print_hex-top n (v / 16))
    ∙ ap (λ t. hex_digit (t % 16) ∷ print_hex (suc n) v) top

pub length-print_hex : (n v : ℕ) (rest : List ℕ) → length (print_hex n v ++ rest) ≡ n + length rest
unfolding print_hex
length-print_hex zero v rest = omega arith
length-print_hex (suc n) v rest =
    ap length (++-assoc (print_hex n (v / 16)) (hex_digit (v % 16) ∷ []) rest)
    ∙ length-print_hex n (v / 16) (hex_digit (v % 16) ∷ rest)
    ∙ omega arith

hex_digit-bounds : (d : ℕ) → d < 16 → (47 < hex_digit d) × (hex_digit d < 71)
unfolding hex_digit
hex_digit-bounds d h = ground (arith, h)

hex_digit-is_xdigit : (d : ℕ) → d < 16 → is_xdigit (hex_digit d) ≡ true
unfolding hex_digit is_xdigit
hex_digit-is_xdigit d h = ground (arith, h)

-- Not the x of 0x
abbrev pub NoX : List ℕ → Type 0
NoX s = (head s == 120 || head s == 88) ≡ false

NoX-print_hex : (n v : ℕ) (rest : List ℕ) → NoX rest → NoX (print_hex n v ++ rest)
unfolding print_hex
NoX-print_hex zero v rest h = h
NoX-print_hex (suc n) v rest h =
    let digit = v / 16 ^ n % 16 in
    let bounds = hex_digit-bounds digit (omega arith) in
    rw (print_hex-top n v) (ground (arith, bounds))

after_prefix-plain : (c : ℕ) (s : List ℕ) → NoX s → after_prefix (c ∷ s) ≡ c ∷ s
unfolding after_prefix
after_prefix-plain c s h = ground (arith, h)

skip_space-digit : (c : ℕ) (s : List ℕ) → 47 < c → skip_space (c ∷ s) ≡ c ∷ s
unfolding skip_space
skip_space-digit c s h = ground (arith, h)

read_number-scan :
    (all s : List ℕ) (r : ℕ × List ℕ)
    → after_prefix s ≡ s
    → scan 0 s ≡ r
    → is_xdigit (head s) ≡ true
    → leb (2 ^ 64) r.0 ≡ false
    → read_number all false s ≡ r
unfolding read_number
read_number-scan all s r same scanned digit small =
    rw (read_number, same, scanned, digit, small) refl

strtoul-digit :
    (c : ℕ) (s : List ℕ) (r : ℕ × List ℕ)
    → 47 < c
    → is_xdigit c ≡ true
    → NoX s
    → scan 0 (c ∷ s) ≡ r
    → leb (2 ^ 64) r.0 ≡ false
    → strtoul (c ∷ s) ≡ r
unfolding strtoul
strtoul-digit c s r high digit plain scanned small =
    let skipped = skip_space-digit c s high in
    let read =
      read_number-scan (c ∷ s) (c ∷ s) r (after_prefix-plain c s plain) scanned digit small in
    let not_dash : (c == 45) ≡ false = ground (arith, high) in
    let not_plus : (c == 43) ≡ false = ground (arith, high) in
    rw (strtoul, skipped, not_dash, not_plus) read

-- A printed number of 64 bits, up to what is no digit and no x.
pub strtoul-print_hex :
    (n v : ℕ) (rest : List ℕ)
    → 16 ^ suc n ≤ 2 ^ 64
    → v < 16 ^ suc n
    → NoX rest
    → ((value : ℕ) → scan value rest ≡ (value, rest))
    → strtoul (print_hex (suc n) v ++ rest) ≡ (v, rest)
strtoul-print_hex n v rest short fits plain ends =
    let digit = v / 16 ^ n % 16 in
    let digit-lt : digit < 16 = omega arith in
    let s = print_hex n v ++ rest in
    let top = ap (λ t. t ++ rest) (print_hex-top n v) in
    let scanned : scan 0 (hex_digit digit ∷ s) ≡ (v, rest) =
      ap (scan 0) (sym top)
      ∙ scan-print_hex (suc n) v 0 rest
      ∙ ends (0 * 16 ^ suc n + v % 16 ^ suc n)
      ∙ ap (λ t. (0 * 16 ^ suc n + t, rest)) (mod-eq_of_lt fits)
      ∙ ap (λ t. (t, rest)) (omega arith) in
    ap strtoul top
    ∙ strtoul-digit (hex_digit digit) s (v, rest) (hex_digit-bounds digit digit-lt).0
        (hex_digit-is_xdigit digit digit-lt) (NoX-print_hex n v rest plain) scanned
        (ground (arith, short, fits))

pub read_field-print_hex :
    (n v : ℕ) (rest : List ℕ)
    → 16 ^ suc n ≤ 2 ^ 64
    → v < 16 ^ suc n
    → NoX rest
    → ((value : ℕ) → scan value rest ≡ (value, rest))
    → read_field (suc n) (print_hex (suc n) v ++ rest) ≡ some (v, rest)
unfolding read_field
read_field-print_hex n v rest short fits plain ends =
    let read = strtoul-print_hex n v rest short fits plain ends in
    let digit = v / 16 ^ n % 16 in
    let first : is_xdigit (head (print_hex (suc n) v ++ rest)) ≡ true =
      ap (λ t. is_xdigit (head (t ++ rest))) (print_hex-top n v)
      ∙ hex_digit-is_xdigit digit (omega arith) in
    let long = length-print_hex (suc n) v rest in
    let same : (length rest + suc n == length (print_hex (suc n) v ++ rest)) ≡ true =
      ground (arith, long) in
    rw (read_field, read, first, same) refl

-- Two numbers side by side are one.
pub print_hex-append :
    (n m v w : ℕ) → w < 16 ^ m → print_hex n v ++ print_hex m w ≡ print_hex (n + m) (v * 16 ^ m + w)
unfolding print_hex
print_hex-append n zero v w h =
    let same : v ≡ v * 16 ^ 0 + w = omega (arith, h) in
    let n_same : n ≡ n + 0 = omega arith in
    ++-[] (print_hex n v)
    ∙ ap (λ t. print_hex n t) same
    ∙ ap (λ t. print_hex t (v * 16 ^ 0 + w)) n_same
print_hex-append n (suc m) v w h =
    let x = v * 16 ^ suc m + w in
    let less : w / 16 < 16 ^ m = omega (arith, h, pow-suc 16 m) in
    let scaled : v * 16 ^ suc m ≡ 16 * (v * 16 ^ m) = rw pow-suc (omega arith) in
    let high : v * 16 ^ m + w / 16 ≡ x / 16 = omega (arith, scaled) in
    let low : w % 16 ≡ x % 16 = omega (arith, scaled) in
    sym (++-assoc (print_hex n v) (print_hex m (w / 16)) (hex_digit (w % 16) ∷ []))
    ∙ ap (λ t. t ++ hex_digit (w % 16) ∷ []) (print_hex-append n m v (w / 16) less)
    ∙ ap (λ t. print_hex (n + m) t ++ hex_digit (w % 16) ∷ []) high
    ∙ ap (λ t. print_hex (n + m) (x / 16) ++ hex_digit t ∷ []) low
    ∙ ap (λ t. print_hex t x) (sym (add-suc n m))
