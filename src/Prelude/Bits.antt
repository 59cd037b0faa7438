-- ===== src/Prelude/Bits.antt =====
-- Masks and shifts as arithmetic, at every width.
mod Step
use Step.{bit_or_step, bit_and_step}
use Prim.Native.Nat.{ℕ, zero, suc, ◌+◌, ◌-◌, ◌*◌, ◌/◌, ◌%◌, ◌^◌, ◌≤◌, ◌<◌, bit_and, bit_or}
use mathlib.Core.Path.{◌≡◌, refl, sym, ap, ◌∙◌}
use native.Mathlib.Nat.{add-zero, add-suc, pow-suc, one-le-pow, mod-lt, div-add-mod'}
use native.Mathlib.Omega.{arith}

with_zero : (bound a : ℕ) → a ≤ bound → (bit_or a 0 ≡ a) × (bit_and a 0 ≡ 0)
with_zero bound zero below = (refl, refl)
with_zero zero (suc a) below = absurd (omega arith)
with_zero (suc bound) (suc a) below =
    let half = with_zero bound (suc a / 2) (omega arith) in
    (omega (arith, bit_or_step (suc a) 0, half.0), omega (arith, bit_and_step (suc a) 0, half.1))

pub bit_or-zero : (a : ℕ) → bit_or a 0 ≡ a
bit_or-zero a = (with_zero a a (omega arith)).0

pub bit_and-zero : (a : ℕ) → bit_and a 0 ≡ 0
bit_and-zero a = (with_zero a a (omega arith)).1

-- x * 2^(k+1), as twice x * 2^k.
pub mul-pow_twice : (x k : ℕ) → x * 2 ^ suc k ≡ 2 * (x * 2 ^ k)
mul-pow_twice x k = rw (pow-suc 2 k) (omega arith)

-- `x | r`, where the `k` low bits of x are clear and r lies in them, is a sum.
pub bit_or_disjoint : (k q r : ℕ) → r < 2 ^ k → bit_or (q * 2 ^ k) r ≡ q * 2 ^ k + r
bit_or_disjoint zero q r h = let e : r ≡ 0 = omega arith in rw (e, bit_or-zero) (omega arith)
bit_or_disjoint (suc k) q r h =
    let low = bit_or_disjoint k q (r / 2) (omega (arith, pow-suc 2 k)) in
    ground (arith, bit_or_step (q * 2 ^ suc k) r, mul-pow_twice q k, low)

-- A mask that starts `k` bits up sees only what lies there.
pub bit_and_shift :
    (k a m r : ℕ) → r < 2 ^ k → bit_and (a * 2 ^ k + r) (m * 2 ^ k) ≡ bit_and a m * 2 ^ k
bit_and_shift zero a m r h =
    let e : a * 2 ^ 0 + r ≡ a = omega arith in
    let f : m * 2 ^ 0 ≡ m = omega arith in rw (e, f) (omega arith)
bit_and_shift (suc k) a m r h =
    let low = bit_and_shift k a m (r / 2) (omega (arith, pow-suc 2 k)) in
    ground (
      arith,
      bit_and_step (a * 2 ^ suc k + r) (m * 2 ^ suc k),
      mul-pow_twice a k,
      mul-pow_twice m k,
      mul-pow_twice (bit_and a m) k,
      low,
    )

mod_twice : (a p : ℕ) → 0 < p → a % (p * 2) ≡ a / 2 % p * 2 + a % 2
mod_twice a p h = grind (arith, mod-lt)

-- A mask of the `k` low bits is the remainder by `2 ^ k`.
pub bit_and_low : (k a : ℕ) → bit_and a (2 ^ k - 1) ≡ a % 2 ^ k
bit_and_low zero a = bit_and-zero a ∙ omega arith
bit_and_low (suc k) a =
    let pos : 0 < 2 ^ k = one-le-pow k 2 (omega arith) in
    let half : (2 ^ k * 2 - 1) / 2 ≡ 2 ^ k - 1 = omega (arith, pos) in
    let odd : (2 ^ k * 2 - 1) % 2 ≡ 1 = omega (arith, pos) in
    rw (pow-suc 2 k) (
      bit_and_step a (2 ^ k * 2 - 1)
      ∙ rw (half, odd, bit_and_low k (a / 2)) (omega (arith, mod_twice a (2 ^ k) pos)))

-- `(x >> k) & (2^j - 1)`, put back in place: what a mask of j bits from bit k on leaves of x.
pub bit_and_field : (k j x : ℕ) → bit_and x ((2 ^ j - 1) * 2 ^ k) ≡ x / 2 ^ k % 2 ^ j * 2 ^ k
bit_and_field k j x =
    let m : ℕ = 2 ^ j - 1 in
    ap (λ t. bit_and t (m * 2 ^ k)) (sym (div-add-mod' x (2 ^ k)))
    ∙ bit_and_shift k (x / 2 ^ k) m (x % 2 ^ k) (mod-lt x (one-le-pow k 2 (omega arith)))
    ∙ ap (λ t. t * 2 ^ k) (bit_and_low j (x / 2 ^ k))

pub pow-add : (a b : ℕ) → 2 ^ (a + b) ≡ 2 ^ a * 2 ^ b
pow-add a zero = rw add-zero (omega arith)
pow-add a (suc b) = rw (add-suc, pow-suc, pow-suc, pow-add a b) (omega arith)

pub pow_mono : (a b : ℕ) → a ≤ b → 2 ^ a ≤ 2 ^ b
pow_mono a b h =
    let e : a + (b - a) ≡ b = omega arith in
    let one = one-le-pow (b - a) 2 (omega arith) in
    let sum : 2 ^ b ≡ 2 ^ a * 2 ^ (b - a) = ap (λ (t : ℕ). 2 ^ t) (sym e) ∙ pow-add a (b - a) in
    rw sum (grind arith)
