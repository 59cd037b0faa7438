-- ===== src/Values/Int.antt =====
-- Integers, and the integer types of C++ as numeric_limits describes them.
use oocore.Prelude.{ℕ, ◌-◌, ◌*◌, ◌%◌, ◌^◌, Bool, true, false, ◌==◌, ltb, if◌then◌else◌}

-- `negsuc n` is -(n + 1).
pub data ℤ : Type 0 where
  pos : ℕ → ℤ
  negsuc : ℕ → ℤ

unfoldable pub ltb_ℤ : ℤ → ℤ → Bool
ltb_ℤ (pos a) (pos b) = ltb a b
ltb_ℤ (pos a) (negsuc b) = false
ltb_ℤ (negsuc a) (pos b) = true
ltb_ℤ (negsuc a) (negsuc b) = ltb b a

unfoldable pub eqb_ℤ : ℤ → ℤ → Bool
eqb_ℤ (pos a) (pos b) = a == b
eqb_ℤ (pos a) (negsuc b) = false
eqb_ℤ (negsuc a) (pos b) = false
eqb_ℤ (negsuc a) (negsuc b) = a == b

-- std::numeric_limits: digits leaves out the sign.
pub record IntType : Type 0 where
  pub is_signed : Bool
  pub digits : ℕ

-- max() and min()
unfoldable pub max_of : IntType → ℤ
max_of t = pos (2 ^ t.digits - 1)

unfoldable pub min_of : IntType → ℤ
min_of t = if t.is_signed then negsuc (2 ^ t.digits - 1) else pos 0

-- static_cast to a type: the value modulo 2 to the number of its bits, in two's complement
unfoldable pub from_bits : ℕ → ℕ → ℤ
from_bits half r = if ltb r half then pos r else negsuc (2 * half - 1 - r)

unfoldable pub residue : ℕ → ℤ → ℕ
residue m (pos n) = n % m
residue m (negsuc n) = m - 1 - n % m

unfoldable pub static_cast : IntType → ℤ → ℤ
static_cast t v =
    if t.is_signed
    then from_bits (2 ^ t.digits) (residue (2 * 2 ^ t.digits) v)
    else pos (residue (2 ^ t.digits) v)

-- Whether a type has a value, by the range of its bits
unfoldable pub has_value : IntType → ℤ → Bool
has_value t (pos n) = ltb n (2 ^ t.digits)
has_value t (negsuc n) = if t.is_signed then ltb n (2 ^ t.digits) else false
