-- ===== src/Values/Exact.antt =====
-- int_conv accepts exactly the values that the target type has, and gives them unchanged.
use native.Mathlib.Nat.{mod-eq_of_lt, one-le-pow, mul-add-mod_self_right}
use oocore.Prelude.{
  ℕ, zero, suc, ◌+◌, ◌-◌, ◌*◌, ◌%◌, ◌^◌, ◌≤◌, ◌<◌, ◌≡◌, refl, sym, ap, subst, ◌∙◌, inl, inr, Bool,
  true, false, not, ltb, leb, ◌||◌, Bool-cases, if◌then◌else◌, arith,
}
use oocore.Prelude.Bits.{pow_mono, pow-add}
use oocore.Values.Int.{
  ℤ, pos, negsuc, ltb_ℤ, IntType, max_of, min_of, from_bits, residue, static_cast, has_value,
}
use oocore.Values.Convert.{CastResult, valid, overflow, assign_unless, int_conv_signs, int_conv}

two-pow-pos : (k : ℕ) → 0 < 2 ^ k
two-pow-pos k = one-le-pow k 2 (omega arith)

-- Over a type with 2p values, those from -p on are back after the reduction.
from_bits-residue_pos : (p n : ℕ) → n < p → from_bits p (residue (2 * p) (pos n)) ≡ pos n
unfolding from_bits residue
from_bits-residue_pos p n h =
    let e : n % (2 * p) ≡ n = mod-eq_of_lt (omega arith) in rw e (ground arith)

from_bits-residue_neg : (p n : ℕ) → n < p → from_bits p (residue (2 * p) (negsuc n)) ≡ negsuc n
unfolding from_bits residue
from_bits-residue_neg p n h =
    let e : n % (2 * p) ≡ n = mod-eq_of_lt (omega arith) in rw e (ground arith)

unsigned : (p n : ℕ) → n < p → residue p (pos n) ≡ n
unfolding residue
unsigned p n h = mod-eq_of_lt h

pub static_cast-value : (t : IntType) (v : ℤ) → has_value t v ≡ true → static_cast t v ≡ v
unfolding static_cast has_value
static_cast-value t (pos n) h = elim (Bool-cases t.is_signed) [
  | inl s ↦ rw s (from_bits-residue_pos (2 ^ t.digits) n (ground arith))
  | inr u ↦ rw u (ap (λ k. pos k) (unsigned (2 ^ t.digits) n (ground arith)))
]
static_cast-value t (negsuc n) h = elim (Bool-cases t.is_signed) [
  | inl s ↦ rw s (from_bits-residue_neg (2 ^ t.digits) n (ground arith))
  | inr u ↦ absurd (ground arith)
]

-- What a conversion is to be
unfoldable pub exact : IntType → ℤ → ℤ → CastResult × ℤ
exact to old v = if has_value to v then (valid, v) else (overflow, old)

assign_unless-exact :
    (overflows : Bool) (to : IntType) (old v : ℤ)
    → overflows ≡ not (has_value to v)
    → assign_unless overflows to old v ≡ exact to old v
unfolding assign_unless exact
assign_unless-exact overflows to old v h = elim (Bool-cases (has_value to v)) [
  | inl has ↦ rw (h, has, static_cast-value to v has) refl
  | inr lacks ↦ rw (h, lacks) refl
]

-- The greatest value of the target, as the source type sees it
max-seen_signed :
    (to from : IntType)
    → from.is_signed ≡ true
    → to.digits < from.digits
    → static_cast from (max_of to) ≡ max_of to
unfolding max_of has_value
max-seen_signed to from s h =
    static_cast-value from (max_of to)
      (ground (arith, pow_mono to.digits from.digits (omega arith), two-pow-pos to.digits))

multiple_mod : (c q : ℕ) → 0 < c → 0 < q → (c * q - 1) % q ≡ q - 1
multiple_mod zero q c0 h = absurd (omega arith)
multiple_mod (suc c) q c0 h =
    let e : suc c * q - 1 ≡ c * q + (q - 1) = grind arith in
    ap (λ t. t % q) e ∙ mul-add-mod_self_right c q (q - 1) ∙ mod-eq_of_lt (omega arith)

-- (p - 1) % q for two powers of 2
max_mod : (dt df : ℕ) → df ≤ dt → (2 ^ dt - 1) % 2 ^ df ≡ 2 ^ df - 1
max_mod dt df h =
    let e : dt ≡ (dt - df) + df = omega arith in
    let split : 2 ^ dt ≡ 2 ^ (dt - df) * 2 ^ df = ap (λ (t : ℕ). 2 ^ t) e ∙ pow-add (dt - df) df in
    ap (λ t. (t - 1) % 2 ^ df) split
    ∙ multiple_mod (2 ^ (dt - df)) (2 ^ df) (two-pow-pos (dt - df)) (two-pow-pos df)

max-seen_unsigned :
    (to from : IntType) (n : ℕ)
    → from.is_signed ≡ false
    → n < 2 ^ from.digits
    → ltb_ℤ (static_cast from (max_of to)) (pos n) ≡ not (ltb n (2 ^ to.digits))
unfolding max_of static_cast residue ltb_ℤ
max-seen_unsigned to from n u h = elim (Bool-cases (leb from.digits to.digits)) [
  | inl wide ↦
      let e = max_mod to.digits from.digits (ground arith) in
      let mono = pow_mono from.digits to.digits (ground arith) in
      rw (u, e) (ground (arith, two-pow-pos from.digits))
  | inr narrow ↦
      let mono = pow_mono to.digits from.digits (ground arith) in
      let e : (2 ^ to.digits - 1) % 2 ^ from.digits ≡ 2 ^ to.digits - 1 =
        mod-eq_of_lt (omega (arith, two-pow-pos to.digits)) in
      rw (u, e) (ground (arith, two-pow-pos to.digits))
]

module _ (to from : IntType) where
  widened :
      (v : ℤ)
      → has_value from v ≡ true
      → to.is_signed ≡ from.is_signed
      → 2 ^ from.digits ≤ 2 ^ to.digits
      → false ≡ not (has_value to v)
  unfolding has_value
  widened (pos n) has s h = ground arith
  widened (negsuc n) has s h = ground arith

  sign_lost :
      (v : ℤ)
      → has_value from v ≡ true
      → to.is_signed ≡ false
      → 2 ^ from.digits ≤ 2 ^ to.digits
      → ltb_ℤ v (pos 0) ≡ not (has_value to v)
  unfolding has_value ltb_ℤ
  sign_lost (pos n) has u h = ground arith
  sign_lost (negsuc n) has u h = ground arith

  narrowed_unsigned :
      (v : ℤ)
      → to.is_signed ≡ false
      → (ltb_ℤ v (pos 0) || ltb_ℤ (max_of to) v) ≡ not (has_value to v)
  unfolding has_value ltb_ℤ max_of
  narrowed_unsigned (pos n) u = ground (arith, two-pow-pos to.digits)
  narrowed_unsigned (negsuc n) u = ground arith

  narrowed_pos :
      (v : ℤ)
      → has_value from v ≡ true
      → to.is_signed ≡ false
      → from.is_signed ≡ false
      → ltb_ℤ (max_of to) v ≡ not (has_value to v)
  unfolding has_value ltb_ℤ max_of
  narrowed_pos (pos n) has t f = ground (arith, two-pow-pos to.digits)
  narrowed_pos (negsuc n) has t f = absurd (ground arith)

  narrowed_signed :
      (v : ℤ)
      → to.is_signed ≡ true
      → (ltb_ℤ v (min_of to) || ltb_ℤ (max_of to) v) ≡ not (has_value to v)
  unfolding has_value ltb_ℤ max_of min_of
  narrowed_signed (pos n) s = ground (arith, two-pow-pos to.digits)
  narrowed_signed (negsuc n) s = ground (arith, two-pow-pos to.digits)

  unsigned_seen :
      (v : ℤ)
      → has_value from v ≡ true
      → from.is_signed ≡ false
      → ltb_ℤ (static_cast from (max_of to)) v ≡ not (has_value to v)
  unfolding has_value
  unsigned_seen (pos n) has u = max-seen_unsigned to from n u (ground arith)
  unsigned_seen (negsuc n) has u = absurd (ground arith)

  -- The specialisation that the signs and the digits select
  int_conv_signs-exact :
      (ts fs wide : Bool) (old v : ℤ)
      → has_value from v ≡ true
      → to.is_signed ≡ ts
      → from.is_signed ≡ fs
      → leb from.digits to.digits ≡ wide
      → int_conv_signs ts fs wide to from old v ≡ exact to old v
  unfolding int_conv_signs
  int_conv_signs-exact false false true old v has t f w =
      assign_unless-exact false to old v
        (widened v has (t ∙ sym f) (pow_mono from.digits to.digits (ground arith)))
  int_conv_signs-exact true true true old v has t f w =
      assign_unless-exact false to old v
        (widened v has (t ∙ sym f) (pow_mono from.digits to.digits (ground arith)))
  int_conv_signs-exact false true true old v has t f w =
      assign_unless-exact _ to old v
        (sign_lost v has t (pow_mono from.digits to.digits (ground arith)))
  int_conv_signs-exact false true false old v has t f w =
      assign_unless-exact _ to old v
        (rw (max-seen_signed to from f (ground arith)) (narrowed_unsigned v t))
  int_conv_signs-exact true false wide old v has t f w =
      assign_unless-exact _ to old v (unsigned_seen v has f)
  int_conv_signs-exact false false false old v has t f w =
      assign_unless-exact _ to old v (narrowed_pos v has t f)
  int_conv_signs-exact true true false old v has t f w =
      assign_unless-exact _ to old v (narrowed_signed v t)

  -- Of a value that its integer type has, int_conv between any two integer types gives the value
  -- itself if the target type has it, and an overflow with the target unchanged if not.
  pub int_conv-exact :
      (old v : ℤ) → has_value from v ≡ true → int_conv to from old v ≡ exact to old v
  unfolding int_conv
  int_conv-exact old v has =
      int_conv_signs-exact to.is_signed from.is_signed (leb from.digits to.digits) old v has refl
        refl refl

clash : {a b : ℤ} → ◌≡◌ {A = CastResult × ℤ} (overflow, a) (valid, b) → ⊥
clash e = let o : overflow ≡ valid = ap (λ r. r.0) e in cc

-- What int_conv has made of a value of its type without an overflow, it converts back to that
-- value.
int_conv-back :
    (to from : IntType) (old old' x y : ℤ)
    → has_value from x ≡ true
    → int_conv to from old x ≡ (valid, y)
    → int_conv from to old' y ≡ (valid, x)
unfolding exact
int_conv-back to from old old' x y has e =
    let made : exact to old x ≡ (valid, y) = sym (int_conv-exact to from old x has) ∙ e in
    elim (Bool-cases (has_value to x)) [
      | inl fits ↦
          let same : x ≡ y = ap (λ r. r.1) (rw (exact, fits) at made) in
          subst (λ v. int_conv from to old' v ≡ (valid, x)) same
            (int_conv-exact from to old' x fits ∙ rw (exact, has) refl)
      | inr lacks ↦ absurd (clash (rw (exact, lacks) at made))
    ]
