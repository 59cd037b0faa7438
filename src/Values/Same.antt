-- ===== src/Values/Same.antt =====
-- The equality of dynamic values, on integers of any two types.
use oocore.Prelude.{
  ℕ, ◌≡◌, ◌≢◌, ◌≤◌, ◌<◌, ◌⊎◌, refl, sym, ap, inl, inr, Bool, true, false, ◌||◌, ◌==◌, ==_iff,
  Bool-cases, arith,
}
use oocore.Values.Int.{ℤ, pos, negsuc, eqb_ℤ, IntType, has_value}
use oocore.Values.Coerce.{
  IntKind, byte, int16, uint16, int32, uint32, int64, uint64, type_of, int, Env, coerce_int,
}
use oocore.Values.Exact.{exact, int_conv-exact}
use oocore.Values.Equal.{
  number_of, both, if_valid, get_type, either_is, any_t_equal, equal_values, equal,
}

eqb_sound : (x y : ℤ) → eqb_ℤ x y ≡ true → x ≡ y
unfolding eqb_ℤ
eqb_sound (pos a) (pos b) h = ap (λ k. pos k) ((==_iff a b).0 h)
eqb_sound (pos a) (negsuc b) h = absurd (cc)
eqb_sound (negsuc a) (pos b) h = absurd (cc)
eqb_sound (negsuc a) (negsuc b) h = ap (λ k. negsuc k) ((==_iff a b).0 h)

differ : (t : IntType) (x y : ℤ) → has_value t x ≢ has_value t y → eqb_ℤ x y ≡ false
differ t x y n = elim (Bool-cases (eqb_ℤ x y)) [
  | inl same ↦ absurd (n (ap (λ v. has_value t v) (eqb_sound x y same)))
  | inr other ↦ other
]

apart : (a b : Bool) → a ≡ true → b ≡ false → a ≢ b
apart a b p q e = cc

-- Two values converted exactly are compared as they are, if the type has one of them.
both-exact :
    (t : IntType) (x y : ℤ)
    → (has_value t x || has_value t y) ≡ true
    → both eqb_ℤ (if_valid (exact t (pos 0) x)) (if_valid (exact t (pos 0) y)) ≡ eqb_ℤ x y
unfolding exact if_valid both
both-exact t x y h = elim (Bool-cases (has_value t x)) [
  | inl has_x ↦ elim (Bool-cases (has_value t y)) [
    | inl has_y ↦ rw (has_x, has_y) refl
    | inr no_y ↦ rw (has_x, no_y) (sym (differ t x y (apart _ _ has_x no_y)))
  ]
  | inr no_x ↦ elim (Bool-cases (has_value t y)) [
    | inl has_y ↦ rw (no_x) (sym (differ t x y (λ e. apart _ _ has_y no_x (sym e))))
    | inr no_y ↦ absurd (ground (arith, h, no_x, no_y))
  ]
]

fits_int64 :
    (k : IntKind) (v : ℤ)
    → (number_of k == 8) ≡ false
    → has_value (type_of k) v ≡ true
    → has_value (type_of int64) v ≡ true
unfolding type_of number_of has_value
fits_int64 byte (pos n) u h = ground arith
fits_int64 byte (negsuc n) u h = ground arith
fits_int64 int16 (pos n) u h = ground arith
fits_int64 int16 (negsuc n) u h = ground arith
fits_int64 uint16 (pos n) u h = ground arith
fits_int64 uint16 (negsuc n) u h = ground arith
fits_int64 int32 (pos n) u h = ground arith
fits_int64 int32 (negsuc n) u h = ground arith
fits_int64 uint32 (pos n) u h = ground arith
fits_int64 uint32 (negsuc n) u h = ground arith
fits_int64 int64 v u h = h
fits_int64 uint64 v u h = absurd (cc)

fits_uint64 :
    (k : IntKind) (v : ℤ)
    → (number_of k == 8) ≡ true
    → has_value (type_of k) v ≡ true
    → has_value (type_of uint64) v ≡ true
unfolding number_of
fits_uint64 byte v u h = absurd (cc)
fits_uint64 int16 v u h = absurd (cc)
fits_uint64 uint16 v u h = absurd (cc)
fits_uint64 int32 v u h = absurd (cc)
fits_uint64 uint32 v u h = absurd (cc)
fits_uint64 int64 v u h = absurd (cc)
fits_uint64 uint64 v u h = h

number_of-bounds : (k : IntKind) → (2 ≤ number_of k) × (number_of k ≤ 8)
unfolding number_of
number_of-bounds byte = (omega arith, omega arith)
number_of-bounds int16 = (omega arith, omega arith)
number_of-bounds uint16 = (omega arith, omega arith)
number_of-bounds int32 = (omega arith, omega arith)
number_of-bounds uint32 = (omega arith, omega arith)
number_of-bounds int64 = (omega arith, omega arith)
number_of-bounds uint64 = (omega arith, omega arith)

module _ {F : Type 0} (env : Env F) (k j : IntKind) (x y : ℤ)
    (has_x : has_value (type_of k) x ≡ true) (has_y : has_value (type_of j) y ≡ true) where
  compared : IntType → Bool
  compared t =
      both eqb_ℤ (if_valid (coerce_int env t (int k x) (pos 0)))
        (if_valid (coerce_int env t (int j y) (pos 0)))

  compared-exact : (t : IntType) → (has_value t x || has_value t y) ≡ true → compared t ≡ eqb_ℤ x y
  unfolding compared coerce_int
  compared-exact t h =
      rw
        (int_conv-exact t (type_of k) (pos 0) x has_x, int_conv-exact t (type_of j) (pos 0) y has_y)
        (both-exact t x y h)

  not_either : (t : ℕ) → (t < 2) ⊎ (8 < t) → either_is {F = F} t (int k x) (int j y) ≡ false
  unfolding either_is get_type
  not_either t h =
      let (a, b) = number_of-bounds k in
      let (c, d) = number_of-bounds j in elim h [ inl low ↦ ground arith | inr high ↦ ground arith ]

  fits_either :
      either_is {F = F} 8 (int k x) (int j y) ≡ true
      → (has_value (type_of uint64) x || has_value (type_of uint64) y) ≡ true
  unfolding either_is get_type
  fits_either h = elim (Bool-cases (number_of k == 8)) [
    | inl first ↦ rw (fits_uint64 k x first has_x) refl
    | inr no_first ↦ rw (fits_uint64 j y (ground arith) has_y) (ground arith)
  ]

  fits_first :
      either_is {F = F} 8 (int k x) (int j y) ≡ false
      → (has_value (type_of int64) x || has_value (type_of int64) y) ≡ true
  unfolding either_is get_type
  fits_first h = rw (fits_int64 k x (ground arith) has_x) refl

  any_t_equal-ints : any_t_equal env (int k x) (int j y) ≡ eqb_ℤ x y
  unfolding any_t_equal both compared
  any_t_equal-ints =
      rw
        (
          not_either 0 (inl (omega arith)),
          not_either 12 (inr (omega arith)),
          not_either 11 (inr (omega arith)),
          not_either 1 (inl (omega arith)),
          not_either 10 (inr (omega arith)),
          not_either 9 (inr (omega arith)),
        )
        (elim (Bool-cases (either_is {F = F} 8 (int k x) (int j y))) [
          | inl wide ↦ rw wide (compared-exact (type_of uint64) (fits_either wide))
          | inr narrow ↦ rw narrow (compared-exact (type_of int64) (fits_first narrow))
        ])

  -- Two dynamic values of integer types, each within its type, are equal exactly if they are the
  -- same number, whatever the two types are.
  pub equal-ints : equal env (int k x) (int j y) ≡ eqb_ℤ x y
  unfolding equal get_type equal_values
  equal-ints = elim (Bool-cases (number_of j == number_of k)) [
    | inl same ↦ rw same refl
    | inr other ↦ rw other any_t_equal-ints
  ]
