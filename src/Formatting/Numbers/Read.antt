-- ===== src/Formatting/Numbers/Read.antt =====
-- Numbers that are formatted and read back.
use oocore.Prelude.{
  ℕ, zero, suc, ◌≡◌, refl, sym, ap, ◌∙◌, Bool, true, false, ◌&&◌, Option, none, some, [], arith,
  ◌==◌, ++-[],
}
use oocore.Values.Int.{ℤ, pos, eqb_ℤ, has_value, IntType}
use oocore.Formatting.Decimal.{print_signed, print_signed_precise, is_digit, strtol}
use oocore.Formatting.Decimal.Reads.{strtol-print_signed, strtol-print_signed_precise}
use oocore.Formatting.Numbers.Locale.{Lconv, Env}
use oocore.Formatting.Numbers.{
  NumFmt, unspecified, currency, decimal, scientific, fixed_point, general, number, round_trip,
  hexadecimal, signed, fmt_decimal, fmt_general_i, fmt_general, general_precision, fmt_round_trip,
  fmt_standard, width_precision,
}

-- The formats that print all digits of an integer, and at least one
abbrev pub PrintsDigits : NumFmt → Option ℕ → ℤ → Type 0
PrintsDigits unspecified p v = Unit {0}
PrintsDigits general p v = Unit {0}
PrintsDigits decimal none v = Unit {0}
PrintsDigits decimal (some p) v = ((p == 0) && eqb_ℤ v (pos 0)) ≡ false
PrintsDigits round_trip p v = eqb_ℤ v (pos 0) ≡ false
PrintsDigits currency p v = ⊥
PrintsDigits scientific p v = ⊥
PrintsDigits fixed_point p v = ⊥
PrintsDigits number p v = ⊥
PrintsDigits hexadecimal p v = ⊥

abbrev pub int64_type : IntType
int64_type = record { is_signed = true; digits = 63 }

module _ (v : ℤ) (in_range : has_value int64_type v ≡ true) where
  read_signed_back : strtol (print_signed v) ≡ (v, [])
  read_signed_back =
      ap strtol (sym (++-[] (print_signed v)))
      ∙ strtol-print_signed v [] in_range (unfold is_digit in refl)

  read_precise_back :
      (p : ℕ) → ((p == 0) && eqb_ℤ v (pos 0)) ≡ false → strtol (print_signed_precise p v) ≡ (v, [])
  read_precise_back p h =
      ap strtol (sym (++-[] (print_signed_precise p v)))
      ∙ strtol-print_signed_precise p v [] in_range h (unfold is_digit in refl)

  some_digits :
      (p : Option ℕ) (width : ℕ)
      → ((general_precision p (width_precision width) == 0) && eqb_ℤ v (pos 0)) ≡ false
  unfolding general_precision width_precision
  some_digits none width = ground arith
  some_digits (some zero) width = ground arith
  some_digits (some (suc p)) width = ground arith

  module _ {F : Type 0} (env : Env F) (lc : Lconv) where
    -- With no separators do_intl leaves a text as it is.
    fmt_general-signed :
        (capital : Bool) (p : Option ℕ)
        → fmt_general env lc (signed v) capital p true ≡ fmt_general_i env lc (signed v) capital p
    unfolding fmt_general
    fmt_general-signed capital p = refl

    pub strtol-fmt_standard :
        (fmt : NumFmt) (capital : Bool) (p : Option ℕ) (width : ℕ)
        → PrintsDigits fmt p v
        → strtol (fmt_standard env lc (signed v) fmt capital p (width_precision width)) ≡ (v, [])
    unfolding fmt_standard fmt_decimal fmt_general_i fmt_round_trip
    strtol-fmt_standard unspecified capital p width h =
        ap strtol (fmt_general-signed capital none) ∙ read_signed_back
    strtol-fmt_standard general capital p width h =
        ap strtol (fmt_general-signed capital (some (general_precision p (width_precision width))))
        ∙ read_precise_back (general_precision p (width_precision width)) (some_digits p width)
    strtol-fmt_standard decimal capital none width h = read_signed_back
    strtol-fmt_standard decimal capital (some p) width h = read_precise_back p h
    strtol-fmt_standard round_trip capital p width h = read_precise_back 0 (unfold eqb_ℤ in h)
    strtol-fmt_standard currency capital p width h = absurd h
    strtol-fmt_standard scientific capital p width h = absurd h
    strtol-fmt_standard fixed_point capital p width h = absurd h
    strtol-fmt_standard number capital p width h = absurd h
    strtol-fmt_standard hexadecimal capital p width h = absurd h
