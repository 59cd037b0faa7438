-- ===== src/Formatting/Numbers/Coerced.antt =====
-- A dynamic value of a formatted integer.
use oocore.Prelude.{ℕ, ◌≡◌, refl, ap, ◌∙◌, Bool, true, Option, some, [], if◌then◌else◌}
use oocore.Values.Int.{ℤ, IntType, has_value}
use oocore.Values.Coerce
use oocore.Values.Coerce.{int64, uint64, type_of, text, scanned, scan, coerce_int}
use oocore.Values.Exact.{exact, int_conv-exact}
use oocore.Formatting.Decimal.{Text, strtol}
use oocore.Formatting.Numbers.Locale.{Lconv, Env}
use oocore.Formatting.Numbers.{
  NumFmt, signed, parse_numfmt, fmt_standard, fmt_recurse, width_precision, to_string_int, strto64,
}
use oocore.Formatting.Numbers.Read.{PrintsDigits, int64_type, strtol-fmt_standard}

module _ {F : Type 0} (env : Env F) (lc : Lconv) where
  to_string_int-standard :
      (v : ℤ) (format : Text) (width : ℕ) (fmt : NumFmt) (capital : Bool) (p : Option ℕ)
      → parse_numfmt format ≡ some (fmt, capital, p)
      → to_string_int env lc v format width
        ≡ some (fmt_standard env lc (signed v) fmt capital p (width_precision width))
  unfolding to_string_int
  to_string_int-standard v format width fmt capital p e = rw (to_string_int, fmt_recurse, e) refl

strto64-read : (t : Text) (v : ℤ) → strtol t ≡ (v, []) → strto64 t ≡ (v, true)
unfolding strto64
strto64-read t v e = rw e refl

-- An integer of 64 bits that is formatted by a standard format which prints its digits, and at
-- least one, is a text that coerces to any signed integer type as the integer itself does: it
-- gives the integer if the type has it, and an overflow with the target unchanged if not. The
-- reader of numbers is OOCore_strto64.
pub coerce_int-to_string_int :
    {F : Type 0} (values : Coerce.Env F) (env : Env F) (lc : Lconv) (to : IntType) (v old : ℤ)
    (format : Text) (width : ℕ) (fmt : NumFmt) (capital : Bool) (p : Option ℕ)
    → ((s : Text) → values.strto64 s ≡ strto64 s)
    → to.is_signed ≡ true
    → has_value int64_type v ≡ true
    → parse_numfmt format ≡ some (fmt, capital, p)
    → PrintsDigits fmt p v
    → (t : Text) × (to_string_int env lc v format width ≡ some t)
      × (coerce_int values to (text t) old ≡ exact to old v)
unfolding coerce_int scan scanned type_of
coerce_int-to_string_int values env lc to v old format width fmt capital p reads sign range e h =
    let t = fmt_standard env lc (signed v) fmt capital p (width_precision width) in
    let read : values.strto64 t ≡ (v, true) =
      reads t ∙ strto64-read t v (strtol-fmt_standard v range env lc fmt capital p width h) in
    (
      t,
      to_string_int-standard env lc v format width fmt capital p e,
      ap
            (λ (signed : Bool).
              if signed
              then scanned to int64 (values.strto64 t) old
              else scanned to uint64 (values.strtou64 t) old)
            sign
          ∙ ap (λ (r : ℤ × Bool). scanned to int64 r old) read
          ∙ int_conv-exact to (type_of int64) old v range,
    )
