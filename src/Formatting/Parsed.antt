-- ===== src/Formatting/Parsed.antt =====
-- What parse_arg makes of an argument that is written out.
use oocore.Prelude.{
  ℕ, zero, suc, ◌+◌, ◌%◌, ◌/◌, ◌<◌, ◌≡◌, refl, inl, inr, true, false, Option, none, some, [], ◌∷◌,
  ◌++◌, arith, ◌==◌, ltb, Bool-cases,
}
use oocore.Values.Int.{ℤ, pos, negsuc, has_value}
use oocore.Strings.{memchr}
use oocore.Formatting.Decimal.{Text, digits_from, digits, print_signed, is_digit}
use oocore.Formatting.Braces.{Insert}
use oocore.Formatting.Cuts.{Lacks, Lacks-append}

-- An argument of a format string and the text behind it
pub record Piece : Type 0 where
  pub index : ℕ
  pub alignment : Option ℤ
  pub format : Option Text
  pub suffix : Text

unfoldable pub comma_part : Option ℤ → Text
comma_part none = []
comma_part (some a) = 44 ∷ print_signed a

unfoldable pub colon_part : Option Text → Text
colon_part none = []
colon_part (some f) = 58 ∷ f

unfoldable pub arg_text : Piece → Text
unfolding comma_part colon_part
arg_text p = digits p.index ++ (comma_part p.alignment ++ colon_part p.format)

unfoldable pub alignment_or_0 : Option ℤ → ℤ
alignment_or_0 none = pos 0
alignment_or_0 (some a) = a

unfoldable pub format_or_none : Option Text → Text
format_or_none none = []
format_or_none (some f) = f

-- The insert_t that is meant
unfoldable pub insert_of : Piece → Text → Insert
unfolding alignment_or_0 format_or_none
insert_of p suffix = record {
  index = p.index;
  alignment = alignment_or_0 p.alignment;
  format = format_or_none p.format;
  suffix = suffix;
}

abbrev pub IsPlain : Text → Type 0
IsPlain s = Lacks 123 s × Lacks 125 s

abbrev pub IsInRange : Option ℤ → Type 0
IsInRange none = Unit {0}
IsInRange (some a) = has_value (record { is_signed = true; digits = 63 }) a ≡ true

abbrev pub IsPlainFormat : Option Text → Type 0
IsPlainFormat none = Unit {0}
IsPlainFormat (some f) = IsPlain f

-- A digit is none of the bytes that parse_arg looks for.
digit-ne : (d c : ℕ) → d < 10 → is_digit c ≡ false → ((48 + d) == c) ≡ false
unfolding is_digit
digit-ne d c h e = ground (arith, h, e)

digits_from-Lacks : (c fuel n : ℕ) → is_digit c ≡ false → Lacks c (digits_from fuel n)
unfolding digits_from
digits_from-Lacks c zero n e = unfold memchr in refl
digits_from-Lacks c (suc fuel) n e = elim (Bool-cases (ltb n 10)) [
  | inl small ↦ rw small (one n (ground (arith, small)))
  | inr large ↦ rw large (
      Lacks-append c (digits_from fuel (n / 10)) ((48 + n % 10) ∷ [])
        (digits_from-Lacks c fuel (n / 10) e) (one (n % 10) (omega arith)))
]
  where
    one : (d : ℕ) → d < 10 → Lacks c ((48 + d) ∷ [])
    one d h = unfold memchr in rw (digit-ne d c h e) refl

pub digits-Lacks : (c n : ℕ) → is_digit c ≡ false → Lacks c (digits n)
unfolding digits
digits-Lacks c n e = digits_from-Lacks c (suc n) n e

-- A byte that is neither in a number nor before an alignment
pub comma_part-Lacks :
    (c : ℕ) (a : Option ℤ)
    → is_digit c ≡ false
    → (45 == c) ≡ false
    → (44 == c) ≡ false
    → Lacks c (comma_part a)
unfolding comma_part print_signed memchr
comma_part-Lacks c none e f g = refl
comma_part-Lacks c (some (pos n)) e f g = rw (g, digits-Lacks c n e) refl
comma_part-Lacks c (some (negsuc n)) e f g = rw (g, f, digits-Lacks c (suc n) e) refl

pub colon_part-Lacks :
    (c : ℕ) (o : Option Text)
    → (58 == c) ≡ false
    → ((f : Text) → o ≡ some f → Lacks c f)
    → Lacks c (colon_part o)
unfolding colon_part memchr
colon_part-Lacks c none e l = refl
colon_part-Lacks c (some f) e l = rw (e, l f refl) refl
