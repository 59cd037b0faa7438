-- ===== src/Formatting/Colon.antt =====
-- The format of an argument that is written out.
use oocore.Prelude.{
  ◌+◌, ◌-◌, ◌≡◌, refl, sym, ap, subst, ◌∙◌, Option, none, some, [], ◌∷◌, ◌++◌, arith, length,
  length-append, ++-assoc,
}
use oocore.Values.Int.{ℤ}
use oocore.Strings.{memchr, find1, left}
use oocore.Formatting.Decimal.{Text, is_digit}
use oocore.Formatting.Braces.{merge_braces, format_of}
use oocore.Formatting.Places.{left-past}
use oocore.Formatting.Cuts.{
  NotBefore, Lacks, Lacks-append, find1-NotBefore, find1-at, merge_braces-plain,
}
use oocore.Formatting.Parsed.{
  comma_part, colon_part, format_or_none, IsPlainFormat, comma_part-Lacks,
}
use oocore.Formatting.Options.{from_arg, end_of, comma_in, colon_in, format_of-beyond, format_of-at}

module _ (pre d tail : Text) (commaless : Lacks 44 d) (colonless : Lacks 58 d) where
  -- Both searches stop behind the number.
  pub comma-after :
      (a : Option ℤ) (o : Option Text) → NotBefore (length pre + length d) (comma_in pre d a o tail)
  comma-after a o =
      subst (λ t. NotBefore (length pre + length d) (find1 (pre ++ t) 44 (length pre)))
        (sym (++-assoc d (comma_part a ++ colon_part o) (125 ∷ tail)))
        (find1-NotBefore pre d ((comma_part a ++ colon_part o) ++ 125 ∷ tail) 44 commaless)

  pub colon-after :
      (a : Option ℤ) (o : Option Text) → NotBefore (length pre + length d) (colon_in pre d a o tail)
  colon-after a o =
      subst (λ t. NotBefore (length pre + length d) (find1 (pre ++ t) 58 (length pre)))
        (sym (++-assoc d (comma_part a ++ colon_part o) (125 ∷ tail)))
        (find1-NotBefore pre d ((comma_part a ++ colon_part o) ++ 125 ∷ tail) 58 colonless)

  -- The place of the colon
  with_colon :
      (a : Option ℤ) (f : Text)
      → from_arg pre d a (some f) tail ≡ pre ++ ((d ++ comma_part a) ++ 58 ∷ (f ++ 125 ∷ tail))
  unfolding colon_part
  with_colon a f =
      ap (λ t. pre ++ t)
        (ap (λ t. t ++ 125 ∷ tail) (sym (++-assoc d (comma_part a) (58 ∷ f)))
          ∙ ++-assoc (d ++ comma_part a) (58 ∷ f) (125 ∷ tail))

  pub colon_at :
      (a : Option ℤ) (f : Text)
      → colon_in pre d a (some f) tail ≡ some (length pre + length (d ++ comma_part a))
  unfolding is_digit
  colon_at a f =
      ap (λ s. find1 s 58 (length pre)) (with_colon a f)
      ∙ find1-at pre (d ++ comma_part a) (f ++ 125 ∷ tail) 58
          (Lacks-append 58 d (comma_part a) colonless (comma_part-Lacks 58 a refl refl refl))

  no_colon : (a : Option ℤ) → NotBefore (end_of pre d a none) (colon_in pre d a none tail)
  unfolding colon_part is_digit memchr
  no_colon a = find1-NotBefore pre (d ++ (comma_part a ++ [])) (125 ∷ tail) 58 (
      Lacks-append 58 d (comma_part a ++ []) colonless
        (Lacks-append 58 (comma_part a) [] (comma_part-Lacks 58 a refl refl refl) refl))

  length_colon :
      (a : Option ℤ) (f : Text)
      → length (d ++ (comma_part a ++ colon_part (some f)))
        ≡ length (d ++ comma_part a) + 1 + length f
  unfolding colon_part
  length_colon a f =
      let whole = ap length (sym (++-assoc d (comma_part a) (58 ∷ f))) in
      let sum = length-append (d ++ comma_part a) (58 ∷ f) in omega (arith, whole, sum)

  -- The format between the colon and the end
  pub format_lem :
      (a : Option ℤ) (o : Option Text)
      → IsPlainFormat o
      → format_of (from_arg pre d a o tail) (end_of pre d a o) (colon_in pre d a o tail)
        ≡ format_or_none o
  unfolding format_or_none
  format_lem a none plain =
      format_of-beyond (from_arg pre d a none tail) (end_of pre d a none)
        (colon_in pre d a none tail) (no_colon a)
  format_lem a (some f) plain =
      let size = length_colon a f in
      let rest : end_of pre d a (some f) - (length pre + length (d ++ comma_part a)) - 1
          ≡ length f =
        omega (arith, size) in
      ap (format_of (from_arg pre d a (some f) tail) (end_of pre d a (some f))) (colon_at a f)
      ∙ format_of-at (from_arg pre d a (some f) tail) (end_of pre d a (some f))
          (length pre + length (d ++ comma_part a)) (omega (arith, size))
      ∙ ap merge_braces (
          ap (left (from_arg pre d a (some f) tail) (length pre + length (d ++ comma_part a) + 1))
            rest
          ∙ ap (λ s. left s (length pre + length (d ++ comma_part a) + 1) (length f))
              (with_colon a f)
          ∙ left-past pre (d ++ comma_part a) f (125 ∷ tail) 58)
      ∙ merge_braces-plain f plain.0 plain.1
