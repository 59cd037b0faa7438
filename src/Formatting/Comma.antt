-- ===== src/Formatting/Comma.antt =====
-- The alignment of an argument that is written out.
use oocore.Prelude.{
  suc, ◌+◌, ◌<◌, ◌≡◌, refl, sym, ap, subst, ◌∙◌, Option, none, some, [], ◌∷◌, ◌++◌, arith, length,
  drop, length-append, ++-assoc, ++-[],
}
use oocore.Values.Int.{ℤ}
use oocore.Strings.{memchr, find1}
use oocore.Formatting.Decimal.{Text, is_digit, print_signed, strtol}
use oocore.Formatting.Decimal.Reads.{EndsNumber, strtol-print_signed}
use oocore.Formatting.Braces.{alignment_of}
use oocore.Formatting.Places.{drop-past}
use oocore.Formatting.Cuts.{NotBefore, Lacks, Lacks-append, find1-NotBefore, find1-at}
use oocore.Formatting.Parsed.{comma_part, colon_part, alignment_or_0, IsInRange}
use oocore.Formatting.Options.{
  from_arg, end_of, comma_in, colon_in, alignment_of-beyond, alignment_of-behind, alignment_of-at,
}
use oocore.Formatting.Colon.{comma-after, colon_at}

module _ (pre d tail : Text) (commaless : Lacks 44 d) (colonless : Lacks 58 d) where
  -- The text behind the comma
  with_comma :
      (a : ℤ) (o : Option Text)
      → from_arg pre d (some a) o tail
        ≡ pre ++ (d ++ 44 ∷ (print_signed a ++ (colon_part o ++ 125 ∷ tail)))
  unfolding comma_part
  with_comma a o =
      ap (λ t. pre ++ t)
        (++-assoc d (44 ∷ (print_signed a ++ colon_part o)) (125 ∷ tail)
          ∙ ap (λ t. d ++ 44 ∷ t) (++-assoc (print_signed a) (colon_part o) (125 ∷ tail)))

  comma_at :
      (a : ℤ) (o : Option Text) → comma_in pre d (some a) o tail ≡ some (length pre + length d)
  comma_at a o =
      ap (λ s. find1 s 44 (length pre)) (with_comma a o)
      ∙ find1-at pre d (print_signed a ++ (colon_part o ++ 125 ∷ tail)) 44 commaless

  ends : (o : Option Text) → EndsNumber (colon_part o ++ 125 ∷ tail)
  unfolding colon_part is_digit
  ends none = refl
  ends (some f) = refl

  alignment_some :
      (a : ℤ) (o : Option Text)
      → IsInRange (some a)
      → alignment_of
          (from_arg pre d (some a) o tail)
          (end_of pre d (some a) o)
          (comma_in pre d (some a) o tail)
          (colon_in pre d (some a) o tail)
        ≡ a
  alignment_some a o range =
      ap
        (λ c.
          alignment_of (from_arg pre d (some a) o tail) (end_of pre d (some a) o) c
            (colon_in pre d (some a) o tail))
        (comma_at a o)
      ∙ alignment_of-at (from_arg pre d (some a) o tail) (end_of pre d (some a) o)
          (length pre + length d) (colon_in pre d (some a) o tail) (inside a o) (behind o)
      ∙ ap (λ t. (strtol t).0)
          (ap (drop (length pre + length d + 1)) (with_comma a o)
            ∙ drop-past pre d (print_signed a ++ (colon_part o ++ 125 ∷ tail)) 44)
      ∙ ap (λ (r : ℤ × Text). r.0)
          (strtol-print_signed a (colon_part o ++ 125 ∷ tail) range (ends o))
    where
      inside : (a : ℤ) (o : Option Text) → length pre + length d < end_of pre d (some a) o
      inside a o =
          unfold comma_part in
          let sum = length-append d (44 ∷ (print_signed a ++ colon_part o)) in omega (arith, sum)

      behind :
          (o : Option Text)
          → NotBefore (suc (length pre + length d)) (colon_in pre d (some a) o tail)
      behind o =
          let split =
            with_comma a o
            ∙ ap (λ t. pre ++ t)
                (sym (++-assoc d (44 ∷ []) (print_signed a ++ (colon_part o ++ 125 ∷ tail)))) in
          let size : length pre + length (d ++ 44 ∷ []) ≡ suc (length pre + length d) =
            (let sum = length-append d (44 ∷ []) in omega (arith, sum)) in
          subst (λ n. NotBefore n (colon_in pre d (some a) o tail)) size
            (subst (λ s. NotBefore (length pre + length (d ++ 44 ∷ [])) (find1 s 58 (length pre)))
              (sym split)
              (find1-NotBefore pre (d ++ 44 ∷ []) (print_signed a ++ (colon_part o ++ 125 ∷ tail))
                58 (Lacks-append 58 d (44 ∷ []) colonless (unfold memchr in refl))))

  pub alignment_lem :
      (a : Option ℤ) (o : Option Text)
      → IsInRange a
      → alignment_of
          (from_arg pre d a o tail)
          (end_of pre d a o)
          (comma_in pre d a o tail)
          (colon_in pre d a o tail)
        ≡ alignment_or_0 a
  unfolding alignment_or_0
  alignment_lem (some a) o range = alignment_some a o range
  alignment_lem none none range =
      alignment_of-beyond (from_arg pre d none none tail) (end_of pre d none none)
        (comma_in pre d none none tail) (colon_in pre d none none tail)
        (unfold comma_part in
          unfold colon_part in
          find1-NotBefore pre (d ++ []) (125 ∷ tail) 44
            (Lacks-append 44 d [] commaless (unfold memchr in refl)))
  alignment_lem none (some f) range =
      ap
        (alignment_of (from_arg pre d none (some f) tail) (end_of pre d none (some f))
          (comma_in pre d none (some f) tail))
        (colon_at pre d tail commaless colonless none f)
      ∙ alignment_of-behind (from_arg pre d none (some f) tail) (end_of pre d none (some f))
          (length pre + length (d ++ comma_part none)) (comma_in pre d none (some f) tail)
          no_earlier
    where
      no_earlier :
          NotBefore (length pre + length (d ++ comma_part none)) (comma_in pre d none (some f) tail)
      no_earlier =
          unfold comma_part in
          subst (λ t. NotBefore (length pre + length t) (comma_in pre d none (some f) tail))
            (sym (++-[] d)) (comma-after pre d tail commaless colonless none (some f))
