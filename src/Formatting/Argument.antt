-- ===== src/Formatting/Argument.antt =====
-- parse_arg at an argument that is written out.
use oocore.Prelude.{
  ℕ, ◌+◌, ◌^◌, ◌<◌, ◌≡◌, ◌≢◌, refl, ap, subst, ◌∙◌, false, Option, none, some, [], ◌∷◌, ◌++◌, arith,
  ◌==◌, length, drop, drop-append, ++-assoc,
}
use oocore.Guid.{head}
use oocore.Values.Int.{ℤ}
use oocore.Strings.{find1}
use oocore.Formatting.Decimal.{Text, digits, is_digit, strtoul}
use oocore.Formatting.Decimal.Reads.{EndsNumber, digits-Printed, digits-some, strtoul-pos}
use oocore.Formatting.Braces.{Insert, parse_arg}
use oocore.Formatting.Cuts.{Lacks, Lacks-append, find_brace-at}
use oocore.Formatting.Parsed.{
  Piece, comma_part, colon_part, arg_text, insert_of, IsInRange, IsPlainFormat, digits-Lacks,
  comma_part-Lacks, colon_part-Lacks,
}
use oocore.Formatting.Options.{is_at-NotBefore, parse_arg-found}
use oocore.Formatting.Colon.{comma-after, colon-after, format_lem}
use oocore.Formatting.Comma.{alignment_lem}

arg_text-plain :
    (p : Piece) (c : ℕ)
    → is_digit c ≡ false
    → (45 == c) ≡ false
    → (44 == c) ≡ false
    → (58 == c) ≡ false
    → ((f : Text) → p.format ≡ some f → Lacks c f)
    → Lacks c (arg_text p)
unfolding arg_text
arg_text-plain p c e f g h l =
    Lacks-append c (digits p.index) (comma_part p.alignment ++ colon_part p.format)
      (digits-Lacks c p.index e)
      (Lacks-append c (comma_part p.alignment) (colon_part p.format)
        (comma_part-Lacks c p.alignment e f g) (colon_part-Lacks c p.format h l))

format-Lacks : (o : Option Text) → IsPlainFormat o → (f : Text) → o ≡ some f → Lacks 125 f
format-Lacks none plain f e = absurd (ground (arith, e))
format-Lacks (some g) plain f e =
    let same : g ≡ f = ground (arith, e) in subst (Lacks 125) same plain.1

ends_part :
    (a : Option ℤ) (o : Option Text) (tail : Text)
    → EndsNumber ((comma_part a ++ colon_part o) ++ 125 ∷ tail)
unfolding comma_part colon_part is_digit
ends_part (some a) o tail = refl
ends_part none (some f) tail = refl
ends_part none none tail = refl

number_in :
    (pre tail : Text) (p : Piece)
    → p.index < 2 ^ 64
    → (strtoul (drop (length pre) (pre ++ (arg_text p ++ 125 ∷ tail)))).0 ≡ p.index
unfolding arg_text
number_in pre tail p small =
    let d = digits p.index in
    let parts = comma_part p.alignment ++ colon_part p.format in
    let rest : Text = parts ++ 125 ∷ tail in
    let there : drop (length pre) (pre ++ (arg_text p ++ 125 ∷ tail)) ≡ d ++ rest =
      drop-append pre (arg_text p ++ 125 ∷ tail) ∙ ++-assoc d parts (125 ∷ tail) in
    let printed = digits-Printed p.index rest (ends_part p.alignment p.format tail) in
    ap (λ t. (strtoul t).0) there
    ∙ ap (λ (r : ℕ × Text). r.0) (strtoul-pos p.index (d ++ rest) rest printed small)

same_arg :
    (place : ℕ) {i j : ℕ} {a b : ℤ} {f g : Text}
    → i ≡ j
    → a ≡ b
    → f ≡ g
    → ◌≡◌ {A = ℕ × Option Insert}
        (place, some (record { index = i; alignment = a; format = f; suffix = [] }))
        (place, some (record { index = j; alignment = b; format = g; suffix = [] }))
same_arg place e1 e2 e3 = rw (e1, e2, e3) refl

-- parse_arg gives back what was written, and the place behind the brace.
pub parse_arg-arg_text :
    (pre tail : Text) (p : Piece)
    → p.index < 2 ^ 64
    → IsInRange p.alignment
    → IsPlainFormat p.format
    → head tail ≢ 125
    → parse_arg (pre ++ (arg_text p ++ 125 ∷ tail)) (length pre)
      ≡ (length pre + length (arg_text p) + 1, some (insert_of p []))
unfolding arg_text insert_of
parse_arg-arg_text pre tail p small range plain single =
    let d = digits p.index in
    let size = digits-some p.index in
    let commaless : Lacks 44 d = digits-Lacks 44 p.index (unfold is_digit in refl) in
    let colonless : Lacks 58 d = digits-Lacks 58 p.index (unfold is_digit in refl) in
    let s = pre ++ (arg_text p ++ 125 ∷ tail) in
    let end =
      find_brace-at pre (arg_text p) tail 125
        (arg_text-plain p 125 (unfold is_digit in refl) refl refl refl
          (format-Lacks p.format plain))
        single in
    let no_comma =
      is_at-NotBefore (find1 s 44 (length pre)) (length pre) (length pre + length d)
        (omega (arith, size)) (comma-after pre d tail commaless colonless p.alignment p.format) in
    let no_colon =
      is_at-NotBefore (find1 s 58 (length pre)) (length pre) (length pre + length d)
        (omega (arith, size)) (colon-after pre d tail commaless colonless p.alignment p.format) in
    parse_arg-found s (length pre) (length pre + length (arg_text p)) end no_comma no_colon
    ∙ same_arg (length pre + length (arg_text p) + 1) (number_in pre tail p small)
        (alignment_lem pre d tail commaless colonless p.alignment p.format range)
        (format_lem pre d tail commaless colonless p.alignment p.format plain)
