-- ===== src/Formatting/Options.antt =====
-- What parse_arg takes for the alignment and the format, by the places of the comma and the colon.
use oocore.Prelude.{
  ℕ, suc, ◌+◌, ◌-◌, ◌<◌, ◌≡◌, refl, inl, inr, true, false, Option, none, some, [], ◌∷◌, ◌++◌, arith,
  ltb, length, drop, Bool-cases,
}
use oocore.Values.Int.{ℤ, pos}
use oocore.Strings.{find1, left}
use oocore.Formatting.Decimal.{Text, strtol, strtoul}
use oocore.Formatting.Braces.{find_brace, merge_braces, is_at, alignment_of, format_of, parse_arg}
use oocore.Formatting.Cuts.{NotBefore}
use oocore.Formatting.Parsed.{comma_part, colon_part}

pub is_at-NotBefore : (o : Option ℕ) (at k : ℕ) → at < k → NotBefore k o → is_at o at ≡ false
unfolding is_at
is_at-NotBefore none at k h l = refl
is_at-NotBefore (some i) at k h l = ground (arith, h, l)

-- No comma before the end, or one behind the colon
pub alignment_of-beyond :
    (s : Text) (end : ℕ) (comma colon : Option ℕ)
    → NotBefore end comma
    → alignment_of s end comma colon ≡ pos 0
unfolding alignment_of
alignment_of-beyond s end none colon h = refl
alignment_of-beyond s end (some comma) colon h =
    let no : ltb comma end ≡ false = ground (arith, h) in rw no refl

pub alignment_of-behind :
    (s : Text) (end colon : ℕ) (comma : Option ℕ)
    → NotBefore colon comma
    → alignment_of s end comma (some colon) ≡ pos 0
unfolding alignment_of
alignment_of-behind s end colon none h = refl
alignment_of-behind s end colon (some comma) h =
    let no : ltb comma colon ≡ false = ground (arith, h) in
    elim (Bool-cases (ltb comma end)) [ inl e ↦ rw (e, no) refl | inr e ↦ rw e refl ]

pub alignment_of-at :
    (s : Text) (end comma : ℕ) (colon : Option ℕ)
    → comma < end
    → NotBefore (suc comma) colon
    → alignment_of s end (some comma) colon ≡ (strtol (drop (comma + 1) s)).0
unfolding alignment_of
alignment_of-at s end comma none h l =
    let here : ltb comma end ≡ true = ground (arith, h) in rw here refl
alignment_of-at s end comma (some colon) h l =
    let here : ltb comma end ≡ true = ground (arith, h) in
    let first : ltb comma colon ≡ true = ground (arith, l) in rw (here, first) refl

pub format_of-beyond :
    (s : Text) (end : ℕ) (colon : Option ℕ) → NotBefore end colon → format_of s end colon ≡ []
unfolding format_of
format_of-beyond s end none h = refl
format_of-beyond s end (some colon) h =
    let no : ltb colon end ≡ false = ground (arith, h) in rw no refl

pub format_of-at :
    (s : Text) (end colon : ℕ)
    → colon < end
    → format_of s end (some colon) ≡ merge_braces (left s (colon + 1) (end - colon - 1))
unfolding format_of
format_of-at s end colon h = let here : ltb colon end ≡ true = ground (arith, h) in rw here refl

pub parse_arg-found :
    (s : Text) (at end : ℕ)
    → find_brace s at 125 ≡ some end
    → is_at (find1 s 44 at) at ≡ false
    → is_at (find1 s 58 at) at ≡ false
    → parse_arg s at ≡ (
      end + 1,
      some (record {
        index = (strtoul (drop at s)).0;
        alignment = alignment_of s end (find1 s 44 at) (find1 s 58 at);
        format = format_of s end (find1 s 58 at);
        suffix = [];
      }),
    )
unfolding parse_arg
parse_arg-found s at end e f g = rw (parse_arg, e, f, g) refl

-- The text from an argument on
abbrev pub from_arg : Text → Text → Option ℤ → Option Text → Text → Text
from_arg pre d a o tail = pre ++ ((d ++ (comma_part a ++ colon_part o)) ++ 125 ∷ tail)

abbrev pub end_of : Text → Text → Option ℤ → Option Text → ℕ
end_of pre d a o = length pre + length (d ++ (comma_part a ++ colon_part o))

-- The first comma and the first colon from there on
abbrev pub comma_in : Text → Text → Option ℤ → Option Text → Text → Option ℕ
comma_in pre d a o tail = find1 (from_arg pre d a o tail) 44 (length pre)

abbrev pub colon_in : Text → Text → Option ℤ → Option Text → Text → Option ℕ
colon_in pre d a o tail = find1 (from_arg pre d a o tail) 58 (length pre)
