-- ===== src/Formatting/Rounds.antt =====
-- The rounds of parse_format at a format string that is written out.
use oocore.Prelude.{
  ℕ, suc, ◌+◌, ◌-◌, ◌^◌, ◌<◌, ◌≡◌, ◌≢◌, sym, ap, subst, ◌∙◌, true, Option, none, some, List, [],
  ◌∷◌, ◌++◌, arith, ◌==◌, length, ++-assoc, ++-[],
}
use oocore.Guid.{head}
use oocore.Strings.{memchr, left}
use oocore.Formatting.Decimal.{Text, digits, is_digit}
use oocore.Formatting.Decimal.Reads.{digits-head}
use oocore.Formatting.Braces.{filled, Insert, mid, find_brace, merge_braces, parse_arg}
use oocore.Formatting.Formatter.{Bag, with_suffix, parse_args}
use oocore.Formatting.Places.{past, length-past, left-middle, mid-append}
use oocore.Formatting.Cuts.{find_brace-at, find_brace-none, merge_braces-plain}
use oocore.Formatting.Parsed.{
  Piece, comma_part, colon_part, arg_text, insert_of, IsPlain, IsInRange, IsPlainFormat,
}
use oocore.Formatting.Argument.{parse_arg-arg_text}

-- The arguments of a format string in their braces, each with the text behind it
unfoldable pub written : List Piece → Text
unfolding arg_text
written [] = []
written (p ∷ ps) = 123 ∷ (arg_text p ++ 125 ∷ (p.suffix ++ written ps))

-- The numbers are those that the formatter can keep, and there are no braces in the texts.
abbrev pub IsWritten : List Piece → Type 0
IsWritten [] = Unit {0}
IsWritten (p ∷ ps) =
    ((p.index < filled) × IsInRange p.alignment × IsPlainFormat p.format × IsPlain p.suffix)
    × IsWritten ps

-- The insert_ts that are meant
unfoldable pub inserts_of : List Piece → List Insert
unfolding insert_of
inserts_of [] = []
inserts_of (p ∷ ps) = insert_of p p.suffix ∷ inserts_of ps

pub head-arg_text : (p : Piece) (rest : Text) → head (arg_text p ++ rest) ≢ 123
unfolding arg_text is_digit
head-arg_text p rest e =
    let whole =
      ap (λ t. is_digit (head t))
        (++-assoc (digits p.index) (comma_part p.alignment ++ colon_part p.format) rest)
      ∙ digits-head p.index ((comma_part p.alignment ++ colon_part p.format) ++ rest) in
    let brace : is_digit 123 ≡ true = ap is_digit (sym e) ∙ whole in ground (arith, brace)

-- No suffix begins with a closing brace, and none that is left out does.
head-suffix : (s : Text) (ps : List Piece) → IsPlain s → head (s ++ written ps) ≢ 125
unfolding written memchr
head-suffix [] [] plain e = ground (arith, e)
head-suffix [] (p ∷ ps) plain e = ground (arith, e)
head-suffix (c ∷ s) ps (open_free, close_free) e =
    let other : (c == 125) ≡ true = ground (arith, e) in ground (arith, close_free, other)

module _ (bag : Bag) (stale : Insert) where
  pub parse_args-last :
      (fuel : ℕ) (s : Text) (at at' : ℕ) (inserts : List Insert) (ins : Insert)
      → parse_arg s at ≡ (at', some ins)
      → find_brace s at' 123 ≡ none
      → parse_args bag stale (suc fuel) s at inserts ≡ bag.add inserts (with_suffix ins s at' none)
  unfolding parse_args
  parse_args-last fuel s at at' inserts ins e f =
      let place : (parse_arg s at).0 ≡ at' = ap (λ (r : ℕ × Option Insert). r.0) e in
      let parsed : (parse_arg s at).1 ≡ some ins = ap (λ (r : ℕ × Option Insert). r.1) e in
      let end : find_brace s (parse_arg s at).0 123 ≡ none =
        ap (λ n. find_brace s n 123) place ∙ f in
      rw (parse_args, parsed, end)
        (ap (bag.add inserts) (
          ap (λ n. with_suffix ins s n (find_brace s (parse_arg s at).0 123)) place
          ∙ ap (with_suffix ins s at') end))

  pub parse_args-next :
      (fuel : ℕ) (s : Text) (at at' found : ℕ) (inserts : List Insert) (ins : Insert)
      → parse_arg s at ≡ (at', some ins)
      → find_brace s at' 123 ≡ some found
      → parse_args bag stale (suc fuel) s at inserts
        ≡ parse_args bag stale fuel s
            (found + 1)
            (bag.add inserts (with_suffix ins s at' (some found)))
  unfolding parse_args
  parse_args-next fuel s at at' found inserts ins e f =
      let place : (parse_arg s at).0 ≡ at' = ap (λ (r : ℕ × Option Insert). r.0) e in
      let parsed : (parse_arg s at).1 ≡ some ins = ap (λ (r : ℕ × Option Insert). r.1) e in
      let next : find_brace s (parse_arg s at).0 123 ≡ some found =
        ap (λ n. find_brace s n 123) place ∙ f in
      rw (parse_args, parsed, next)
        (ap (λ i. parse_args bag stale fuel s (found + 1) (bag.add inserts i))
          (ap (λ n. with_suffix ins s n (find_brace s (parse_arg s at).0 123)) place
            ∙ ap (with_suffix ins s at') next))

-- The text from an argument on, and the part of it up to its closing brace
abbrev pub from_piece : Text → Piece → List Piece → Text
from_piece pre p ps = pre ++ (arg_text p ++ 125 ∷ (p.suffix ++ written ps))

abbrev pub up_to : Text → Piece → Text
up_to pre p = pre ++ (arg_text p ++ 125 ∷ [])

module _ (pre : Text) (p : Piece) (ps : List Piece) (w : IsWritten (p ∷ ps)) where
  pub parse_arg-piece :
      parse_arg (from_piece pre p ps) (length pre) ≡ (length (up_to pre p), some (insert_of p []))
  parse_arg-piece =
      let written_ok = w.0 in
      parse_arg-arg_text pre (p.suffix ++ written ps) p (below written_ok.0) written_ok.1
        written_ok.2 (head-suffix p.suffix ps written_ok.3)
      ∙ ap (λ n. (n, some (insert_of p []))) (sym (length-past pre (arg_text p) [] 125))
    where
      below : p.index < filled → p.index < 2 ^ 64
      below h = ground (arith, h)

  from_piece-suffix : from_piece pre p ps ≡ up_to pre p ++ (p.suffix ++ written ps)
  from_piece-suffix = past pre (arg_text p) (p.suffix ++ written ps) 125

  plain_suffix : merge_braces p.suffix ≡ p.suffix
  plain_suffix = merge_braces-plain p.suffix w.0.3.0 w.0.3.1

-- The suffix of the last argument, and of one that is followed by another
pub with_suffix-last :
    (pre : Text) (p : Piece)
    → IsWritten (p ∷ [])
    → with_suffix (insert_of p []) (from_piece pre p []) (length (up_to pre p)) none
      ≡ insert_of p p.suffix
unfolding with_suffix insert_of written
with_suffix-last pre p w =
    ap (λ t. insert_of p (merge_braces t))
      (ap (λ s. mid s (length (up_to pre p))) (from_piece-suffix pre p [] w)
        ∙ mid-append (up_to pre p) (p.suffix ++ [])
        ∙ ++-[] p.suffix)
    ∙ ap (insert_of p) (plain_suffix pre p [] w)

pub with_suffix-next :
    (pre : Text) (p : Piece) (ps : List Piece)
    → IsWritten (p ∷ ps)
    → with_suffix
        (insert_of p [])
        (from_piece pre p ps)
        (length (up_to pre p))
        (some (length (up_to pre p) + length p.suffix))
      ≡ insert_of p p.suffix
unfolding with_suffix insert_of
with_suffix-next pre p ps w =
    let size : length (up_to pre p) + length p.suffix - length (up_to pre p) ≡ length p.suffix =
      omega arith in
    ap (λ t. insert_of p (merge_braces t))
      (ap (left (from_piece pre p ps) (length (up_to pre p))) size
        ∙ ap (λ s. left s (length (up_to pre p)) (length p.suffix)) (from_piece-suffix pre p ps w)
        ∙ left-middle (up_to pre p) p.suffix (written ps))
    ∙ ap (insert_of p) (plain_suffix pre p ps w)

pub find_brace-last :
    (pre : Text) (p : Piece)
    → IsWritten (p ∷ [])
    → find_brace (from_piece pre p []) (length (up_to pre p)) 123 ≡ none
unfolding written
find_brace-last pre p w =
    ap (λ s. find_brace s (length (up_to pre p)) 123) (from_piece-suffix pre p [] w)
    ∙ find_brace-none (up_to pre p) (p.suffix ++ []) 123
        (subst (λ t. memchr t 123 ≡ none) (sym (++-[] p.suffix)) w.0.3.0)

pub find_brace-next :
    (pre : Text) (p q : Piece) (qs : List Piece)
    → IsWritten (p ∷ (q ∷ qs))
    → find_brace (from_piece pre p (q ∷ qs)) (length (up_to pre p)) 123
      ≡ some (length (up_to pre p) + length p.suffix)
unfolding written
find_brace-next pre p q qs w =
    ap (λ s. find_brace s (length (up_to pre p)) 123) (from_piece-suffix pre p (q ∷ qs) w)
    ∙ find_brace-at (up_to pre p) p.suffix (arg_text q ++ 125 ∷ (q.suffix ++ written qs)) 123
        w.0.3.0 (head-arg_text q (125 ∷ (q.suffix ++ written qs)))

-- The text in front of the next argument
abbrev pub front : Text → Piece → Text
front pre p = up_to pre p ++ (p.suffix ++ 123 ∷ [])

pub from_piece-front :
    (pre : Text) (p q : Piece) (qs : List Piece)
    → IsWritten (p ∷ (q ∷ qs))
    → from_piece pre p (q ∷ qs) ≡ from_piece (front pre p) q qs
unfolding written
from_piece-front pre p q qs w =
    from_piece-suffix pre p (q ∷ qs) w
    ∙ past (up_to pre p) p.suffix (arg_text q ++ 125 ∷ (q.suffix ++ written qs)) 123
