-- ===== src/Formatting/Written.antt =====
-- A formatter made of a format string that is written out.
use oocore.Prelude.{
  ℕ, zero, suc, ◌+◌, ◌≤◌, ◌<◌, ◌≡◌, refl, sym, ap, ◌∙◌, none, some, List, [], ◌∷◌, ◌++◌, arith,
  length, length-append, ++-assoc,
}
use oocore.Strings.{left}
use oocore.Formatting.Decimal.{Text}
use oocore.Formatting.Braces.{Insert, find_brace, merge_braces}
use oocore.Formatting.Formatter.{Bag, with_suffix, parse_args, make_formatter}
use oocore.Formatting.Places.{length-past, left-append}
use oocore.Formatting.Cuts.{find_brace-at, merge_braces-plain}
use oocore.Formatting.Parsed.{Piece, arg_text, insert_of, IsPlain}
use oocore.Formatting.Rounds.{
  written, IsWritten, inserts_of, head-arg_text, parse_args-last, parse_args-next, parse_arg-piece,
  with_suffix-last, with_suffix-next, find_brace-last, find_brace-next, from_piece-front,
  from_piece, up_to, front,
}

module _ (bag : Bag) (stale : Insert) where
  -- The rounds from an argument on
  parse_args-written :
      (fuel : ℕ) (pre : Text) (p : Piece) (ps : List Piece) (inserts : List Insert)
      → length ps < fuel
      → IsWritten (p ∷ ps)
      → parse_args bag stale fuel (from_piece pre p ps) (length pre) inserts
        ≡ inserts ++ inserts_of (p ∷ ps)
  unfolding inserts_of
  parse_args-written zero pre p ps inserts h w = absurd (omega (arith, h))
  parse_args-written (suc fuel) pre p [] inserts h w =
      parse_args-last bag stale fuel (from_piece pre p []) (length pre) (length (up_to pre p))
        inserts (insert_of p []) (parse_arg-piece pre p [] w) (find_brace-last pre p w)
      ∙ bag.add-append inserts
          (with_suffix (insert_of p []) (from_piece pre p []) (length (up_to pre p)) none)
      ∙ ap (λ i. inserts ++ i ∷ []) (with_suffix-last pre p w)
  parse_args-written (suc fuel) pre p (q ∷ qs) inserts h w =
      let found = length (up_to pre p) + length p.suffix in
      let s = from_piece pre p (q ∷ qs) in
      parse_args-next bag stale fuel s (length pre) (length (up_to pre p)) found inserts
        (insert_of p []) (parse_arg-piece pre p (q ∷ qs) w) (find_brace-next pre p q qs w)
      ∙ ap (parse_args bag stale fuel s (found + 1)) (
          bag.add-append inserts
            (with_suffix (insert_of p []) s (length (up_to pre p)) (some found))
          ∙ ap (λ i. inserts ++ i ∷ []) (with_suffix-next pre p (q ∷ qs) w))
      ∙ ap (λ n. parse_args bag stale fuel s n (inserts ++ insert_of p p.suffix ∷ []))
          (sym (length-past (up_to pre p) p.suffix [] 123))
      ∙ ap
          (λ t.
            parse_args bag stale fuel t (length (front pre p))
              (inserts ++ insert_of p p.suffix ∷ []))
          (from_piece-front pre p q qs w)
      ∙ parse_args-written fuel (front pre p) q qs (inserts ++ insert_of p p.suffix ∷ [])
          (omega (arith, h)) w.1
      ∙ ++-assoc inserts (insert_of p p.suffix ∷ []) (inserts_of (q ∷ qs))

length-written : (ps : List Piece) → length ps ≤ length (written ps)
unfolding written
length-written [] = omega arith
length-written (p ∷ ps) =
    let ih = length-written ps in
    let outer = length-append (arg_text p) (125 ∷ (p.suffix ++ written ps)) in
    let inner = length-append p.suffix (written ps) in omega (arith, ih, outer, inner)

found_at :
    (prefix : Text) (p : Piece) (ps : List Piece)
    → IsPlain prefix
    → find_brace (prefix ++ written (p ∷ ps)) 0 123 ≡ some (length prefix)
unfolding written
found_at prefix p ps plain =
    find_brace-at [] prefix (arg_text p ++ 125 ∷ (p.suffix ++ written ps)) 123 plain.0
      (head-arg_text p (125 ∷ (p.suffix ++ written ps)))
    ∙ ap some (omega arith)

make_formatter-found :
    (bag : Bag) (stale : Insert) (s : Text) (found : ℕ)
    → find_brace s 0 123 ≡ some found
    → make_formatter bag stale s ≡ record {
      prefix = merge_braces (left s 0 found);
      inserts = parse_args bag stale (suc (length s)) s (found + 1) [];
    }
unfolding make_formatter
make_formatter-found bag stale s found e = rw (make_formatter, e) refl

-- The text in front of the first argument
front_piece :
    (prefix : Text) (p : Piece) (ps : List Piece)
    → prefix ++ written (p ∷ ps) ≡ from_piece (prefix ++ 123 ∷ []) p ps
unfolding written
front_piece prefix p ps =
    sym (++-assoc prefix (123 ∷ []) (arg_text p ++ 125 ∷ (p.suffix ++ written ps)))

-- A format string of a text and of at least one argument, each with the text behind it and with an
-- alignment and a format or without, makes the formatter that has this text in front and these
-- arguments in this order, if the texts and the formats have no braces, the indices are below
-- (unsigned long)-1 and the alignments are of 64 bits.
pub make_formatter-written :
    (bag : Bag) (stale : Insert) (prefix : Text) (p : Piece) (ps : List Piece)
    → IsPlain prefix
    → IsWritten (p ∷ ps)
    → make_formatter bag stale (prefix ++ written (p ∷ ps))
      ≡ record { prefix = prefix; inserts = inserts_of (p ∷ ps) }
make_formatter-written bag stale prefix p ps plain w =
    let s : Text = prefix ++ written (p ∷ ps) in
    let sizes = length-append prefix (written (p ∷ ps)) in
    let many = length-written (p ∷ ps) in
    make_formatter-found bag stale s (length prefix) (found_at prefix p ps plain)
    ∙ ap
        (λ t. record {
          prefix = t;
          inserts = parse_args bag stale (suc (length s)) s (length prefix + 1) [];
        })
        (ap merge_braces (left-append prefix (written (p ∷ ps)))
          ∙ merge_braces-plain prefix plain.0 plain.1)
    ∙ ap (λ i. record { prefix = prefix; inserts = i })
        (ap (λ n. parse_args bag stale (suc (length s)) s n [])
            (sym (length-append prefix (123 ∷ [])))
          ∙ ap (λ t. parse_args bag stale (suc (length s)) t (length (prefix ++ 123 ∷ [])) [])
              (front_piece prefix p ps)
          ∙ parse_args-written bag stale (suc (length s)) (prefix ++ 123 ∷ []) p ps []
              (omega (arith, sizes, many)) w)
