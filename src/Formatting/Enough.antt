-- ===== src/Formatting/Enough.antt =====
-- The rounds of find_brace and of parse_format are enough.
use oocore.Prelude.{
  ℕ, zero, suc, ◌+◌, ◌-◌, ◌≤◌, ◌<◌, ◌≡◌, refl, sym, ap, subst, ◌∙◌, inl, inr, Option, none, some,
  Bool, not, ◌||◌, List, [], arith, ◌==◌, if◌then◌else◌, length, Bool-cases, Option-cases,
}
use oocore.Strings.{find1, byte_at}
use oocore.Strings.Search.{IsFirst, find1-IsFirst, get_elem?-out}
use oocore.Formatting.Decimal.{Text}
use oocore.Formatting.Braces.{Insert, find_brace_from, find_brace, parse_arg}
use oocore.Formatting.Formatter.{Bag, with_suffix, parse_args}
use oocore.Formatting.Rounds.{parse_args-last, parse_args-next}

-- A search finds places of the text, from its start on.
find1-bounds :
    (s : Text) (c start found : ℕ)
    → find1 s c start ≡ some found
    → (start ≤ found) × (found < length s)
find1-bounds s c start found e =
    let first = subst (IsFirst s c start) e (find1-IsFirst s c start) in
    (first.0, get_elem?-out s found c first.1)

module _ (s : Text) (brace : ℕ) where
  -- Whether a brace is not doubled
  abbrev stops : ℕ → Bool
  stops i = (i == length s - 1) || not (byte_at s (i + 1) == brace)

  find_brace_from-some :
      (fuel start i : ℕ)
      → find1 s brace start ≡ some i
      → find_brace_from (suc fuel) s start brace
        ≡ (if stops i then some i else find_brace_from fuel s (i + 2) brace)
  unfolding find_brace_from
  find_brace_from-some fuel start i e = rw (find_brace_from, e) refl

  find_brace_from-none :
      (fuel start : ℕ)
      → find1 s brace start ≡ none
      → find_brace_from (suc fuel) s start brace ≡ none
  unfolding find_brace_from
  find_brace_from-none fuel start e = rw (find_brace_from, e) refl

  find_brace_from-bounds :
      (fuel start found : ℕ)
      → find_brace_from fuel s start brace ≡ some found
      → (start ≤ found) × (found < length s)
  find_brace_from-bounds zero start found e = unfold find_brace_from in absurd (ground (arith, e))
  find_brace_from-bounds (suc fuel) start found e = elim (Option-cases (find1 s brace start)) [
    | inl f ↦ let no = find_brace_from-none fuel start f in absurd (ground (arith, e, no))
    | inr (i, f) ↦
        let step = find_brace_from-some fuel start i f in
        let place = find1-bounds s brace start i f in
        elim (Bool-cases (stops i)) [
          | inl g ↦
              let same : i ≡ found = ground (arith, e, step, g) in
              (omega (arith, place, same), omega (arith, place, same))
          | inr g ↦
              let later : find_brace_from fuel s (i + 2) brace ≡ some found =
                sym (rw g at step) ∙ e in
              let ih = find_brace_from-bounds fuel (i + 2) found later in
              (omega (arith, place, ih), ih.1)
        ]
  ]

  -- A round more changes nothing where the rounds cover what is left of the text.
  find_brace_from-more :
      (fuel start : ℕ)
      → length s < start + fuel
      → find_brace_from (suc fuel) s start brace ≡ find_brace_from fuel s start brace
  find_brace_from-more zero start h = elim (Option-cases (find1 s brace start)) [
    | inl f ↦ find_brace_from-none 0 start f ∙ unfold find_brace_from in refl
    | inr (i, f) ↦ let place = find1-bounds s brace start i f in absurd (omega (arith, h, place))
  ]
  find_brace_from-more (suc fuel) start h = elim (Option-cases (find1 s brace start)) [
    | inl f ↦ find_brace_from-none (suc fuel) start f ∙ sym (find_brace_from-none fuel start f)
    | inr (i, f) ↦
        let place = find1-bounds s brace start i f in
        find_brace_from-some (suc fuel) start i f
        ∙ ap (λ o. if stops i then some i else o)
            (find_brace_from-more fuel (i + 2) (omega (arith, h, place)))
        ∙ sym (find_brace_from-some fuel start i f)
  ]

  find_brace-bounds :
      (start found : ℕ)
      → find_brace s start brace ≡ some found
      → (start ≤ found) × (found < length s)
  unfolding find_brace
  find_brace-bounds start found e = find_brace_from-bounds (suc (length s)) start found e

-- An argument ends behind its beginning.
parse_arg-after :
    (s : Text) (at : ℕ) (ins : Insert) → (parse_arg s at).1 ≡ some ins → at < (parse_arg s at).0
unfolding parse_arg
parse_arg-after s at ins e = elim (Option-cases (find_brace s at 125)) [
  | inl f ↦ absurd (ground (arith, e, f))
  | inr (end, f) ↦ let bounds = find_brace-bounds s 125 at end f in ground (arith, e, f, bounds)
]

same_pair : {o : Option Insert} (r : ℕ × Option Insert) → r.1 ≡ o → r ≡ (r.0, o)
same_pair r e = ap (λ (x : Option Insert). let y : ℕ × Option Insert = (r.0, x) in y) e

parse_args-failed :
    (bag : Bag) (stale : Insert) (fuel : ℕ) (s : Text) (at : ℕ) (inserts : List Insert)
    → (parse_arg s at).1 ≡ none
    → parse_args bag stale (suc fuel) s at inserts
      ≡ bag.add inserts
          (with_suffix (record stale { format = []; suffix = [] }) s (parse_arg s at).0 none)
unfolding parse_args
parse_args-failed bag stale fuel s at inserts e = rw (parse_args, e) refl

-- A round more of parse_format changes nothing where the rounds cover what is left of the text.
parse_args-more :
    (bag : Bag) (stale : Insert) (fuel : ℕ) (s : Text) (at : ℕ) (inserts : List Insert)
    → length s < at + fuel
    → at ≤ length s
    → parse_args bag stale (suc fuel) s at inserts ≡ parse_args bag stale fuel s at inserts
parse_args-more bag stale zero s at inserts h k = absurd (omega (arith, h, k))
parse_args-more bag stale (suc fuel) s at inserts h k = elim (Option-cases (parse_arg s at).1) [
  | inl e ↦
      parse_args-failed bag stale (suc fuel) s at inserts e
      ∙ sym (parse_args-failed bag stale fuel s at inserts e)
  | inr (ins, e) ↦
      let at' = (parse_arg s at).0 in
      let whole = same_pair (parse_arg s at) e in
      elim (Option-cases (find_brace s at' 123)) [
        | inl f ↦
            parse_args-last bag stale (suc fuel) s at at' inserts ins whole f
            ∙ sym (parse_args-last bag stale fuel s at at' inserts ins whole f)
        | inr (found, f) ↦
            let behind = parse_arg-after s at ins e in
            let bounds = find_brace-bounds s 123 at' found f in
            parse_args-next bag stale (suc fuel) s at at' found inserts ins whole f
            ∙ parse_args-more bag stale fuel s (found + 1)
                (bag.add inserts (with_suffix ins s at' (some found)))
                (omega (arith, h, behind, bounds)) (omega (arith, bounds))
            ∙ sym (parse_args-next bag stale fuel s at at' found inserts ins whole f)
      ]
]
