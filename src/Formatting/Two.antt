-- ===== src/Formatting/Two.antt =====
-- A format of two parts.
use oocore.Prelude.{
  ℕ, zero, suc, ◌+◌, ◌-◌, ◌≡◌, refl, ap, ◌∙◌, inl, inr, Bool, false, ◌||◌, some, List, [], ◌∷◌,
  ◌++◌, arith, ◌==◌, leb, if◌then◌else◌, length, drop, Bool-cases, length-append, ++-assoc,
}
use oocore.Strings.{byte_at, left}
use oocore.Strings.Within.{Searched, found, npos}
use oocore.Strings.Oneof.{is_in, strpbrk, strlen, oneof_from, find_oneof}
use oocore.Formatting.Decimal.{Text}
use oocore.Formatting.Braces.{mid}
use oocore.Formatting.Places.{drop-past, left-append, mid-past}
use oocore.Formatting.Cuts.{byte_at-append}
use oocore.Formatting.Parts.{
  find_skip_quote_from, find_skip_quote, parse_custom, bool_of_parts, to_string_bool,
}

-- The semicolon and the quotes
abbrev pub marks : Text
marks = 59 ∷ 39 ∷ 34 ∷ []

-- A text without them, and without a byte 0
abbrev pub IsUnmarked : Text → Type 0
IsUnmarked [] = Unit {0}
IsUnmarked (c ∷ s) = ((c == 0) ≡ false) × (is_in marks c ≡ false) × IsUnmarked s

strpbrk-front : (t r : Text) → IsUnmarked t → strpbrk (t ++ 59 ∷ r) marks ≡ found (length t)
unfolding strpbrk
strpbrk-front [] r w = refl
strpbrk-front (c ∷ t) r (a, b, w) = rw (a, b, strpbrk-front t r w) refl

strpbrk-end : (t : Text) → IsUnmarked t → strpbrk (t ++ 0 ∷ []) marks ≡ npos
unfolding strpbrk
strpbrk-end [] w = refl
strpbrk-end (c ∷ t) (a, b, w) = rw (a, b, strpbrk-end t w) refl

strlen-end : (t : Text) → IsUnmarked t → strlen (t ++ 0 ∷ []) ≡ found (length t)
unfolding strlen
strlen-end [] w = refl
strlen-end (c ∷ t) (a, b, w) = rw (a, strlen-end t w) refl

oneof_from-none_left :
    (fuel : ℕ) (mem set : Text) (offset : ℕ) → oneof_from fuel mem set offset 0 ≡ npos
unfolding oneof_from
oneof_from-none_left zero mem set offset = refl
oneof_from-none_left (suc fuel) mem set offset = refl

oneof_from-found :
    (fuel : ℕ) (mem set : Text) (offset len i : ℕ)
    → (len == 0) ≡ false
    → strpbrk mem set ≡ found i
    → oneof_from (suc fuel) mem set offset len ≡ found (offset + i)
unfolding oneof_from
oneof_from-found fuel mem set offset len i e f = rw (oneof_from, e, f) refl

oneof_from-passed :
    (fuel : ℕ) (mem set : Text) (offset len p : ℕ)
    → (len == 0) ≡ false
    → strpbrk mem set ≡ npos
    → strlen mem ≡ found p
    → oneof_from (suc fuel) mem set offset len
      ≡ oneof_from fuel (drop (suc (offset + p)) mem) set (offset + p) (len - p)
unfolding oneof_from
oneof_from-passed fuel mem set offset len p e f g = rw (oneof_from, e, f, g) refl

-- find_oneof with `len` bytes behind its start
abbrev within : Text → ℕ → ℕ → Searched
within s at len =
    if (len == 0) || (length marks == 0)
    then npos
    else oneof_from (suc (length s)) (drop at (s ++ 0 ∷ [])) marks at len

find_oneof-within :
    (s : Text) (at : ℕ)
    → find_oneof s marks at ≡ within s at (if leb (length s) at then 0 else length s - at)
unfolding find_oneof
find_oneof-within s at = refl

within-some :
    (s : Text) (at len : ℕ)
    → (len == 0) ≡ false
    → within s at len ≡ oneof_from (suc (length s)) (drop at (s ++ 0 ∷ [])) marks at len
within-some s at len e = rw e refl

module _ (a b : Text) (wa : IsUnmarked a) (wb : IsUnmarked b) where
  semicolon : find_oneof (a ++ 59 ∷ b) marks 0 ≡ found (length a)
  semicolon =
      let s = a ++ 59 ∷ b in
      let size = length-append a (59 ∷ b) in
      let left_of : (if leb (length s) 0 then 0 else length s - 0) ≡ length s =
        ground (arith, size) in
      let some_left : (length s == 0) ≡ false = ground (arith, size) in
      let mem : s ++ 0 ∷ [] ≡ a ++ 59 ∷ (b ++ 0 ∷ []) = ++-assoc a (59 ∷ b) (0 ∷ []) in
      find_oneof-within s 0
      ∙ ap (within s 0) left_of
      ∙ within-some s 0 (length s) some_left
      ∙ oneof_from-found (length s) (s ++ 0 ∷ []) marks 0 (length s) (length a) some_left
          (ap (λ m. strpbrk m marks) mem ∙ strpbrk-front a (b ++ 0 ∷ []) wa)
      ∙ ap found (omega arith)

  no_more : find_oneof (a ++ 59 ∷ b) marks (length a + 1) ≡ npos
  no_more =
      let s = a ++ 59 ∷ b in
      let at = length a + 1 in
      let size = length-append a (59 ∷ b) in
      let left_of : (if leb (length s) at then 0 else length s - at) ≡ length b =
        ground (arith, size) in
      let mem : drop at (s ++ 0 ∷ []) ≡ b ++ 0 ∷ [] =
        ap (drop at) (++-assoc a (59 ∷ b) (0 ∷ []))
        ∙ ap (λ n. drop (n + 1) (a ++ 59 ∷ (b ++ 0 ∷ []))) (omega arith)
        ∙ drop-past [] a (b ++ 0 ∷ []) 59 in
      find_oneof-within s at ∙ ap (within s at) left_of ∙ elim (Bool-cases (length b == 0)) [
        | inl e ↦ rw e refl
        | inr e ↦
            within-some s at (length b) e
            ∙ oneof_from-passed (length s) (drop at (s ++ 0 ∷ [])) marks at (length b) (length b) e
                (ap (λ m. strpbrk m marks) mem ∙ strpbrk-end b wb) (ap strlen mem ∙ strlen-end b wb)
            ∙ ap
                (oneof_from (length s) (drop (suc (at + length b)) (drop at (s ++ 0 ∷ []))) marks
                  (at + length b))
                (omega arith)
            ∙ oneof_from-none_left (length s) (drop (suc (at + length b)) (drop at (s ++ 0 ∷ [])))
                marks (at + length b)
      ]

find_skip_quote_from-plain :
    (fuel : ℕ) (s : Text) (start i : ℕ)
    → find_oneof s marks start ≡ found i
    → byte_at s i ≡ 59
    → find_skip_quote_from (suc fuel) s start (59 ∷ []) ≡ found i
unfolding find_skip_quote_from
find_skip_quote_from-plain fuel s start i e f = rw (find_skip_quote_from, e, f) refl

find_skip_quote_from-npos :
    (fuel : ℕ) (s : Text) (start : ℕ)
    → find_oneof s marks start ≡ npos
    → find_skip_quote_from (suc fuel) s start (59 ∷ []) ≡ npos
unfolding find_skip_quote_from
find_skip_quote_from-npos fuel s start e = rw (find_skip_quote_from, e) refl

parse_custom-two :
    (s : Text) (i : ℕ)
    → find_skip_quote s 0 (59 ∷ []) ≡ found i
    → find_skip_quote s (i + 1) (59 ∷ []) ≡ npos
    → parse_custom s ≡ some (left s 0 i ∷ mid s (i + 1) ∷ [])
unfolding parse_custom
parse_custom-two s i e f = rw (parse_custom, e, f) refl

to_string_bool-parts :
    (v : Bool) (format : Text) (parts : List Text)
    → (length format == 0) ≡ false
    → parse_custom format ≡ some parts
    → to_string_bool v format ≡ some (bool_of_parts v parts)
unfolding to_string_bool
to_string_bool-parts v format parts e f = rw (to_string_bool, e, f) refl

-- With a format of two parts, without quotes, further semicolons and bytes 0, to_string_bool gives
-- the first part for true and the second for false, also where a part is empty.
pub to_string_bool-two :
    (v : Bool) (a b : Text)
    → IsUnmarked a
    → IsUnmarked b
    → to_string_bool v (a ++ 59 ∷ b) ≡ some (if v then a else b)
unfolding bool_of_parts find_skip_quote
to_string_bool-two v a b wa wb =
    let s = a ++ 59 ∷ b in
    let size = length-append a (59 ∷ b) in
    let first =
      find_skip_quote_from-plain (length s) s 0 (length a) (semicolon a b wa wb)
        (byte_at-append a (59 ∷ b)) in
    let last = find_skip_quote_from-npos (length s) s (length a + 1) (no_more a b wa wb) in
    to_string_bool-parts v s (left s 0 (length a) ∷ mid s (length a + 1) ∷ [])
      (ground (arith, size)) (parse_custom-two s (length a) first last)
    ∙ ap (λ t. some (if v then t else mid s (length a + 1))) (left-append a (59 ∷ b))
    ∙ ap (λ t. some (if v then a else t)) (mid-past a b 59)
