-- ===== src/Formatting/Cuts.antt =====
-- The searches of parse_format in a text of which the parts are known.
use oocore.Prelude.{
  ℕ, suc, ◌+◌, ◌-◌, ◌≤◌, ◌≡◌, ◌≢◌, refl, sym, ap, subst, ◌∙◌, inl, inr, true, false, Option, none,
  some, [], ◌∷◌, ◌++◌, arith, ◌==◌, length, length-append, Bool-cases, ++-assoc,
}
use oocore.Guid.{head}
use oocore.Strings.{memchr, find1, byte_at}
use oocore.Formatting.Decimal.{Text}
use oocore.Formatting.Braces.{find_brace_from, find_brace, merge_braces}
use oocore.Formatting.Places.{without, after, find1-append, memchr-cases}
use oocore.Formatting.Merged.{merge_braces-without}

-- A text has none of a byte.
abbrev pub Lacks : ℕ → Text → Type 0
Lacks c t = memchr t c ≡ none

-- A place, if there is one, is not before k.
abbrev pub NotBefore : ℕ → Option ℕ → Type 0
NotBefore k none = Unit {0}
NotBefore k (some i) = k ≤ i

pub memchr-append :
    (c : ℕ) (a b : Text) → Lacks c a → memchr (a ++ b) c ≡ after (length a) (memchr b c)
unfolding memchr
memchr-append c [] b l = after-zero (memchr b c)
  where
    after-zero : (o : Option ℕ) → o ≡ after 0 o
    after-zero none = refl
    after-zero (some i) = ap some (omega arith)
memchr-append c (x ∷ a) b l = elim (Bool-cases (x == c)) [
  | inl e ↦ absurd (ground (arith, l, e))
  | inr e ↦
      let l' : memchr a c ≡ none = ground (arith, l, e) in
      rw (e, memchr-append c a b l') (after-suc (length a) (memchr b c))
]
  where
    after-suc :
        (n : ℕ) (o : Option ℕ)
        → (elim (after n o) as (λ _. Option ℕ) [ none ↦ none | some i ↦ some (suc i) ])
          ≡ after (suc n) o
    after-suc n none = refl
    after-suc n (some i) = ap some (omega arith)

pub Lacks-append : (c : ℕ) (a b : Text) → Lacks c a → Lacks c b → Lacks c (a ++ b)
Lacks-append c a b l m = memchr-append c a b l ∙ ap (after (length a)) m

NotBefore-after : (n : ℕ) (o : Option ℕ) → NotBefore n (after n o)
NotBefore-after n none = tt
NotBefore-after n (some i) = omega arith

memchr-front : (c : ℕ) (b : Text) → memchr (c ∷ b) c ≡ some 0
unfolding memchr
memchr-front c b = let self : (c == c) ≡ true = ground arith in rw self refl

-- The search from the end of a part over one that lacks the byte
module _ (pre a b : Text) (c : ℕ) (lacks : Lacks c a) where
  find1-after :
      find1 (pre ++ (a ++ b)) c (length pre) ≡ after (length pre) (after (length a) (memchr b c))
  find1-after = find1-append pre (a ++ b) c ∙ ap (after (length pre)) (memchr-append c a b lacks)

  pub find1-NotBefore : NotBefore (length pre + length a) (find1 (pre ++ (a ++ b)) c (length pre))
  find1-NotBefore =
      subst (NotBefore (length pre + length a)) (sym find1-after)
        (NotBefore-twice (length pre) (length a) (memchr b c))
    where
      NotBefore-twice : (m n : ℕ) (o : Option ℕ) → NotBefore (m + n) (after m (after n o))
      NotBefore-twice m n none = tt
      NotBefore-twice m n (some i) = omega arith

pub find1-at :
    (pre a b : Text) (c : ℕ)
    → Lacks c a
    → find1 (pre ++ (a ++ c ∷ b)) c (length pre) ≡ some (length pre + length a)
find1-at pre a b c lacks =
    find1-after pre a (c ∷ b) c lacks
    ∙ ap (λ o. after (length pre) (after (length a) o)) (memchr-front c b)
    ∙ ap some (omega arith)

pub find1-none : (pre a : Text) (c : ℕ) → Lacks c a → find1 (pre ++ a) c (length pre) ≡ none
find1-none pre a c lacks = find1-append pre a c ∙ ap (after (length pre)) lacks

pub byte_at-append : (a b : Text) → byte_at (a ++ b) (length a) ≡ head b
unfolding byte_at
byte_at-append [] [] = refl
byte_at-append [] (x ∷ b) = refl
byte_at-append (x ∷ a) b = byte_at-append a b

find_brace_from-single :
    (fuel : ℕ) (s : Text) (start found brace : ℕ)
    → find1 s brace start ≡ some found
    → (byte_at s (found + 1) == brace) ≡ false
    → find_brace_from (suc fuel) s start brace ≡ some found
unfolding find_brace_from
find_brace_from-single fuel s start found brace e f = elim (Bool-cases (found == length s - 1)) [
  | inl g ↦ rw (find_brace_from, e, g) refl
  | inr g ↦ rw (find_brace_from, e, g, f) refl
]

find_brace_from-none :
    (fuel : ℕ) (s : Text) (start brace : ℕ)
    → find1 s brace start ≡ none
    → find_brace_from (suc fuel) s start brace ≡ none
unfolding find_brace_from
find_brace_from-none fuel s start brace e = rw (find_brace_from, e) refl

-- find_brace finds a brace that is not doubled behind a part without it.
pub find_brace-at :
    (pre a b : Text) (brace : ℕ)
    → Lacks brace a
    → head b ≢ brace
    → find_brace (pre ++ (a ++ brace ∷ b)) (length pre) brace ≡ some (length pre + length a)
unfolding find_brace
find_brace-at pre a b brace lacks single =
    find_brace_from-single (length (pre ++ (a ++ brace ∷ b))) (pre ++ (a ++ brace ∷ b)) (length pre)
      (length pre + length a) brace (find1-at pre a b brace lacks) (ground (arith, next, single))
  where
    whole : pre ++ (a ++ brace ∷ b) ≡ (pre ++ (a ++ brace ∷ [])) ++ b
    whole =
        ap (λ t. pre ++ t) (sym (++-assoc a (brace ∷ []) b))
        ∙ sym (++-assoc pre (a ++ brace ∷ []) b)

    place : length pre + length a + 1 ≡ length (pre ++ (a ++ brace ∷ []))
    place =
        let outer = length-append pre (a ++ brace ∷ []) in
        let inner = length-append a (brace ∷ []) in omega (arith, outer, inner)

    next : byte_at (pre ++ (a ++ brace ∷ b)) (length pre + length a + 1) ≡ head b
    next =
        ap (byte_at (pre ++ (a ++ brace ∷ b))) place
        ∙ ap (λ t. byte_at t (length (pre ++ (a ++ brace ∷ [])))) whole
        ∙ byte_at-append (pre ++ (a ++ brace ∷ [])) b

pub find_brace-none :
    (pre a : Text) (brace : ℕ) → Lacks brace a → find_brace (pre ++ a) (length pre) brace ≡ none
unfolding find_brace
find_brace-none pre a brace lacks =
    find_brace_from-none (length (pre ++ a)) (pre ++ a) (length pre) brace
      (find1-none pre a brace lacks)

-- A text without braces is left as it is.
pub merge_braces-plain : (s : Text) → Lacks 123 s → Lacks 125 s → merge_braces s ≡ s
merge_braces-plain s l m =
    merge_braces-without s ∙ ap (without 125) (without-Lacks 123 s l) ∙ without-Lacks 125 s m
  where
    without-Lacks : (c : ℕ) (t : Text) → Lacks c t → without c t ≡ t
    without-Lacks c t l = elim (memchr-cases t c) [
      | inl (e, same) ↦ same
      | inr (a, b, cut, e, lacks) ↦ absurd (ground (arith, l, e))
    ]
