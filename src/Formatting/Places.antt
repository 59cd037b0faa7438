-- ===== src/Formatting/Places.antt =====
-- The places in a text that is made of parts.
use oocore.Prelude.{
  ℕ, ◌+◌, ◌≡◌, ◌⊎◌, refl, sym, ap, ◌∙◌, inl, inr, true, false, Option, none, some, [], ◌∷◌, ◌++◌,
  arith, ◌==◌, leb, if◌then◌else◌, length, take, drop, length-append, Bool-cases, Option-cases,
  drop-append, take-append, take-all, ++-assoc,
}
use oocore.Strings.{memchr, find1, left}
use oocore.Strings.Compare.{left-take}
use oocore.Formatting.Decimal.{Text}
use oocore.Formatting.Braces.{mid}

-- A text without one of its bytes
unfoldable pub without : ℕ → Text → Text
without c [] = []
without c (b ∷ bs) = if b == c then without c bs else b ∷ without c bs

-- The place in a part, counted from the front of the whole
abbrev pub after : ℕ → Option ℕ → Option ℕ
after n none = none
after n (some i) = some (n + i)

pub find1-append :
    (before t : Text) (c : ℕ)
    → find1 (before ++ t) c (length before) ≡ after (length before) (memchr t c)
unfolding find1 memchr
find1-append before [] c =
    let sum = length-append before [] in
    let at_end : leb (length (before ++ [])) (length before) ≡ true = ground (arith, sum) in
    rw (find1, at_end, memchr) refl
find1-append before (b ∷ bs) c =
    let sum = length-append before (b ∷ bs) in
    let inside : leb (length (before ++ b ∷ bs)) (length before) ≡ false = ground (arith, sum) in
    elim (Option-cases (memchr (b ∷ bs) c)) [
      | inl e ↦ rw (find1, inside, drop-append before (b ∷ bs), e) refl
      | inr (i, e) ↦ rw (find1, inside, drop-append before (b ∷ bs), e) refl
    ]

-- A text is cut at the first place of a byte.
abbrev pub Cut : ℕ → Text → Type 0
Cut c t =
    (a : Text) × (b : Text) × (t ≡ a ++ c ∷ b) × (memchr t c ≡ some (length a)) × (without c a ≡ a)

pub memchr-cases : (t : Text) (c : ℕ) → ((memchr t c ≡ none) × (without c t ≡ t)) ⊎ Cut c t
unfolding memchr without
memchr-cases [] c = inl (refl, refl)
memchr-cases (b ∷ bs) c = elim (Bool-cases (b == c)) [
  | inl e ↦
      let same : b ≡ c = ground (arith, e) in inr ([], bs, ap (λ d. d ∷ bs) same, rw e refl, refl)
  | inr e ↦ elim (memchr-cases bs c) [
    | inl (f, g) ↦ inl (rw (e, f) refl, rw (e, g) refl)
    | inr (x, y, f, g, k) ↦ inr (b ∷ x, y, ap (λ l. b ∷ l) f, rw (e, g) refl, rw (e, k) refl)
  ]
]

pub left-append : (a b : Text) → left (a ++ b) 0 (length a) ≡ a
left-append a b = left-take (a ++ b) 0 (length a) ∙ take-append a b

pub left-middle : (a b c : Text) → left (a ++ (b ++ c)) (length a) (length b) ≡ b
left-middle a b c =
    left-take (a ++ (b ++ c)) (length a) (length b) ∙ rw (drop-append a (b ++ c)) (take-append b c)

pub mid-append : (a b : Text) → mid (a ++ b) (length a) ≡ b
unfolding mid
mid-append a b =
    let sum = length-append a b in
    left-take (a ++ b) (length a) (length (a ++ b))
    ∙ rw (drop-append a b) (take-all (length (a ++ b)) b (omega (arith, sum)))

-- What follows the byte behind a part
module _ (pre a b : Text) (c : ℕ) where
  pub past : pre ++ (a ++ c ∷ b) ≡ (pre ++ (a ++ c ∷ [])) ++ b
  past = ap (λ t. pre ++ t) (sym (++-assoc a (c ∷ []) b)) ∙ sym (++-assoc pre (a ++ c ∷ []) b)

  pub length-past : length (pre ++ (a ++ c ∷ [])) ≡ length pre + length a + 1
  length-past =
      let outer = length-append pre (a ++ c ∷ []) in
      let inner = length-append a (c ∷ []) in omega (arith, outer, inner)

  pub drop-past : drop (length pre + length a + 1) (pre ++ (a ++ c ∷ b)) ≡ b
  drop-past =
      ap (λ n. drop n (pre ++ (a ++ c ∷ b))) (sym length-past)
      ∙ ap (drop (length (pre ++ (a ++ c ∷ [])))) past
      ∙ drop-append (pre ++ (a ++ c ∷ [])) b

pub left-past :
    (pre a x y : Text) (c : ℕ)
    → left (pre ++ (a ++ c ∷ (x ++ y))) (length pre + length a + 1) (length x) ≡ x
left-past pre a x y c =
    left-take (pre ++ (a ++ c ∷ (x ++ y))) (length pre + length a + 1) (length x)
    ∙ ap (take (length x)) (drop-past pre a (x ++ y) c)
    ∙ take-append x y

pub mid-past : (a b : Text) (c : ℕ) → mid (a ++ c ∷ b) (length a + 1) ≡ b
unfolding mid
mid-past a b c =
    let sum = length-append a (c ∷ b) in
    left-take (a ++ c ∷ b) (length a + 1) (length (a ++ c ∷ b))
    ∙ ap (take (length (a ++ c ∷ b)))
        (ap (λ n. drop (n + 1) (a ++ c ∷ b)) (omega arith) ∙ drop-past [] a b c)
    ∙ take-all (length (a ++ c ∷ b)) b (omega (arith, sum))
