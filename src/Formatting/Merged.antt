-- ===== src/Formatting/Merged.antt =====
-- What merge_braces makes of a text.
use oocore.Prelude.{
  ℕ, zero, suc, ◌+◌, ◌<◌, ◌≡◌, refl, sym, ap, ◌∙◌, inl, inr, true, none, some, [], ◌∷◌, ◌++◌, arith,
  ◌==◌, length, Bool-cases, length-append, ++-assoc,
}
use oocore.Strings.{find1, left}
use oocore.Formatting.Decimal.{Text}
use oocore.Formatting.Braces.{mid, merge_from, merge_braces}
use oocore.Formatting.Places.{without, after, find1-append, memchr-cases, left-append, mid-append}

pub without-append : (c : ℕ) (a b : Text) → without c (a ++ b) ≡ without c a ++ without c b
unfolding without
without-append c [] b = refl
without-append c (x ∷ a) b = elim (Bool-cases (x == c)) [
  | inl e ↦ rw e (without-append c a b)
  | inr e ↦ rw e (ap (λ l. x ∷ l) (without-append c a b))
]

without-cut : (c : ℕ) (a b : Text) → without c a ≡ a → without c (a ++ c ∷ b) ≡ a ++ without c b
unfolding without
without-cut c a b e =
    let self : (c == c) ≡ true = ground arith in without-append c a (c ∷ b) ∙ rw (e, self) refl

merge_from-none :
    (fuel brace at : ℕ) (s : Text) → find1 s brace at ≡ none → merge_from (suc fuel) brace s at ≡ s
unfolding merge_from
merge_from-none fuel brace at s e = rw (merge_from, e) refl

merge_from-some :
    (fuel brace at found : ℕ) (s : Text)
    → find1 s brace at ≡ some found
    → merge_from (suc fuel) brace s at
      ≡ merge_from fuel brace (left s 0 found ++ mid s (found + 1)) found
unfolding merge_from
merge_from-some fuel brace at found s e = rw (merge_from, e) refl

-- The loop takes every brace out of what is behind the place.
merge_from-without :
    (fuel brace : ℕ) (before t : Text)
    → length t < fuel
    → merge_from fuel brace (before ++ t) (length before) ≡ before ++ without brace t
merge_from-without zero brace before t h = absurd (omega (arith, h))
merge_from-without (suc fuel) brace before t h = elim (memchr-cases t brace) [
  | inl (e, same) ↦
      merge_from-none fuel brace (length before) (before ++ t)
        (find1-append before t brace ∙ ap (after (length before)) e)
      ∙ ap (λ l. before ++ l) (sym same)
  | inr (a, b, cut, e, lacks) ↦
      let sizes = ap length cut in
      let sum = length-append a (brace ∷ b) in
      let place = length-append before a in
      let found : find1 (before ++ t) brace (length before) ≡ some (length (before ++ a)) =
        find1-append before t brace ∙ ap (after (length before)) e ∙ ap some (sym place) in
      let whole : before ++ t ≡ (before ++ a) ++ brace ∷ b =
        rw cut (sym (++-assoc before a (brace ∷ b))) in
      let front : left (before ++ t) 0 (length (before ++ a)) ≡ before ++ a =
        rw whole (left-append (before ++ a) (brace ∷ b)) in
      let back : mid (before ++ t) (length (before ++ a) + 1) ≡ b =
        ap (λ l. mid l (length (before ++ a) + 1))
          (whole ∙ sym (++-assoc (before ++ a) (brace ∷ []) b))
        ∙ ap (mid (((before ++ a) ++ brace ∷ []) ++ b))
            (sym (length-append (before ++ a) (brace ∷ [])))
        ∙ mid-append ((before ++ a) ++ brace ∷ []) b in
      merge_from-some fuel brace (length before) (length (before ++ a)) (before ++ t) found
      ∙ rw (front, back)
          (merge_from-without fuel brace (before ++ a) b (omega (arith, h, sizes, sum))
            ∙ ++-assoc before a (without brace b)
            ∙ ap (λ l. before ++ l)
                (sym (without-cut brace a b lacks) ∙ ap (without brace) (sym cut)))
]

-- merge_braces takes every brace out of a text, the doubled ones too.
pub merge_braces-without : (s : Text) → merge_braces s ≡ without 125 (without 123 s)
unfolding merge_braces
merge_braces-without s =
    rw (merge_from-without (suc (length s)) 123 [] s (omega arith))
      (merge_from-without (suc (length (without 123 s))) 125 [] (without 123 s) (omega arith))
