-- ===== src/Formatting/Numbers/Grouped.antt =====
-- The separators of thousands.
use oocore.Prelude.{
  ℕ, zero, suc, ◌-◌, ◌<◌, ◌≡◌, refl, sym, ap, ◌∙◌, inl, inr, true, false, ◌||◌, Option, [], ◌∷◌,
  ◌++◌, arith, ◌==◌, leb, if◌then◌else◌, take, drop, Bool-cases,
}
use oocore.Guid.{head}
use oocore.Formatting.Decimal.{Text}
use oocore.Formatting.Places.{without}
use oocore.Formatting.Merged.{without-append}
use oocore.Formatting.Numbers.Locale.{
  Lconv, Env, char_max, insert_text, group_from, group, or_end, do_intl,
}
use oocore.Formatting.Numbers.{Number, fmt_fixed_i, frac_digits, or_default, fmt_number, fmt_fixed}

take-drop : (n : ℕ) (s : Text) → take n s ++ drop n s ≡ s
take-drop zero s = refl
take-drop (suc n) [] = refl
take-drop (suc n) (x ∷ s) = ap (λ t. x ∷ t) (take-drop n s)

without-insert_text :
    (c at : ℕ) (s sep : Text) → without c sep ≡ [] → without c (insert_text s at sep) ≡ without c s
unfolding insert_text
without-insert_text c at s sep gone =
    without-append c (take at s) (sep ++ drop at s)
    ∙ ap (λ t. without c (take at s) ++ t)
        (without-append c sep (drop at s) ∙ ap (λ t. t ++ without c (drop at s)) gone)
    ∙ sym (without-append c (take at s) (drop at s))
    ∙ ap (without c) (take-drop at s)

module _ (c : ℕ) (sep : Text) (gone : without c sep ≡ []) where
  without-group_from :
      (fuel : ℕ) (s : Text) (at grp : ℕ) (grouping : Text)
      → without c (group_from fuel s at grp grouping sep) ≡ without c s
  unfolding group_from
  without-group_from zero s at grp grouping = refl
  without-group_from (suc fuel) s at grp grouping =
      let grp' = if head grouping == 0 then grp else head grouping in
      let grouping' = if head grouping == 0 then grouping else drop 1 grouping in
      elim (Bool-cases ((grp' == char_max) || leb at grp')) [
        | inl e ↦ rw e refl
        | inr e ↦ rw e (
            without-group_from fuel (insert_text s (at - grp') sep) (at - grp') grp' grouping'
            ∙ without-insert_text c (at - grp') s sep gone)
      ]

  without-do_intl :
      {F : Type 0} (env : Env F) (lc : Lconv) (s : Text)
      → lc.thousands_sep ≡ sep
      → without c (do_intl env lc s true).0 ≡ without c (do_intl env lc s false).0
  unfolding do_intl group
  without-do_intl env lc s e =
      let at = or_end (env.find s lc.decimal_point) s in
      ap (λ t. without c (group_from (suc at) s at char_max lc.grouping t)) e
      ∙ without-group_from (suc at) s at char_max lc.grouping

-- Where the separator of thousands is one byte, fmt_number and fmt_fixed give the same text but
-- for this byte.
fmt_number-fmt_fixed :
    {F : Type 0} (env : Env F) (lc : Lconv) (v : Number F) (precision : Option ℕ) (c : ℕ)
    → lc.thousands_sep ≡ c ∷ []
    → without c (fmt_number env lc v precision) ≡ without c (fmt_fixed env lc v precision)
unfolding fmt_number fmt_fixed without
fmt_number-fmt_fixed env lc v precision c e =
    without-do_intl c (c ∷ []) (let self : (c == c) ≡ true = ground arith in rw self refl) env lc
      (fmt_fixed_i env lc v (or_default precision (frac_digits lc))) e

-- A round more changes nothing where the rounds are more than the place.
group_from-more :
    (fuel : ℕ) (s : Text) (at grp : ℕ) (grouping sep : Text)
    → at < fuel
    → (grp == 0) ≡ false
    → group_from (suc fuel) s at grp grouping sep ≡ group_from fuel s at grp grouping sep
unfolding group_from
group_from-more zero s at grp grouping sep h some_grp = absurd (omega (arith, h))
group_from-more (suc fuel) s at grp grouping sep h some_grp =
    let grp' = if head grouping == 0 then grp else head grouping in
    let grouping' = if head grouping == 0 then grouping else drop 1 grouping in
    let some_grp' : (grp' == 0) ≡ false = ground (arith, some_grp) in
    elim (Bool-cases ((grp' == char_max) || leb at grp')) [
      | inl e ↦ rw e refl
      | inr e ↦ rw e (
          group_from-more fuel (insert_text s (at - grp') sep) (at - grp') grp' grouping' sep
            (ground (arith, h, e, some_grp')) some_grp')
    ]
