-- ===== src/Formatting/Filled.antt =====
-- The text of a formatter to which all its arguments have come.
use oocore.Prelude.{
  ℕ, zero, suc, ◌+◌, ◌≤◌, ◌<◌, ◌≡◌, ◌≢◌, refl, sym, ap, subst, ◌∙◌, inl, inr, some, List, [], ◌∷◌,
  ◌++◌, arith, ◌==◌, Bool-cases,
}
use oocore.Formatting.Decimal.{Text}
use oocore.Formatting.Braces.{filled, Insert}
use oocore.Formatting.Formatter.{
  FormatState, Bag, fill, set_arg, lowest, get_arg, apply_arg, text_of, texts_of, cast,
}
use oocore.Formatting.Waiting.{
  text_with, texts_with, count, IsNumbered, AllFrom, First, count-AllFrom, count-First,
  lowest-First, filled_with, fill-First, texts_with-filled, count-filled,
}

-- The arguments from `m` on, `n` of them
unfoldable pub apply_args : Bag → FormatState → (ℕ → Text → Text) → ℕ → ℕ → FormatState
apply_args bag s args m zero = s
apply_args bag s args m (suc n) = apply_args bag (apply_arg bag s (args m)) args (suc m) n

module _ (bag : Bag) (s : FormatState) where
  apply_arg_lem :
      (arg : Text → Text) → apply_arg bag s arg ≡ set_arg bag s (get_arg s).0 (arg (get_arg s).1)
  unfolding apply_arg
  apply_arg_lem arg = refl

  set_arg-some :
      (index : ℕ) (arg : Text) (inserts : List Insert)
      → fill s.inserts index arg ≡ some inserts
      → set_arg bag s index arg ≡ record s { inserts = inserts }
  unfolding set_arg
  set_arg-some index arg inserts e = rw (set_arg, e) refl

-- The formatter with its m-th argument in the insert that waits for it
abbrev advance : (m : ℕ) → (ℕ → Text → Text) → (s : FormatState) → First m s.inserts → FormatState
advance m args s f = record s { inserts = f.a ++ filled_with f.ins (args m f.ins.format) ∷ f.b }

get_arg-First :
    (m : ℕ) (s : FormatState) (f : First m s.inserts)
    → m < filled
    → AllFrom m s.inserts
    → get_arg s ≡ (m, f.ins.format)
unfolding get_arg
get_arg-First m s f below from =
    let own = f.own in
    let lacks = f.lacks in
    subst (λ l. AllFrom m l → lowest l (filled, []) ≡ (m, f.ins.format)) (sym f.parts)
      (λ h. lowest-First m f.a f.ins f.b (filled, []) own lacks h below) from

apply_arg-First :
    (bag : Bag) (args : ℕ → Text → Text) (m : ℕ) (s : FormatState) (f : First m s.inserts)
    → m < filled
    → AllFrom m s.inserts
    → apply_arg bag s (args m) ≡ advance m args s f
apply_arg-First bag args m s f below from =
    apply_arg_lem bag s (args m)
    ∙ ap (λ (r : ℕ × Text). set_arg bag s r.0 (args m r.1)) (get_arg-First m s f below from)
    ∙ set_arg-some bag s m (args m f.ins.format)
        (f.a ++ filled_with f.ins (args m f.ins.format) ∷ f.b)
        (ap (λ l. fill l m (args m f.ins.format)) f.parts
          ∙ fill-First m f.a f.ins f.b (args m f.ins.format) f.own f.lacks)

advance-texts_with :
    (args : ℕ → Text → Text) (m : ℕ) (s : FormatState) (f : First m s.inserts)
    → m ≢ filled
    → texts_with args (advance m args s f).inserts ≡ texts_with args s.inserts
advance-texts_with args m s f ne =
    texts_with-filled args m f.a f.ins f.b f.own ne ∙ ap (texts_with args) (sym f.parts)

advance-IsNumbered :
    (args : ℕ → Text → Text) (m n : ℕ) (s : FormatState) (f : First m s.inserts)
    → m < n
    → IsNumbered m n s.inserts
    → IsNumbered (suc m) n (advance m args s f).inserts
advance-IsNumbered args m n s f h numbered k ne =
    let before = numbered k ne in
    let cut = ap (count k) f.parts in
    let moved = count-filled k m f.a f.ins f.b (args m f.ins.format) f.own ne in
    ground (arith, before, cut, moved)

-- Nothing waits any more.
texts_of-texts_with :
    (args : ℕ → Text → Text) (inserts : List Insert)
    → ((k : ℕ) → k ≢ filled → count k inserts ≡ 0)
    → texts_of inserts ≡ texts_with args inserts
unfolding texts_of text_of texts_with text_with count
texts_of-texts_with args [] none_wait = refl
texts_of-texts_with args (ins ∷ rest) none_wait = elim (Bool-cases (ins.index == filled)) [
  | inl e ↦
      let ih =
        texts_of-texts_with args rest (λ k ne. let h = none_wait k ne in ground (arith, h)) in
      rw (e, ih) refl
  | inr e ↦ let h = none_wait ins.index (ground (arith, e)) in absurd (ground (arith, h))
]

-- Of a formatter whose inserts wait, in any order, for each of the arguments from `m` on once, the
-- text after these arguments is what is meant by it.
apply_args-cast_from :
    (bag : Bag) (args : ℕ → Text → Text) (m n : ℕ) (s : FormatState)
    → m + n ≤ filled
    → IsNumbered m (m + n) s.inserts
    → cast (apply_args bag s args m n) ≡ s.prefix ++ texts_with args s.inserts
unfolding apply_args
apply_args-cast_from bag args m zero s h numbered =
    unfold cast in
    ap (λ t. s.prefix ++ t)
      (texts_of-texts_with args s.inserts (λ k ne. let c = numbered k ne in ground (arith, c)))
apply_args-cast_from bag args m (suc n) s h numbered =
    let own = numbered m (ground (arith, h)) in
    let f = count-First m s.inserts (ground (arith, own)) in
    let from =
      count-AllFrom m s.inserts
        (λ k l. let c = numbered k (ground (arith, h, l)) in ground (arith, c, l)) in
    let next : suc m + n ≡ m + suc n = omega arith in
    let ne : m ≢ filled = ground (arith, h) in
    let numbered' : IsNumbered (suc m) (suc m + n) (advance m args s f).inserts =
      subst (λ l. IsNumbered (suc m) l (advance m args s f).inserts) (sym next)
        (advance-IsNumbered args m (m + suc n) s f (omega arith) numbered) in
    ap (λ r. cast (apply_args bag r args (suc m) n))
      (apply_arg-First bag args m s f (omega (arith, h)) from)
    ∙ apply_args-cast_from bag args (suc m) n (advance m args s f) (omega (arith, h)) numbered'
    ∙ ap (λ t. s.prefix ++ t) (advance-texts_with args m s f ne)

-- If the inserts of a formatter wait, in any order, for each of n arguments once, with n at most
-- (unsigned long)-1, then the text after these arguments is the prefix with, for each insert, its
-- own argument in its format and alignment, and the text behind it.
pub apply_args-cast :
    (bag : Bag) (args : ℕ → Text → Text) (n : ℕ) (s : FormatState)
    → n ≤ filled
    → IsNumbered 0 n s.inserts
    → cast (apply_args bag s args 0 n) ≡ s.prefix ++ texts_with args s.inserts
apply_args-cast bag args n s h numbered =
    let sum : 0 + n ≡ n = omega arith in
    apply_args-cast_from bag args 0 n s (omega (arith, h))
      (subst (λ l. IsNumbered 0 l s.inserts) (sym sum) numbered)
