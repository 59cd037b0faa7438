-- ===== src/Formatting/Copied.antt =====
-- A copy of a formatter.
use oocore.Prelude.{
  ◌≡◌, refl, sym, ap, ◌∙◌, inl, inr, true, false, List, [], ◌∷◌, ◌++◌, arith, ◌==◌, ltb, Bool-cases,
  ++-assoc, ++-[],
}
use oocore.Formatting.Decimal.{Text}
use oocore.Formatting.Braces.{filled, Insert}
use oocore.Formatting.Formatter.{
  FormatState, Bag, copy_inserts, copy, lowest, get_arg, text_of, texts_of, cast,
}

module _ (bag : Bag) where
  -- After the first insert that waits all are added.
  copy_inserts-pushed :
      (new : FormatState) (rest : List Insert)
      → copy_inserts bag new true rest ≡ record new { inserts = new.inserts ++ rest }
  unfolding copy_inserts
  copy_inserts-pushed new [] = ap (λ l. record new { inserts = l }) (sym (++-[] new.inserts))
  copy_inserts-pushed new (ins ∷ rest) =
      copy_inserts-pushed (record new { inserts = bag.add new.inserts ins }) rest
      ∙ ap (λ l. record new { inserts = l })
          (ap (λ l. l ++ rest) (bag.add-append new.inserts ins)
            ∙ ++-assoc new.inserts (ins ∷ []) rest)

  -- Where an insert waits, it and all behind it are taken over.
  copy_inserts-waits :
      (prefix : Text) (ins : Insert) (rest : List Insert)
      → (ins.index == filled) ≡ false
      → copy_inserts bag (record { prefix = prefix; inserts = [] }) false (ins ∷ rest)
        ≡ record { prefix = prefix; inserts = ins ∷ rest }
  unfolding copy_inserts
  copy_inserts-waits prefix ins rest e =
      rw (copy_inserts, e)
        (copy_inserts-pushed (record { prefix = prefix; inserts = bag.add [] ins }) rest
          ∙ ap (λ l. record { prefix = prefix; inserts = l ++ rest }) (bag.add-append [] ins))

  copy_inserts-merges :
      (prefix : Text) (ins : Insert) (rest : List Insert)
      → (ins.index == filled) ≡ true
      → copy_inserts bag (record { prefix = prefix; inserts = [] }) false (ins ∷ rest)
        ≡ copy_inserts bag
            (record { prefix = prefix ++ (ins.format ++ ins.suffix); inserts = [] })
            false
            rest
  unfolding copy_inserts
  copy_inserts-merges prefix ins rest e = rw (copy_inserts, e) refl

  text_of-filled :
      (ins : Insert) → (ins.index == filled) ≡ true → text_of ins ≡ ins.format ++ ins.suffix
  unfolding text_of
  text_of-filled ins e = rw (text_of, e) refl

  cast-copy_inserts :
      (prefix : Text) (rest : List Insert)
      → cast (copy_inserts bag (record { prefix = prefix; inserts = [] }) false rest)
        ≡ prefix ++ texts_of rest
  unfolding cast
  cast-copy_inserts prefix [] = unfold copy_inserts in refl
  cast-copy_inserts prefix (ins ∷ rest) = elim (Bool-cases (ins.index == filled)) [
    | inl e ↦
        ap cast (copy_inserts-merges prefix ins rest e)
        ∙ cast-copy_inserts (prefix ++ (ins.format ++ ins.suffix)) rest
        ∙ ++-assoc prefix (ins.format ++ ins.suffix) (texts_of rest)
        ∙ ap (λ t. prefix ++ (t ++ texts_of rest)) (sym (text_of-filled ins e))
    | inr e ↦ ap cast (copy_inserts-waits prefix ins rest e)
  ]

  get_arg-copy_inserts :
      (prefix : Text) (rest : List Insert)
      → get_arg (copy_inserts bag (record { prefix = prefix; inserts = [] }) false rest)
        ≡ lowest rest (filled, [])
  unfolding get_arg
  get_arg-copy_inserts prefix [] = unfold copy_inserts in refl
  get_arg-copy_inserts prefix (ins ∷ rest) = elim (Bool-cases (ins.index == filled)) [
    | inl e ↦
        let no : ltb ins.index filled ≡ false = ground (arith, e) in
        ap get_arg (copy_inserts-merges prefix ins rest e)
        ∙ get_arg-copy_inserts (prefix ++ (ins.format ++ ins.suffix)) rest
        ∙ rw (lowest, no) refl
    | inr e ↦ ap get_arg (copy_inserts-waits prefix ins rest e)
  ]

  -- A copy of a formatter has its text and waits for the same argument in the same format.
  pub copy-same :
      (s : FormatState) → (cast (copy bag s) ≡ cast s) × (get_arg (copy bag s) ≡ get_arg s)
  unfolding copy cast get_arg
  copy-same s = (cast-copy_inserts s.prefix s.inserts, get_arg-copy_inserts s.prefix s.inserts)
