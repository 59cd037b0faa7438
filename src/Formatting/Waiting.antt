-- ===== src/Formatting/Waiting.antt =====
-- The inserts of a formatter that wait for their arguments.
use oocore.Prelude.{
  ℕ, ◌+◌, ◌≤◌, ◌<◌, ◌≡◌, ◌≢◌, refl, ap, ◌∙◌, inl, inr, true, false, ◌&&◌, some, List, [], ◌∷◌, ◌++◌,
  arith, ◌==◌, ltb, leb, if◌then◌else◌, Bool-cases,
}
use oocore.Formatting.Decimal.{Text}
use oocore.Formatting.Braces.{filled, Insert}
use oocore.Formatting.Formatter.{align, fill, lowest}

-- What is meant by an insert: its argument, aligned, and the text behind it
unfoldable pub text_with : (ℕ → Text → Text) → Insert → Text
text_with args ins =
    (if ins.index == filled then ins.format else align (args ins.index ins.format) ins.alignment)
    ++ ins.suffix

unfoldable pub texts_with : (ℕ → Text → Text) → List Insert → Text
unfolding text_with
texts_with args [] = []
texts_with args (ins ∷ rest) = text_with args ins ++ texts_with args rest

-- How many inserts wait for an argument
unfoldable pub count : ℕ → List Insert → ℕ
count k [] = 0
count k (ins ∷ rest) = (if ins.index == k then 1 else 0) + count k rest

-- Each of the arguments from `m` up to `n` is waited for once, and no other is.
abbrev pub IsNumbered : ℕ → ℕ → List Insert → Type 0
IsNumbered m n inserts =
    (k : ℕ) → k ≢ filled → count k inserts ≡ (if leb m k && ltb k n then 1 else 0)

abbrev pub AllFrom : ℕ → List Insert → Type 0
AllFrom m [] = Unit
AllFrom m (ins ∷ rest) = (m ≤ ins.index) × AllFrom m rest

pub count-AllFrom :
    (m : ℕ) (inserts : List Insert) → ((k : ℕ) → k < m → count k inserts ≡ 0) → AllFrom m inserts
unfolding count
count-AllFrom m [] h = tt
count-AllFrom m (ins ∷ rest) h = (
  elim (Bool-cases (leb m ins.index)) [
    | inl e ↦ ground (arith, e)
    | inr e ↦ let gone = h ins.index (ground (arith, e)) in absurd (ground (arith, gone))
  ],
  count-AllFrom m rest (λ k l. let none_of = h k l in ground (arith, none_of)),
)

-- The first insert that waits for an argument
pub record First (m : ℕ) (inserts : List Insert) : Type 0 where
  pub a : List Insert
  pub ins : Insert
  pub b : List Insert
  pub parts : inserts ≡ a ++ ins ∷ b
  pub own : ins.index ≡ m
  pub lacks : count m a ≡ 0

pub count-First : (m : ℕ) (inserts : List Insert) → 1 ≤ count m inserts → First m inserts
unfolding count
count-First m [] h = absurd (omega (arith, h))
count-First m (ins ∷ rest) h = elim (Bool-cases (ins.index == m)) [
  | inl e ↦ record {
    a = [];
    ins = ins;
    b = rest;
    parts = refl;
    own = ground (arith, e);
    lacks = refl;
  }
  | inr e ↦
      let f = count-First m rest (ground (arith, e, h)) in
      record {
        a = ins ∷ f.a;
        ins = f.ins;
        b = f.b;
        parts = ap (λ l. ins ∷ l) f.parts;
        own = f.own;
        lacks = let l = f.lacks in ground (arith, e, l);
      }
]

lowest-stays :
    (m : ℕ) (b : List Insert) (best : ℕ × Text) → best.0 ≡ m → AllFrom m b → lowest b best ≡ best
unfolding lowest
lowest-stays m [] best e h = refl
lowest-stays m (ins ∷ b) best e (h, hs) =
    let no : ltb ins.index best.0 ≡ false = ground (arith, e, h) in
    rw no (lowest-stays m b best e hs)

pub lowest-First :
    (m : ℕ) (a : List Insert) (ins : Insert) (b : List Insert) (best : ℕ × Text)
    → ins.index ≡ m
    → count m a ≡ 0
    → AllFrom m (a ++ ins ∷ b)
    → m < best.0
    → lowest (a ++ ins ∷ b) best ≡ (m, ins.format)
unfolding lowest count
lowest-First m [] ins b best own lacks (h, hs) above =
    let better : ltb ins.index best.0 ≡ true = ground (arith, own, above) in
    rw (lowest, better)
      (lowest-stays m b (ins.index, ins.format) own hs ∙ ap (λ i. (i, ins.format)) own)
lowest-First m (x ∷ a) ins b best own lacks (h, hs) above = elim (Bool-cases (ltb x.index best.0)) [
  | inl e ↦
      rw (lowest, e)
        (lowest-First m a ins b (x.index, x.format) own (ground (arith, lacks)) hs
          (ground (arith, lacks, h)))
  | inr e ↦ rw (lowest, e) (lowest-First m a ins b best own (ground (arith, lacks)) hs above)
]

-- The insert with its argument
abbrev pub filled_with : Insert → Text → Insert
filled_with ins arg = record ins { format = align arg ins.alignment; index = filled }

pub fill-First :
    (m : ℕ) (a : List Insert) (ins : Insert) (b : List Insert) (arg : Text)
    → ins.index ≡ m
    → count m a ≡ 0
    → fill (a ++ ins ∷ b) m arg ≡ some (a ++ filled_with ins arg ∷ b)
unfolding fill count
fill-First m [] ins b arg own lacks =
    let found : (ins.index == m) ≡ true = ground (arith, own) in rw found refl
fill-First m (x ∷ a) ins b arg own lacks =
    let other : (x.index == m) ≡ false = ground (arith, lacks) in
    rw (other, fill-First m a ins b arg own (ground (arith, lacks))) refl

pub texts_with-filled :
    (args : ℕ → Text → Text) (m : ℕ) (a : List Insert) (ins : Insert) (b : List Insert)
    → ins.index ≡ m
    → m ≢ filled
    → texts_with args (a ++ filled_with ins (args m ins.format) ∷ b)
      ≡ texts_with args (a ++ ins ∷ b)
unfolding texts_with
texts_with-filled args m [] ins b own ne =
    let waits : (ins.index == filled) ≡ false = ground (arith, own, ne) in rw (waits, own) refl
texts_with-filled args m (x ∷ a) ins b own ne =
    ap (λ t. text_with args x ++ t) (texts_with-filled args m a ins b own ne)

pub count-filled :
    (k m : ℕ) (a : List Insert) (ins : Insert) (b : List Insert) (arg : Text)
    → ins.index ≡ m
    → k ≢ filled
    → count k (a ++ ins ∷ b) ≡ (if m == k then 1 else 0) + count k (a ++ filled_with ins arg ∷ b)
unfolding count
count-filled k m [] ins b arg own ne = ground (arith, own, ne)
count-filled k m (x ∷ a) ins b arg own ne =
    let ih = count-filled k m a ins b arg own ne in ground (arith, ih)
