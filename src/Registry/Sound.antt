-- ===== src/Registry/Sound.antt =====
-- The invariant of the two tables, and what keeps it.
use oocore.Prelude.{
  ℕ, ◌+◌, ◌<◌, ◌≡◌, ◌≢◌, refl, sym, ap, subst, ◌∙◌, ◌⊎◌, inl, inr, none, some, List, [], ◌∷◌, ◌++◌,
  arith, ◌==◌, Bool-cases, Option-cases,
}
use oocore.Registry.Tables.{Text, Key, Tables, key_by_id}
use oocore.Registry.Rows.{Distinct}
use oocore.Registry.Pruned.{HasParents}
use oocore.Registry.Finite.{AreGrowing}

-- The ids of keys are distinct, each is above its parent's and below the next one to be given, and
-- the parents are there.
pub record IsSound (t : Tables) : Type 0 where
  pub distinct : Distinct t.keys
  pub growing : AreGrowing t.next_id t.keys
  pub parents : HasParents t.keys
  pub positive : 0 < t.next_id

-- The root of the tree, or a key
abbrev pub IsPresent : Tables → ℕ → Type 0
IsPresent t i = (i ≡ 0) ⊎ ((k : Key) × (key_by_id t.keys i ≡ some k))

pub IsSound-keys : (t u : Tables) → u.keys ≡ t.keys → u.next_id ≡ t.next_id → IsSound t → IsSound u
IsSound-keys t u keys next s = record {
  distinct = subst Distinct (sym keys) s.distinct;
  growing =
      subst (λ n. AreGrowing n u.keys) (sym next)
        (subst (AreGrowing t.next_id) (sym keys) s.growing);
  parents = subst HasParents (sym keys) s.parents;
  positive = subst (λ n. 0 < n) (sym next) s.positive;
}

key_by_id-old :
    (ks : List Key) (r k : Key) (i : ℕ)
    → key_by_id ks i ≡ some k
    → key_by_id (ks ++ r ∷ []) i ≡ some k
unfolding key_by_id
key_by_id-old [] r k i e = absurd (ground (arith, e))
key_by_id-old (j ∷ js) r k i e = let ih = key_by_id-old js r k i in ground (arith, e, ih)

key_by_id-new :
    (ks : List Key) (r : Key) → key_by_id ks r.id ≡ none → key_by_id (ks ++ r ∷ []) r.id ≡ some r
unfolding key_by_id
key_by_id-new [] r e = ground arith
key_by_id-new (j ∷ js) r e = let ih = key_by_id-new js r in ground (arith, e, ih)

key_by_id-back :
    (ks : List Key) (r k : Key) (i : ℕ)
    → key_by_id (ks ++ r ∷ []) i ≡ some k
    → (key_by_id ks i ≡ some k) ⊎ ((i ≡ r.id) × (r ≡ k))
unfolding key_by_id
key_by_id-back [] r k i e = elim (Bool-cases (r.id == i)) [
  | inl f ↦ inr (ground (arith, f), ground (arith, e, f))
  | inr f ↦ absurd (ground (arith, e, f))
]
key_by_id-back (j ∷ js) r k i e = elim (Bool-cases (j.id == i)) [
  | inl f ↦ inl (ground (arith, e, f))
  | inr f ↦ elim (key_by_id-back js r k i (ground (arith, e, f))) [
    | inl g ↦ inl (ground (arith, g, f))
    | inr g ↦ inr g
  ]
]

key_by_id-still :
    (ks : List Key) (r : Key) (i : ℕ)
    → key_by_id ks i ≡ none
    → i ≢ r.id
    → key_by_id (ks ++ r ∷ []) i ≡ none
unfolding key_by_id
key_by_id-still [] r i e ne = ground (arith, ne)
key_by_id-still (j ∷ js) r i e ne = let ih = key_by_id-still js r i in ground (arith, e, ne, ih)

Distinct-append :
    (ks : List Key) (r : Key) → Distinct ks → key_by_id ks r.id ≡ none → Distinct (ks ++ r ∷ [])
unfolding Distinct key_by_id
Distinct-append [] r d e = (refl, d)
Distinct-append (j ∷ js) r (new, d) e =
    let ne : j.id ≢ r.id = λ c. ground (arith, e, c) in
    let rest : key_by_id js r.id ≡ none = ground (arith, e) in
    (key_by_id-still js r j.id new ne, Distinct-append js r d rest)

-- The next id is free.
next_id-free : (t : Tables) → IsSound t → key_by_id t.keys t.next_id ≡ none
next_id-free t s = elim (Option-cases (key_by_id t.keys t.next_id)) [
  | inl e ↦ e
  | inr (k, e) ↦ let grow = s.growing t.next_id k e in absurd (omega (arith, grow))
]

present-lt : (t : Tables) (i : ℕ) → IsSound t → IsPresent t i → i < t.next_id
present-lt t i s (inl z) = let pos = s.positive in omega (arith, z, pos)
present-lt t i s (inr (k, e)) = (s.growing i k e).1

pub appended-IsSound :
    (name : Text) (parent : ℕ) (t : Tables)
    → IsSound t
    → IsPresent t parent
    → let r : Key = record { id = t.next_id; name = name; parent = parent } in
      let u : Tables = record t { keys = t.keys ++ r ∷ []; next_id = t.next_id + 1 } in
      IsSound u × IsPresent u t.next_id
appended-IsSound name parent t s there =
    let r : Key = record { id = t.next_id; name = name; parent = parent } in
    let free = next_id-free t s in
    let below = present-lt t parent s there in
    (
      record {
        distinct = Distinct-append t.keys r s.distinct free;
        growing = λ i k e. elim (key_by_id-back t.keys r k i e) [
          | inl old ↦ let grow = s.growing i k old in (grow.0, omega (arith, grow))
          | inr (at, same) ↦
              let par : k.parent ≡ parent = ap (λ (x : Key). x.parent) (sym same) in
              (omega (arith, par, at, below), omega (arith, at))
        ];
        parents = λ i k e nz. elim (key_by_id-back t.keys r k i e) [
          | inl old ↦
              let (p, found) = s.parents i k old nz in (p, key_by_id-old t.keys r p k.parent found)
          | inr (at, same) ↦
              let par : parent ≡ k.parent = ap (λ (x : Key). x.parent) same in
              elim there [
                | inl z ↦ absurd (nz (sym par ∙ z))
                | inr (p, found) ↦ (
                  p,
                  key_by_id-old t.keys r p k.parent
                      (subst (λ j. key_by_id t.keys j ≡ some p) par found),
                )
              ]
        ];
        positive = omega arith;
      },
      inr (r, key_by_id-new t.keys r free),
    )
