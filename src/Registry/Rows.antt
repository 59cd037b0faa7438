-- ===== src/Registry/Rows.antt =====
-- What deleting rows of RegistryKeys, and the trigger, leave of both tables.
use oocore.Prelude.{
  ℕ, ◌≡◌, ◌≢◌, refl, subst, ◌∙◌, inl, inr, true, ◌||◌, none, some, List, [], ◌∷◌, ◌++◌, arith, ◌==◌,
  Bool-cases,
}
use oocore.Routing.Table.{has}
use oocore.Registry.Tables.{
  Text, Key, Value, key_by_id, keys_below, value_by_name, drop_values, drop_values_of,
  keep_not_below, keep_not_id,
}
use oocore.Registry.Delete.{popped}

-- No two rows have the same id.
unfoldable pub Distinct : List Key → Type 0
Distinct [] = Unit
Distinct (k ∷ ks) = (key_by_id ks k.id ≡ none) × Distinct ks

-- Rows that went were rows with a reason to go, and the others stayed as they were.
keep_not_below-absent :
    (p i : ℕ) (ks : List Key) → key_by_id ks i ≡ none → key_by_id (keep_not_below p ks) i ≡ none
unfolding key_by_id keep_not_below
keep_not_below-absent p i [] e = refl
keep_not_below-absent p i (k ∷ ks) e =
    let ih = keep_not_below-absent p i ks in ground (arith, e, ih)

keep_not_id-absent :
    (p i : ℕ) (ks : List Key) → key_by_id ks i ≡ none → key_by_id (keep_not_id p ks) i ≡ none
unfolding key_by_id keep_not_id
keep_not_id-absent p i [] e = refl
keep_not_id-absent p i (k ∷ ks) e = let ih = keep_not_id-absent p i ks in ground (arith, e, ih)

pub keep_not_below-Distinct : (p : ℕ) (ks : List Key) → Distinct ks → Distinct (keep_not_below p ks)
unfolding Distinct keep_not_below
keep_not_below-Distinct p [] d = d
keep_not_below-Distinct p (k ∷ ks) (new, d) = elim (Bool-cases (k.parent == p)) [
  | inl e ↦ rw e (keep_not_below-Distinct p ks d)
  | inr e ↦ rw e (keep_not_below-absent p k.id ks new, keep_not_below-Distinct p ks d)
]

pub keep_not_id-Distinct : (p : ℕ) (ks : List Key) → Distinct ks → Distinct (keep_not_id p ks)
unfolding Distinct keep_not_id
keep_not_id-Distinct p [] d = d
keep_not_id-Distinct p (k ∷ ks) (new, d) = elim (Bool-cases (k.id == p)) [
  | inl e ↦ rw e (keep_not_id-Distinct p ks d)
  | inr e ↦ rw e (keep_not_id-absent p k.id ks new, keep_not_id-Distinct p ks d)
]

keys_below-absent :
    (p i : ℕ) (ks : List Key) → key_by_id ks i ≡ none → key_by_id (keys_below ks p) i ≡ none
unfolding key_by_id keys_below
keys_below-absent p i [] e = refl
keys_below-absent p i (k ∷ ks) e = let ih = keys_below-absent p i ks in ground (arith, e, ih)

-- A row that is left was there, is not below p, and its id is not that of a row that went.
pub keep_not_below-kept :
    (p i : ℕ) (k : Key) (ks : List Key)
    → Distinct ks
    → key_by_id (keep_not_below p ks) i ≡ some k
    → (key_by_id ks i ≡ some k) × (k.parent ≢ p) × (key_by_id (keys_below ks p) i ≡ none)
unfolding Distinct key_by_id keep_not_below keys_below
keep_not_below-kept p i k [] d e = absurd (ground (arith, e))
keep_not_below-kept p i k (r ∷ rs) (new, d) e =
    let ih = keep_not_below-kept p i k rs d in
    let absent = keys_below-absent p i rs in
    let other : key_by_id rs i ≡ some k → r.id ≢ i = λ f c. ground (arith, f, new, c) in
    elim (Bool-cases (r.parent == p)) [
      | inl f ↦
          let rest = ih (ground (arith, e, f)) in
          let ne = other rest.0 in ground (arith, f, rest, ne)
      | inr f ↦ elim (Bool-cases (r.id == i)) [
        | inl g ↦
            let same : r.id ≡ i = ground (arith, g) in
            let none_left = absent (subst (λ t. key_by_id rs t ≡ none) same new) in
            ground (arith, e, f, g, none_left)
        | inr g ↦ let rest = ih (ground (arith, e, f, g)) in ground (arith, f, g, rest)
      ]
    ]

pub keep_not_id-kept :
    (p i : ℕ) (k : Key) (ks : List Key)
    → key_by_id (keep_not_id p ks) i ≡ some k
    → (key_by_id ks i ≡ some k) × (i ≢ p)
unfolding key_by_id keep_not_id
keep_not_id-kept p i k [] e = absurd (ground (arith, e))
keep_not_id-kept p i k (r ∷ rs) e = let ih = keep_not_id-kept p i k rs in ground (arith, e, ih)

-- A row that went was below p.
pub keep_not_below-gone :
    (p i : ℕ) (k : Key) (ks : List Key)
    → key_by_id ks i ≡ some k
    → key_by_id (keep_not_below p ks) i ≡ none
    → k.parent ≡ p
unfolding key_by_id keep_not_below
keep_not_below-gone p i k [] e gone = absurd (ground (arith, e))
keep_not_below-gone p i k (r ∷ rs) e gone =
    let ih = keep_not_below-gone p i k rs in ground (arith, e, gone, ih)

pub keep_not_id-gone :
    (p i : ℕ) (k : Key) (ks : List Key)
    → key_by_id ks i ≡ some k
    → key_by_id (keep_not_id p ks) i ≡ none
    → i ≡ p
unfolding key_by_id keep_not_id
keep_not_id-gone p i k [] e gone = absurd (ground (arith, e))
keep_not_id-gone p i k (r ∷ rs) e gone =
    let ih = keep_not_id-gone p i k rs in ground (arith, e, gone, ih)

pub drop_values-other :
    (name : Text) (p i : ℕ) (vs : List Value)
    → i ≢ p
    → value_by_name (drop_values p vs) name i ≡ value_by_name vs name i
unfolding value_by_name drop_values
drop_values-other name p i [] ne = refl
drop_values-other name p i (v ∷ vs) ne =
    let ih = drop_values-other name p i vs in ground (arith, ne, ih)

pub drop_values_of-other :
    (name : Text) (i : ℕ) (ks : List Key) (vs : List Value)
    → key_by_id ks i ≡ none
    → value_by_name (drop_values_of ks vs) name i ≡ value_by_name vs name i
unfolding key_by_id drop_values_of
drop_values_of-other name i [] vs e = refl
drop_values_of-other name i (k ∷ ks) vs e =
    let rest : key_by_id ks i ≡ none = ground (arith, e) in
    let ne : i ≢ k.id = λ c. ground (arith, e, c) in
    drop_values_of-other name i ks (drop_values k.id vs) rest ∙ drop_values-other name k.id i vs ne

has-append : (i j : ℕ) (js : List ℕ) → has i (js ++ j ∷ []) ≡ (has i js || i == j)
unfolding has
has-append i j [] = ground arith
has-append i j (k ∷ ks) = let ih = has-append i j ks in ground (arith, ih)

-- Every row below p is on the stack.
pub has-popped :
    (p i : ℕ) (k : Key) (ks : List Key)
    → key_by_id ks i ≡ some k
    → k.parent ≡ p
    → has i (popped (keys_below ks p)) ≡ true
unfolding key_by_id keys_below popped
has-popped p i k [] e below = absurd (ground (arith, e))
has-popped p i k (r ∷ rs) e below =
    let ih = has-popped p i k rs in
    let there = has-append i r.id (popped (keys_below rs p)) in ground (arith, e, below, ih, there)

pub keep_not_id-none : (p : ℕ) (ks : List Key) → key_by_id (keep_not_id p ks) p ≡ none
unfolding key_by_id keep_not_id
keep_not_id-none p [] = refl
keep_not_id-none p (k ∷ ks) = let ih = keep_not_id-none p ks in ground (arith, ih)

-- Every id on the stack is that of a row below p.
pub popped-row :
    (p i : ℕ) (ks : List Key)
    → Distinct ks
    → has i (popped (keys_below ks p)) ≡ true
    → (k : Key) × (key_by_id ks i ≡ some k) × (k.parent ≡ p)
unfolding Distinct key_by_id keys_below popped has
popped-row p i [] d h = absurd (ground (arith, h))
popped-row p i (r ∷ rs) (new, d) h =
    let there = has-append i r.id (popped (keys_below rs p)) in
    elim (Bool-cases (has i (popped (keys_below rs p)))) [
      | inl f ↦
          let (k, at, below) = popped-row p i rs d f in
          let ne : r.id ≢ i = λ c. ground (arith, at, new, c) in (k, ground (arith, at, ne), below)
      | inr f ↦ (r, ground (arith, h, f, there), ground (arith, h, f, there))
    ]
