-- ===== src/Tests/Assoc.antt =====
-- A table as a list of pairs, which has the laws that are asked of OOBase::HashTable.
use oocore.Prelude.{
  ℕ, ◌≤◌, ◌<◌, ◌≡◌, refl, sym, ap, ◌∙◌, Option, none, some, List, [], ◌∷◌, arith, ◌==◌,
  if◌then◌else◌, length,
}
use oocore.Routing.Table.{HashTable, has, is_some}

abbrev pub Pairs : Type 0
Pairs = List (ℕ × ℕ)

abbrev pub find : Pairs → ℕ → Option ℕ
find [] k = none
find ((j, v) ∷ t) k = if j == k then some v else find t k

abbrev pub remove : Pairs → ℕ → Pairs
remove [] k = []
remove ((j, v) ∷ t) k = let rest = remove t k in if k == j then rest else (j, v) ∷ rest

abbrev pub assign : Pairs → ℕ → ℕ → Pairs
assign t k v = (k, v) ∷ remove t k

abbrev pub keys : Pairs → List ℕ
keys [] = []
keys ((j, v) ∷ t) = j ∷ keys t

abbrev pub pop : Pairs → Option (ℕ × ℕ × Pairs)
pop [] = none
pop ((k, v) ∷ t) = some (k, v, remove ((k, v) ∷ t) k)

abbrev pub insert : Pairs → ℕ → ℕ → Option Pairs
insert t k v = some ((k, v) ∷ t)

pub find-insert :
    (t t' : Pairs) (k j v : ℕ)
    → find t k ≡ none
    → insert t k v ≡ some t'
    → find t' j ≡ (if k == j then some v else find t j)
find-insert t t' k j v absent e = ground arith

pub find-remove : (t : Pairs) (k j : ℕ) → find (remove t k) j ≡ (if k == j then none else find t j)
find-remove [] k j = ground arith
find-remove ((i, v) ∷ t) k j = ground (arith, find-remove t k j)

pub find-assign :
    (t : Pairs) (k j v old : ℕ)
    → find t k ≡ some old
    → find (assign t k v) j ≡ (if k == j then some v else find t j)
find-assign t k j v old e = ground (arith, find-remove t k j)

pub pop-none : (t : Pairs) (j : ℕ) → pop t ≡ none → find t j ≡ none
pop-none [] j e = refl
pop-none ((k, v) ∷ t) j e = absurd (cc)

length-remove : (t : Pairs) (k : ℕ) → length (keys (remove t k)) ≤ length (keys t)
length-remove [] k = omega arith
length-remove ((j, v) ∷ t) k = ground (arith, length-remove t k)

some_eq : (a b : ℕ × ℕ × Pairs) → some a ≡ some b → a ≡ b
some_eq a b e = cc

popped :
    (j w k v : ℕ) (t t' : Pairs)
    → pop ((j, w) ∷ t) ≡ some (k, v, t')
    → (j ≡ k) × (w ≡ v) × (t' ≡ remove ((j, w) ∷ t) k)
popped j w k v t t' e =
    let inj : ◌≡◌ {A = ℕ × ℕ × Pairs} (j, w, remove ((j, w) ∷ t) j) (k, v, t') = some_eq _ _ e in
    (
      ap (λ r. r.0) inj,
      ap (λ r. r.1) inj,
      sym (ap (λ r. r.2) inj) ∙ ap (λ (x : ℕ). remove ((j, w) ∷ t) x) (ap (λ r. r.0) inj),
    )

pub pop-some :
    (t t' : Pairs) (k v : ℕ)
    → pop t ≡ some (k, v, t')
    → (find t k ≡ some v) × (t' ≡ remove t k) × (length (keys t') < length (keys t))
pop-some [] t' k v e = absurd (cc)
pop-some ((j, w) ∷ t) t' k v e =
    let (a, b, c) = popped j w k v t t' e in
    (rw (a, b) (ground arith), c, rw (c, a) (ground (arith, length-remove t k)))

pub has-keys : (t : Pairs) (k : ℕ) → has k (keys t) ≡ is_some (find t k)
unfolding has
has-keys [] k = refl
has-keys ((j, v) ∷ t) k = ground (arith, has-keys t k)

pub size-keys : (t : Pairs) → length (keys t) ≡ length (keys t)
size-keys t = refl

abbrev pub pairs_table : HashTable ℕ
pairs_table = record {
  Carrier = Pairs;
  find = find;
  insert = insert;
  assign = assign;
  remove = remove;
  pop = pop;
  keys = keys;
  size = λ t. length (keys t);
  find-insert = find-insert;
  find-assign = find-assign;
  find-remove = find-remove;
  pop-none = pop-none;
  pop-some = pop-some;
  has-keys = has-keys;
  size-keys = size-keys;
}
