-- ===== src/Tests/Handles.antt =====
-- Tables that have the laws that are asked of OOBase::HandleTable and OOBase::Table.
use oocore.Prelude.{
  ℕ, ◌+◌, ◌≤◌, ◌≡◌, refl, sym, ap, Option, none, some, List, [], ◌∷◌, arith, ◌==◌, leb, ltb,
  if◌then◌else◌,
}
use oocore.Registry.Tables.{Text, same_text}
use oocore.Routing.Table.{has, is_some}
use oocore.Rot.Tables.{HandleTable, MultiTable, insert_at, erase_at}

module _ {V : Type 0} where
  abbrev pub find : List (ℕ × V) → ℕ → Option V
  find [] k = none
  find ((j, v) ∷ t) k = if j == k then some v else find t k

  abbrev pub remove : List (ℕ × V) → ℕ → List (ℕ × V)
  remove [] k = []
  remove ((j, v) ∷ t) k = let rest = remove t k in if k == j then rest else (j, v) ∷ rest

  abbrev pub keys : List (ℕ × V) → List ℕ
  keys [] = []
  keys ((j, v) ∷ t) = j ∷ keys t

  -- One more than every key, and no less than `low`
  abbrev pub next_key : ℕ → List (ℕ × V) → ℕ
  next_key low [] = low
  next_key low ((j, v) ∷ t) = let n = next_key low t in if ltb j n then n else j + 1

  abbrev pub insert : List (ℕ × V) → V → ℕ → ℕ → Option (List (ℕ × V) × ℕ)
  insert t v low high =
      if leb (next_key low t) high then some ((next_key low t, v) ∷ t, next_key low t) else none

  next_key-le : (low : ℕ) (t : List (ℕ × V)) → low ≤ next_key low t
  next_key-le low [] = omega arith
  next_key-le low ((j, v) ∷ t) = ground (arith, next_key-le low t)

  find-above : (low k : ℕ) (t : List (ℕ × V)) → next_key low t ≤ k → find t k ≡ none
  find-above low k [] h = refl
  find-above low k ((j, v) ∷ t) h = ground (arith, find-above low k t)

  insert-parts :
      (t t' : List (ℕ × V)) (v : V) (low high k : ℕ)
      → insert t v low high ≡ some (t', k)
      → (t' ≡ (k, v) ∷ t) × (k ≡ next_key low t) × (k ≤ high)
  insert-parts t t' v low high k e = ground arith

  pub insert-free :
      (t t' : List (ℕ × V)) (v : V) (low high k : ℕ)
      → insert t v low high ≡ some (t', k)
      → (find t k ≡ none) × (low ≤ k) × (k ≤ high)
  insert-free t t' v low high k e =
      let (made, key, bound) = insert-parts t t' v low high k e in
      (find-above low k t (omega (arith, key)), omega (arith, key, next_key-le low t), bound)

  pub find-insert :
      (t t' : List (ℕ × V)) (v : V) (low high k j : ℕ)
      → insert t v low high ≡ some (t', k)
      → find t' j ≡ (if k == j then some v else find t j)
  find-insert t t' v low high k j e = ap (λ x. find x j) (insert-parts t t' v low high k e).0

  pub find-remove :
      (t : List (ℕ × V)) (k j : ℕ) → find (remove t k) j ≡ (if k == j then none else find t j)
  find-remove [] k j = ground arith
  find-remove ((i, v) ∷ t) k j = ground (arith, find-remove t k j)

  pub has-keys : (t : List (ℕ × V)) (k : ℕ) → has k (keys t) ≡ is_some (find t k)
  unfolding has
  has-keys [] k = refl
  has-keys ((j, v) ∷ t) k = ground (arith, has-keys t k)

abbrev pub handles : (V : Type 0) → HandleTable V
handles V = record {
  Carrier = List (ℕ × V);
  find = find;
  insert = insert;
  remove = remove;
  keys = keys;
  insert-free = insert-free;
  find-insert = find-insert;
  find-remove = find-remove;
  has-keys = has-keys;
}

abbrev pub Places : Type 0
Places = Text → List ℕ

abbrev pub put : Places → Text → ℕ → Places
put t k v j = if same_text k j then insert_at 0 v (t j) else t j

abbrev pub drop_at : Places → Text → ℕ → Places
drop_at t k n j = if same_text k j then erase_at n (t j) else t j

pub put-values :
    (t t' : Places) (k j : Text) (v : ℕ)
    → some (put t k v) ≡ some t'
    → t' j ≡ (if same_text k j then insert_at 0 v (t j) else t j)
put-values t t' k j v e = let same : put t k v ≡ t' = cc in ap (λ (f : Places). f j) (sym same)

abbrev pub places : MultiTable
places = record {
  Carrier = Places;
  values = λ t k. t k;
  insert = λ t k v. some (put t k v);
  remove_at = drop_at;
  place = λ t k. 0;
  values-insert = put-values;
  values-remove_at = λ t k j n. refl;
}
