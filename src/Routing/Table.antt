-- ===== src/Routing/Table.antt =====
-- What the handler relies on of OOBase::HashTable<uint32_t, …>, which is not in the repository.
use oocore.Prelude.{
  ℕ, ◌<◌, ◌≡◌, refl, Bool, true, false, Option, none, some, List, length, ◌==◌, ◌||◌,
}
use oocore.Prelude.{[], ◌∷◌, if◌then◌else◌}

abbrev pub is_some {ℓ} : {A : Type ℓ} → Option A → Bool
is_some none = false
is_some (some a) = true

unfoldable pub has : ℕ → List ℕ → Bool
has k [] = false
has k (j ∷ js) = k == j || has k js

pub has-cons : (k j : ℕ) (js : List ℕ) → has k (j ∷ js) ≡ (k == j || has k js)
unfolding has
has-cons k j js = refl

-- `insert` is asked only for keys that are absent, and fails where no memory is left. `assign` writes
-- through the pointer that find() has given. `keys` is the order in which begin() and next() walk.
pub record HashTable (V : Type 0) : Type 1 where
  pub Carrier : Type 0
  pub find : Carrier → ℕ → Option V
  pub insert : Carrier → ℕ → V → Option Carrier
  pub assign : Carrier → ℕ → V → Carrier
  pub remove : Carrier → ℕ → Carrier
  -- some entry, and the table without it
  pub pop : Carrier → Option (ℕ × V × Carrier)
  pub keys : Carrier → List ℕ
  pub size : Carrier → ℕ
  pub find-insert :
      (t t' : Carrier) (k j : ℕ) (v : V)
      → find t k ≡ none
      → insert t k v ≡ some t'
      → find t' j ≡ (if k == j then some v else find t j)
  pub find-assign :
      (t : Carrier) (k j : ℕ) (v old : V)
      → find t k ≡ some old
      → find (assign t k v) j ≡ (if k == j then some v else find t j)
  pub find-remove :
      (t : Carrier) (k j : ℕ) → find (remove t k) j ≡ (if k == j then none else find t j)
  pub pop-none : (t : Carrier) (j : ℕ) → pop t ≡ none → find t j ≡ none
  pub pop-some :
      (t t' : Carrier) (k : ℕ) (v : V)
      → pop t ≡ some (k, v, t')
      → (find t k ≡ some v) × (t' ≡ remove t k) × (size t' < size t)
  pub has-keys : (t : Carrier) (k : ℕ) → has k (keys t) ≡ is_some (find t k)
  pub size-keys : (t : Carrier) → size t ≡ length (keys t)
