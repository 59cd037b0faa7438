-- ===== src/Rot/Tables.antt =====
-- What the running object table relies on of OOBase::HandleTable and OOBase::Table, which are not in
-- the repository.
use oocore.Prelude.{ℕ, zero, suc, ◌≤◌, ◌≡◌, Option, none, some, List, [], ◌∷◌, ◌==◌, if◌then◌else◌}
use oocore.Registry.Tables.{Text, same_text}
use oocore.Routing.Table.{has, is_some}

-- `insert t v low high` chooses a free key from low to high, and fails where there is none or no
-- memory. `keys` is the order in which begin() and next() walk.
pub record HandleTable (V : Type 0) : Type 1 where
  pub Carrier : Type 0
  pub find : Carrier → ℕ → Option V
  pub insert : Carrier → V → ℕ → ℕ → Option (Carrier × ℕ)
  pub remove : Carrier → ℕ → Carrier
  pub keys : Carrier → List ℕ
  pub insert-free :
      (t t' : Carrier) (v : V) (low high k : ℕ)
      → insert t v low high ≡ some (t', k)
      → (find t k ≡ none) × (low ≤ k) × (k ≤ high)
  pub find-insert :
      (t t' : Carrier) (v : V) (low high k j : ℕ)
      → insert t v low high ≡ some (t', k)
      → find t' j ≡ (if k == j then some v else find t j)
  pub find-remove :
      (t : Carrier) (k j : ℕ) → find (remove t k) j ≡ (if k == j then none else find t j)
  pub has-keys : (t : Carrier) (k : ℕ) → has k (keys t) ≡ is_some (find t k)

-- v before the n-th element, or at the end
unfoldable pub insert_at : ℕ → ℕ → List ℕ → List ℕ
insert_at zero v l = v ∷ l
insert_at (suc n) v [] = v ∷ []
insert_at (suc n) v (x ∷ l) = x ∷ insert_at n v l

unfoldable pub erase_at : ℕ → List ℕ → List ℕ
erase_at n [] = []
erase_at zero (x ∷ l) = l
erase_at (suc n) (x ∷ l) = x ∷ erase_at n l

-- A sorted table with several values for a key: `values t k` is what a walk from find_first over the
-- places with the key k meets. A new value may take any place among those of its key.
pub record MultiTable : Type 1 where
  pub Carrier : Type 0
  pub values : Carrier → Text → List ℕ
  pub insert : Carrier → Text → ℕ → Option Carrier
  -- the n-th place from find_first
  pub remove_at : Carrier → Text → ℕ → Carrier
  pub place : Carrier → Text → ℕ
  pub values-insert :
      (t t' : Carrier) (k j : Text) (v : ℕ)
      → insert t k v ≡ some t'
      → values t' j ≡ (if same_text k j then insert_at (place t k) v (values t j) else values t j)
  pub values-remove_at :
      (t : Carrier) (k j : Text) (n : ℕ)
      → values (remove_at t k n) j ≡ (if same_text k j then erase_at n (values t j) else values t j)
