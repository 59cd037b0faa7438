-- ===== src/Registry/Finite.antt =====
-- create_key and delete_key end.
use oocore.Prelude.{
  ℕ, zero, suc, ◌-◌, ◌<◌, ◌≡◌, refl, ap, ◌∙◌, inl, inr, true, false, Option, some, List, [], ◌∷◌,
  arith, Bool-cases,
}
use oocore.Routing.Table.{has}
use oocore.Registry.Tables.{Key, Tables, key_by_id, keys_below}
use oocore.Registry.Hive.{HiveError, hive_ok, hive_errored, is_ok, Env}
use oocore.Registry.Delete.{
  may_delete, popped, lists_all, delete_children, delete_each, delete_subkeys,
}
use oocore.Registry.Rows.{Distinct, popped-row}
use oocore.Registry.Pruned.{is_ok_sound, IsPruned}
use oocore.Registry.Protected.{delete_subkeys-IsEmptied}

-- A key is made after its parent, and AUTOINCREMENT gives it a larger id; `bound` is larger still.
abbrev pub AreGrowing : ℕ → List Key → Type 0
AreGrowing bound ks = (i : ℕ) (k : Key) → key_by_id ks i ≡ some k → (k.parent < i) × (i < bound)

module _ (delete : ℕ → Tables → Option (HiveError × Tables)) (id : ℕ) (ids : List ℕ) (t u : Tables)
    (err : HiveError) where
  delete_each-stop :
      delete id t ≡ some (err, u)
      → is_ok err ≡ false
      → delete_each delete (id ∷ ids) t ≡ some (err, u)
  unfolding delete_each
  delete_each-stop e bad = ground (arith, e, bad)

  delete_each-next :
      (r : HiveError × Tables)
      → delete id t ≡ some (err, u)
      → is_ok err ≡ true
      → delete_each delete ids u ≡ some r
      → delete_each delete (id ∷ ids) t ≡ some r
  unfolding delete_each
  delete_each-next r e fine rest = ground (arith, e, fine, rest)

module _ (env : Env) (channel bound : ℕ) where
  pruned-AreGrowing :
      (t u : Tables) → IsPruned env channel t u → AreGrowing bound t.keys → AreGrowing bound u.keys
  pruned-AreGrowing t u pruned growing i k at = growing i k (pruned.kept i k at).0

  delete_each-total :
      (fuel : ℕ) (ids : List ℕ) (t : Tables)
      → ((i : ℕ) (u : Tables)
          → Distinct u.keys
          → AreGrowing bound u.keys
          → bound - i < fuel
          → (r : HiveError × Tables) × (delete_subkeys env channel fuel i u ≡ some r))
      → ((i : ℕ) → has i ids ≡ true → bound - i < fuel)
      → Distinct t.keys
      → AreGrowing bound t.keys
      → (r : HiveError × Tables) × (delete_each
            (λ (i : ℕ) (u : Tables). delete_subkeys env channel fuel i u)
            ids
            t
          ≡ some r)
  unfolding delete_each has
  delete_each-total fuel [] t total near d g = ((hive_ok, t), refl)
  delete_each-total fuel (id ∷ ids) t total near d g =
      let each = λ (i : ℕ) (v : Tables). delete_subkeys env channel fuel i v in
      let ((err, u), e) = total id t d g (near id (ground arith)) in
      elim (Bool-cases (is_ok err)) [
        | inr bad ↦ ((err, u), delete_each-stop each id ids t u err e bad)
        | inl fine ↦
            let ok = is_ok_sound err fine in
            let emptied =
              delete_subkeys-IsEmptied env channel fuel id t u d (e ∙ ap (λ x. some (x, u)) ok) in
            let pruned = emptied.pruned in
            let rest =
              delete_each-total fuel ids u total (λ i h. near i (ground (arith, h))) pruned.distinct
                (pruned-AreGrowing t u pruned g) in
            (rest.0, delete_each-next each id ids t u err rest.0 e fine rest.1)
      ]

  -- delete_subkeys ends within as many levels as there are ids above the key's, whatever fails on
  -- the way, where the ids are distinct and each is above its parent's and below a bound.
  pub delete_subkeys-total :
      (fuel key : ℕ) (t : Tables)
      → Distinct t.keys
      → AreGrowing bound t.keys
      → bound - key < fuel
      → (r : HiveError × Tables) × (delete_subkeys env channel fuel key t ≡ some r)
  unfolding delete_subkeys
  delete_subkeys-total zero key t d g h = absurd (omega (arith, h))
  delete_subkeys-total (suc fuel) key t d g h =
      let err = may_delete env channel key t in
      let below = keys_below t.keys key in
      let near : (i : ℕ) → has i (popped below) ≡ true → bound - i < fuel = λ i p.
        let (k, at, under) = popped-row key i t.keys d p in
        let grow = g i k at in omega (arith, grow, under, h) in
      let ((err', u), e) =
        delete_each-total fuel (popped below) t (delete_subkeys-total fuel) near d g in
      elim (Bool-cases (is_ok err)) [
        | inr f ↦ ((err, t), ground (arith, f))
        | inl f ↦ elim (Bool-cases (lists_all env key 0 below t)) [
          | inr l ↦ ((hive_errored, t), ground (arith, f, l))
          | inl l ↦ elim (Bool-cases (is_ok err')) [
            | inl o ↦ (delete_children env key u, ground (arith, f, l, e, o))
            | inr o ↦ ((err', u), ground (arith, f, l, e, o))
          ]
        ]
      ]
