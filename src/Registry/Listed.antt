-- ===== src/Registry/Listed.antt =====
-- enum_subkeys lists what the channel may read.
use oocore.Prelude.{
  ++-assoc, ++-[], ℕ, suc, ◌≡◌, refl, sym, ap, ◌∙◌, inl, inr, Bool, true, false, ◌||◌, none, some,
  List, [], ◌∷◌, ◌++◌, arith, ◌==◌, if◌then◌else◌, bit_and, Bool-cases,
}
use oocore.Registry.Tables.{Text, Key, Tables, keys_below}
use oocore.Registry.Hive.{
  hive_ok, is_ok, Env, Statement, read_check, access_of, access_check, check_key_exists,
  enum_keys_stmt,
}
use oocore.Registry.Enum.{enter_list, list_keys, enum_subkeys}

-- The names of the rows that a channel sees, to which the rights to read are granted or not.
unfoldable pub visible_names : Env → Tables → Bool → List Key → List Text
unfolding access_of
visible_names env t may [] = []
visible_names env t may (k ∷ ks) =
    if (bit_and (access_of env t.values k.id) read_check == 0) || may
    then k.name ∷ visible_names env t may ks
    else visible_names env t may ks

module _ (env : Env) (put : List Text → Text → Bool) (t : Tables) (channel : ℕ) (may : Bool)
    (rule : (mask : ℕ)
      → (bit_and mask read_check == 0) ≡ false
      → env.allowed channel (bit_and mask 3) ≡ may)
    (runs : (s : Statement) (n : ℕ) → env.reads s n t ≡ true)
    (room : (names : List Text) (name : Text) → put names name ≡ true) where
  -- A check of the right to read gives the manager's answer, where the key asks for one.
  checks :
      (mask : ℕ)
      → (bit_and mask read_check == 0) ≡ false
      → is_ok (access_check env channel mask read_check) ≡ may
  unfolding access_check
  checks mask e = let answer = rule mask e in ground (arith, e, answer)

  list_checked :
      (key n : ℕ) (ks : List Key) (names : List Text)
      → list_keys env put t key channel n (some may) ks names
        ≡ (hive_ok, names ++ visible_names env t may ks)
  unfolding list_keys visible_names
  list_checked key n [] names = let run = runs (enum_keys_stmt key) n in rw (run, ++-[] names) refl
  list_checked key n (k ∷ ks) names =
      let run = runs (enum_keys_stmt key) n in
      let put_it = room names k.name in
      let with_it = list_checked key (suc n) ks (names ++ k.name ∷ []) in
      let without = list_checked key (suc n) ks names in
      let assoc = ++-assoc names (k.name ∷ []) (visible_names env t may ks) in
      ground (arith, run, put_it, with_it, without, assoc)

  list_unchecked :
      (key n : ℕ) (ks : List Key) (names : List Text)
      → list_keys env put t key channel n none ks names
        ≡ (hive_ok, names ++ visible_names env t may ks)
  unfolding list_keys visible_names
  list_unchecked key n [] names =
      let run = runs (enum_keys_stmt key) n in rw (run, ++-[] names) refl
  list_unchecked key n (k ∷ ks) names =
      let run = runs (enum_keys_stmt key) n in
      let put_it = room names k.name in
      let check = checks (access_of env t.values k.id) in
      let unread = list_unchecked key (suc n) ks (names ++ k.name ∷ []) in
      let with_it = list_checked key (suc n) ks (names ++ k.name ∷ []) in
      let without = list_checked key (suc n) ks names in
      let assoc = ++-assoc names (k.name ∷ []) (visible_names env t may ks) in
      ground (arith, run, put_it, check, unread, with_it, without, assoc)

  let_in : (key : ℕ) → enter_list env t key channel ≡ (hive_ok, true) → true ≡ may
  unfolding enter_list
  let_in key e =
      let found = check_key_exists env t key 0 in
      let check = checks found.1 in
      elim (Bool-cases (is_ok found.0)) [
        | inr f ↦ ground (arith, e, f)
        | inl f ↦ elim (Bool-cases (bit_and found.1 read_check == 0)) [
          | inl g ↦ ground (arith, e, f, g)
          | inr g ↦
              let ok : access_check env channel found.1 read_check ≡ hive_ok =
                ground (arith, e, f, g) in
              ap is_ok (sym ok) ∙ check g
        ]
      ]

  -- A listing that is let in gives the names of exactly the keys below that the channel may read,
  -- in the order of the rows, where the manager's answer is the same for every mask that asks for
  -- reading, every step succeeds and every name finds room.
  pub enum_subkeys-visible :
      (sorted : List Key → List Key) (key : ℕ) (checked : Bool)
      → enter_list env t key channel ≡ (hive_ok, checked)
      → enum_subkeys env put sorted t key channel
        ≡ (hive_ok, visible_names env t may (sorted (keys_below t.keys key)))
  unfolding enum_subkeys
  enum_subkeys-visible sorted key true e =
      let rows = sorted (keys_below t.keys key) in
      let granted = let_in key e in
      let known = list_checked key 0 rows [] in
      rw (enum_subkeys, e, ap (λ (b : Bool). some b) granted) known
  enum_subkeys-visible sorted key false e =
      rw (enum_subkeys, e) (list_unchecked key 0 (sorted (keys_below t.keys key)) [])
