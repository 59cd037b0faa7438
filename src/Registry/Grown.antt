-- ===== src/Registry/Grown.antt =====
-- create_key and delete_key keep the invariant of the tables.
use oocore.Prelude.{
  ℕ, zero, suc, ◌-◌, ◌+◌, ◌<◌, ◌≡◌, sym, ap, subst, ◌∙◌, ◌⊎◌, inl, inr, ◌||◌, some, [], ◌∷◌, ◌++◌,
  arith, ◌==◌, Bool-cases, Option-cases, length, drop, bit_and,
}
use oocore.Registry.Tables.{Text, Key, Tables, key_by_id, key_by_name, insert_row}
use oocore.Registry.Hive.{
  HiveError, hive_ok, is_ok, is_not_found, Env, dot_access, finish, set_value_i, insert_key_stmt,
  access_check, write_check, protect_key,
}
use oocore.Registry.Transaction.{Connection, is_done, on_connection, begin, with_tables}
use oocore.Registry.Find.{Search, cut, find_key, is_empty}
use oocore.Registry.Create.{insert_key, add_key, add_keys, create_below, create_found, create_key}
use oocore.Registry.Delete.{delete_key}
use oocore.Registry.Values.{finish-ok}
use oocore.Registry.Stored.{set_value_i-IsStored}
use oocore.Registry.Ended.{begin-done, end_transaction-ok}
use oocore.Registry.Pruned.{is_ok_sound}
use oocore.Registry.Located.{Part-cases, find_key-IsPresent}
use oocore.Registry.Removed.{delete_key-IsRemoved}
use oocore.Registry.Finite.{AreGrowing}
use oocore.Registry.Sound.{IsSound, IsPresent, IsSound-keys, appended-IsSound}

insert_row-IsSound :
    (name : Text) (parent : ℕ) (t u : Tables)
    → IsSound t
    → IsPresent t parent
    → insert_row name parent t ≡ some u
    → IsSound u × IsPresent u t.next_id
unfolding insert_row
insert_row-IsSound name parent t u s there e =
    elim (Option-cases (key_by_name t.keys name parent)) [
      | inr (k, f) ↦ absurd (ground (arith, e, f))
      | inl f ↦
          let r : Key = record { id = t.next_id; name = name; parent = parent } in
          let new : Tables = record t { keys = t.keys ++ r ∷ []; next_id = t.next_id + 1 } in
          let same : new ≡ u = ground (arith, e, f) in
          subst (λ v. IsSound v × IsPresent v t.next_id) same
            (appended-IsSound name parent t s there)
    ]

module _ (env : Env) where
  insert_key-IsSound :
      (parent old : ℕ) (name : Text) (mask : ℕ) (t : Tables) (key : ℕ) (u : Tables)
      → IsSound t
      → IsPresent t parent
      → insert_key env parent old name mask t ≡ (hive_ok, key, u)
      → IsSound u × IsPresent u key
  unfolding insert_key
  insert_key-IsSound parent old name mask t key u s there e =
      let q = finish (env.writes (insert_key_stmt name parent) t) (insert_row name parent t) t in
      let sound = is_ok_sound q.0 in
      elim (Bool-cases (is_ok q.0)) [
        | inr f ↦ absurd (ground (arith, e, f))
        | inl f ↦
            let ok = sound f in
            let row =
              finish-ok (env.writes (insert_key_stmt name parent) t) (insert_row name parent t) t
                q.1 (ap (λ x. (x, q.1)) ok) in
            let new = insert_row-IsSound name parent t q.1 s there row in
            elim (Bool-cases (mask == 0)) [
              | inl z ↦
                  let at : t.next_id ≡ key = ground (arith, e, f, z) in
                  let same : q.1 ≡ u = ground (arith, e, f, z) in
                  subst (λ v. IsSound v × IsPresent v key) same
                    (subst (λ i. IsSound q.1 × IsPresent q.1 i) at new)
              | inr z ↦
                  let at : t.next_id ≡ key = ground (arith, e, f, z) in
                  let set : set_value_i env t.next_id dot_access (env.print_u mask) q.1
                      ≡ (hive_ok, u) =
                    ground (arith, e, f, z) in
                  let stored =
                    set_value_i-IsStored env t.next_id dot_access q.1 u (env.print_u mask) set in
                  (
                    IsSound-keys q.1 u stored.keys stored.next_id new.0,
                    subst (λ ks. (key ≡ 0) ⊎ ((k : Key) × (key_by_id ks key ≡ some k)))
                        (sym stored.keys) (subst (λ i. IsPresent q.1 i) at new.1),
                  )
            ]
      ]

  add_key-IsSound :
      (parent : ℕ) (name : Text) (q s' : Search) (t u : Tables)
      → IsSound t
      → IsPresent t parent
      → add_key env parent name q t ≡ (hive_ok, s', u)
      → IsSound u × IsPresent u s'.key
  unfolding add_key
  add_key-IsSound parent name q s' t u s there e =
      let r = insert_key env parent q.key name q.mask t in
      let ok : r.0 ≡ hive_ok = ground (arith, e) in
      let at : r.1 ≡ s'.key = ground (arith, e) in
      let same : r.2 ≡ u = ground (arith, e) in
      insert_key-IsSound parent q.key name q.mask t s'.key u s there (
        ap (λ x. (x, r.1, r.2)) ok
        ∙ ap (λ x. (hive_ok, x, r.2)) at
        ∙ ap (λ x. (hive_ok, s'.key, x)) same)

  add_keys-IsSound :
      (fuel parent : ℕ) (path : Text) (q s' : Search) (t u : Tables)
      → IsSound t
      → IsPresent t parent
      → add_keys env fuel parent path q t ≡ some (hive_ok, s', u)
      → IsSound u
  unfolding add_keys
  add_keys-IsSound zero parent path q s' t u s there e = absurd (ground (arith, e))
  add_keys-IsSound (suc fuel) parent path q s' t u s there e = elim (Part-cases (cut path)) [
    | inl (n, f) ↦ elim (Bool-cases (is_empty n)) [
      | inl g ↦ let same : t ≡ u = ground (arith, e, f, g) in subst IsSound same s
      | inr g ↦ (add_key-IsSound parent n q s' t u s there (ground (arith, e, f, g))).0
    ]
    | inr (inl (r, f)) ↦ add_keys-IsSound fuel parent r q s' t u s there (ground (arith, e, f))
    | inr (inr (n, r, f)) ↦
        let a = add_key env parent n q t in
        elim (Bool-cases (is_ok a.0)) [
          | inr g ↦ absurd (ground (arith, e, f, g))
          | inl g ↦
              let ok = is_ok_sound a.0 g in
              let new = add_key-IsSound parent n q a.1 t a.2 s there (ap (λ x. (x, a.1, a.2)) ok) in
              add_keys-IsSound fuel a.1.key (drop 1 r) a.1 s' a.2 u new.0 new.1
                (ground (arith, e, f, g))
        ]
  ]

  create_below-IsSound :
      (channel : ℕ) (s s' : Search) (c c' : Connection)
      → IsSound c.tables
      → IsPresent c.tables s.key
      → create_below env channel s c ≡ some (hive_ok, s', c')
      → IsSound c'.tables
  unfolding create_below
  create_below-IsSound channel s s' c c' sound there e =
      let q : Search = record s { mask = s.mask - bit_and s.mask protect_key } in
      let trans = (begin env (on_connection c)).1 in
      let t = trans.connection.tables in
      elim (Bool-cases (is_ok (access_check env channel s.mask write_check))) [
        | inr f ↦ absurd (
            let no = is_ok_sound (access_check env channel s.mask write_check) in
            ground (arith, e, f))
        | inl f ↦ elim (Bool-cases (is_done (begin env (on_connection c)).0)) [
          | inr g ↦ absurd (ground (arith, e, f, g))
          | inl g ↦
              let same : c.tables ≡ t = ap (λ x. x.connection.tables) (sym (begin-done env c g)) in
              elim (Option-cases (add_keys env (suc (length q.sub_key)) q.key q.sub_key q t)) [
                | inl a ↦ absurd (ground (arith, e, f, g, a))
                | inr ((err, r, u), a) ↦
                    let done =
                      end_transaction-ok env err (with_tables u trans) c'
                        (ground (arith, e, f, g, a)) in
                    let all = a ∙ ap (λ x. some (x, r, u)) done.0 in
                    subst IsSound done.1 (
                      add_keys-IsSound (suc (length q.sub_key)) q.key q.sub_key q r t u
                        (subst IsSound same sound) (subst (λ x. IsPresent x s.key) same there) all)
              ]
        ]
      ]

  create_found-IsSound :
      (flags channel : ℕ) (found : HiveError × Search) (s' : Search) (c c' : Connection)
      → IsSound c.tables
      → IsPresent c.tables found.1.key
      → create_found env flags channel found c ≡ some (hive_ok, s', c')
      → IsSound c'.tables
  unfolding create_found
  create_found-IsSound flags channel (err, s) s' c c' sound there e =
      elim (Bool-cases (flags == 0)) [
        | inl f ↦
            let same : c ≡ c' = ground (arith, e, f) in subst (λ x. IsSound x.tables) same sound
        | inr f ↦ elim (Bool-cases (is_not_found err)) [
          | inl g ↦ create_below-IsSound channel s s' c c' sound there (ground (arith, e, f, g))
          | inr g ↦ elim (Bool-cases ((flags == 1) || (flags == 2))) [
            | inl h ↦
                let same : c ≡ c' = ground (arith, e, f, g, h) in
                subst (λ x. IsSound x.tables) same sound
            | inr h ↦
                create_below-IsSound channel s s' c c' sound there (ground (arith, e, f, g, h))
          ]
        ]
      ]

  -- A successful create_key from the root or from a key that is there keeps the invariant of the
  -- tables: distinct ids, each above its parent's and below the next one, and no key without its
  -- parent.
  pub create_key-IsSound :
      (parent flags channel : ℕ) (s s' : Search) (c c' : Connection)
      → IsSound c.tables
      → IsPresent c.tables parent
      → create_key env parent flags channel s c ≡ some (hive_ok, s', c')
      → IsSound c'.tables
  unfolding create_key
  create_key-IsSound parent flags channel s s' c c' sound there e =
      let from : Search = record s { key = parent; mask = 0 } in
      elim (Option-cases (find_key env c.tables parent channel from)) [
        | inl f ↦ absurd (ground (arith, e, f))
        | inr (found, f) ↦
            create_found-IsSound flags channel found s' c c' sound
              (find_key-IsPresent env c.tables channel parent from found there there f)
              (ground (arith, e, f))
      ]

  -- A successful delete_key keeps the invariant of the tables: distinct ids, each above its
  -- parent's and below the next one, and no key without its parent.
  pub delete_key-IsSound :
      (channel parent fuel : ℕ) (s s' : Search) (c c' : Connection)
      → IsSound c.tables
      → delete_key env parent channel fuel s c ≡ some (hive_ok, s', c')
      → IsSound c'.tables
  delete_key-IsSound channel parent fuel s s' c c' sound e =
      let pruned =
        (delete_key-IsRemoved env channel c parent fuel s s' c' sound.distinct e).pruned in
      record {
        distinct = pruned.distinct;
        growing =
            subst (λ n. AreGrowing n c'.tables.keys) (sym pruned.next_id)
              (λ i k at. sound.growing i k (pruned.kept i k at).0);
        parents = pruned.parents sound.parents;
        positive = subst (λ n. 0 < n) (sym pruned.next_id) sound.positive;
      }
