-- ===== src/Registry/Ends.antt =====
-- create_key returns a result, however long the path.
use oocore.Prelude.{
  ℕ, zero, suc, ◌-◌, ◌<◌, ◌≡◌, refl, ◌&&◌, not, inl, inr, Option, none, some, arith, ◌==◌,
  if◌then◌else◌, length, take, drop, bit_and, Bool-cases, Option-cases, length-drop,
}
use oocore.Registry.Tables.{Text, Tables}
use oocore.Registry.Hive.{
  HiveError, hive_ok, hive_errored, hive_already_exists, is_ok, is_not_found, Env, read_check,
  write_check, protect_key, access_check, check_key_exists,
}
use oocore.Registry.Transaction.{
  Connection, is_done, on_connection, begin, leave, with_tables, end_transaction,
}
use oocore.Registry.Find.{Search, find_slash, extend, is_empty, walk, find_key}
use oocore.Registry.Find.Descend.{
  view_of, cut-last, cut-slash, cut-name, find_slash-lt, walk-descend,
}
use oocore.Registry.Create.{add_key, add_keys, create_below, create_found, create_key}

view_of-some :
    (o : Option (HiveError × Search)) (r : HiveError × Search)
    → view_of o ≡ some r
    → (q : HiveError × Search) × (o ≡ some q)
view_of-some none r e = absurd (ground (arith, e))
view_of-some (some q) r e = (q, refl)

module _ (env : Env) (channel : ℕ) (t : Tables) where
  find_key-total :
      (parent : ℕ) (s : Search)
      → (r : HiveError × Search) × (find_key env t parent channel s ≡ some r)
  unfolding find_key
  find_key-total parent s =
      let (err, mask) = check_key_exists env t parent s.mask in
      let s' : Search = record s { mask = mask } in
      let err' = access_check env channel mask read_check in
      let (r, e) =
        view_of-some (walk env t channel (suc (length s.sub_key)) parent s.sub_key s') _
          (walk-descend env t channel (suc (length s.sub_key)) parent s.sub_key s' (omega arith)) in
      elim (Bool-cases (is_ok err)) [
        | inr f ↦ ((err, s'), ground (arith, f))
        | inl f ↦ elim (Bool-cases (is_ok err')) [
          | inr g ↦ ((err', s'), ground (arith, f, g))
          | inl g ↦ (r, ground (arith, f, g, e))
        ]
      ]

module _ (env : Env) where
  add_keys-total :
      (fuel parent : ℕ) (path : Text) (s : Search) (t : Tables)
      → length path < fuel
      → (r : HiveError × Search × Tables) × (add_keys env fuel parent path s t ≡ some r)
  unfolding add_keys
  add_keys-total zero parent path s t h = absurd (omega (arith, h))
  add_keys-total (suc fuel) parent path s t h = elim (Option-cases (find_slash path)) [
    | inl e ↦ elim (Bool-cases (is_empty path)) [
      | inl g ↦ ((hive_ok, record s { key = parent }, t), rw (add_keys, cut-last path e, g) refl)
      | inr g ↦ (add_key env parent path s t, rw (add_keys, cut-last path e, g) refl)
    ]
    | inr (zero, e) ↦
        let short = find_slash-lt path 0 e in
        let less = length-drop 1 path in
        let (r, f) = add_keys-total fuel parent (drop 1 path) s t (omega (arith, short, less, h)) in
        (r, rw (add_keys, cut-slash path e) f)
    | inr (suc n, e) ↦
        let short = find_slash-lt path (suc n) e in
        let less = length-drop (suc n) path in
        let less' = length-drop 1 (drop (suc n) path) in
        let a = add_key env parent (take (suc n) path) s t in
        let (r, f) =
          add_keys-total fuel a.1.key (drop 1 (drop (suc n) path)) a.1 a.2
            (omega (arith, short, less, less', h)) in
        elim (Bool-cases (is_ok a.0)) [
          | inl g ↦ (r, rw (add_keys, cut-name path n e, g) f)
          | inr g ↦ (a, rw (add_keys, cut-name path n e, g) refl)
        ]
  ]

module _ (env : Env) (channel : ℕ) (c : Connection) where
  create_below-total :
      (s : Search) → (r : HiveError × Search × Connection) × (create_below env channel s c ≡ some r)
  unfolding create_below
  create_below-total s =
      let q : Search = record s { mask = s.mask - bit_and s.mask protect_key } in
      let (o, trans) = begin env (on_connection c) in
      let ((err', r, t), e) =
        add_keys-total env (suc (length q.sub_key)) q.key q.sub_key q trans.connection.tables
          (omega arith) in
      let (err'', c') = end_transaction env err' (with_tables t trans) in
      let err = access_check env channel s.mask write_check in
      elim (Bool-cases (is_ok err)) [
        | inr f ↦ ((err, s, c), ground (arith, f))
        | inl f ↦ elim (Bool-cases (is_done o)) [
          | inl g ↦ ((err'', r, c'), ground (arith, f, g, e))
          | inr g ↦ ((hive_errored, q, leave env trans), ground (arith, f, g))
        ]
      ]

  create_found-total :
      (flags : ℕ) (found : HiveError × Search)
      → (r : HiveError × Search × Connection) × (create_found env flags channel found c ≡ some r)
  unfolding create_found
  create_found-total flags (err, s) =
      let (r, e) = create_below-total s in
      elim (Bool-cases (flags == 0)) [
        | inl f ↦
            let missing : Search = record s { full_name = extend s.full_name s.sub_key } in
            (
              (err, if is_not_found err && not (is_empty s.sub_key) then missing else s, c),
              rw (create_found, f) refl,
            )
        | inr f ↦ elim (Bool-cases (is_not_found err)) [
          | inl g ↦ (r, ground (arith, e, f, g))
          | inr g ↦ elim (Bool-cases (flags == 1)) [
            | inl h ↦ ((err, s, c), ground (arith, f, g, h))
            | inr h ↦ elim (Bool-cases (flags == 2)) [
              | inl i ↦ (
                (if is_ok err then hive_already_exists else err, s, c),
                ground (arith, f, g, h, i),
              )
              | inr i ↦ (r, ground (arith, e, f, g, h, i))
            ]
          ]
        ]
      ]

  -- create_key returns a result for every path, flag and state of the connection, whatever fails
  -- on the way.
  pub create_key-total :
      (parent flags : ℕ) (s : Search)
      → (r : HiveError × Search × Connection) × (create_key env parent flags channel s c ≡ some r)
  unfolding create_key
  create_key-total parent flags s =
      let from : Search = record s { key = parent; mask = 0 } in
      let (found, e) = find_key-total env channel c.tables parent from in
      let (r, f) = create_found-total flags found in (r, rw (create_key, e) f)
