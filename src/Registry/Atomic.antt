-- ===== src/Registry/Atomic.antt =====
-- A key is created or deleted as a whole, or nothing changes: create_key and delete_key of
-- src/OOServer/libdb/RegistryHive.cpp with the transactions of Database.cpp.
use oocore.Prelude.{
  ℕ, ◌≡◌, ◌≢◌, sym, ap, subst, ◌∙◌, ◌⊎◌, inl, inr, true, none, some, arith, Bool-cases,
  Option-cases, suc, ◌-◌, ◌==◌, bit_and, length,
}
use oocore.Registry.Tables.{Tables}
use oocore.Registry.Hive.{
  HiveError, is_ok, done, rollback_stmt, Env, write_check, protect_key, access_check,
}
use oocore.Registry.Transaction.{
  Connection, is_done, on_connection, begin, with_tables, end_transaction,
}
use oocore.Registry.Find.{Search, find_key}
use oocore.Registry.Create.{add_keys, create_below, create_found, create_key}
use oocore.Registry.Delete.{delete_subkeys, delete_whole, delete_found, delete_key}
use oocore.Registry.Ended.{begin-done, leave-begin, end_transaction-whole}

module _ (env : Env) (channel : ℕ) (c : Connection)
    (goes_back : (t : Tables) → env.writes rollback_stmt t ≡ done) (idle : c.before ≡ none) where
  -- A call with the error `err` leaves the connection as it is, or it succeeds and has committed.
  abbrev pub IsWhole : HiveError → Connection → Type 0
  IsWhole err c' = (c' ≡ c) ⊎ ((is_ok err ≡ true) × (c'.before ≡ none))

  -- What a transaction that has begun on the connection comes to
  begun-IsWhole :
      (err : HiveError) (u : Tables)
      → is_done (begin env (on_connection c)).0 ≡ true
      → let r = end_transaction env err (with_tables u (begin env (on_connection c)).1) in
        IsWhole r.0 r.1
  begun-IsWhole err u begun =
      let at = ap (λ x. end_transaction env err (with_tables u x)) (begin-done env c begun) in
      let same : record { tables = c.tables; before = none } ≡ c =
        ap (λ b. record { tables = c.tables; before = b }) (sym idle) in
      subst (λ x. IsWhole x.0 x.1) (sym at)
        (elim (end_transaction-whole env err c.tables u goes_back) [
          | inl (ok, made) ↦ inr (ok, ap (λ x. x.before) made)
          | inr (bad, back) ↦ inl (back ∙ same)
        ])

  create_below-IsWhole :
      (s : Search) (r : HiveError × Search × Connection)
      → create_below env channel s c ≡ some r
      → IsWhole r.0 r.2
  unfolding create_below
  create_below-IsWhole s r e =
      let s' : Search = record s { mask = s.mask - bit_and s.mask protect_key } in
      let tables = (begin env (on_connection c)).1.connection.tables in
      let added = add_keys env (suc (length s'.sub_key)) s'.key s'.sub_key s' tables in
      elim (Bool-cases (is_ok (access_check env channel s.mask write_check))) [
        | inr f ↦ inl (ground (arith, e, f))
        | inl f ↦ elim (Bool-cases (is_done (begin env (on_connection c)).0)) [
          | inr g ↦ let left = leave-begin env c idle g in inl (ground (arith, e, f, g, left))
          | inl g ↦ elim (Option-cases added) [
            | inl a ↦ absurd (ground (arith, e, f, g, a))
            | inr ((err, q, u), a) ↦
                let ended =
                  end_transaction env err (with_tables u (begin env (on_connection c)).1) in
                let same : (ended.0, q, ended.1) ≡ r = ground (arith, e, f, g, a) in
                subst (λ x. IsWhole x.0 x.2) same (begun-IsWhole err u g)
          ]
        ]
      ]

  create_found-atomic :
      (flags : ℕ) (found : HiveError × Search) (r : HiveError × Search × Connection)
      → create_found env flags channel found c ≡ some r
      → (r.2 ≡ c) ⊎ ((is_ok r.0 ≡ true) × (flags ≢ 0) × (r.2.before ≡ none))
  unfolding create_found
  create_found-atomic flags (err, s) r e =
      let below = create_below-IsWhole s r in
      elim (Bool-cases (flags == 0)) [
        | inl z ↦ inl (ground (arith, e, z))
        | inr nz ↦
            let whole : IsWhole r.0 r.2 = ground (arith, e, nz, below) in
            elim whole [ inl same ↦ inl same | inr (ok, shut) ↦ inr (ok, ground (arith, nz), shut) ]
      ]

  -- Outside a transaction, and where ROLLBACK does not fail, create_key leaves the tables as they
  -- were, or it has succeeded and was not only to open a key. An error thus undoes the keys that
  -- have been inserted for the path before it. No transaction is left open.
  pub create_key-atomic :
      (parent flags : ℕ) (s : Search) (r : HiveError × Search × Connection)
      → create_key env parent flags channel s c ≡ some r
      → (r.2 ≡ c) ⊎ ((is_ok r.0 ≡ true) × (flags ≢ 0) × (r.2.before ≡ none))
  unfolding create_key
  create_key-atomic parent flags s r e =
      let from : Search = record s { key = parent; mask = 0 } in
      elim (Option-cases (find_key env c.tables parent channel from)) [
        | inl f ↦ absurd (ground (arith, e, f))
        | inr (found, f) ↦ create_found-atomic flags found r (ground (arith, e, f))
      ]

  delete_found-IsWhole :
      (fuel key mask : ℕ) (r : HiveError × Connection)
      → delete_found env channel fuel key mask c ≡ some r
      → IsWhole r.0 r.1
  unfolding delete_found
  delete_found-IsWhole fuel key mask r e =
      let tables = (begin env (on_connection c)).1.connection.tables in
      elim (Bool-cases (is_ok (access_check env channel mask write_check))) [
        | inr f ↦ inl (ground (arith, e, f))
        | inl f ↦ elim (Bool-cases (bit_and mask protect_key == 0)) [
          | inr p ↦ inl (ground (arith, e, f, p))
          | inl p ↦ elim (Bool-cases (is_done (begin env (on_connection c)).0)) [
            | inr g ↦ let left = leave-begin env c idle g in inl (ground (arith, e, f, p, g, left))
            | inl g ↦ elim (Option-cases (delete_subkeys env channel fuel key tables)) [
              | inl a ↦ absurd (ground (arith, e, f, p, g, a))
              | inr (q, a) ↦
                  let (err, u) = delete_whole env key q in
                  let ended =
                    end_transaction env err (with_tables u (begin env (on_connection c)).1) in
                  let same : ended ≡ r = ground (arith, e, f, p, g, a) in
                  subst (λ x. IsWhole x.0 x.1) same (begun-IsWhole err u g)
            ]
          ]
        ]
      ]

  -- Outside a transaction, and where ROLLBACK does not fail, delete_key leaves the tables as they
  -- were, or it has succeeded. An error thus undoes the deletion of the subkeys before it. No
  -- transaction is left open.
  pub delete_key-atomic :
      (parent fuel : ℕ) (s : Search) (r : HiveError × Search × Connection)
      → delete_key env parent channel fuel s c ≡ some r
      → (r.2 ≡ c) ⊎ ((is_ok r.0 ≡ true) × (r.2.before ≡ none))
  unfolding delete_key
  delete_key-atomic parent fuel s r e =
      elim (Option-cases (find_key env c.tables parent channel s)) [
        | inl f ↦ absurd (ground (arith, e, f))
        | inr ((err, s'), f) ↦ elim (Bool-cases (is_ok err)) [
          | inr bad ↦ inl (ground (arith, e, f, bad))
          | inl ok ↦ elim (Option-cases (delete_found env channel fuel s'.key s'.mask c)) [
            | inl g ↦ absurd (ground (arith, e, f, g, ok))
            | inr (q, g) ↦
                let same : (q.0, s', q.1) ≡ r = ground (arith, e, f, g, ok) in
                subst (λ x. IsWhole x.0 x.2) same (delete_found-IsWhole fuel s'.key s'.mask q g)
          ]
        ]
      ]
