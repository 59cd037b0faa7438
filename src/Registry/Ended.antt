-- ===== src/Registry/Ended.antt =====
-- How the transactions of src/OOServer/libdb/RegistryHive.cpp begin and end.
use oocore.Prelude.{
  ◌≡◌, refl, ◌⊎◌, inl, inr, true, false, none, some, arith, Bool-cases, Option-cases,
}
use oocore.Registry.Tables.{Tables}
use oocore.Registry.Hive.{
  HiveError, hive_ok, is_ok, Outcome, done, read_only, failed, Env, begin_stmt, commit_stmt,
  rollback_stmt,
}
use oocore.Registry.Transaction.{
  Connection, Transaction, is_done, on_connection, exec_begin, exec_commit, exec_rollback, begin,
  commit, leave, end_transaction,
}
use oocore.Registry.Pruned.{is_ok_sound}

-- Outcome by outcome
pub Outcome-cases : (o : Outcome) → (o ≡ done) ⊎ ((o ≡ read_only) ⊎ (o ≡ failed))
Outcome-cases done = inl refl
Outcome-cases read_only = inr (inl refl)
Outcome-cases failed = inr (inr refl)

-- A connection within a transaction that began with t
abbrev pub within : Tables → Tables → Transaction
within t u = record { live = true; connection = record { tables = u; before = some t } }

module _ (env : Env) where
  pub begin-done :
      (c : Connection)
      → is_done (begin env (on_connection c)).0 ≡ true
      → (begin env (on_connection c)).1 ≡ within c.tables c.tables
  unfolding begin exec_begin
  begin-done c ok = elim (Option-cases c.before) [
    | inr (t, e) ↦ absurd (ground (arith, ok, e))
    | inl e ↦ elim (Outcome-cases (env.writes begin_stmt c.tables)) [
      | inl f ↦ ground (arith, e, f)
      | inr (inl f) ↦ absurd (ground (arith, ok, e, f))
      | inr (inr f) ↦ absurd (ground (arith, ok, e, f))
    ]
  ]

  -- Outside a transaction, a failed BEGIN leaves the connection as it is, with the destructor.
  pub leave-begin :
      (c : Connection)
      → c.before ≡ none
      → is_done (begin env (on_connection c)).0 ≡ false
      → leave env (begin env (on_connection c)).1 ≡ c
  unfolding begin exec_begin leave exec_rollback
  leave-begin c e bad = elim (Outcome-cases (env.writes begin_stmt c.tables)) [
    | inl f ↦ absurd (ground (arith, bad, e, f))
    | inr (inl f) ↦ ground (arith, e, f)
    | inr (inr f) ↦ ground (arith, e, f)
  ]

  pub end_transaction-ok :
      (err : HiveError) (trans : Transaction) (c' : Connection)
      → end_transaction env err trans ≡ (hive_ok, c')
      → (err ≡ hive_ok) × (trans.connection.tables ≡ c'.tables)
  unfolding end_transaction commit exec_commit leave
  end_transaction-ok err trans c' e =
      let sound = is_ok_sound err in
      elim (Option-cases trans.connection.before) [
        | inl f ↦ absurd (ground (arith, e, f, sound))
        | inr (t, f) ↦ elim (Outcome-cases (env.writes commit_stmt trans.connection.tables)) [
          | inl g ↦
              let ok : err ≡ hive_ok = ground (arith, e, f, g, sound) in
              (ok, ground (arith, e, f, g, ok))
          | inr (inl g) ↦ absurd (ground (arith, e, f, g, sound))
          | inr (inr g) ↦ absurd (ground (arith, e, f, g, sound))
        ]
      ]

  -- Where ROLLBACK does not fail, a transaction ends with what it has made or, after an error, with
  -- what it began with.
  pub end_transaction-whole :
      (err : HiveError) (t u : Tables)
      → ((v : Tables) → env.writes rollback_stmt v ≡ done)
      → let r = end_transaction env err (within t u) in
        ((is_ok r.0 ≡ true) × (r.1 ≡ record { tables = u; before = none }))
        ⊎ ((is_ok r.0 ≡ false) × (r.1 ≡ record { tables = t; before = none }))
  unfolding end_transaction commit exec_commit leave exec_rollback
  end_transaction-whole err t u goes_back =
      let undone = goes_back u in
      elim (Bool-cases (is_ok err)) [
        | inr bad ↦ inr (ground (arith, bad, undone), ground (arith, bad, undone))
        | inl ok ↦ elim (Outcome-cases (env.writes commit_stmt u)) [
          | inl f ↦ inl (ground (arith, ok, f), ground (arith, ok, f))
          | inr (inl f) ↦ inr (ground (arith, ok, f, undone), ground (arith, ok, f, undone))
          | inr (inr f) ↦ inr (ground (arith, ok, f, undone), ground (arith, ok, f, undone))
        ]
      ]
