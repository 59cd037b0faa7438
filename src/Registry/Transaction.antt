-- ===== src/Registry/Transaction.antt =====
-- Transaction of src/OOServer/libdb/Database.cpp, and the end of the blocks of create_key and
-- delete_key of src/OOServer/libdb/RegistryHive.cpp in which one stands.
use oocore.Prelude.{Bool, true, false, not, Option, none, some, if◌then◌else◌}
use oocore.Registry.Tables.{Tables}
use oocore.Registry.Hive.{
  HiveError, hive_ok, hive_errored, is_ok, Outcome, done, read_only, failed, Env, begin_stmt,
  commit_stmt, rollback_stmt,
}

-- A connection to SQLite: the tables that its statements see, and, while a transaction is open,
-- the tables to which ROLLBACK goes back.
pub record Connection : Type 0 where
  pub tables : Tables
  pub before : Option Tables

-- `m_db` is not NULL, and the connection that it stands for
pub record Transaction : Type 0 where
  pub live : Bool
  pub connection : Connection

abbrev pub is_done : Outcome → Bool
is_done done = true
is_done read_only = false
is_done failed = false

-- "BEGIN TRANSACTION;", which fails within a transaction
unfoldable pub exec_begin : Env → Connection → Outcome × Connection
exec_begin env c = elim c.before [
  | some t ↦ (failed, c)
  | none ↦
      let o = env.writes begin_stmt c.tables in
      (o, if is_done o then record c { before = some c.tables } else c)
]

-- "COMMIT;", which fails outside a transaction
unfoldable pub exec_commit : Env → Connection → Outcome × Connection
exec_commit env c = elim c.before [
  | none ↦ (failed, c)
  | some t ↦
      let o = env.writes commit_stmt c.tables in
      (o, if is_done o then record c { before = none } else c)
]

-- "ROLLBACK;", which fails outside a transaction
unfoldable pub exec_rollback : Env → Connection → Outcome × Connection
exec_rollback env c = elim c.before [
  | none ↦ (failed, c)
  | some t ↦
      let o = env.writes rollback_stmt c.tables in
      (o, if is_done o then record { tables = t; before = none } else c)
]

-- The constructor
abbrev pub on_connection : Connection → Transaction
on_connection c = record { live = true; connection = c }

unfoldable pub begin : Env → Transaction → Outcome × Transaction
unfolding exec_begin
begin env trans =
    let (o, c) = exec_begin env trans.connection in (o, record trans { connection = c })

unfoldable pub commit : Env → Transaction → Outcome × Transaction
unfolding exec_commit
commit env trans =
    let (o, c) = exec_commit env trans.connection in
    (o, record { live = if is_done o then false else trans.live; connection = c })

unfoldable pub rollback : Env → Transaction → Outcome × Transaction
unfolding exec_rollback
rollback env trans =
    let (o, c) = exec_rollback env trans.connection in
    (o, record { live = if is_done o then false else trans.live; connection = c })

-- The destructor, and what it leaves of the connection
unfoldable pub leave : Env → Transaction → Connection
unfolding rollback
leave env trans = if trans.live then (rollback env trans).1.connection else trans.connection

-- What the statements between BEGIN and COMMIT have made of the tables
abbrev pub with_tables : Tables → Transaction → Transaction
with_tables t trans = record trans { connection = record trans.connection { tables = t } }

-- From the error of what stands between BEGIN and COMMIT to the return, with the destructor.
unfoldable pub end_transaction : Env → HiveError → Transaction → HiveError × Connection
unfolding commit leave
end_transaction env err trans =
    let (o, trans') = commit env trans in
    if not (is_ok err)
    then (err, leave env trans)
    else if is_done o
    then (hive_ok, leave env trans')
    else (hive_errored, leave env trans')
