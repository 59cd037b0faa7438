-- ===== src/Registry/Create.antt =====
-- insert_key and create_key of src/OOServer/libdb/RegistryHive.cpp.
use oocore.Prelude.{
  ℕ, zero, suc, ◌-◌, not, ◌&&◌, Option, none, some, ◌==◌, bit_and, if◌then◌else◌, length, drop,
}
use oocore.Registry.Tables.{Text, Tables, insert_row}
use oocore.Registry.Hive.{
  HiveError, hive_ok, hive_errored, hive_already_exists, is_ok, is_not_found, write_check,
  protect_key, dot_access, insert_key_stmt, Env, access_check, set_value_i, finish,
}
use oocore.Registry.Transaction.{
  Connection, is_done, on_connection, begin, leave, with_tables, end_transaction,
}
use oocore.Registry.Find.{Search, last, slash, before_slash, cut, extend, is_empty, find_key}

-- The new row's id is what AUTOINCREMENT gave it; `old` is what uKey was.
unfoldable pub insert_key : Env → ℕ → ℕ → Text → ℕ → Tables → HiveError × ℕ × Tables
unfolding finish insert_row set_value_i
insert_key env parent old name mask t =
    let (err, t') =
      finish (env.writes (insert_key_stmt name parent) t) (insert_row name parent t) t in
    let (err', t'') = set_value_i env t.next_id dot_access (env.print_u mask) t' in
    if is_ok err
    then if mask == 0 then (hive_ok, t.next_id, t') else (err', t.next_id, t'')
    else (err, old, t)

-- One name of the path: strFullKeyName gets it, and the key is inserted.
unfoldable pub add_key : Env → ℕ → Text → Search → Tables → HiveError × Search × Tables
unfolding insert_key extend
add_key env parent name s t =
    let (err, key, t') = insert_key env parent s.key name s.mask t in
    (err, record s { key = key; full_name = extend s.full_name name }, t')

-- The loop, on fuel: none if the fuel ran out
unfoldable pub add_keys :
    Env → ℕ → ℕ → Text → Search → Tables → Option (HiveError × Search × Tables)
unfolding cut add_key
add_keys env zero parent rest s t = none
add_keys env (suc fuel) parent rest s t = elim (cut rest) [
  | last name ↦ some (
      if is_empty name
      then (hive_ok, record s { key = parent }, t)
      else add_key env parent name s t)
  | slash rest' ↦ add_keys env fuel parent rest' s t
  | before_slash name onward ↦
      let (err, s', t') = add_key env parent name s t in
      let deeper = add_keys env fuel s'.key (drop 1 onward) s' t' in
      if is_ok err then deeper else some (err, s', t')
]

-- From the access check on, where the key was not found or is to be created whatever was found.
unfoldable pub create_below :
    Env → ℕ → Search → Connection → Option (HiveError × Search × Connection)
unfolding add_keys begin leave end_transaction access_check
create_below env channel s c =
    let err = access_check env channel s.mask write_check in
    let s' : Search = record s { mask = s.mask - bit_and s.mask protect_key } in
    let (o, trans) = begin env (on_connection c) in
    let added =
      add_keys env (suc (length s'.sub_key)) s'.key s'.sub_key s' trans.connection.tables in
    if not (is_ok err)
    then some (err, s, c)
    else if not (is_done o)
    then some (hive_errored, s', leave env trans)
    else elim added [
      | none ↦ none
      | some (err', q, t) ↦
          let (err'', c') = end_transaction env err' (with_tables t trans) in some (err'', q, c')
    ]

-- OpenExisting 0, OpenCreate 1, CreateNew 2. With OpenExisting, what is missing is named in
-- strFullKeyName.
unfoldable pub create_found :
    Env → ℕ → ℕ → HiveError × Search → Connection → Option (HiveError × Search × Connection)
unfolding create_below extend
create_found env flags channel (err, s) c =
    let missing : Search = record s { full_name = extend s.full_name s.sub_key } in
    let created = create_below env channel s c in
    if flags == 0
    then some (err, if is_not_found err && not (is_empty s.sub_key) then missing else s, c)
    else if (flags == 1) && not (is_not_found err)
    then some (err, s, c)
    else if (flags == 2) && not (is_not_found err)
    then some (if is_ok err then hive_already_exists else err, s, c)
    else created

-- `parent` is the key from which the path leads, and `s` holds the path.
unfoldable pub create_key :
    Env → ℕ → ℕ → ℕ → Search → Connection → Option (HiveError × Search × Connection)
unfolding create_found find_key
create_key env parent flags channel s c =
    elim (find_key env c.tables parent channel (record s { key = parent; mask = 0 })) [
      | none ↦ none
      | some found ↦ create_found env flags channel found c
    ]
