-- ===== src/Registry/Delete.antt =====
-- delete_subkeys and delete_key of src/OOServer/libdb/RegistryHive.cpp.
use oocore.Prelude.{
  ℕ, zero, suc, Bool, not, ◌&&◌, Option, none, some, List, [], ◌∷◌, ◌++◌, ◌==◌, bit_and,
  if◌then◌else◌,
}
use oocore.Registry.Tables.{Key, Tables, keys_below, delete_below, delete_id}
use oocore.Registry.Hive.{
  HiveError, hive_ok, hive_errored, hive_prot_key, is_ok, is_not_found, write_check, protect_key,
  enum_key_ids_stmt, delete_keys_stmt, delete_key_stmt, Env, access_check, check_key_exists, finish,
}
use oocore.Registry.Transaction.{
  Connection, is_done, on_connection, begin, leave, with_tables, end_transaction,
}
use oocore.Registry.Find.{Search, extend, is_empty, find_key}

-- The access mask of a key that is to be deleted, or why it may not be.
unfoldable pub may_delete : Env → ℕ → ℕ → Tables → HiveError
unfolding check_key_exists access_check
may_delete env channel key t =
    let (err, mask) = check_key_exists env t key 0 in
    let err' = access_check env channel mask write_check in
    if not (is_ok err)
    then err
    else if not (is_ok err')
    then err'
    else if bit_and mask protect_key == 0
    then hive_ok
    else hive_prot_key

-- The steps of the statement that lists the ids: false if one fails.
unfoldable pub lists_all : Env → ℕ → ℕ → List Key → Tables → Bool
lists_all env key n [] t = env.reads (enum_key_ids_stmt key) n t
lists_all env key n (k ∷ ks) t =
    env.reads (enum_key_ids_stmt key) n t && lists_all env key (suc n) ks t

-- The ids in the order in which the stack gives them back.
unfoldable pub popped : List Key → List ℕ
popped [] = []
popped (k ∷ ks) = popped ks ++ k.id ∷ []

-- `m_DeleteKeys_Stmt`
unfoldable pub delete_children : Env → ℕ → Tables → HiveError × Tables
unfolding finish delete_below
delete_children env key t =
    finish (env.writes (delete_keys_stmt key) t) (some (delete_below key t)) t

-- The loop over the stack: `delete` empties one key.
unfoldable pub delete_each :
    (ℕ → Tables → Option (HiveError × Tables)) → List ℕ → Tables → Option (HiveError × Tables)
delete_each delete [] t = some (hive_ok, t)
delete_each delete (id ∷ ids) t = elim (delete id t) [
  | none ↦ none
  | some (err, t') ↦
      let rest = delete_each delete ids t' in if is_ok err then rest else some (err, t')
]

-- On fuel, for the depth of the tree: none if it ran out. strFullKeyName, which names the key that
-- stood in the way, is left out.
unfoldable pub delete_subkeys : Env → ℕ → ℕ → ℕ → Tables → Option (HiveError × Tables)
unfolding may_delete lists_all popped delete_children delete_each
delete_subkeys env channel zero key t = none
delete_subkeys env channel (suc fuel) key t =
    let err = may_delete env channel key t in
    let below = keys_below t.keys key in
    let emptied =
      delete_each (λ (id : ℕ) (u : Tables). delete_subkeys env channel fuel id u) (popped below)
        t in
    if not (is_ok err)
    then some (err, t)
    else if not (lists_all env key 0 below t)
    then some (hive_errored, t)
    else elim emptied [
      | none ↦ none
      | some (err', t') ↦ if is_ok err' then some (delete_children env key t') else some (err', t')
    ]

-- `m_DeleteKey_Stmt`, after delete_subkeys
unfoldable pub delete_whole : Env → ℕ → HiveError × Tables → HiveError × Tables
unfolding finish delete_id
delete_whole env key (err, t) =
    if is_ok err
    then finish (env.writes (delete_key_stmt key) t) (some (delete_id key t)) t
    else (err, t)

-- What delete_key does with the key that it found.
unfoldable pub delete_found : Env → ℕ → ℕ → ℕ → ℕ → Connection → Option (HiveError × Connection)
unfolding access_check begin leave delete_subkeys delete_whole end_transaction
delete_found env channel fuel key mask c =
    let err = access_check env channel mask write_check in
    let (o, trans) = begin env (on_connection c) in
    let emptied = delete_subkeys env channel fuel key trans.connection.tables in
    if not (is_ok err)
    then some (err, c)
    else if not (bit_and mask protect_key == 0)
    then some (hive_prot_key, c)
    else if not (is_done o)
    then some (hive_errored, leave env trans)
    else elim emptied [
      | none ↦ none
      | some r ↦
          let (err', t) = delete_whole env key r in
          some (end_transaction env err' (with_tables t trans))
    ]

unfoldable pub delete_key :
    Env → ℕ → ℕ → ℕ → Search → Connection → Option (HiveError × Search × Connection)
unfolding find_key delete_found extend
delete_key env parent channel fuel s c = elim (find_key env c.tables parent channel s) [
  | none ↦ none
  | some (err, s') ↦
      let missing : Search = record s' { full_name = extend s'.full_name s'.sub_key } in
      let deleted = delete_found env channel fuel s'.key s'.mask c in
      if is_ok err
      then elim deleted [ none ↦ none | some (err', c') ↦ some (err', s', c') ]
      else some (err, if is_not_found err && not (is_empty s'.sub_key) then missing else s', c)
]
