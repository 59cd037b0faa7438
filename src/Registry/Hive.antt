-- ===== src/Registry/Hive.antt =====
-- The errors and access rights of RegistryHive.h, and access_check, check_key_exists and the
-- operations on values of src/OOServer/libdb/RegistryHive.cpp.
use oocore.Prelude.{
  ℕ, ◌+◌, ◌%◌, ◌^◌, bit_and, Bool, true, false, Option, none, some, List, [], ◌∷◌, ◌==◌,
  if◌then◌else◌,
}
use oocore.Registry.Tables.{
  Text, Value, Tables, key_by_id, value_by_name, insert_value, update_value, delete_value_row,
}

pub data HiveError : Type 0 where
  hive_ok hive_errored hive_not_found hive_already_exists hive_read_only : HiveError
  hive_no_read hive_no_write hive_prot_key hive_bad_name hive_link : HiveError

abbrev pub is_ok : HiveError → Bool
is_ok hive_ok = true
is_ok hive_errored = false
is_ok hive_not_found = false
is_ok hive_already_exists = false
is_ok hive_read_only = false
is_ok hive_no_read = false
is_ok hive_no_write = false
is_ok hive_prot_key = false
is_ok hive_bad_name = false
is_ok hive_link = false

abbrev pub is_not_found : HiveError → Bool
is_not_found hive_not_found = true
is_not_found hive_ok = false
is_not_found hive_errored = false
is_not_found hive_already_exists = false
is_not_found hive_read_only = false
is_not_found hive_no_read = false
is_not_found hive_no_write = false
is_not_found hive_prot_key = false
is_not_found hive_bad_name = false
is_not_found hive_link = false

abbrev pub is_link : HiveError → Bool
is_link hive_link = true
is_link hive_ok = false
is_link hive_errored = false
is_link hive_not_found = false
is_link hive_already_exists = false
is_link hive_read_only = false
is_link hive_no_read = false
is_link hive_no_write = false
is_link hive_prot_key = false
is_link hive_bad_name = false

-- access_rights
abbrev pub read_check : ℕ
read_check = 1

abbrev pub write_check : ℕ
write_check = 2

abbrev pub protect_key : ℕ
protect_key = 4

abbrev pub dot_access : Text
dot_access = 46 ∷ 97 ∷ 99 ∷ 99 ∷ 101 ∷ 115 ∷ 115 ∷ []

abbrev pub dot_links : Text
dot_links = 46 ∷ 108 ∷ 105 ∷ 110 ∷ 107 ∷ 115 ∷ []

-- The prepared statements with what is bound to them, and those of a transaction.
pub data Statement : Type 0 where
  check_key_stmt enum_key_ids_stmt enum_keys_stmt enum_values_stmt : ℕ → Statement
  delete_keys_stmt delete_key_stmt : ℕ → Statement
  get_key_info_stmt get_value_stmt delete_value_stmt insert_key_stmt : Text → ℕ → Statement
  insert_value_stmt update_value_stmt : Text → ℕ → Text → Statement
  begin_stmt commit_stmt rollback_stmt : Statement

-- What a statement comes to in SQLite, if its constraints allow it: it is done, the database can
-- only be read, or another failure, of binding too.
pub data Outcome : Type 0 where
  done read_only failed : Outcome

pub record Env : Type 0 where
  -- Manager::registry_access_check, for a channel and a mask
  pub allowed : ℕ → ℕ → Bool
  -- the n-th step of a statement that reads
  pub reads : Statement → ℕ → Tables → Bool
  pub writes : Statement → Tables → Outcome
  -- sqlite3_column_int of a value, and "%u"
  pub column_int : Option Text → ℕ
  pub print_u : ℕ → Text

-- static_cast<access_rights_t>(column_int(1)), where the join finds the key's .access
unfoldable pub access_of : Env → List Value → ℕ → ℕ
unfolding value_by_name
access_of env vs id = elim (value_by_name vs dot_access id) [
  | none ↦ env.column_int none % 2 ^ 16
  | some v ↦ env.column_int v.value % 2 ^ 16
]

unfoldable pub access_check : Env → ℕ → ℕ → ℕ → HiveError
access_check env channel mask check =
    if bit_and mask check == 0
    then hive_ok
    else if env.allowed channel (bit_and mask 3)
    then hive_ok
    else if bit_and check write_check == 0
    then hive_no_read
    else hive_no_write

-- The access mask is kept where the key is not found.
unfoldable pub check_key_exists : Env → Tables → ℕ → ℕ → HiveError × ℕ
unfolding key_by_id access_of
check_key_exists env t key mask =
    if key == 0
    then (hive_ok, protect_key + write_check)
    else if env.reads (check_key_stmt key) 0 t
    then elim (key_by_id t.keys key) [
      | none ↦ (hive_not_found, mask)
      | some k ↦ (hive_ok, access_of env t.values k.id)
    ]
    else (hive_errored, mask)

-- The beginning of every operation on a key: it exists, and a right to it is checked.
unfoldable pub enter : Env → Tables → ℕ → ℕ → ℕ → HiveError
unfolding check_key_exists access_check
enter env t key channel check =
    let (err, mask) = check_key_exists env t key 0 in
    if is_ok err then access_check env channel mask check else err

-- `old` is what the string held before.
unfoldable pub get_value_i : Env → Tables → ℕ → Text → Text → HiveError × Text
unfolding value_by_name
get_value_i env t key name old =
    if env.reads (get_value_stmt name key) 0 t
    then elim (value_by_name t.values name key) [
      | none ↦ (hive_not_found, old)
      | some v ↦ elim v.value [ none ↦ (hive_ok, old) | some text ↦ (hive_ok, text) ]
    ]
    else (hive_errored, old)

unfoldable pub value_exists_i : Env → Tables → ℕ → Text → HiveError
unfolding value_by_name
value_exists_i env t key name =
    if env.reads (get_value_stmt name key) 0 t
    then elim (value_by_name t.values name key) [ none ↦ hive_not_found | some v ↦ hive_ok ]
    else hive_errored

-- The switch on the step of a statement that writes.
unfoldable pub finish : Outcome → Option Tables → Tables → HiveError × Tables
finish done none t = (hive_errored, t)
finish done (some t') t = (hive_ok, t')
finish read_only t' t = (hive_read_only, t)
finish failed t' t = (hive_errored, t)

unfoldable pub set_value_i : Env → ℕ → Text → Text → Tables → HiveError × Tables
unfolding value_exists_i finish
set_value_i env key name text t =
    let err = value_exists_i env t key name in
    if is_ok err
    then finish (env.writes (update_value_stmt name key text) t)
        (some (update_value name key text t)) t
    else if is_not_found err
    then finish (env.writes (insert_value_stmt name key text) t) (insert_value name key text t) t
    else (err, t)

unfoldable pub value_exists : Env → Tables → ℕ → Text → ℕ → HiveError
unfolding enter value_exists_i
value_exists env t key name channel =
    let err = enter env t key channel read_check in
    if is_ok err then value_exists_i env t key name else err

unfoldable pub get_value : Env → Tables → ℕ → Text → ℕ → Text → HiveError × Text
unfolding enter get_value_i
get_value env t key name channel old =
    let err = enter env t key channel read_check in
    if is_ok err then get_value_i env t key name old else (err, old)

unfoldable pub set_value : Env → ℕ → Text → ℕ → Text → Tables → HiveError × Tables
unfolding enter set_value_i
set_value env key name channel text t =
    let err = enter env t key channel write_check in
    if is_ok err then set_value_i env key name text t else (err, t)

unfoldable pub delete_value : Env → ℕ → Text → ℕ → Tables → HiveError × Tables
unfolding enter finish
delete_value env key name channel t =
    let err = enter env t key channel write_check in
    if is_ok err
    then finish (env.writes (delete_value_stmt name key) t) (some (delete_value_row name key t)) t
    else (err, t)
