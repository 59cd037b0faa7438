-- ===== src/Registry/Enum.antt =====
-- enum_subkeys and enum_values of src/OOServer/libdb/RegistryHive.cpp, into a set and into a response.
use oocore.Prelude.{
  ℕ, suc, Bool, true, false, not, ◌&&◌, Option, none, some, List, [], ◌∷◌, ◌++◌, ◌==◌, bit_and,
  if◌then◌else◌,
}
use oocore.Registry.Tables.{Text, Key, Value, Tables, keys_below, values_below}
use oocore.Registry.Hive.{
  HiveError, hive_ok, hive_errored, is_ok, read_check, enum_keys_stmt, enum_values_stmt, Env,
  access_of, access_check, check_key_exists,
}

-- The first access check of a listing. `some`: the key may be listed; true if the channel's right to
-- read has been checked.
unfoldable pub enter_list : Env → Tables → ℕ → ℕ → HiveError × Bool
unfolding check_key_exists access_check
enter_list env t key channel =
    let (err, mask) = check_key_exists env t key 0 in
    let checked = not (bit_and mask read_check == 0) in
    if is_ok err
    then (if checked then access_check env channel mask read_check else hive_ok, checked)
    else (err, false)

-- What the loop keeps of access checks: none before the first one.
abbrev pub Checked : Type 0
Checked = Option Bool

abbrev pub allows : Env → ℕ → ℕ → Checked → Bool × Checked
allows env channel mask (some allowed) =
    (if bit_and mask read_check == 0 then true else allowed, some allowed)
allows env channel mask none =
    let allowed = is_ok (access_check env channel mask read_check) in
    if bit_and mask read_check == 0 then (true, none) else (allowed, some allowed)

-- Where the names go: a set, or a response, with the names so far. It may refuse.
module _ (env : Env) (put : List Text → Text → Bool) where
  -- The loop over the rows; `n` steps have been taken.
  unfoldable pub list_keys :
      Tables → ℕ → ℕ → ℕ → Checked → List Key → List Text → HiveError × List Text
  unfolding access_check access_of
  list_keys t key channel n checked [] names =
      (if env.reads (enum_keys_stmt key) n t then hive_ok else hive_errored, names)
  list_keys t key channel n checked (k ∷ ks) names =
      let (allowed, checked') = allows env channel (access_of env t.values k.id) checked in
      let with_it = list_keys t key channel (suc n) checked' ks (names ++ k.name ∷ []) in
      let without = list_keys t key channel (suc n) checked' ks names in
      if not (env.reads (enum_keys_stmt key) n t)
      then (hive_errored, names)
      else if not allowed
      then without
      else if put names k.name
      then with_it
      else (hive_errored, names)

  unfoldable pub list_values : Tables → ℕ → ℕ → List Value → List Text → HiveError × List Text
  list_values t key n [] names =
      (if env.reads (enum_values_stmt key) n t then hive_ok else hive_errored, names)
  list_values t key n (v ∷ vs) names =
      let with_it = list_values t key (suc n) vs (names ++ v.name ∷ []) in
      if not (env.reads (enum_values_stmt key) n t)
      then (hive_errored, names)
      else if put names v.name
      then with_it
      else (hive_errored, names)

  -- `sorted` is ORDER BY Name.
  unfoldable pub enum_subkeys : (List Key → List Key) → Tables → ℕ → ℕ → HiveError × List Text
  unfolding enter_list list_keys keys_below
  enum_subkeys sorted t key channel =
      let (err, checked) = enter_list env t key channel in
      let rows = sorted (keys_below t.keys key) in
      if is_ok err
      then list_keys t key channel 0 (if checked then some true else none) rows []
      else (err, [])

  unfoldable pub enum_values : (List Value → List Value) → Tables → ℕ → ℕ → HiveError × List Text
  unfolding enter_list list_values values_below
  enum_values sorted t key channel =
      let (err, checked) = enter_list env t key channel in
      if is_ok err then list_values t key 0 (sorted (values_below t.values key)) [] else (err, [])

-- What is in a response: an error code, or success, the names and an empty name.
pub data Response : Type 0 where
  error : HiveError → Response
  names : List Text → Response
  -- the code of success could not be written
  nothing : Response

-- `writes_code` and `writes_end`: the success code and the terminator could be written.
unfoldable pub respond : Bool → Bool → Bool → HiveError × List Text → Response
respond entered writes_code writes_end (err, listed) =
    if not entered
    then error err
    else if not writes_code
    then nothing
    else if is_ok err && writes_end
    then names listed
    else error hive_errored

module _ (env : Env) (put : List Text → Text → Bool) (writes_code writes_end : Bool) where
  -- enum_subkeys into a response
  unfoldable pub write_subkeys : (List Key → List Key) → Tables → ℕ → ℕ → Response
  unfolding enter_list enum_subkeys respond
  write_subkeys sorted t key channel =
      respond (is_ok (enter_list env t key channel).0) writes_code writes_end
        (enum_subkeys env put sorted t key channel)

  -- enum_values into a response
  unfoldable pub write_values : (List Value → List Value) → Tables → ℕ → ℕ → Response
  unfolding enter_list enum_values respond
  write_values sorted t key channel =
      respond (is_ok (enter_list env t key channel).0) writes_code writes_end
        (enum_values env put sorted t key channel)
