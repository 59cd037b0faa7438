-- ===== src/Registry/Find.antt =====
-- get_key_info and find_key of src/OOServer/libdb/RegistryHive.cpp.
pub mod Descend
use oocore.Prelude.{
  ℕ, zero, suc, Bool, true, false, not, ◌&&◌, ◌||◌, Option, none, some, List, [], ◌∷◌, ◌++◌, ◌==◌,
  if◌then◌else◌, length, take, drop,
}
use oocore.Registry.Tables.{Text, Key, Tables, same_text, key_by_name}
use oocore.Registry.Hive.{
  HiveError, hive_ok, hive_errored, hive_not_found, hive_link, is_ok, is_not_found, is_link,
  read_check, dot_access, dot_links, get_key_info_stmt, Env, access_of, access_check,
  check_key_exists, get_value_i,
}

-- The output parameters of a search: uKey, strSubKey, access_mask, strLink and strFullKeyName.
pub record Search : Type 0 where
  pub key : ℕ
  pub sub_key : Text
  pub mask : ℕ
  pub link : Text
  pub full_name : Text

-- The second half of get_key_info: the key of that name itself.
unfoldable pub get_child : Env → Tables → ℕ → Text → ℕ → Search → HiveError × Search
unfolding key_by_name access_of access_check
get_child env t parent name channel s =
    if env.reads (get_key_info_stmt name parent) 0 t
    then elim (key_by_name t.keys name parent) [
      | none ↦ (hive_not_found, s)
      | some k ↦
          let mask = access_of env t.values k.id in
          (access_check env channel mask read_check, record s { key = k.id; mask = mask })
    ]
    else (hive_errored, s)

-- After the value of that name under .links has been asked for.
unfoldable pub follow_link :
    Env → Tables → ℕ → Text → ℕ → HiveError × Text → Search → HiveError × Search
unfolding get_child
follow_link env t parent name channel (err, link) s =
    if is_ok err
    then (hive_link, record s { link = link })
    else if is_not_found err
    then get_child env t parent name channel s
    else (err, s)

unfoldable pub get_key_info : Env → Tables → ℕ → Text → ℕ → Search → HiveError × Search
unfolding get_child follow_link get_value_i key_by_name access_of access_check
get_key_info env t parent name channel s =
    if same_text name dot_links || same_text name dot_access
    then get_child env t parent name channel s
    else if env.reads (get_key_info_stmt dot_links parent) 0 t
    then elim (key_by_name t.keys dot_links parent) [
      | none ↦ get_child env t parent name channel s
      | some k ↦
          let mask = access_of env t.values k.id in
          let err = access_check env channel mask read_check in
          let s' : Search = record s { mask = mask } in
          if is_ok err
          then follow_link env t parent name channel (get_value_i env t k.id name s'.link) s'
          else (err, s')
    ]
    else (hive_errored, s)

-- LocalString::find of '/'
unfoldable pub find_slash : Text → Option ℕ
find_slash [] = none
find_slash (c ∷ cs) =
    if c == 47 then some 0 else elim (find_slash cs) [ none ↦ none | some n ↦ some (suc n) ]

-- The branches of a round on what is left of the name: no slash in it, a slash in front, or a slash
-- behind a name, given with the text from the slash on.
pub data Part : Type 0 where
  last : Text → Part
  slash : Text → Part
  before_slash : Text → Text → Part

unfoldable pub cut : Text → Part
unfolding find_slash
cut rest = elim (find_slash rest) [
  | none ↦ last rest
  | some zero ↦ slash (drop 1 rest)
  | some (suc n) ↦ before_slash (take (suc n) rest) (drop (suc n) rest)
]

-- strFullKeyName with a name appended
unfoldable pub extend : Text → Text → Text
extend [] name = name
extend (c ∷ cs) name = (c ∷ cs) ++ 47 ∷ name

-- What find_key does with the result of get_key_info for one name of the path: `rest` is strSubKey
-- from that name on, and `onward` from the slash behind it.
unfoldable pub note_name : Text → Text → Text → HiveError × Search → HiveError × Search
unfolding extend
note_name first rest onward (err, s) =
    if is_ok err
    then (err, record s { full_name = extend s.full_name first })
    else if is_link err
    then (err, record s { full_name = extend s.full_name first; sub_key = onward })
    else (err, record s { sub_key = rest })

unfoldable pub visit : Env → Tables → ℕ → Text → Text → Text → ℕ → Search → HiveError × Search
unfolding get_key_info note_name
visit env t parent first rest onward channel s =
    note_name first rest onward (get_key_info env t parent first channel s)

abbrev pub is_empty : Text → Bool
is_empty [] = true
is_empty (c ∷ cs) = false

unfoldable pub end_path : HiveError × Search → HiveError × Search
end_path (err, s) = if is_ok err then (hive_ok, record s { sub_key = [] }) else (err, s)

-- The round of the last name.
unfoldable pub visit_last : Env → Tables → ℕ → Text → ℕ → Search → HiveError × Search
unfolding visit end_path
visit_last env t parent first channel s =
    if is_empty first
    then (hive_ok, record s { key = parent; sub_key = [] })
    else end_path (visit env t parent first first [] channel s)

-- The loop, on fuel: none if the fuel ran out
unfoldable pub walk : Env → Tables → ℕ → ℕ → ℕ → Text → Search → Option (HiveError × Search)
unfolding cut visit visit_last
walk env t channel zero parent rest s = none
walk env t channel (suc fuel) parent rest s = elim (cut rest) [
  | last first ↦ some (visit_last env t parent first channel s)
  | slash rest' ↦ walk env t channel fuel parent rest' s
  | before_slash first onward ↦
      let (err, s') = visit env t parent first rest onward channel s in
      let deeper = walk env t channel fuel s'.key (drop 1 onward) s' in
      if is_ok err then deeper else some (err, s')
]

unfoldable pub find_key : Env → Tables → ℕ → ℕ → Search → Option (HiveError × Search)
unfolding check_key_exists access_check walk
find_key env t parent channel s =
    let (err, mask) = check_key_exists env t parent s.mask in
    let s' : Search = record s { mask = mask } in
    let err' = access_check env channel mask read_check in
    if not (is_ok err)
    then some (err, s')
    else if not (is_ok err')
    then some (err', s')
    else walk env t channel (suc (length s.sub_key)) parent s.sub_key s'
