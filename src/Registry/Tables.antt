-- ===== src/Registry/Tables.antt =====
-- The two tables of a registry database (data/*.sql) and the statements that open() of
-- src/OOServer/libdb/RegistryHive.cpp prepares, as operations on them.
use oocore.Prelude.{
  ℕ, ◌+◌, Bool, true, false, ◌&&◌, Option, none, some, List, [], ◌∷◌, ◌++◌, ◌==◌, if◌then◌else◌,
}

-- A string as its bytes
abbrev pub Text : Type 0
Text = List ℕ

unfoldable pub same_text : Text → Text → Bool
same_text [] [] = true
same_text [] (b ∷ bs) = false
same_text (a ∷ as_) [] = false
same_text (a ∷ as_) (b ∷ bs) = (a == b) && same_text as_ bs

-- A row of RegistryKeys
pub record Key : Type 0 where
  pub id : ℕ
  pub name : Text
  pub parent : ℕ

-- A row of RegistryValues; none is NULL
pub record Value : Type 0 where
  pub name : Text
  pub parent : ℕ
  pub value : Option Text

-- `next_id` is what AUTOINCREMENT gives the next row.
pub record Tables : Type 0 where
  pub keys : List Key
  pub values : List Value
  pub next_id : ℕ

-- SELECT … FROM RegistryKeys … WHERE RegistryKeys.Id = ?1
unfoldable pub key_by_id : List Key → ℕ → Option Key
key_by_id [] id = none
key_by_id (k ∷ ks) id = if k.id == id then some k else key_by_id ks id

-- SELECT … FROM RegistryKeys … WHERE RegistryKeys.Name = ?1 AND RegistryKeys.Parent = ?2
unfoldable pub key_by_name : List Key → Text → ℕ → Option Key
key_by_name [] name parent = none
key_by_name (k ∷ ks) name parent =
    if same_text k.name name && (k.parent == parent) then some k else key_by_name ks name parent

-- … FROM RegistryKeys … WHERE Parent = ?1
unfoldable pub keys_below : List Key → ℕ → List Key
keys_below [] parent = []
keys_below (k ∷ ks) parent =
    if k.parent == parent then k ∷ keys_below ks parent else keys_below ks parent

-- SELECT Value FROM RegistryValues WHERE Name = ?1 AND Parent = ?2
unfoldable pub value_by_name : List Value → Text → ℕ → Option Value
value_by_name [] name parent = none
value_by_name (v ∷ vs) name parent =
    if same_text v.name name && (v.parent == parent) then some v else value_by_name vs name parent

-- … FROM RegistryValues WHERE Parent = ?1
unfoldable pub values_below : List Value → ℕ → List Value
values_below [] parent = []
values_below (v ∷ vs) parent =
    if v.parent == parent then v ∷ values_below vs parent else values_below vs parent

-- DELETE FROM RegistryValues WHERE Parent = ?1, of the trigger
unfoldable pub drop_values : ℕ → List Value → List Value
drop_values parent [] = []
drop_values parent (v ∷ vs) =
    if v.parent == parent then drop_values parent vs else v ∷ drop_values parent vs

-- The trigger trg_RegistryKeys, for each row that goes
unfoldable pub drop_values_of : List Key → List Value → List Value
drop_values_of [] vs = vs
drop_values_of (k ∷ ks) vs = drop_values_of ks (drop_values k.id vs)

unfoldable pub keep_not_below : ℕ → List Key → List Key
keep_not_below parent [] = []
keep_not_below parent (k ∷ ks) =
    if k.parent == parent then keep_not_below parent ks else k ∷ keep_not_below parent ks

unfoldable pub keep_not_id : ℕ → List Key → List Key
keep_not_id id [] = []
keep_not_id id (k ∷ ks) = if k.id == id then keep_not_id id ks else k ∷ keep_not_id id ks

-- DELETE FROM RegistryKeys WHERE Parent = ?1
unfoldable pub delete_below : ℕ → Tables → Tables
unfolding keys_below drop_values_of keep_not_below
delete_below parent t = record t {
  keys = keep_not_below parent t.keys;
  values = drop_values_of (keys_below t.keys parent) t.values;
}

-- DELETE FROM RegistryKeys WHERE Id = ?1
unfoldable pub delete_id : ℕ → Tables → Tables
unfolding drop_values keep_not_id
delete_id id t = record t { keys = keep_not_id id t.keys; values = drop_values id t.values }

-- INSERT INTO RegistryKeys (Name,Parent) VALUES (?1,?2), which UNIQUE(Name,Parent) may refuse
unfoldable pub insert_row : Text → ℕ → Tables → Option Tables
unfolding key_by_name
insert_row name parent t = elim (key_by_name t.keys name parent) [
  | some k ↦ none
  | none ↦ some (record t {
    keys = t.keys ++ record { id = t.next_id; name = name; parent = parent } ∷ [];
    next_id = t.next_id + 1;
  })
]

-- INSERT INTO RegistryValues (Name,Parent,Value) VALUES (?1,?2,?3), under the same constraint
unfoldable pub insert_value : Text → ℕ → Text → Tables → Option Tables
unfolding value_by_name
insert_value name parent text t = elim (value_by_name t.values name parent) [
  | some v ↦ none
  | none ↦ some (record t {
    values = t.values ++ record { name = name; parent = parent; value = some text } ∷ [];
  })
]

unfoldable pub update_values : Text → ℕ → Text → List Value → List Value
update_values name parent text [] = []
update_values name parent text (v ∷ vs) =
    (if same_text v.name name && (v.parent == parent) then record v { value = some text } else v)
    ∷ update_values name parent text vs

-- UPDATE RegistryValues SET Value = ?3 WHERE Name = ?1 AND Parent = ?2
unfoldable pub update_value : Text → ℕ → Text → Tables → Tables
unfolding update_values
update_value name parent text t = record t { values = update_values name parent text t.values }

unfoldable pub keep_other_values : Text → ℕ → List Value → List Value
keep_other_values name parent [] = []
keep_other_values name parent (v ∷ vs) =
    if same_text v.name name && (v.parent == parent)
    then keep_other_values name parent vs
    else v ∷ keep_other_values name parent vs

-- DELETE FROM RegistryValues WHERE Name = ?1 AND Parent = ?2
unfoldable pub delete_value_row : Text → ℕ → Tables → Tables
unfolding keep_other_values
delete_value_row name parent t = record t { values = keep_other_values name parent t.values }
