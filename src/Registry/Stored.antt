-- ===== src/Registry/Stored.antt =====
-- set_value, get_value and delete_value as operations on one map from names and keys to values.
use oocore.Prelude.{
  ℕ, ◌≡◌, refl, subst, inl, inr, true, Option, none, some, [], ◌∷◌, ◌++◌, arith, Bool-cases,
  Option-cases,
}
use oocore.Registry.Tables.{
  Text, Value, Tables, value_by_name, insert_value, update_value, delete_value_row,
}
use oocore.Registry.Hive.{
  hive_ok, read_check, get_value_stmt, insert_value_stmt, update_value_stmt, delete_value_stmt, Env,
  enter, get_value_i, value_exists_i, set_value_i, get_value, set_value, delete_value,
}
use oocore.Registry.Values.{
  value_by_name-append, value_by_name-update, value_by_name-delete, Other, other-append,
  other-update, other-delete, finish-ok,
}

-- `v` is what the name has at the key in t', all else is as in t.
pub record IsStored (t : Tables) (name : Text) (key : ℕ) (v : Option (Option Text)) (t' : Tables)
    : Type 0 where
  pub stored : elim (value_by_name t'.values name key) [ none ↦ none | some w ↦ some w.value ] ≡ v
  pub others :
      (name' : Text) (key' : ℕ)
      → Other name key name' key'
      → value_by_name t'.values name' key' ≡ value_by_name t.values name' key'
  pub keys : t'.keys ≡ t.keys
  pub next_id : t'.next_id ≡ t.next_id

update_value-IsStored :
    (name : Text) (key : ℕ) (text : Text) (v : Value) (t : Tables)
    → value_by_name t.values name key ≡ some v
    → IsStored t name key (some (some text)) (update_value name key text t)
unfolding update_value
update_value-IsStored name key text v t e = record {
  stored = rw (value_by_name-update name key text v t.values e) refl;
  others = λ name' key' other. other-update name key name' key' other text t.values;
  keys = refl;
  next_id = refl;
}

insert_value-IsStored :
    (name : Text) (key : ℕ) (text : Text) (t t' : Tables)
    → insert_value name key text t ≡ some t'
    → IsStored t name key (some (some text)) t'
unfolding insert_value
insert_value-IsStored name key text t t' e = elim (Option-cases (value_by_name t.values name key)) [
  | inr (v, f) ↦ ground (arith, e, f)
  | inl f ↦
      let new : Value = record { name = name; parent = key; value = some text } in
      let there = value_by_name-append name key new t.values f refl refl in
      let same : t' ≡ record t { values = t.values ++ new ∷ [] } = ground (arith, e, f) in
      rw same (record {
        stored = rw there refl;
        others = λ name' key' other. other-append name key name' key' other new t.values refl refl;
        keys = refl;
        next_id = refl;
      })
]

delete_value_row-IsStored :
    (name : Text) (key : ℕ) (t : Tables) → IsStored t name key none (delete_value_row name key t)
unfolding delete_value_row
delete_value_row-IsStored name key t = record {
  stored = rw (value_by_name-delete name key t.values) refl;
  others = λ name' key' other. other-delete name key name' key' other t.values;
  keys = refl;
  next_id = refl;
}

module _ (env : Env) (key : ℕ) (name : Text) (t t' : Tables) where
  pub set_value_i-IsStored :
      (text : Text)
      → set_value_i env key name text t ≡ (hive_ok, t')
      → IsStored t name key (some (some text)) t'
  unfolding set_value_i value_exists_i
  set_value_i-IsStored text e = elim (Bool-cases (env.reads (get_value_stmt name key) 0 t)) [
    | inr f ↦ ground (arith, e, f)
    | inl f ↦ elim (Option-cases (value_by_name t.values name key)) [
      | inr (v, g) ↦
          let done : some (update_value name key text t) ≡ some t' =
            finish-ok (env.writes (update_value_stmt name key text) t)
              (some (update_value name key text t)) t t' (ground (arith, e, f, g)) in
          let same : update_value name key text t ≡ t' = ground (arith, done) in
          subst (IsStored t name key (some (some text))) same
            (update_value-IsStored name key text v t g)
      | inl g ↦ insert_value-IsStored name key text t t' (
          finish-ok (env.writes (insert_value_stmt name key text) t) (insert_value name key text t)
            t t' (ground (arith, e, f, g)))
    ]
  ]

  -- After a successful set_value the name has the text at the key, and every other value, every
  -- key and the next id are as before.
  pub set_value-IsStored :
      (channel : ℕ) (text : Text)
      → set_value env key name channel text t ≡ (hive_ok, t')
      → IsStored t name key (some (some text)) t'
  unfolding set_value
  set_value-IsStored channel text e = set_value_i-IsStored text (ground (arith, e))

  -- After a successful delete_value the name has no value at the key, and every other value, every
  -- key and the next id are as before.
  delete_value-IsStored :
      (channel : ℕ)
      → delete_value env key name channel t ≡ (hive_ok, t')
      → IsStored t name key none t'
  unfolding delete_value
  delete_value-IsStored channel e =
      let done : some (delete_value_row name key t) ≡ some t' =
        finish-ok (env.writes (delete_value_stmt name key) t) (some (delete_value_row name key t)) t
          t' (ground (arith, e)) in
      let same : delete_value_row name key t ≡ t' = ground (arith, done) in
      subst (IsStored t name key none) same (delete_value_row-IsStored name key t)

  -- What a successful set_value has stored, get_value returns to a channel that may read the key,
  -- if the statement can be run.
  pub set_value-get_value :
      (channel reader : ℕ) (text old : Text)
      → set_value env key name channel text t ≡ (hive_ok, t')
      → enter env t' key reader read_check ≡ hive_ok
      → env.reads (get_value_stmt name key) 0 t' ≡ true
      → get_value env t' key name reader old ≡ (hive_ok, text)
  unfolding get_value get_value_i
  set_value-get_value channel reader text old e may runs =
      let there = (set_value-IsStored channel text e).stored in
      elim (Option-cases (value_by_name t'.values name key)) [
        | inl f ↦ ground (arith, there, f)
        | inr (v, f) ↦ ground (arith, there, f, may, runs)
      ]
