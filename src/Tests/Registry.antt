-- ===== src/Tests/Registry.antt =====
-- The registry theorems at a small database.
use oocore.Prelude.{
  ℕ, ◌+◌, ◌-◌, ◌≡◌, ◌≢◌, refl, ◌⊎◌, inl, inr, true, false, none, some, [], ◌∷◌, ◌++◌, arith, ◌==◌,
  if◌then◌else◌,
}
use oocore.Registry.Tables.{
  Tables, key_by_id, keys_below, same_text, update_value, delete_value_row,
}
use oocore.Registry.Hive.{
  hive_ok, is_ok, hive_errored, hive_prot_key, delete_key_stmt, commit_stmt, enter, HiveError, done,
  failed, dot_access, Env, set_value, get_value, delete_value, check_key_exists, access_check,
}
use oocore.Registry.Find.{Search, find_key}
use oocore.Registry.Transaction.{Connection}
use oocore.Registry.Create.{create_key}
use oocore.Registry.Delete.{delete_subkeys, delete_key}
use oocore.Registry.Rows.{Distinct}
use oocore.Registry.Pruned.{HasParents}
use oocore.Registry.Sound.{IsSound}
use oocore.Registry.Removed.{IsRemoved, delete_key-IsRemoved}
use oocore.Registry.Grown.{create_key-IsSound, delete_key-IsSound}
use oocore.Registry.Finite.{delete_subkeys-total}
use oocore.Registry.Ends.{create_key-total}
use oocore.Registry.Atomic.{create_key-atomic, delete_key-atomic}
use oocore.Registry.Stored.{set_value-get_value}
use oocore.Registry.Enum.{enter_list, enum_subkeys, write_subkeys, names}
use oocore.Registry.Listed.{enum_subkeys-visible, visible_names}
use oocore.Registry.Find.Descend.{view, view_of, descend, components, find_key-descend}

-- Access rights are written with one digit; channel 9 may nothing that is checked.
abbrev plain : Env
plain = record {
  allowed = λ channel mask. if channel == 9 then false else true;
  reads = λ s n t. true;
  writes = λ s t. done;
  column_int = λ v. elim v [ none ↦ 0 | some text ↦ elim text [ [] ↦ 0 | c ∷ cs ↦ c - 48 ] ];
  print_u = λ n. (n + 48) ∷ [];
}

-- The key a with b below it, which has c and a protected d below it.
abbrev a_to_d : Tables
a_to_d = record {
  keys =
      record { id = 1; name = 97 ∷ []; parent = 0 }
      ∷ record { id = 2; name = 98 ∷ []; parent = 1 }
      ∷ record { id = 3; name = 99 ∷ []; parent = 2 }
      ∷ record { id = 4; name = 100 ∷ []; parent = 1 }
      ∷ [];
  values =
      record { name = dot_access; parent = 4; value = some (54 ∷ []) }
      ∷ record { name = dot_access; parent = 3; value = some (49 ∷ []) }
      ∷ record { name = 120 ∷ []; parent = 3; value = some (121 ∷ []) }
      ∷ [];
  next_id = 5;
}

abbrev a_and_d : Tables
a_and_d = record {
  keys =
      record { id = 1; name = 97 ∷ []; parent = 0 }
      ∷ record { id = 4; name = 100 ∷ []; parent = 1 }
      ∷ [];
  values = record { name = dot_access; parent = 4; value = some (54 ∷ []) } ∷ [];
  next_id = 5;
}

-- A connection outside a transaction
abbrev idle : Tables → Connection
idle t = record { tables = t; before = none }

-- A search from the path /a//b/
abbrev to_b : Search
to_b = record {
  key = 0;
  sub_key = 47 ∷ 97 ∷ 47 ∷ 47 ∷ 98 ∷ 47 ∷ [];
  mask = 0;
  link = [];
  full_name = [];
}

abbrev at_b : Search
at_b = record { key = 2; sub_key = []; mask = 0; link = []; full_name = 97 ∷ 47 ∷ 98 ∷ [] }

a_to_d-Distinct : Distinct a_to_d.keys
unfolding Distinct key_by_id
a_to_d-Distinct = (refl, (refl, (refl, (refl, tt))))

a_to_d-HasParents : HasParents a_to_d.keys
unfolding key_by_id
a_to_d-HasParents i k e nz =
    let parent : (k.parent ≡ 1) ⊎ (k.parent ≡ 2) = ground (arith, e, nz) in
    elim parent [
      | inl f ↦ (record { id = 1; name = 97 ∷ []; parent = 0 }, rw f refl)
      | inr f ↦ (record { id = 2; name = 98 ∷ []; parent = 1 }, rw f refl)
    ]

a_to_d-IsSound : IsSound a_to_d
unfolding key_by_id
a_to_d-IsSound = record {
  distinct = a_to_d-Distinct;
  growing = λ i k e. ground (arith, e);
  parents = a_to_d-HasParents;
  positive = omega arith;
}

finds_b : find_key plain a_to_d 0 1 to_b ≡ some (hive_ok, at_b)
unfolding find_key same_text
finds_b = refl

deletes_b : delete_key plain 0 1 6 to_b (idle a_to_d) ≡ some (hive_ok, at_b, idle a_and_d)
unfolding delete_key same_text
deletes_b = refl

-- d is protected, so neither it nor a goes.
keeps_a : delete_subkeys plain 1 6 1 a_to_d ≡ some (hive_prot_key, a_to_d)
unfolding delete_subkeys same_text
keeps_a = refl

delete_key-IsRemoved_example : IsRemoved plain 1 a_to_d 2 a_and_d
delete_key-IsRemoved_example =
    delete_key-IsRemoved plain 1 (idle a_to_d) 0 6 to_b at_b (idle a_and_d) a_to_d-Distinct
      deletes_b

find_key-descend_example :
    view_of (find_key plain a_to_d 0 1 to_b)
    ≡ some (view (descend plain a_to_d 1 0 ((97 ∷ []) ∷ (98 ∷ []) ∷ []) (record to_b { mask = 6 })))
unfolding components check_key_exists access_check
find_key-descend_example = find_key-descend plain a_to_d 1 0 6 to_b refl refl

delete_key-IsSound_example : IsSound a_and_d
delete_key-IsSound_example =
    delete_key-IsSound plain 1 0 6 to_b at_b (idle a_to_d) (idle a_and_d) a_to_d-IsSound deletes_b

delete_subkeys-total_example :
    (r : HiveError × Tables) × (delete_subkeys plain 1 5 1 a_to_d ≡ some r)
delete_subkeys-total_example =
    delete_subkeys-total plain 1 5 5 1 a_to_d a_to_d-Distinct a_to_d-IsSound.growing (omega arith)

-- A database in which the last statement of delete_key fails
abbrev stuck : Env
stuck = record plain { writes = λ s t. elim s [ delete_key_stmt key ↦ failed | _ ↦ done ] }

fails_b : delete_key stuck 0 1 6 to_b (idle a_to_d) ≡ some (hive_errored, at_b, idle a_to_d)
unfolding delete_key same_text
fails_b = refl

delete_key-atomic_example :
    (idle a_to_d ≡ idle a_to_d) ⊎ ((is_ok hive_errored ≡ true) × ((idle a_to_d).before ≡ none))
delete_key-atomic_example =
    delete_key-atomic stuck 1 (idle a_to_d) (λ t. refl) refl 0 6 to_b
      (hive_errored, at_b, idle a_to_d) fails_b

-- The path a/e
abbrev to_e : Search
to_e = record to_b { sub_key = 97 ∷ 47 ∷ 101 ∷ [] }

abbrev at_e : Search
at_e = record { key = 5; sub_key = 101 ∷ []; mask = 0; link = []; full_name = 97 ∷ 47 ∷ 101 ∷ [] }

abbrev with_e : Tables
with_e = record a_to_d {
  keys = a_to_d.keys ++ record { id = 5; name = 101 ∷ []; parent = 1 } ∷ [];
  next_id = 6;
}

creates_e : create_key plain 0 1 1 to_e (idle a_to_d) ≡ some (hive_ok, at_e, idle with_e)
unfolding create_key same_text
creates_e = refl

create_key-IsSound_example : IsSound with_e
create_key-IsSound_example =
    create_key-IsSound plain 0 1 1 to_e at_e (idle a_to_d) (idle with_e) a_to_d-IsSound (inl refl)
      creates_e

-- The path z below the root
abbrev to_z : Search
to_z = record to_b { sub_key = 122 ∷ [] }

-- A database that can not commit
abbrev busy : Env
busy = record plain { writes = λ s t. elim s [ commit_stmt ↦ failed | _ ↦ done ] }

fails_e : create_key busy 0 1 1 to_e (idle a_to_d) ≡ some (hive_errored, at_e, idle a_to_d)
unfolding create_key same_text
fails_e = refl

create_key-atomic_example :
    let flags : ℕ = 1 in
    (idle a_to_d ≡ idle a_to_d)
    ⊎ ((is_ok hive_errored ≡ true) × (flags ≢ 0) × ((idle a_to_d).before ≡ none))
create_key-atomic_example =
    create_key-atomic busy 1 (idle a_to_d) (λ t. refl) refl 0 1 to_e
      (hive_errored, at_e, idle a_to_d) fails_e

-- From a key 77 that is not there, channel 9 creates z all the same, and z has no parent.
abbrev with_z : Tables
with_z = record a_to_d {
  keys = a_to_d.keys ++ record { id = 5; name = 122 ∷ []; parent = 77 } ∷ [];
  next_id = 6;
}

abbrev at_z : Search
at_z = record { key = 5; sub_key = 122 ∷ []; mask = 0; link = []; full_name = 122 ∷ [] }

orphans_z : create_key plain 77 1 9 to_z (idle a_to_d) ≡ some (hive_ok, at_z, idle with_z)
unfolding create_key same_text
orphans_z = refl

-- The value x of c
abbrev with_x : Tables
with_x = record a_to_d {
  values =
      record { name = dot_access; parent = 4; value = some (54 ∷ []) }
      ∷ record { name = dot_access; parent = 3; value = some (49 ∷ []) }
      ∷ record { name = 120 ∷ []; parent = 3; value = some (50 ∷ 51 ∷ []) }
      ∷ [];
}

sets_x : set_value plain 3 (120 ∷ []) 1 (50 ∷ 51 ∷ []) a_to_d ≡ (hive_ok, with_x)
unfolding set_value same_text update_value
sets_x = refl

set_value-get_value_example : get_value plain with_x 3 (120 ∷ []) 1 [] ≡ (hive_ok, 50 ∷ 51 ∷ [])
unfolding enter same_text
set_value-get_value_example =
    set_value-get_value plain 3 (120 ∷ []) a_to_d with_x 1 1 (50 ∷ 51 ∷ []) [] sets_x refl refl

abbrev without_x : Tables
without_x = record a_to_d {
  values =
      record { name = dot_access; parent = 4; value = some (54 ∷ []) }
      ∷ record { name = dot_access; parent = 3; value = some (49 ∷ []) }
      ∷ [];
}

deletes_x : delete_value plain 3 (120 ∷ []) 1 a_to_d ≡ (hive_ok, without_x)
unfolding delete_value same_text delete_value_row
deletes_x = refl

-- Channel 9 may list b, but not see c in it.
lists_b : enter_list plain a_to_d 2 9 ≡ (hive_ok, false)
unfolding enter_list same_text
lists_b = refl

enum_subkeys-visible_example :
    enum_subkeys plain (λ so_far name. true) (λ ks. ks) a_to_d 2 9 ≡ (hive_ok, [])
unfolding visible_names keys_below same_text
enum_subkeys-visible_example =
    enum_subkeys-visible plain (λ so_far name. true) a_to_d 9 false (λ mask e. refl) (λ s n. refl)
      (λ so_far name. refl) (λ ks. ks) 2 false lists_b

-- The response to channel 1, which sees b and d in a
responds :
    write_subkeys plain (λ so_far name. true) true true (λ ks. ks) a_to_d 1 1
    ≡ names ((98 ∷ []) ∷ (100 ∷ []) ∷ [])
unfolding write_subkeys same_text
responds = refl

create_key-total_example :
    (r : HiveError × Search × Connection) × (create_key plain 0 1 1 to_e (idle a_to_d) ≡ some r)
create_key-total_example = create_key-total plain 1 (idle a_to_d) 0 1 to_e
