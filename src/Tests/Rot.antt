-- ===== src/Tests/Rot.antt =====
-- The theorems on the running object table at concrete inputs.
use oocore.Prelude.{
  ℕ, ◌≡◌, refl, subst, true, false, none, some, [], ◌∷◌, arith, ◌==◌, if◌then◌else◌, bit_and,
}
use oocore.Registry.Tables.{Text, same_text}
use oocore.Routing.Table.{has}
use oocore.Rot.Tables.{insert_at}
use oocore.Rot.State.{
  Info, Env, CallContext, same, Rot, call, returned, threw, already_exists, rot_registered,
  rot_revoked,
}
use oocore.Rot.Notify.{tell_all, forget_dead, on_register_object, on_revoke_object}
use oocore.Rot.Revoke.{
  source_of, drop_cookie, take_out, announce_revoke, revoke_object_i, revoke_all,
}
use oocore.Rot.Register.{
  make_info, check, insert_info, finish_registration, enter_object, is_public, register_object,
}
use oocore.Rot.Get.{
  type_of_source, is_remote, search_flags, search_entries, take_entry, as_interface, route_on,
  hand_out, get_object,
}
use oocore.Rot.Loop.{count}
use oocore.Rot.Consistent.{IsConsistent}
use oocore.Rot.Found.{Handed, get_object-Handed}
use oocore.Rot.Registered.{Registered, register_object-Registered}
use oocore.Rot.Regained.{Ready, get_object-finds}
use oocore.Rot.RoundTrip.{register_object-get_object}
use oocore.Rot.Refused.{register_object-refused}
use oocore.Rot.Steps.{Reach, here, next, registers, IsNew, Reach-IsConsistent}
use oocore.Tests.Handles.{handles, places}

abbrev Here : Type 0
Here = Rot (handles Info) places (handles ℕ)

abbrev willing : Env
willing = record {
  alive = λ log o. true;
  query = λ log o iid. returned (some o);
  rot_register = λ log oid o flags. returned 5;
  rot_revoke = λ log k. none;
  rot_get = λ log oid iid. returned none;
  try_lock = λ log. true;
  object_iid = 1;
  notify_iid = 2;
}

abbrev fresh : Here
fresh = record { has_rot = false; objects = []; by_oid = λ oid. []; notify = []; log = [] }

abbrev name : Text
name = 110 ∷ 97 ∷ []

-- Object 42 for all users, to be handed out once
abbrev entry : Info
entry = record { oid = name; object = 42; source = 9; flags = 0x107; rot_cookie = 0 }

abbrev caller : CallContext
caller = record { source_id = 9; source_type = same }

abbrev filled : Here
filled = record fresh {
  objects = (1, entry) ∷ [];
  by_oid = λ oid. if same_text name oid then 1 ∷ [] else [];
}

registered : register_object willing (some caller) name (some 42) 0x107 fresh ≡ (filled, returned 1)
unfolding register_object is_public enter_object check insert_info finish_registration revoke_all
    on_register_object tell_all forget_dead make_info source_of insert_at
registered = refl

fresh-IsNew : IsNew fresh
fresh-IsNew = record { no_object = λ c. refl; no_place = λ oid. refl }

reached : Reach fresh (register_object willing (some caller) name (some 42) 0x107 fresh).0
reached = next here (registers willing (some caller) name (some 42) 0x107 refl)

Reach-IsConsistent_example :
    IsConsistent {O = handles Info} {M = places} {N = handles ℕ}
      (register_object willing (some caller) name (some 42) 0x107 fresh).0
Reach-IsConsistent_example = Reach-IsConsistent fresh-IsNew reached

filled-IsConsistent : IsConsistent filled
filled-IsConsistent =
    subst (λ r. IsConsistent {O = handles Info} {M = places} {N = handles ℕ} r.0) registered
      Reach-IsConsistent_example

register_object-Registered_example :
    (k : ℕ) × Registered (make_info (some caller) name 42 0x107 k) fresh filled 1
register_object-Registered_example =
    register_object-Registered willing (some caller) name 42 0x107 fresh filled 1 registered

fresh-IsConsistent : IsConsistent fresh
unfolding count
fresh-IsConsistent oid c = refl

visible : (bit_and entry.flags (search_flags none false) == 0) ≡ false
unfolding search_flags type_of_source is_remote
visible = refl

register_object-get_object_example :
    (s' : Here) × (get_object willing none name 1 filled ≡ (s', returned (some 42)))
register_object-get_object_example =
    register_object-get_object willing willing (some caller) none name 42 0x107 fresh filled 1
      fresh-IsConsistent refl registered refl (λ log k. refl) visible refl

abbrev emptied : Here
emptied = record fresh { by_oid = drop_cookie places 1 name 1 0 filled.by_oid }

got : get_object willing none name 1 filled ≡ (emptied, returned (some 42))
unfolding get_object search_flags type_of_source is_remote search_entries take_entry as_interface
    hand_out route_on revoke_all revoke_object_i announce_revoke take_out on_revoke_object tell_all
    forget_dead same_text
got = refl

get_object-Handed_example : Handed willing none name 1 filled emptied 42
get_object-Handed_example =
    get_object-Handed willing none name 1 filled emptied 42 filled-IsConsistent refl got

ready : Ready willing filled (search_flags none false) 1
ready = record { info = entry; there = refl; visible = visible; live = refl }

get_object-finds_example :
    (s' : Here) × (p : ℕ) × (get_object willing none name 1 filled ≡ (s', returned (some p)))
unfolding ready
get_object-finds_example =
    get_object-finds willing none name 1 filled filled-IsConsistent (λ log k. refl) ready refl

-- With a global table
abbrev joined : Here
joined = record filled { has_rot = true }

register_object-refused_example :
    register_object willing none name (some 7) 0x107 joined
    ≡ (call (rot_revoked 5) (call (rot_registered name 7 0x107) joined), threw already_exists)
unfolding is_public has same_text
register_object-refused_example =
    register_object-refused willing none name 7 0x107 5 1 entry joined refl refl refl (omega arith)
      (λ log k. refl) refl refl refl refl
