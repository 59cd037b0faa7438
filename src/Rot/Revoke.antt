-- ===== src/Rot/Revoke.antt =====
-- RevokeObject_i, RevokeObject, and the list of cookies to revoke.
use oocore.Prelude.{
  ℕ, zero, suc, ◌+◌, ◌==◌, ◌||◌, Option, none, some, List, [], ◌∷◌, if◌then◌else◌, length,
  get_elem?,
}
use oocore.Registry.Tables.{Text}
use oocore.Rot.Tables.{HandleTable, MultiTable}
use oocore.Rot.State.{Info, rot_revoked, Env, CallContext, Rot, call, Thrown}
use oocore.Rot.Notify.{on_revoke_object}

-- The loop over the places of an OID: i goes up also where the place has just been removed. As the
-- places do not grow in number, as many rounds as there are at first are all.
unfoldable pub drop_cookie :
    (M : MultiTable) → ℕ → Text → ℕ → ℕ → MultiTable.Carrier M → MultiTable.Carrier M
drop_cookie M zero oid cookie i t = t
drop_cookie M (suc fuel) oid cookie i t = elim (get_elem? (MultiTable.values M t oid) i) [
  | none ↦ t
  | some c ↦
      drop_cookie M fuel oid cookie (i + 1)
        (if c == cookie then MultiTable.remove_at M t oid i else t)
]

-- CallContext's SourceId(), 0 where there is no context
unfoldable pub source_of : Option CallContext → ℕ
source_of none = 0
source_of (some context) = context.source_id

module _ {O : HandleTable Info} {M : MultiTable} {N : HandleTable ℕ} where
  -- Both tables without the entry
  unfoldable pub take_out : ℕ → Info → Rot O M N → Rot O M N
  take_out cookie info s = record s {
    by_oid =
        drop_cookie M (length (MultiTable.values M s.by_oid info.oid)) info.oid cookie 0 s.by_oid;
    objects = HandleTable.remove O s.objects cookie;
  }

  -- After the tables: the global table, or the listeners
  unfoldable pub announce_revoke : Env → Info → Rot O M N → Rot O M N × Option Thrown
  announce_revoke env info s =
      if info.rot_cookie == 0
      then (on_revoke_object env info.oid info.flags s, none)
      else (call (rot_revoked info.rot_cookie) s, env.rot_revoke s.log info.rot_cookie)

  unfoldable pub revoke_object_i : Env → ℕ → ℕ → Rot O M N → Rot O M N × Option Thrown
  revoke_object_i env cookie src_id s = elim (HandleTable.find O s.objects cookie) [
    | none ↦ (s, none)
    | some info ↦
        if (src_id == 0) || (info.source == src_id)
        then announce_revoke env info (take_out cookie info s)
        else (s, none)
  ]

  unfoldable pub revoke_object :
      Env → Option CallContext → ℕ → Rot O M N → Rot O M N × Option Thrown
  revoke_object env context cookie s = revoke_object_i env cookie (source_of context) s

  -- for (...; revoke_list.pop(&i);) RevokeObject_i(i,0): what one throws ends the loop.
  unfoldable pub revoke_all : Env → List ℕ → Rot O M N → Rot O M N × Option Thrown
  revoke_all env [] s = (s, none)
  revoke_all env (cookie ∷ revoke_list) s =
      let (s1, r) = revoke_object_i env cookie 0 s in
      elim r [ none ↦ revoke_all env revoke_list s1 | some e ↦ (s1, some e) ]
