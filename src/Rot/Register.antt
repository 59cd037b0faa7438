-- ===== src/Rot/Register.antt =====
-- RegisterObject.
use oocore.Prelude.{
  ℕ, ◌==◌, ◌&&◌, ◌||◌, not, bit_and, Bool, Option, none, some, List, [], ◌∷◌, if◌then◌else◌,
}
use oocore.Registry.Tables.{Text}
use oocore.Rot.Tables.{HandleTable, MultiTable}
use oocore.Rot.State.{
  Info, rot_registered, rot_revoked, Env, CallContext, Rot, call, Thrown, Outcome, returned, threw,
  null_object, invalid_flags, already_exists, out_of_memory, multiple_registration,
}
use oocore.Rot.Notify.{on_register_object}
use oocore.Rot.Revoke.{source_of, revoke_all}

-- What an entry with the same OID means for a registration
pub data Look : Type 0 where
  missing dead conflict allowed : Look

-- What the whole walk means: the cookies of the dead, the last first, or that it is refused
pub data Check : Type 0 where
  clear : List ℕ → Check
  refused : Check

-- info, once the global table has been asked
unfoldable pub make_info : Option CallContext → Text → ℕ → ℕ → ℕ → Info
make_info context oid object flags rot_cookie = record {
  oid = oid;
  object = object;
  source = source_of context;
  flags = flags;
  rot_cookie = rot_cookie;
}

module _ {O : HandleTable Info} {M : MultiTable} {N : HandleTable ℕ} where
  unfoldable pub look : Env → Rot O M N → ℕ → ℕ → Look
  look env s flags cookie = elim (HandleTable.find O s.objects cookie) [
    | none ↦ missing
    | some info ↦
        if not (env.alive s.log info.object)
        then dead
        else if (bit_and info.flags multiple_registration == 0) || (info.flags == flags)
        then conflict
        else allowed
  ]

  unfoldable pub check : Env → Rot O M N → ℕ → List ℕ → List ℕ → Check
  check env s flags [] revoke_list = clear revoke_list
  check env s flags (cookie ∷ cookies) revoke_list = elim (look env s flags cookie) [
    | missing ↦ check env s flags cookies revoke_list
    | dead ↦ check env s flags cookies (cookie ∷ revoke_list)
    | conflict ↦ refused
    | allowed ↦ check env s flags cookies revoke_list
  ]

  -- The two inserts: the second failing, the first is taken back.
  unfoldable pub insert_info : Info → Rot O M N → Option (Rot O M N × ℕ)
  insert_info info s = elim (HandleTable.insert O s.objects info 1 0xFFFFFFFF) [
    | none ↦ none
    | some (objects, cookie) ↦ elim (MultiTable.insert M s.by_oid info.oid cookie) [
      | none ↦ none
      | some by_oid ↦ some (record s { objects = objects; by_oid = by_oid }, cookie)
    ]
  ]

  -- catch (...): what RevokeObject throws takes the place of what was caught.
  unfoldable pub give_up : Env → ℕ → Thrown → Rot O M N → Rot O M N × Outcome ℕ
  give_up env rot_cookie e s = if rot_cookie == 0 then (s, threw e) else (
    call (rot_revoked rot_cookie) s,
    elim (env.rot_revoke s.log rot_cookie) [ none ↦ threw e | some e' ↦ threw e' ],
  )

  unfoldable pub finish_registration : Env → Info → ℕ → List ℕ → Rot O M N → Rot O M N × Outcome ℕ
  finish_registration env info cookie revoke_list s =
      let (s1, r) = revoke_all env revoke_list s in
      elim r [
        | some e ↦ (s1, threw e)
        | none ↦ (
          if info.rot_cookie == 0 then on_register_object env info.oid info.flags s1 else s1,
          returned cookie,
        )
      ]

  -- From the lock on
  unfoldable pub enter_object : Env → Info → Rot O M N → Rot O M N × Outcome ℕ
  enter_object env info s =
      elim (check env s info.flags (MultiTable.values M s.by_oid info.oid) []) [
        | refused ↦ give_up env info.rot_cookie already_exists s
        | clear revoke_list ↦ elim (insert_info info s) [
          | none ↦ give_up env info.rot_cookie out_of_memory s
          | some (s1, cookie) ↦ finish_registration env info cookie revoke_list s1
        ]
      ]

  -- scope & ~Activation::UserScope, of the four bits of the scope
  unfoldable pub is_public : Rot O M N → ℕ → Bool
  is_public s flags = s.has_rot && not (bit_and flags 12 == 0)

  -- The OID is given as the text that its cast yields; the object is none where it is null.
  unfoldable pub register_object :
      Env → Option CallContext → Text → Option ℕ → ℕ → Rot O M N → Rot O M N × Outcome ℕ
  register_object env context oid none flags s = (s, threw null_object)
  register_object env context oid (some object) flags s =
      if bit_and flags 15 == 0
      then (s, threw invalid_flags)
      else if is_public s flags
      then elim (env.rot_register s.log oid object flags) [
        | threw e ↦ (call (rot_registered oid object flags) s, threw e)
        | returned rot_cookie ↦
            enter_object env (make_info context oid object flags rot_cookie)
              (call (rot_registered oid object flags) s)
      ]
      else enter_object env (make_info context oid object flags 0) s
