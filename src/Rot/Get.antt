-- ===== src/Rot/Get.antt =====
-- GetObject.
use oocore.Prelude.{
  ℕ, ◌==◌, ◌&&◌, not, bit_and, Bool, false, true, Option, none, some, List, [], ◌∷◌, if◌then◌else◌,
}
use oocore.Registry.Tables.{Text}
use oocore.Rot.Tables.{HandleTable, MultiTable}
use oocore.Rot.State.{
  Info, rot_got, Env, CallContext, Rot, call, Outcome, returned, threw, missing_iid, public_scope,
  external_public, single_use, MarshalFlags, same, compartment, inter_process, inter_user,
  remote_machine,
}
use oocore.Rot.Revoke.{revoke_all}

unfoldable pub is_remote : MarshalFlags → Bool
is_remote same = false
is_remote compartment = false
is_remote inter_process = false
is_remote inter_user = false
is_remote remote_machine = true

-- SourceType(), Same where there is no context
unfoldable pub type_of_source : Option CallContext → MarshalFlags
type_of_source none = same
type_of_source (some context) = context.source_type

unfoldable pub search_flags : Option CallContext → Bool → ℕ
search_flags context has_rot =
    if is_remote (type_of_source context) && not has_rot then external_public else public_scope

module _ {O : HandleTable Info} {M : MultiTable} {N : HandleTable ℕ} where
  -- The object of an entry as the interface that is asked for
  unfoldable pub as_interface : Env → Rot O M N → ℕ → Info → Outcome ℕ
  as_interface env s iid info =
      if iid == env.object_iid
      then returned info.object
      else elim (env.query s.log info.object iid) [
        | threw e ↦ threw e
        | returned none ↦ threw missing_iid
        | returned (some object) ↦ returned object
      ]

  -- An entry found alive, with the cookies to revoke before it
  unfoldable pub take_entry : Env → Rot O M N → ℕ → ℕ → Info → List ℕ → Outcome (Option ℕ × List ℕ)
  take_entry env s iid cookie info revoke_list = elim (as_interface env s iid info) [
    | threw e ↦ threw e
    | returned object ↦ returned (
      some object,
      if bit_and info.flags single_use == 0 then revoke_list else cookie ∷ revoke_list,
    )
  ]

  -- The walk over the entries of the OID
  unfoldable pub search_entries :
      Env → Rot O M N → ℕ → ℕ → List ℕ → List ℕ → Outcome (Option ℕ × List ℕ)
  search_entries env s flags iid [] revoke_list = returned (none, revoke_list)
  search_entries env s flags iid (cookie ∷ cookies) revoke_list =
      elim (HandleTable.find O s.objects cookie) [
        | none ↦ search_entries env s flags iid cookies revoke_list
        | some info ↦ elim (bit_and info.flags flags == 0) [
          | true ↦ search_entries env s flags iid cookies revoke_list
          | false ↦ elim (env.alive s.log info.object) [
            | true ↦ take_entry env s iid cookie info revoke_list
            | false ↦ search_entries env s flags iid cookies (cookie ∷ revoke_list)
          ]
        ]
      ]

  -- Where nothing has been found, the global table is asked; none is a pObject that is not set.
  unfoldable pub route_on : Env → Text → ℕ → Option ℕ → Rot O M N → Rot O M N × Outcome (Option ℕ)
  route_on env oid iid (some object) s = (s, returned (some object))
  route_on env oid iid none s =
      if s.has_rot
      then (call (rot_got oid iid) s, env.rot_get s.log oid iid)
      else (s, returned none)

  -- After the walk
  unfoldable pub hand_out :
      Env → Text → ℕ → Option ℕ → List ℕ → Rot O M N → Rot O M N × Outcome (Option ℕ)
  hand_out env oid iid found revoke_list s =
      let (s1, r) = revoke_all env revoke_list s in
      elim r [ some e ↦ (s1, threw e) | none ↦ route_on env oid iid found s1 ]

  unfoldable pub get_object :
      Env → Option CallContext → Text → ℕ → Rot O M N → Rot O M N × Outcome (Option ℕ)
  get_object env context oid iid s =
      elim (search_entries env s (search_flags context s.has_rot) iid
        (MultiTable.values M s.by_oid oid) []) [
          | threw e ↦ (s, threw e)
          | returned (found, revoke_list) ↦ hand_out env oid iid found revoke_list s
        ]
