-- ===== src/Rot/Kept.antt =====
-- Every operation of the running object table keeps its two tables in agreement, also where it
-- throws.
use oocore.Prelude.{
  ℕ, bit_and, ◌≡◌, refl, sym, subst, inl, inr, ◌⊎◌, Option, none, some, List, [], ◌==◌, Bool-cases,
  Option-cases, arith,
}
use oocore.Registry.Tables.{Text}
use oocore.Rot.Tables.{HandleTable, MultiTable}
use oocore.Rot.State.{
  Info, Env, CallContext, Rot, call, Thrown, Outcome, returned, threw, Outcome-cases,
  rot_registered, already_exists, out_of_memory, invalid_flags,
}
use oocore.Rot.Revoke.{source_of, revoke_object, revoke_all}
use oocore.Rot.Register.{
  Check, clear, refused, check, insert_info, give_up, finish_registration, enter_object, is_public,
  make_info, register_object,
}
use oocore.Rot.Get.{search_flags, search_entries, route_on, hand_out, get_object}
use oocore.Rot.Consistent.{
  IsConsistent, SameTables, SameTables-refl, IsConsistent-same, on_register_object-same,
}
use oocore.Rot.Revoked.{revoke_all-IsConsistent, revoke_object_i-IsConsistent}
use oocore.Rot.Inserted.{insert_info-Inserted, Inserted-IsConsistent}

pub Check-cases : (r : Check) → (r ≡ refused) ⊎ ((l : List ℕ) × (r ≡ clear l))
Check-cases refused = inl refl
Check-cases (clear l) = inr (l, refl)

module _ {O : HandleTable Info} {M : MultiTable} {N : HandleTable ℕ} where
  open M use {values}

  abbrev walk : Env → Info → Rot O M N → Check
  walk env info s = check env s info.flags (values s.by_oid info.oid) []

  pub enter_object-refused :
      (env : Env) (info : Info) (s : Rot O M N)
      → walk env info s ≡ refused
      → enter_object env info s ≡ give_up env info.rot_cookie already_exists s
  unfolding enter_object
  enter_object-refused env info s e = rw (enter_object, e) refl

  pub enter_object-full :
      (env : Env) (info : Info) (s : Rot O M N) (l : List ℕ)
      → walk env info s ≡ clear l
      → insert_info info s ≡ none
      → enter_object env info s ≡ give_up env info.rot_cookie out_of_memory s
  unfolding enter_object
  enter_object-full env info s l e full = rw (enter_object, e, full) refl

  pub enter_object-finish_registration :
      (env : Env) (info : Info) (s s1 : Rot O M N) (l : List ℕ) (cookie : ℕ)
      → walk env info s ≡ clear l
      → insert_info info s ≡ some (s1, cookie)
      → enter_object env info s ≡ finish_registration env info cookie l s1
  unfolding enter_object
  enter_object-finish_registration env info s s1 l cookie e new = rw (enter_object, e, new) refl

  pub give_up-same :
      (env : Env) (rot_cookie : ℕ) (e : Thrown) (s : Rot O M N)
      → SameTables s (give_up env rot_cookie e s).0
  unfolding give_up
  give_up-same env rot_cookie e s = ground arith

  finish_registration-same :
      (env : Env) (info : Info) (cookie : ℕ) (l : List ℕ) (s : Rot O M N)
      → SameTables (revoke_all env l s).0 (finish_registration env info cookie l s).0
  unfolding finish_registration
  finish_registration-same env info cookie l s = elim (Option-cases (revoke_all env l s).1) [
    | inr (t, e) ↦
        rw (finish_registration, e)
          (record { same_objects = refl; same_by_oid = refl; same_rot = refl })
    | inl e ↦
        rw (finish_registration, e)
          (elim (Bool-cases (info.rot_cookie == 0)) [
            | inl local ↦
                rw local (on_register_object-same env info.oid info.flags (revoke_all env l s).0)
            | inr global ↦
                rw global (record { same_objects = refl; same_by_oid = refl; same_rot = refl })
          ])
  ]

  enter_object-IsConsistent :
      (env : Env) (info : Info) (s : Rot O M N)
      → IsConsistent s
      → IsConsistent (enter_object env info s).0
  enter_object-IsConsistent env info s ok = elim (Check-cases (walk env info s)) [
    | inl e ↦
        subst (λ r. IsConsistent r.0) (sym (enter_object-refused env info s e))
          (IsConsistent-same s _ (give_up-same env info.rot_cookie already_exists s) ok)
    | inr (l, e) ↦ elim (Option-cases (insert_info info s)) [
      | inl full ↦
          subst (λ r. IsConsistent r.0) (sym (enter_object-full env info s l e full))
            (IsConsistent-same s _ (give_up-same env info.rot_cookie out_of_memory s) ok)
      | inr ((s1, cookie), new) ↦
          subst (λ r. IsConsistent r.0)
            (sym (enter_object-finish_registration env info s s1 l cookie e new))
            (IsConsistent-same (revoke_all env l s1).0 _
              (finish_registration-same env info cookie l s1)
              (revoke_all-IsConsistent env l s1 (
                Inserted-IsConsistent info s s1 cookie (insert_info-Inserted info s s1 cookie new)
                  ok)))
    ]
  ]

  -- A registration throws before it has the lock, or enters after the global table has been asked.
  pub register_object-cases :
      (env : Env) (context : Option CallContext) (oid : Text) (object flags : ℕ) (s : Rot O M N)
      → let r = register_object env context oid (some object) flags s in
        (SameTables s r.0 × (t : Thrown) × (r.1 ≡ threw t))
        ⊎ ((s1 : Rot O M N) × (k : ℕ) × SameTables s s1
            × (r ≡ enter_object env (make_info context oid object flags k) s1))
  unfolding register_object
  register_object-cases env context oid object flags s = elim (Bool-cases (bit_and flags 15 == 0)) [
    | inl scopeless ↦ rw scopeless (inl (SameTables-refl s, invalid_flags, refl))
    | inr scoped ↦ elim (Bool-cases (is_public s flags)) [
      | inr local ↦ rw (scoped, local) (inr (s, 0, SameTables-refl s, refl))
      | inl public ↦ elim (Outcome-cases (env.rot_register s.log oid object flags)) [
        | inl (k, e) ↦
            rw (scoped, public, e)
              (inr (
                call (rot_registered oid object flags) s,
                k,
                record { same_objects = refl; same_by_oid = refl; same_rot = refl },
                refl,
              ))
        | inr (t, e) ↦
            rw (scoped, public, e)
              (inl (record { same_objects = refl; same_by_oid = refl; same_rot = refl }, t, refl))
      ]
    ]
  ]

  pub register_object-IsConsistent :
      (env : Env) (context : Option CallContext) (oid : Text) (object : Option ℕ) (flags : ℕ)
      (s : Rot O M N)
      → IsConsistent s
      → IsConsistent (register_object env context oid object flags s).0
  unfolding register_object
  register_object-IsConsistent env context oid none flags s ok = ok
  register_object-IsConsistent env context oid (some object) flags s ok =
      elim (register_object-cases env context oid object flags s) [
        | inl (same, t, e) ↦ IsConsistent-same s _ same ok
        | inr (s1, k, same, e) ↦
            subst (λ r. IsConsistent r.0) (sym e)
              (enter_object-IsConsistent env (make_info context oid object flags k) s1
                (IsConsistent-same s s1 same ok))
      ]

  route_on-same :
      (env : Env) (oid : Text) (iid : ℕ) (found : Option ℕ) (s : Rot O M N)
      → SameTables s (route_on env oid iid found s).0
  unfolding route_on
  route_on-same env oid iid (some object) s = SameTables-refl s
  route_on-same env oid iid none s = ground arith

  hand_out-same :
      (env : Env) (oid : Text) (iid : ℕ) (found : Option ℕ) (l : List ℕ) (s : Rot O M N)
      → SameTables (revoke_all env l s).0 (hand_out env oid iid found l s).0
  unfolding hand_out
  hand_out-same env oid iid found l s = elim (Option-cases (revoke_all env l s).1) [
    | inr (t, e) ↦ rw (hand_out, e) (SameTables-refl (revoke_all env l s).0)
    | inl e ↦ rw (hand_out, e) (route_on-same env oid iid found (revoke_all env l s).0)
  ]

  abbrev entries_of : Env → Option CallContext → Text → ℕ → Rot O M N → Outcome (Option ℕ × List ℕ)
  entries_of env context oid iid s =
      search_entries env s (search_flags context s.has_rot) iid (values s.by_oid oid) []

  pub get_object-threw :
      (env : Env) (context : Option CallContext) (oid : Text) (iid : ℕ) (s : Rot O M N) (t : Thrown)
      → entries_of env context oid iid s ≡ threw t
      → get_object env context oid iid s ≡ (s, threw t)
  unfolding get_object
  get_object-threw env context oid iid s t e = rw (get_object, e) refl

  pub get_object-hand_out :
      (env : Env) (context : Option CallContext) (oid : Text) (iid : ℕ) (s : Rot O M N)
      (found : Option ℕ) (l : List ℕ)
      → entries_of env context oid iid s ≡ returned (found, l)
      → get_object env context oid iid s ≡ hand_out env oid iid found l s
  unfolding get_object
  get_object-hand_out env context oid iid s found l e = rw (get_object, e) refl

  pub get_object-IsConsistent :
      (env : Env) (context : Option CallContext) (oid : Text) (iid : ℕ) (s : Rot O M N)
      → IsConsistent s
      → IsConsistent (get_object env context oid iid s).0
  get_object-IsConsistent env context oid iid s ok =
      elim (Outcome-cases (entries_of env context oid iid s)) [
        | inr (t, e) ↦
            subst (λ r. IsConsistent r.0) (sym (get_object-threw env context oid iid s t e)) ok
        | inl ((found, l), e) ↦
            subst (λ r. IsConsistent r.0)
              (sym (get_object-hand_out env context oid iid s found l e))
              (IsConsistent-same (revoke_all env l s).0 _ (hand_out-same env oid iid found l s)
                (revoke_all-IsConsistent env l s ok))
      ]

  pub revoke_object-IsConsistent :
      (env : Env) (context : Option CallContext) (cookie : ℕ) (s : Rot O M N)
      → IsConsistent s
      → IsConsistent (revoke_object env context cookie s).0
  unfolding revoke_object
  revoke_object-IsConsistent env context cookie s ok =
      revoke_object_i-IsConsistent env cookie (source_of context) s ok
