-- ===== src/Rot/Steps.antt =====
-- A table as a state machine: what any sequence of calls leaves.
use oocore.Prelude.{ℕ, Bool, arith, ◌≡◌, refl, sym, subst, Option, none, some, []}
use oocore.Registry.Tables.{Text}
use oocore.Rot.Tables.{HandleTable, MultiTable}
use oocore.Rot.State.{Info, Env, CallContext, Rot, init}
use oocore.Rot.Notify.{on_register_object, on_revoke_object, register_notify, unregister_notify}
use oocore.Rot.Revoke.{revoke_object}
use oocore.Rot.Register.{register_object}
use oocore.Rot.Get.{get_object}
use oocore.Rot.Loop.{count}
use oocore.Rot.Consistent.{
  IsConsistent, SameTables, SameTables-refl, IsConsistent-same, on_register_object-same,
  on_revoke_object-same,
}
use oocore.Rot.Kept.{
  register_object-IsConsistent, get_object-IsConsistent, revoke_object-IsConsistent,
}

module _ {O : HandleTable Info} {M : MultiTable} {N : HandleTable ℕ} where
  -- One call from outside, in a world that may answer anything
  pub data Step (s s' : Rot O M N) : Type 0 where
    inits : (service : Option Bool) → s' ≡ init service s → Step s s'
    registers :
        (env : Env) (context : Option CallContext) (oid : Text) (object : Option ℕ) (flags : ℕ)
        → s' ≡ (register_object env context oid object flags s).0
        → Step s s'
    gets :
        (env : Env) (context : Option CallContext) (oid : Text) (iid : ℕ)
        → s' ≡ (get_object env context oid iid s).0
        → Step s s'
    revokes :
        (env : Env) (context : Option CallContext) (cookie : ℕ)
        → s' ≡ (revoke_object env context cookie s).0
        → Step s s'
    hears_register :
        (env : Env) (oid : Text) (flags : ℕ) → s' ≡ on_register_object env oid flags s → Step s s'
    hears_revoke :
        (env : Env) (oid : Text) (flags : ℕ) → s' ≡ on_revoke_object env oid flags s → Step s s'
    listens :
        (env : Env) (iid : ℕ) (listener : Option ℕ)
        → s' ≡ (register_notify env iid listener s).0
        → Step s s'
    leaves : (env : Env) (iid cookie : ℕ) → s' ≡ unregister_notify env iid cookie s → Step s s'

  pub data Reach (s : Rot O M N) : Rot O M N → Type 0 where
    here : Reach s s
    next : {t u : Rot O M N} → Reach s t → Step t u → Reach s u

  -- RunningObjectTable(): no object and no place
  pub record IsNew (s : Rot O M N) : Type 0 where
    pub no_object : (c : ℕ) → HandleTable.find O s.objects c ≡ none
    pub no_place : (oid : Text) → MultiTable.values M s.by_oid oid ≡ []

  IsNew-IsConsistent : (s : Rot O M N) → IsNew s → IsConsistent s
  unfolding count
  IsNew-IsConsistent s new oid c = rw (new.no_object c, new.no_place oid) refl

  register_notify-same :
      (env : Env) (iid : ℕ) (listener : Option ℕ) (s : Rot O M N)
      → SameTables s (register_notify env iid listener s).0
  unfolding register_notify
  register_notify-same env iid none s = SameTables-refl s
  register_notify-same env iid (some listener) s = ground arith

  unregister_notify-same :
      (env : Env) (iid cookie : ℕ) (s : Rot O M N)
      → SameTables s (unregister_notify env iid cookie s)
  unfolding unregister_notify
  unregister_notify-same env iid cookie s = ground arith

  init-IsConsistent :
      (service : Option Bool) (s : Rot O M N) → IsConsistent s → IsConsistent (init service s)
  unfolding init
  init-IsConsistent none s ok = ok
  init-IsConsistent (some has_rot) s ok = ok

  Step-IsConsistent : {s s' : Rot O M N} → Step s s' → IsConsistent s → IsConsistent s'
  Step-IsConsistent {s} {s'} (inits service e) ok =
      subst (λ x. IsConsistent x) (sym e) (init-IsConsistent service s ok)
  Step-IsConsistent {s} {s'} (registers env context oid object flags e) ok =
      subst (λ x. IsConsistent x) (sym e)
        (register_object-IsConsistent env context oid object flags s ok)
  Step-IsConsistent {s} {s'} (gets env context oid iid e) ok =
      subst (λ x. IsConsistent x) (sym e) (get_object-IsConsistent env context oid iid s ok)
  Step-IsConsistent {s} {s'} (revokes env context cookie e) ok =
      subst (λ x. IsConsistent x) (sym e) (revoke_object-IsConsistent env context cookie s ok)
  Step-IsConsistent {s} {s'} (hears_register env oid flags e) ok =
      subst (λ x. IsConsistent x) (sym e)
        (IsConsistent-same s _ (on_register_object-same env oid flags s) ok)
  Step-IsConsistent {s} {s'} (hears_revoke env oid flags e) ok =
      subst (λ x. IsConsistent x) (sym e)
        (IsConsistent-same s _ (on_revoke_object-same env oid flags s) ok)
  Step-IsConsistent {s} {s'} (listens env iid listener e) ok =
      subst (λ x. IsConsistent x) (sym e)
        (IsConsistent-same s _ (register_notify-same env iid listener s) ok)
  Step-IsConsistent {s} {s'} (leaves env iid cookie e) ok =
      subst (λ x. IsConsistent x) (sym e)
        (IsConsistent-same s _ (unregister_notify-same env iid cookie s) ok)

  -- After any sequence of calls on a new running object table, whatever the other objects answer
  -- and throw, its two tables agree: a cookie stands once at the OID of its object, and nowhere
  -- else, and not at all if it has no object.
  pub Reach-IsConsistent : {s s' : Rot O M N} → IsNew s → Reach s s' → IsConsistent s'
  Reach-IsConsistent {s} new here = IsNew-IsConsistent s new
  Reach-IsConsistent new (next r st) = Step-IsConsistent st (Reach-IsConsistent new r)
