-- ===== src/Rot/RoundTrip.antt =====
-- What RegisterObject has registered, GetObject hands out.
use oocore.Prelude.{
  ℕ, ◌≡◌, refl, sym, ap, subst, ◌∙◌, inl, inr, true, false, Option, some, [], ◌==◌, arith, bit_and,
}
use oocore.Registry.Tables.{Text}
use oocore.Registry.Values.{same_text_refl}
use oocore.Rot.Tables.{HandleTable, MultiTable}
use oocore.Rot.State.{Info, Env, CallContext, Rot, returned}
use oocore.Rot.Register.{make_info, register_object}
use oocore.Rot.Get.{as_interface, search_flags, get_object}
use oocore.Rot.Loop.{count}
use oocore.Rot.Consistent.{IsConsistent}
use oocore.Rot.Kept.{register_object-IsConsistent}
use oocore.Rot.Found.{get_object-Handed}
use oocore.Rot.Registered.{Registered, register_object-Registered}
use oocore.Rot.Regained.{Quiet, Ready, get_object-finds}

as_interface-object :
    {O : HandleTable Info} {M : MultiTable} {N : HandleTable ℕ} (env : Env) (s : Rot O M N)
    (info : Info) (p : ℕ)
    → as_interface env s env.object_iid info ≡ returned p
    → info.object ≡ p
unfolding as_interface
as_interface-object env s info p e = ground arith

module _ {O : HandleTable Info} {M : MultiTable} {N : HandleTable ℕ} where
  open O use {find}

  -- With nothing at the OID before, what stands there is the new entry.
  only_new :
      (oid : Text) (info i : Info) (s s1 : Rot O M N) (cookie k : ℕ)
      → IsConsistent s
      → MultiTable.values M s.by_oid oid ≡ []
      → Registered info s s1 cookie
      → find s1.objects k ≡ some i
      → i.oid ≡ oid
      → i ≡ info
  unfolding count
  only_new oid info i s s1 cookie k ok nothing reg there named = elim (reg.others k) [
    | inl kept ↦
        let before : find s.objects k ≡ some i = sym kept ∙ there in
        let once : count k (MultiTable.values M s.by_oid oid) ≡ 1 =
          ok oid k ∙ rw (before, named, same_text_refl oid) refl in
        let never : count k (MultiTable.values M s.by_oid oid) ≡ 0 = rw nothing refl in
        absurd (omega (arith, once, never))
    | inr (inl gone) ↦ absurd (let both = sym gone ∙ there in cc)
    | inr (inr same) ↦
        let both : some i ≡ some info = sym there ∙ ap (λ x. find s1.objects x) same ∙ reg.there in
        cc
  ]

  -- An object that register_object has accepted at an OID where nothing stood is what get_object
  -- hands out for IObject, to a caller for whom its flags are searched, if it is alive, there is
  -- no global table, and no revocation throws.
  pub register_object-get_object :
      (env env' : Env) (context context' : Option CallContext) (oid : Text) (object flags : ℕ)
      (s s1 : Rot O M N) (cookie : ℕ)
      → IsConsistent s
      → MultiTable.values M s.by_oid oid ≡ []
      → register_object env context oid (some object) flags s ≡ (s1, returned cookie)
      → s1.has_rot ≡ false
      → Quiet env'
      → (bit_and flags (search_flags context' s1.has_rot) == 0) ≡ false
      → env'.alive s1.log object ≡ true
      → (s' : Rot O M N) × (get_object env' context' oid env'.object_iid s1
          ≡ (s', returned (some object)))
  unfolding make_info
  register_object-get_object env env' context context' oid object flags s s1 cookie ok nothing e
        local quiet visible live =
      let (k, reg) = register_object-Registered env context oid object flags s s1 cookie e in
      let ok1 : IsConsistent s1 =
        subst (λ r. IsConsistent r.0) e
          (register_object-IsConsistent env context oid (some object) flags s ok) in
      let ready : Ready env' s1 (search_flags context' s1.has_rot) cookie = record {
        info = make_info context oid object flags k;
        there = reg.there;
        visible = visible;
        live = live;
      } in
      let (s', p, got) = get_object-finds env' context' oid cookie s1 ok1 quiet ready refl in
      let h = get_object-Handed env' context' oid env'.object_iid s1 s' p ok1 local got in
      let same =
        only_new oid (make_info context oid object flags k) h.info s s1 cookie h.cookie ok nothing
          reg h.there h.named in
      let given = as_interface-object env' s1 h.info p h.given in
      (
        s',
        got
            ∙ ap (λ (x : ℕ). (s', returned (some x)))
                (sym given ∙ ap (λ (i : Info). i.object) same),
      )
