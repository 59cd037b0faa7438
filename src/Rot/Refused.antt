-- ===== src/Rot/Refused.antt =====
-- What RegisterObject does where the OID is taken.
use oocore.Prelude.{
  ℕ, ◌≡◌, ◌≢◌, refl, sym, ap, ◌∙◌, inl, inr, true, false, ◌||◌, Option, some, List, [], ◌∷◌, ◌==◌,
  ==_iff, Bool-cases, arith, bit_and,
}
use oocore.Registry.Tables.{Text}
use oocore.Routing.Table.{has}
use oocore.Rot.Tables.{HandleTable, MultiTable}
use oocore.Rot.State.{Info, Env, CallContext, Rot, returned, threw, already_exists}
use oocore.Rot.Register.{
  conflict, refused, look, check, give_up, is_public, make_info, register_object,
}
use oocore.Rot.Kept.{enter_object-refused}
use oocore.Rot.State.{multiple_registration, call, rot_registered, rot_revoked}
use oocore.Rot.Registered.{Look-cases}
use oocore.Rot.Regained.{Quiet}

module _ {O : HandleTable Info} {M : MultiTable} {N : HandleTable ℕ} where
  open O use {find}

  look-conflict :
      (env : Env) (s : Rot O M N) (flags c : ℕ) (info : Info)
      → find s.objects c ≡ some info
      → env.alive s.log info.object ≡ true
      → ((bit_and info.flags multiple_registration == 0) || (info.flags == flags)) ≡ true
      → look env s flags c ≡ conflict
  unfolding look
  look-conflict env s flags c info there live clash = rw (look, there, live, clash) refl

  check-refused :
      (env : Env) (s : Rot O M N) (flags c : ℕ) (cs acc : List ℕ)
      → has c cs ≡ true
      → look env s flags c ≡ conflict
      → check env s flags cs acc ≡ refused
  unfolding check has
  check-refused env s flags c [] acc h e = absurd (cc)
  check-refused env s flags c (d ∷ ds) acc h e = elim (Bool-cases (c == d)) [
    | inl hit ↦
        let clash : look env s flags d ≡ conflict =
          ap (λ k. look env s flags k) (sym ((==_iff c d).0 hit)) ∙ e in
        rw (check, clash) refl
    | inr other ↦
        let later =
          λ (acc' : List ℕ). check-refused env s flags c ds acc' (ground (arith, h, other)) e in
        elim (Look-cases (look env s flags d)) [
          | inl r ↦ rw (check, r) (later acc)
          | inr (inl r) ↦ rw (check, r) (later (d ∷ acc))
          | inr (inr (inl r)) ↦ rw (check, r) refl
          | inr (inr (inr r)) ↦ rw (check, r) (later acc)
        ]
  ]

  gives_up :
      (env : Env) (k : ℕ) (s : Rot O M N)
      → k ≢ 0
      → Quiet env
      → give_up env k already_exists s ≡ (call (rot_revoked k) s, threw already_exists)
  unfolding give_up
  gives_up env k s k0 quiet =
      let zero_no : (k == 0) ≡ false = ground arith in rw (zero_no, quiet s.log k) refl

  -- A registration with a scope that the global table has accepted under a cookie other than 0 is
  -- refused if a live entry with the OID allows no other or has the same flags: the tables stay,
  -- the global cookie is revoked, and IAlreadyExistsException is thrown, if the revocation does
  -- not throw.
  pub register_object-refused :
      (env : Env) (context : Option CallContext) (oid : Text) (object flags k c : ℕ) (info : Info)
      (s : Rot O M N)
      → (bit_and flags 15 == 0) ≡ false
      → is_public s flags ≡ true
      → env.rot_register s.log oid object flags ≡ returned k
      → k ≢ 0
      → Quiet env
      → has c (MultiTable.values M s.by_oid oid) ≡ true
      → find s.objects c ≡ some info
      → env.alive (call (rot_registered oid object flags) s).log info.object ≡ true
      → ((bit_and info.flags multiple_registration == 0) || (info.flags == flags)) ≡ true
      → register_object env context oid (some object) flags s
        ≡ (call (rot_revoked k) (call (rot_registered oid object flags) s), threw already_exists)
  unfolding register_object make_info
  register_object-refused env context oid object flags k c info s scoped public asked k0 quiet
        listed there live clash =
      let s1 = call (rot_registered oid object flags) s in
      let i = make_info context oid object flags k in
      let taken : check env s1 flags (MultiTable.values M s1.by_oid oid) [] ≡ refused =
        check-refused env s1 flags c _ [] listed
          (look-conflict env s1 flags c info there live clash) in
      rw (register_object, scoped, public, asked)
        (enter_object-refused env i s1 taken ∙ gives_up env k s1 k0 quiet)
