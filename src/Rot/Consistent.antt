-- ===== src/Rot/Consistent.antt =====
-- The two tables of the running object table agree, whatever is called: each registered object stands
-- once at its own OID, and each place of an OID has its object.
use oocore.Prelude.{
  ℕ, ◌≡◌, refl, subst, ◌∙◌, inl, inr, false, Option, none, some, List, [], ◌∷◌, ◌==◌, ==_iff,
  Bool-cases, if◌then◌else◌, length, arith,
}
use oocore.Registry.Tables.{Text, same_text}
use oocore.Registry.Values.{same_text_refl, same_text_sound}
use oocore.Rot.Tables.{HandleTable, MultiTable}
use oocore.Rot.State.{Info, Call, told_register, told_revoke, Env, Rot}
use oocore.Rot.Notify.{tell_one, tell_all, forget_dead, on_register_object, on_revoke_object}
use oocore.Rot.Revoke.{take_out}
use oocore.Rot.Loop.{count, count-skip, values-drop_cookie_all, values-drop_cookie_other}

-- How often the cookie of an entry is to stand at an OID
abbrev pub places : Text → Option Info → ℕ
places oid none = 0
places oid (some info) = if same_text info.oid oid then 1 else 0

module _ {O : HandleTable Info} {M : MultiTable} {N : HandleTable ℕ} where
  open O use {find, insert, remove, insert-free, find-insert, find-remove}

  -- The two tables as one: what a cookie has, and how often it stands at an OID
  abbrev pub IsConsistent : Rot O M N → Type 0
  IsConsistent s =
      (oid : Text) (c : ℕ)
      → count c (MultiTable.values M s.by_oid oid) ≡ places oid (find s.objects c)

  -- The same tables, and the same global table or none
  pub record SameTables (s s' : Rot O M N) : Type 0 where
    pub same_objects : s'.objects ≡ s.objects
    pub same_by_oid : s'.by_oid ≡ s.by_oid
    pub same_rot : s'.has_rot ≡ s.has_rot

  pub SameTables-refl : (s : Rot O M N) → SameTables s s
  SameTables-refl s = record { same_objects = refl; same_by_oid = refl; same_rot = refl }

  SameTables-trans : {s s' s'' : Rot O M N} → SameTables s s' → SameTables s' s'' → SameTables s s''
  SameTables-trans p q = ground arith

  pub IsConsistent-same : (s s' : Rot O M N) → SameTables s s' → IsConsistent s → IsConsistent s'
  IsConsistent-same s s' e ok oid c = rw (e.same_objects, e.same_by_oid) (ok oid c)

  pub tell_all-same :
      (env : Env) (told : ℕ → Call) (keys : List ℕ) (r : Rot O M N × List ℕ)
      → SameTables r.0 (tell_all env told keys r).0
  unfolding tell_all tell_one
  tell_all-same env told [] r = ground arith
  tell_all-same env told (key ∷ keys) r =
      let ih = tell_all-same env told keys (tell_one env told key r) in ground arith

  forget_dead-same : (env : Env) (r : Rot O M N × List ℕ) → SameTables r.0 (forget_dead env r)
  unfolding forget_dead
  forget_dead-same env (s, []) = ground arith
  forget_dead-same env (s, key ∷ stack) = ground arith

  pub on_revoke_object-same :
      (env : Env) (oid : Text) (flags : ℕ) (s : Rot O M N)
      → SameTables s (on_revoke_object env oid flags s)
  unfolding on_revoke_object
  on_revoke_object-same env oid flags s =
      SameTables-trans
        (tell_all-same env (λ n. told_revoke n oid flags) (HandleTable.keys N s.notify) (s, []))
        (forget_dead-same env
          (tell_all env (λ n. told_revoke n oid flags) (HandleTable.keys N s.notify) (s, [])))

  pub on_register_object-same :
      (env : Env) (oid : Text) (flags : ℕ) (s : Rot O M N)
      → SameTables s (on_register_object env oid flags s)
  unfolding on_register_object
  on_register_object-same env oid flags s =
      SameTables-trans
        (tell_all-same env (λ n. told_register n oid flags) (HandleTable.keys N s.notify) (s, []))
        (forget_dead-same env
          (tell_all env (λ n. told_register n oid flags) (HandleTable.keys N s.notify) (s, [])))

  -- The places after an entry has been taken out, at its own OID and at another
  take_out-own :
      (cookie : ℕ) (info : Info) (s : Rot O M N) (c : ℕ)
      → find s.objects cookie ≡ some info
      → IsConsistent s
      → count c (MultiTable.values M (take_out cookie info s).by_oid info.oid)
        ≡ places info.oid (find (take_out cookie info s).objects c)
  unfolding take_out
  take_out-own cookie info s c e ok =
      let once : count cookie (MultiTable.values M s.by_oid info.oid) ≡ 1 =
        ok info.oid cookie ∙ rw (e, same_text_refl info.oid) refl in
      rw (values-drop_cookie_all M info.oid cookie s.by_oid, find-remove s.objects cookie c)
        (ground
          (arith, count-skip false cookie c (MultiTable.values M s.by_oid info.oid), ok info.oid c))

  take_out-other :
      (cookie : ℕ) (info : Info) (s : Rot O M N) (oid : Text) (c : ℕ)
      → find s.objects cookie ≡ some info
      → IsConsistent s
      → same_text info.oid oid ≡ false
      → count c (MultiTable.values M (take_out cookie info s).by_oid oid)
        ≡ places oid (find (take_out cookie info s).objects c)
  unfolding take_out
  take_out-other cookie info s oid c e ok other =
      rw
        (
          values-drop_cookie_other M info.oid cookie
              (length (MultiTable.values M s.by_oid info.oid)) 0 s.by_oid oid other,
          find-remove s.objects cookie c,
        )
        (elim (Bool-cases (cookie == c)) [
          | inr no_hit ↦ rw no_hit (ok oid c)
          | inl hit ↦
              let n : cookie ≡ c = (==_iff cookie c).0 hit in
              let at_c : find s.objects c ≡ some info =
                subst (λ k. find s.objects k ≡ some info) n e in
              rw hit (ok oid c ∙ rw (at_c, other) refl)
        ])

  pub take_out-IsConsistent :
      (cookie : ℕ) (info : Info) (s : Rot O M N)
      → find s.objects cookie ≡ some info
      → IsConsistent s
      → IsConsistent (take_out cookie info s)
  take_out-IsConsistent cookie info s e ok oid c = elim (Bool-cases (same_text info.oid oid)) [
    | inr other ↦ take_out-other cookie info s oid c e ok other
    | inl own ↦
        subst
          (λ o.
            count c (MultiTable.values M (take_out cookie info s).by_oid o)
            ≡ places o (find (take_out cookie info s).objects c))
          (same_text_sound info.oid oid own) (take_out-own cookie info s c e ok)
  ]
