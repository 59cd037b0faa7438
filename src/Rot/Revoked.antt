-- ===== src/Rot/Revoked.antt =====
-- What the revocation of one entry, and of a list of entries, does to the two tables.
use oocore.Prelude.{
  ℕ, ◌≡◌, refl, sym, subst, inl, inr, ◌⊎◌, true, none, some, List, [], ◌∷◌, ◌==◌, ◌||◌, Bool-cases,
  Option-cases,
}
use oocore.Rot.Tables.{HandleTable, MultiTable}
use oocore.Rot.State.{Info, Env, Rot}
use oocore.Rot.Revoke.{take_out, announce_revoke, revoke_object_i, revoke_all}
use oocore.Rot.Consistent.{
  IsConsistent, SameTables, IsConsistent-same, on_revoke_object-same, take_out-IsConsistent,
}

module _ {O : HandleTable Info} {M : MultiTable} {N : HandleTable ℕ} where
  open O use {find}

  pub announce_revoke-same :
      (env : Env) (info : Info) (s : Rot O M N) → SameTables s (announce_revoke env info s).0
  unfolding announce_revoke
  announce_revoke-same env info s = elim (Bool-cases (info.rot_cookie == 0)) [
    | inl local ↦ rw local (on_revoke_object-same env info.oid info.flags s)
    | inr global ↦ rw global (record { same_objects = refl; same_by_oid = refl; same_rot = refl })
  ]

  -- A revocation does nothing, or takes the entry out and announces it.
  pub revoke_object_i-cases :
      (env : Env) (cookie src_id : ℕ) (s : Rot O M N)
      → (revoke_object_i env cookie src_id s ≡ (s, none))
        ⊎ ((info : Info) × (find s.objects cookie ≡ some info)
            × (((src_id == 0) || (info.source == src_id)) ≡ true)
            × (revoke_object_i env cookie src_id s
                ≡ announce_revoke env info (take_out cookie info s)))
  unfolding revoke_object_i
  revoke_object_i-cases env cookie src_id s = elim (Option-cases (find s.objects cookie)) [
    | inl e ↦ inl (rw (revoke_object_i, e) refl)
    | inr (info, e) ↦ elim (Bool-cases ((src_id == 0) || (info.source == src_id))) [
      | inl mine ↦ inr (info, e, mine, rw (revoke_object_i, e, mine) refl)
      | inr other ↦ inl (rw (revoke_object_i, e, other) refl)
    ]
  ]

  pub revoke_object_i-IsConsistent :
      (env : Env) (cookie src_id : ℕ) (s : Rot O M N)
      → IsConsistent s
      → IsConsistent (revoke_object_i env cookie src_id s).0
  revoke_object_i-IsConsistent env cookie src_id s ok =
      elim (revoke_object_i-cases env cookie src_id s) [
        | inl e ↦ subst (λ r. IsConsistent r.0) (sym e) ok
        | inr (info, e, mine, eq) ↦
            subst (λ r. IsConsistent r.0) (sym eq)
              (IsConsistent-same (take_out cookie info s)
                (announce_revoke env info (take_out cookie info s)).0
                (announce_revoke-same env info (take_out cookie info s))
                (take_out-IsConsistent cookie info s e ok))
      ]

  pub revoke_all-cons :
      (env : Env) (c : ℕ) (cs : List ℕ) (s : Rot O M N)
      → let r = revoke_object_i env c 0 s in
        (revoke_all env (c ∷ cs) s ≡ revoke_all env cs r.0) ⊎ (revoke_all env (c ∷ cs) s ≡ r)
  unfolding revoke_all
  revoke_all-cons env c cs s = elim (Option-cases (revoke_object_i env c 0 s).1) [
    | inl e ↦ inl (rw (revoke_all, e) refl)
    | inr (t, e) ↦ inr (rw (revoke_all, e) refl)
  ]

  pub revoke_all-IsConsistent :
      (env : Env) (cookies : List ℕ) (s : Rot O M N)
      → IsConsistent s
      → IsConsistent (revoke_all env cookies s).0
  revoke_all-IsConsistent env [] s ok = unfold revoke_all in ok
  revoke_all-IsConsistent env (c ∷ cs) s ok =
      let first = revoke_object_i-IsConsistent env c 0 s ok in
      elim (revoke_all-cons env c cs s) [
        | inl e ↦
            subst (λ r. IsConsistent r.0) (sym e)
              (revoke_all-IsConsistent env cs (revoke_object_i env c 0 s).0 first)
        | inr e ↦ subst (λ r. IsConsistent r.0) (sym e) first
      ]
