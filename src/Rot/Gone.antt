-- ===== src/Rot/Gone.antt =====
-- Which objects a revocation takes out of the table.
use oocore.Prelude.{
  ℕ, ◌≡◌, refl, sym, ap, ◌∙◌, inl, inr, Bool, true, ◌&&◌, ◌||◌, Option, none, some, List, [], ◌∷◌,
  ◌==◌, ==_iff, Bool-cases, Option-cases, if◌then◌else◌, arith,
}
use oocore.Routing.Table.{has}
use oocore.Rot.Tables.{HandleTable, MultiTable}
use oocore.Rot.State.{Info, Env, CallContext, Rot}
use oocore.Rot.Revoke.{
  source_of, take_out, announce_revoke, revoke_object_i, revoke_object, revoke_all,
}
use oocore.Rot.Revoked.{announce_revoke-same, revoke_object_i-cases, revoke_all-cons}

-- Whether an entry may be revoked by a source; 0 is the table itself
abbrev pub is_owner : ℕ → Option Info → Bool
is_owner src_id none = true
is_owner src_id (some info) = (src_id == 0) || (info.source == src_id)

module _ {O : HandleTable Info} {M : MultiTable} {N : HandleTable ℕ} where
  open O use {find, find-remove}

  take_out-find :
      (env : Env) (cookie : ℕ) (info : Info) (s : Rot O M N) (c : ℕ)
      → find (announce_revoke env info (take_out cookie info s)).0.objects c
        ≡ (if cookie == c then none else find s.objects c)
  unfolding take_out
  take_out-find env cookie info s c =
      rw ((announce_revoke-same env info (take_out cookie info s)).same_objects)
        (find-remove s.objects cookie c)

  pub revoke_object_i-find :
      (env : Env) (cookie src_id : ℕ) (s : Rot O M N) (c : ℕ)
      → find (revoke_object_i env cookie src_id s).0.objects c ≡ (
          if (cookie == c) && is_owner src_id (find s.objects cookie)
          then none
          else find s.objects c)
  unfolding revoke_object_i
  revoke_object_i-find env cookie src_id s c = elim (Option-cases (find s.objects cookie)) [
    | inl e ↦
        let nothing : revoke_object_i env cookie src_id s ≡ (s, none) =
          rw (revoke_object_i, e) refl in
        rw (nothing, e) (ground (arith, ==_iff cookie c, e))
    | inr (info, e) ↦ elim (Bool-cases ((src_id == 0) || (info.source == src_id))) [
      | inl mine ↦
          let gone : revoke_object_i env cookie src_id s
              ≡ announce_revoke env info (take_out cookie info s) =
            rw (revoke_object_i, e, mine) refl in
          rw (gone, e, mine) (take_out-find env cookie info s c ∙ ground arith)
      | inr other ↦
          let nothing : revoke_object_i env cookie src_id s ≡ (s, none) =
            rw (revoke_object_i, e, other) refl in
          rw (nothing, e, other) (ground arith)
    ]
  ]

  -- revoke_object takes out the object of the cookie if the caller is its source or has no source
  -- id, and leaves every other object.
  revoke_object-find :
      (env : Env) (context : Option CallContext) (cookie : ℕ) (s : Rot O M N) (c : ℕ)
      → find (revoke_object env context cookie s).0.objects c ≡ (
          if (cookie == c) && is_owner (source_of context) (find s.objects cookie)
          then none
          else find s.objects c)
  unfolding revoke_object
  revoke_object-find env context cookie s c =
      revoke_object_i-find env cookie (source_of context) s c

  revoke_own-find :
      (env : Env) (cookie : ℕ) (s : Rot O M N) (c : ℕ)
      → find (revoke_object_i env cookie 0 s).0.objects c
        ≡ (if cookie == c then none else find s.objects c)
  revoke_own-find env cookie s c =
      revoke_object_i-find env cookie 0 s c ∙ elim (Option-cases (find s.objects cookie)) [
        | inl e ↦ rw e (ground arith)
        | inr (info, e) ↦ rw e (ground arith)
      ]

  revoke_all-next :
      (env : Env) (k : ℕ) (ks : List ℕ) (s : Rot O M N)
      → (revoke_all env (k ∷ ks) s).1 ≡ none
      → revoke_all env (k ∷ ks) s ≡ revoke_all env ks (revoke_object_i env k 0 s).0
  unfolding revoke_all
  revoke_all-next env k ks s e = elim (Option-cases (revoke_object_i env k 0 s).1) [
    | inl r ↦ rw (revoke_all, r) refl
    | inr (t, r) ↦
        let stopped : (revoke_all env (k ∷ ks) s).1 ≡ some t = rw (revoke_all, r) refl in
        absurd (let both = sym stopped ∙ e in cc)
  ]

  -- A list of cookies that is revoked to its end
  pub revoke_all-find :
      (env : Env) (cookies : List ℕ) (s : Rot O M N) (c : ℕ)
      → (revoke_all env cookies s).1 ≡ none
      → find (revoke_all env cookies s).0.objects c
        ≡ (if has c cookies then none else find s.objects c)
  unfolding revoke_all has
  revoke_all-find env [] s c e = refl
  revoke_all-find env (k ∷ ks) s c e =
      let next = revoke_all-next env k ks s e in
      let rest : (revoke_all env ks (revoke_object_i env k 0 s).0).1 ≡ none =
        ap (λ r. r.1) (sym next) ∙ e in
      ap (λ r. find r.0.objects c) next
      ∙ revoke_all-find env ks (revoke_object_i env k 0 s).0 c rest
      ∙ rw (revoke_own-find env k s c) (ground (arith, ==_iff k c, ==_iff c k))

  revoke_object_i-has_rot :
      (env : Env) (cookie src_id : ℕ) (s : Rot O M N)
      → (revoke_object_i env cookie src_id s).0.has_rot ≡ s.has_rot
  unfolding take_out
  revoke_object_i-has_rot env cookie src_id s = elim (revoke_object_i-cases env cookie src_id s) [
    | inl e ↦ rw e refl
    | inr (info, there, mine, e) ↦
        ap (λ r. r.0.has_rot) e ∙ (announce_revoke-same env info (take_out cookie info s)).same_rot
  ]

  pub revoke_all-has_rot :
      (env : Env) (cookies : List ℕ) (s : Rot O M N)
      → (revoke_all env cookies s).0.has_rot ≡ s.has_rot
  unfolding revoke_all
  revoke_all-has_rot env [] s = refl
  revoke_all-has_rot env (k ∷ ks) s =
      let first = revoke_object_i-has_rot env k 0 s in
      elim (revoke_all-cons env k ks s) [
        | inl e ↦
            ap (λ r. r.0.has_rot) e
            ∙ revoke_all-has_rot env ks (revoke_object_i env k 0 s).0
            ∙ first
        | inr e ↦ ap (λ r. r.0.has_rot) e ∙ first
      ]
