-- ===== src/Rot/Registered.antt =====
-- What a registration leaves in the table, and that GetObject finds it.
use oocore.Prelude.{
  ℕ, ◌≡◌, ◌≢◌, refl, sym, ap, subst, ◌∙◌, inl, inr, ◌⊎◌, true, false, Option, none, some, List, [],
  ◌∷◌, ◌==◌, ==_iff, Bool-cases, Option-cases, if◌then◌else◌, arith,
}
use oocore.Registry.Tables.{Text}
use oocore.Routing.Table.{has}
use oocore.Rot.Tables.{HandleTable, MultiTable}
use oocore.Rot.State.{
  Info, Env, CallContext, Rot, Thrown, returned, threw, already_exists, out_of_memory,
}
use oocore.Rot.Notify.{on_register_object}
use oocore.Rot.Revoke.{revoke_all}
use oocore.Rot.Register.{
  Look, missing, dead, conflict, allowed, clear, look, check, insert_info, give_up,
  finish_registration, enter_object, make_info, register_object,
}
use oocore.Rot.Consistent.{SameTables, on_register_object-same}
use oocore.Rot.Inserted.{Inserted, insert_info-Inserted}
use oocore.Rot.Kept.{
  register_object-cases, Check-cases, enter_object-refused, enter_object-full,
  enter_object-finish_registration,
}
use oocore.Rot.Gone.{revoke_all-find}

pub Look-cases : (r : Look) → (r ≡ missing) ⊎ (r ≡ dead) ⊎ (r ≡ conflict) ⊎ (r ≡ allowed)
Look-cases missing = inl refl
Look-cases dead = inr (inl refl)
Look-cases conflict = inr (inr (inl refl))
Look-cases allowed = inr (inr (inr refl))

module _ {O : HandleTable Info} {M : MultiTable} {N : HandleTable ℕ} where
  open O use {find}

  -- The cookies that the walk of RegisterObject collects have an entry.
  abbrev AllThere : Rot O M N → List ℕ → Type 0
  AllThere s l = (k : ℕ) → has k l ≡ true → find s.objects k ≢ none

  look-dead :
      (env : Env) (s : Rot O M N) (flags c : ℕ)
      → look env s flags c ≡ dead
      → find s.objects c ≢ none
  unfolding look
  look-dead env s flags c e absent =
      let unseen : look env s flags c ≡ missing = rw (look, absent) refl in
      let both = sym unseen ∙ e in cc

  AllThere-cons :
      (s : Rot O M N) (c : ℕ) (acc : List ℕ)
      → find s.objects c ≢ none
      → AllThere s acc
      → AllThere s (c ∷ acc)
  unfolding has
  AllThere-cons s c acc new d k h = elim (Bool-cases (k == c)) [
    | inl hit ↦ rw ((==_iff k c).0 hit) new
    | inr other ↦ d k (ground arith)
  ]

  check-AllThere :
      (env : Env) (s : Rot O M N) (flags : ℕ) (cs acc l : List ℕ)
      → AllThere s acc
      → check env s flags cs acc ≡ clear l
      → AllThere s l
  unfolding check
  check-AllThere env s flags [] acc l d e = subst (λ x. AllThere s x) (cc) d
  check-AllThere env s flags (c ∷ cs) acc l d e = elim (Look-cases (look env s flags c)) [
    | inl r ↦ check-AllThere env s flags cs acc l d (rw (check, r) at e)
    | inr (inl r) ↦
        check-AllThere env s flags cs (c ∷ acc) l
          (AllThere-cons s c acc (look-dead env s flags c r) d) (rw (check, r) at e)
    | inr (inr (inl r)) ↦ let stopped = rw (check, r) at e in absurd (cc)
    | inr (inr (inr r)) ↦ check-AllThere env s flags cs acc l d (rw (check, r) at e)
  ]

  give_up-threw :
      (env : Env) (rot_cookie : ℕ) (t : Thrown) (s s' : Rot O M N) (k : ℕ)
      → give_up env rot_cookie t s ≢ (s', returned k)
  unfolding give_up
  give_up-threw env rot_cookie t s s' k e = ground arith

  -- What a successful registration has done
  pub record Registered (info : Info) (s s' : Rot O M N) (cookie : ℕ) : Type 0 where
    pub was_free : find s.objects cookie ≡ none
    pub there : find s'.objects cookie ≡ some info
    pub others :
        (k : ℕ) → (find s'.objects k ≡ find s.objects k) ⊎ (find s'.objects k ≡ none) ⊎ (k ≡ cookie)

  AllThere-nil : (s : Rot O M N) → AllThere s []
  unfolding has
  AllThere-nil s k h = absurd (cc)

  told-objects :
      (env : Env) (info : Info) (s : Rot O M N)
      → (if info.rot_cookie == 0 then on_register_object env info.oid info.flags s else s).objects
        ≡ s.objects
  told-objects env info s =
      let same = (on_register_object-same env info.oid info.flags s).same_objects in ground arith

  finish_registration-returned :
      (env : Env) (info : Info) (c cookie : ℕ) (l : List ℕ) (s s' : Rot O M N)
      → finish_registration env info c l s ≡ (s', returned cookie)
      → ((revoke_all env l s).1 ≡ none)
        × (c ≡ cookie)
        × (s'.objects ≡ (revoke_all env l s).0.objects)
  unfolding finish_registration
  finish_registration-returned env info c cookie l s s' e =
      elim (Option-cases (revoke_all env l s).1) [
        | inr (t, r) ↦
            let stopped : finish_registration env info c l s ≡ ((revoke_all env l s).0, threw t) =
              rw (finish_registration, r) refl in
            absurd (let both = sym stopped ∙ e in cc)
        | inl r ↦
            let told =
              if info.rot_cookie == 0
              then on_register_object env info.oid info.flags (revoke_all env l s).0
              else (revoke_all env l s).0 in
            let went : finish_registration env info c l s ≡ (told, returned c) =
              rw (finish_registration, r) refl in
            let both = sym went ∙ e in
            let last : s' ≡ told = cc in
            (r, cc, ap (λ x. x.objects) last ∙ told-objects env info (revoke_all env l s).0)
      ]

  not_known :
      (s : Rot O M N) (c : ℕ) (l : List ℕ)
      → find s.objects c ≡ none
      → AllThere s l
      → has c l ≡ false
  not_known s c l free known = elim (Bool-cases (has c l)) [
    | inr no_more ↦ no_more
    | inl is ↦ absurd (known c is free)
  ]

  settled :
      (s : Rot O M N) (c k : ℕ) (l : List ℕ) (info : Info) (now : Option Info)
      → now ≡ (if has k l then none else if c == k then some info else find s.objects k)
      → (now ≡ find s.objects k) ⊎ (now ≡ none) ⊎ (k ≡ c)
  settled s c k l info now e = elim (Bool-cases (has k l)) [
    | inl gone ↦ inr (inl (e ∙ rw gone refl))
    | inr kept ↦ elim (Bool-cases (c == k)) [
      | inl hit ↦ inr (inr (sym ((==_iff c k).0 hit)))
      | inr other ↦ inl (e ∙ rw (kept, other) refl)
    ]
  ]

  finish_registration-Registered :
      (env : Env) (info : Info) (s s1 s' : Rot O M N) (c cookie : ℕ) (l : List ℕ)
      → Inserted info s s1 c
      → AllThere s l
      → finish_registration env info c l s1 ≡ (s', returned cookie)
      → Registered info s s' cookie
  finish_registration-Registered env info s s1 s' c cookie l new known e =
      let (done, same, there) = finish_registration-returned env info c cookie l s1 s' e in
      let now = λ (k : ℕ). ap (λ t. find t k) there ∙ revoke_all-find env l s1 k done in
      subst (λ x. Registered info s s' x) same
        (record {
          was_free = new.was_free;
          there = now c ∙ rw (not_known s c l new.was_free known, new.now c) (ground arith);
          others = λ k. settled s c k l info (find s'.objects k) (now k ∙ rw (new.now k) refl);
        })

  enter_object-Registered :
      (env : Env) (info : Info) (s s' : Rot O M N) (cookie : ℕ)
      → enter_object env info s ≡ (s', returned cookie)
      → Registered info s s' cookie
  enter_object-Registered env info s s' cookie e =
      elim (Check-cases (check env s info.flags (MultiTable.values M s.by_oid info.oid) [])) [
        | inl r ↦ absurd (
            give_up-threw env info.rot_cookie already_exists s s' cookie
              (sym (enter_object-refused env info s r) ∙ e))
        | inr (l, r) ↦ elim (Option-cases (insert_info info s)) [
          | inl full ↦ absurd (
              give_up-threw env info.rot_cookie out_of_memory s s' cookie
                (sym (enter_object-full env info s l r full) ∙ e))
          | inr ((s1, c), new) ↦
              finish_registration-Registered env info s s1 s' c cookie l
                (insert_info-Inserted info s s1 c new)
                (check-AllThere env s info.flags _ [] l (AllThere-nil s) r)
                (sym (enter_object-finish_registration env info s s1 l c r new) ∙ e)
        ]
      ]

  Registered-same :
      (info : Info) (s s1 s' : Rot O M N) (cookie : ℕ)
      → SameTables s s1
      → Registered info s1 s' cookie
      → Registered info s s' cookie
  Registered-same info s s1 s' cookie same r = record {
    was_free = ap (λ t. find t cookie) (sym same.same_objects) ∙ r.was_free;
    there = r.there;
    others = λ k.
        subst (λ t. (find s'.objects k ≡ find t k) ⊎ (find s'.objects k ≡ none) ⊎ (k ≡ cookie))
          same.same_objects (r.others k);
  }

  -- A cookie that register_object returns was free; now it has the object, its OID, flags and
  -- source, and every other entry is as before or has been revoked.
  pub register_object-Registered :
      (env : Env) (context : Option CallContext) (oid : Text) (object flags : ℕ) (s s' : Rot O M N)
      (cookie : ℕ)
      → register_object env context oid (some object) flags s ≡ (s', returned cookie)
      → (k : ℕ) × Registered (make_info context oid object flags k) s s' cookie
  register_object-Registered env context oid object flags s s' cookie e =
      elim (register_object-cases env context oid object flags s) [
        | inl (same, t, r) ↦ absurd (let both = sym r ∙ ap (λ x. x.1) e in cc)
        | inr (s1, k, same, r) ↦ (
          k,
          Registered-same (make_info context oid object flags k) s s1 s' cookie same (
              enter_object-Registered env (make_info context oid object flags k) s1 s' cookie
                (sym r ∙ e)),
        )
      ]
