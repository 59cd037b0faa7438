-- ===== src/Rot/Found.antt =====
-- Which object GetObject hands out, and which entries it takes away.
use oocore.Prelude.{
  ℕ, ◌≡◌, refl, sym, ap, ◌∙◌, inl, inr, ◌⊎◌, true, false, Option, none, some, List, [], ◌==◌,
  Option-cases, if◌then◌else◌, arith, bit_and,
}
use oocore.Registry.Tables.{Text}
use oocore.Rot.Tables.{HandleTable, MultiTable}
use oocore.Rot.State.{Info, Env, CallContext, Rot, returned, threw, Outcome-cases, single_use}
use oocore.Rot.Revoke.{revoke_all}
use oocore.Rot.Get.{as_interface, search_entries, search_flags, route_on, hand_out, get_object}
use oocore.Rot.Consistent.{IsConsistent}
use oocore.Rot.Kept.{get_object-threw, get_object-hand_out}
use oocore.Rot.Gone.{revoke_all-find, revoke_all-has_rot}
use oocore.Rot.Taken.{
  is_dead, AllDead-nil, search_entries-Taken, Taken-used, Taken-others, Taken-named,
}

module _ {O : HandleTable Info} {M : MultiTable} {N : HandleTable ℕ} where
  open O use {find}

  route_on-some :
      (env : Env) (oid : Text) (iid : ℕ) (found : Option ℕ) (s s' : Rot O M N) (p : ℕ)
      → s.has_rot ≡ false
      → route_on env oid iid found s ≡ (s', returned (some p))
      → (found ≡ some p) × (s' ≡ s)
  unfolding route_on
  route_on-some env oid iid (some q) s s' p local e = (cc, cc)
  route_on-some env oid iid none s s' p local e = ground arith

  hand_out-some :
      (env : Env) (oid : Text) (iid : ℕ) (found : Option ℕ) (l : List ℕ) (s s' : Rot O M N) (p : ℕ)
      → s.has_rot ≡ false
      → hand_out env oid iid found l s ≡ (s', returned (some p))
      → (found ≡ some p) × ((revoke_all env l s).1 ≡ none) × (s' ≡ (revoke_all env l s).0)
  unfolding hand_out
  hand_out-some env oid iid found l s s' p local e = elim (Option-cases (revoke_all env l s).1) [
    | inr (t, r) ↦
        let stopped : hand_out env oid iid found l s ≡ ((revoke_all env l s).0, threw t) =
          rw (hand_out, r) refl in
        absurd (let both = sym stopped ∙ e in cc)
    | inl r ↦
        let went : hand_out env oid iid found l s
            ≡ route_on env oid iid found (revoke_all env l s).0 =
          rw (hand_out, r) refl in
        let (f, same) =
          route_on-some env oid iid found (revoke_all env l s).0 s' p
            (revoke_all-has_rot env l s ∙ local) (sym went ∙ e) in
        (f, r, same)
  ]

  -- How GetObject comes by an object where there is no global table
  get_object-search :
      (env : Env) (context : Option CallContext) (oid : Text) (iid : ℕ) (s s' : Rot O M N) (p : ℕ)
      → s.has_rot ≡ false
      → get_object env context oid iid s ≡ (s', returned (some p))
      → (l : List ℕ) × (search_entries env s
            (search_flags context s.has_rot)
            iid
            (MultiTable.values M s.by_oid oid)
            []
          ≡ returned (some p, l))
        × ((revoke_all env l s).1 ≡ none)
        × (s' ≡ (revoke_all env l s).0)
  get_object-search env context oid iid s s' p local e =
      elim (Outcome-cases (
        search_entries env s (search_flags context s.has_rot) iid (MultiTable.values M s.by_oid oid)
          [])) [
            | inr (t, f) ↦
                absurd (let both = sym (get_object-threw env context oid iid s t f) ∙ e in cc)
            | inl ((found, l), f) ↦
                let (same, done, there) =
                  hand_out-some env oid iid found l s s' p local
                    (sym (get_object-hand_out env context oid iid s found l f) ∙ e) in
                (l, f ∙ rw same refl, done, there)
          ]

  -- What an object handed out is
  pub record Handed (env : Env) (context : Option CallContext) (oid : Text) (iid : ℕ)
      (s s' : Rot O M N) (p : ℕ) : Type 0 where
    pub cookie : ℕ
    pub info : Info
    pub there : find s.objects cookie ≡ some info
    pub named : info.oid ≡ oid
    pub visible : (bit_and info.flags (search_flags context s.has_rot) == 0) ≡ false
    pub live : env.alive s.log info.object ≡ true
    pub given : as_interface env s iid info ≡ returned p
    pub used :
        find s'.objects cookie ≡ (if bit_and info.flags single_use == 0 then some info else none)
    pub others :
        (k : ℕ) → (find s'.objects k ≡ find s.objects k) ⊎ (is_dead env s k ≡ true) ⊎ (k ≡ cookie)

  -- Where the tables agree and there is no global table, an object that get_object hands out comes
  -- from an entry with the OID, alive, with a flag that is searched, and as the interface that was
  -- asked for; that entry is gone afterwards if it was for single use and stays if not, and no
  -- other entry changes but those whose object is dead.
  pub get_object-Handed :
      (env : Env) (context : Option CallContext) (oid : Text) (iid : ℕ) (s s' : Rot O M N) (p : ℕ)
      → IsConsistent s
      → s.has_rot ≡ false
      → get_object env context oid iid s ≡ (s', returned (some p))
      → Handed env context oid iid s s' p
  get_object-Handed env context oid iid s s' p ok local e =
      let (l, f, done, there) = get_object-search env context oid iid s s' p local e in
      let t =
        search_entries-Taken env s (search_flags context s.has_rot) iid
          (MultiTable.values M s.by_oid oid) [] p l (AllDead-nil env s) f in
      record {
        cookie = t.cookie;
        info = t.info;
        there = t.there;
        named = Taken-named env s (search_flags context s.has_rot) iid oid p l ok t;
        visible = t.visible;
        live = t.live;
        given = t.given;
        used =
            ap (λ r. find r.objects t.cookie) there
            ∙ revoke_all-find env l s t.cookie done
            ∙ Taken-used env s (search_flags context s.has_rot) iid _ p l t;
        others = λ k.
            Taken-others env s (search_flags context s.has_rot) iid _ p l t k (find s'.objects k)
              (ap (λ r. find r.objects k) there ∙ revoke_all-find env l s k done);
      }
