-- ===== src/Rot/Regained.antt =====
-- GetObject hands out an object where one is registered and alive.
use oocore.Prelude.{
  ℕ, ◌≤◌, ◌≡◌, ◌≢◌, refl, sym, ap, ◌∙◌, inl, inr, true, false, Option, none, some, List, [], ◌∷◌,
  ◌==◌, ==_iff, Bool-cases, Option-cases, if◌then◌else◌, arith, bit_and,
}
use oocore.Registry.Tables.{Text}
use oocore.Registry.Values.{same_text_refl}
use oocore.Routing.Table.{has}
use oocore.Rot.Tables.{HandleTable, MultiTable}
use oocore.Rot.State.{Info, Call, Env, CallContext, Rot, returned, single_use}
use oocore.Rot.Revoke.{revoke_object_i, announce_revoke, take_out, revoke_all}
use oocore.Rot.Get.{
  as_interface, take_entry, search_entries, search_flags, route_on, hand_out, get_object,
}
use oocore.Rot.Loop.{count}
use oocore.Rot.Consistent.{IsConsistent}
use oocore.Rot.Revoked.{revoke_object_i-cases}
use oocore.Rot.Kept.{get_object-hand_out}

-- The global table throws at no revocation.
abbrev pub Quiet : Env → Type 0
Quiet env = (log : List Call) (k : ℕ) → env.rot_revoke log k ≡ none

has-count : (c : ℕ) (l : List ℕ) → 1 ≤ count c l → has c l ≡ true
unfolding has count
has-count c [] h = absurd (omega arith)
has-count c (v ∷ vs) h = ground (arith, has-count c vs)

pub passed : (c d : ℕ) (ds : List ℕ) → has c (d ∷ ds) ≡ true → c ≢ d → has c ds ≡ true
unfolding has
passed c d ds h n = elim (Bool-cases (c == d)) [
  | inl hit ↦ absurd (n ((==_iff c d).0 hit))
  | inr other ↦ ground arith
]

module _ {O : HandleTable Info} {M : MultiTable} {N : HandleTable ℕ} where
  open O use {find}

  announce_revoke-returns :
      (env : Env) (info : Info) (s : Rot O M N) → Quiet env → (announce_revoke env info s).1 ≡ none
  unfolding announce_revoke
  announce_revoke-returns env info s q = let h = q s.log info.rot_cookie in ground arith

  revoke_all-returns :
      (env : Env) (l : List ℕ) (s : Rot O M N) → Quiet env → (revoke_all env l s).1 ≡ none
  unfolding revoke_all
  revoke_all-returns env [] s q = refl
  revoke_all-returns env (c ∷ cs) s q =
      let done : (revoke_object_i env c 0 s).1 ≡ none = elim (revoke_object_i-cases env c 0 s) [
        | inl e ↦ rw e refl
        | inr (info, there, mine, e) ↦
            ap (λ r. r.1) e ∙ announce_revoke-returns env info (take_out c info s) q
      ] in
      rw (revoke_all, done) (revoke_all-returns env cs (revoke_object_i env c 0 s).0 q)

  -- An entry that the walk does not pass by
  pub record Ready (env : Env) (s : Rot O M N) (flags c : ℕ) : Type 0 where
    pub info : Info
    pub there : find s.objects c ≡ some info
    pub visible : (bit_and info.flags flags == 0) ≡ false
    pub live : env.alive s.log info.object ≡ true

  take_entry-object :
      (env : Env) (s : Rot O M N) (c : ℕ) (info : Info) (acc : List ℕ)
      → (l : List ℕ) × (take_entry env s env.object_iid c info acc ≡ returned (some info.object, l))
  unfolding take_entry as_interface
  take_entry-object env s c info acc =
      (if bit_and info.flags single_use == 0 then acc else c ∷ acc, ground arith)

  same_info :
      (s : Rot O M N) (c d : ℕ) (info info' : Info)
      → c ≡ d
      → find s.objects c ≡ some info
      → find s.objects d ≡ some info'
      → info ≡ info'
  same_info s c d info info' same e e' =
      let both : some info ≡ some info' = sym e ∙ ap (λ k. find s.objects k) same ∙ e' in cc

  absent_not :
      (s : Rot O M N) (c d : ℕ) (info : Info)
      → c ≡ d
      → find s.objects c ≡ some info
      → find s.objects d ≢ none
  absent_not s c d info same e e' =
      let both : some info ≡ none = sym e ∙ ap (λ k. find s.objects k) same ∙ e' in cc

  Ready-visible :
      (env : Env) (s : Rot O M N) (flags c d : ℕ) (info : Info)
      → Ready env s flags c
      → c ≡ d
      → find s.objects d ≡ some info
      → (bit_and info.flags flags == 0) ≢ true
  Ready-visible env s flags c d info r same e hidden =
      let i = same_info s c d r.info info same r.there e in
      let both : false ≡ true =
        sym r.visible ∙ ap (λ (x : Info). bit_and x.flags flags == 0) i ∙ hidden in
      cc

  Ready-live :
      (env : Env) (s : Rot O M N) (flags c d : ℕ) (info : Info)
      → Ready env s flags c
      → c ≡ d
      → find s.objects d ≡ some info
      → env.alive s.log info.object ≢ false
  Ready-live env s flags c d info r same e gone =
      let i = same_info s c d r.info info same r.there e in
      let both : true ≡ false = sym r.live ∙ ap (λ (x : Info). env.alive s.log x.object) i ∙ gone in
      cc

  search_entries-finds :
      (env : Env) (s : Rot O M N) (flags c : ℕ) (cs acc : List ℕ)
      → has c cs ≡ true
      → Ready env s flags c
      → (p : ℕ) × (l : List ℕ) × (search_entries env s flags env.object_iid cs acc
          ≡ returned (some p, l))
  unfolding search_entries has
  search_entries-finds env s flags c [] acc h r = absurd (cc)
  search_entries-finds env s flags c (d ∷ ds) acc h r = elim (Option-cases (find s.objects d)) [
    | inl absent ↦
        rw (search_entries, absent)
          (search_entries-finds env s flags c ds acc
            (passed c d ds h (λ same. absent_not s c d r.info same r.there absent)) r)
    | inr (info, there) ↦ elim (Bool-cases (bit_and info.flags flags == 0)) [
      | inl hidden ↦
          rw (search_entries, there, hidden)
            (search_entries-finds env s flags c ds acc
              (passed c d ds h (λ same. Ready-visible env s flags c d info r same there hidden)) r)
      | inr visible ↦ elim (Bool-cases (env.alive s.log info.object)) [
        | inr gone ↦
            rw (search_entries, there, visible, gone)
              (search_entries-finds env s flags c ds (d ∷ acc)
                (passed c d ds h (λ same. Ready-live env s flags c d info r same there gone)) r)
        | inl live ↦
            let (l, e) = take_entry-object env s d info acc in
            (info.object, l, rw (search_entries, there, visible, live) e)
      ]
    ]
  ]

  hand_out-returns :
      (env : Env) (oid : Text) (iid p : ℕ) (l : List ℕ) (s : Rot O M N)
      → Quiet env
      → hand_out env oid iid (some p) l s ≡ ((revoke_all env l s).0, returned (some p))
  unfolding hand_out route_on
  hand_out-returns env oid iid p l s q = rw (hand_out, revoke_all-returns env l s q) refl

  -- Where the tables agree and no revocation throws, get_object for IObject hands out an object
  -- whenever an entry with the OID has a flag that is searched and a live object.
  pub get_object-finds :
      (env : Env) (context : Option CallContext) (oid : Text) (c : ℕ) (s : Rot O M N)
      → IsConsistent s
      → Quiet env
      → (r : Ready env s (search_flags context s.has_rot) c) → r.info.oid ≡ oid
      → (s' : Rot O M N) × (p : ℕ) × (get_object env context oid env.object_iid s
          ≡ (s', returned (some p)))
  get_object-finds env context oid c s ok q r named =
      let once : count c (MultiTable.values M s.by_oid oid) ≡ 1 =
        ok oid c ∙ rw (r.there, named, same_text_refl oid) refl in
      let (p, l, e) =
        search_entries-finds env s (search_flags context s.has_rot) c
          (MultiTable.values M s.by_oid oid) []
          (has-count c (MultiTable.values M s.by_oid oid) (omega (arith, once))) r in
      (
        (revoke_all env l s).0,
        p,
        get_object-hand_out env context oid env.object_iid s (some p) l e
            ∙ hand_out-returns env oid env.object_iid p l s q,
      )
