-- ===== src/Rot/Taken.antt =====
-- The entry that the walk of GetObject stops at.
use oocore.Prelude.{
  ℕ, ◌≤◌, ◌≡◌, refl, sym, ◌∙◌, inl, inr, ◌⊎◌, Bool, true, false, not, Option, none, some, List, [],
  ◌∷◌, ◌==◌, ==_iff, Bool-cases, Option-cases, if◌then◌else◌, arith, bit_and,
}
use oocore.Registry.Tables.{Text}
use oocore.Registry.Values.{same_text_sound}
use oocore.Routing.Table.{has}
use oocore.Rot.Tables.{HandleTable, MultiTable}
use oocore.Rot.State.{Info, Env, Rot, returned, threw, Outcome-cases, single_use}
use oocore.Rot.Get.{as_interface, take_entry, search_entries}
use oocore.Rot.Loop.{count}
use oocore.Rot.Consistent.{places, IsConsistent}

pub count-has : (c : ℕ) (l : List ℕ) → has c l ≡ true → 1 ≤ count c l
unfolding has count
count-has c [] h = cc
count-has c (v ∷ vs) h = ground (arith, count-has c vs)

contradict : false ≡ true → ⊥
contradict e = cc

module _ {O : HandleTable Info} {M : MultiTable} {N : HandleTable ℕ} where
  open O use {find}

  -- An entry whose object is no longer alive
  abbrev pub is_dead : Env → Rot O M N → ℕ → Bool
  is_dead env s k = elim (find s.objects k) [
    | none ↦ false
    | some info ↦ not (env.alive s.log info.object)
  ]

  abbrev pub AllDead : Env → Rot O M N → List ℕ → Type 0
  AllDead env s l = (k : ℕ) → has k l ≡ true → is_dead env s k ≡ true

  is_dead-find :
      (env : Env) (s : Rot O M N) (c : ℕ) (info : Info)
      → find s.objects c ≡ some info
      → is_dead env s c ≡ not (env.alive s.log info.object)
  is_dead-find env s c info e = ground arith

  -- What the walk has found
  pub record Taken (env : Env) (s : Rot O M N) (flags iid : ℕ) (cookies : List ℕ) (p : ℕ)
      (l : List ℕ) : Type 0 where
    pub cookie : ℕ
    pub info : Info
    pub dead : List ℕ
    pub listed : has cookie cookies ≡ true
    pub there : find s.objects cookie ≡ some info
    pub visible : (bit_and info.flags flags == 0) ≡ false
    pub live : env.alive s.log info.object ≡ true
    pub given : as_interface env s iid info ≡ returned p
    pub revoked : l ≡ (if bit_and info.flags single_use == 0 then dead else cookie ∷ dead)
    pub all_dead : AllDead env s dead

  take_entry-returned :
      (env : Env) (s : Rot O M N) (iid c : ℕ) (info : Info) (acc : List ℕ) (p : ℕ) (l : List ℕ)
      → take_entry env s iid c info acc ≡ returned (some p, l)
      → (as_interface env s iid info ≡ returned p)
        × (l ≡ (if bit_and info.flags single_use == 0 then acc else c ∷ acc))
  unfolding take_entry
  take_entry-returned env s iid c info acc p l e =
      elim (Outcome-cases (as_interface env s iid info)) [
        | inr (t, a) ↦
            let stopped : take_entry env s iid c info acc ≡ threw t = rw (take_entry, a) refl in
            absurd (let both = sym stopped ∙ e in cc)
        | inl (q, a) ↦
            let went : take_entry env s iid c info acc
                ≡ returned (some q, if bit_and info.flags single_use == 0 then acc else c ∷ acc) =
              rw (take_entry, a) refl in
            let both = sym went ∙ e in (a ∙ cc, cc)
      ]

  Taken-cons :
      (env : Env) (s : Rot O M N) (flags iid c : ℕ) (cs : List ℕ) (p : ℕ) (l : List ℕ)
      → Taken env s flags iid cs p l
      → Taken env s flags iid (c ∷ cs) p l
  unfolding has
  Taken-cons env s flags iid c cs p l t = record {
    cookie = t.cookie;
    info = t.info;
    dead = t.dead;
    listed = let l = t.listed in ground arith;
    there = t.there;
    visible = t.visible;
    live = t.live;
    given = t.given;
    revoked = t.revoked;
    all_dead = t.all_dead;
  }

  AllDead-cons :
      (env : Env) (s : Rot O M N) (c : ℕ) (info : Info) (acc : List ℕ)
      → find s.objects c ≡ some info
      → env.alive s.log info.object ≡ false
      → AllDead env s acc
      → AllDead env s (c ∷ acc)
  unfolding has
  AllDead-cons env s c info acc e gone d k h = elim (Bool-cases (k == c)) [
    | inl hit ↦ rw ((==_iff k c).0 hit) (is_dead-find env s c info e ∙ rw gone refl)
    | inr other ↦ d k (ground arith)
  ]

  pub search_entries-Taken :
      (env : Env) (s : Rot O M N) (flags iid : ℕ) (cookies acc : List ℕ) (p : ℕ) (l : List ℕ)
      → AllDead env s acc
      → search_entries env s flags iid cookies acc ≡ returned (some p, l)
      → Taken env s flags iid cookies p l
  unfolding search_entries has
  search_entries-Taken env s flags iid [] acc p l d e = absurd (cc)
  search_entries-Taken env s flags iid (c ∷ cs) acc p l d e =
      let on =
        λ (acc' : List ℕ) (d' : AllDead env s acc')
            (e' : search_entries env s flags iid cs acc' ≡ returned (some p, l)).
          Taken-cons env s flags iid c cs p l
            (search_entries-Taken env s flags iid cs acc' p l d' e') in
      elim (Option-cases (find s.objects c)) [
        | inl missing ↦ on acc d (rw (search_entries, missing) at e)
        | inr (info, there) ↦ elim (Bool-cases (bit_and info.flags flags == 0)) [
          | inl hidden ↦ on acc d (rw (search_entries, there, hidden) at e)
          | inr visible ↦ elim (Bool-cases (env.alive s.log info.object)) [
            | inr gone ↦
                on (c ∷ acc) (AllDead-cons env s c info acc there gone d)
                  (rw (search_entries, there, visible, gone) at e)
            | inl live ↦
                let (given, revoked) =
                  take_entry-returned env s iid c info acc p l
                    (rw (search_entries, there, visible, live) at e) in
                record {
                  cookie = c;
                  info = info;
                  dead = acc;
                  listed = ground arith;
                  there = there;
                  visible = visible;
                  live = live;
                  given = given;
                  revoked = revoked;
                  all_dead = d;
                }
          ]
        ]
      ]

  pub AllDead-nil : (env : Env) (s : Rot O M N) → AllDead env s []
  unfolding has
  AllDead-nil env s k h = absurd (cc)

  -- The entry that is handed out is not among the dead.
  Taken-live :
      (env : Env) (s : Rot O M N) (flags iid : ℕ) (cs : List ℕ) (p : ℕ) (l : List ℕ)
      (t : Taken env s flags iid cs p l)
      → has t.cookie t.dead ≡ false
  Taken-live env s flags iid cs p l t = elim (Bool-cases (has t.cookie t.dead)) [
    | inr no_dead ↦ no_dead
    | inl is ↦
        let gone : is_dead env s t.cookie ≡ true = t.all_dead t.cookie is in
        let here : is_dead env s t.cookie ≡ false =
          is_dead-find env s t.cookie t.info t.there ∙ rw (t.live) refl in
        absurd (contradict (sym here ∙ gone))
  ]

  pub Taken-used :
      (env : Env) (s : Rot O M N) (flags iid : ℕ) (cs : List ℕ) (p : ℕ) (l : List ℕ)
      (t : Taken env s flags iid cs p l)
      → (if has t.cookie l then none else find s.objects t.cookie)
        ≡ (if bit_and t.info.flags single_use == 0 then some t.info else none)
  unfolding has
  Taken-used env s flags iid cs p l t =
      rw (t.there, t.revoked) (ground (arith, Taken-live env s flags iid cs p l t))

  pub Taken-others :
      (env : Env) (s : Rot O M N) (flags iid : ℕ) (cs : List ℕ) (p : ℕ) (l : List ℕ)
      (t : Taken env s flags iid cs p l) (k : ℕ) (now : Option Info)
      → now ≡ (if has k l then none else find s.objects k)
      → (now ≡ find s.objects k) ⊎ (is_dead env s k ≡ true) ⊎ (k ≡ t.cookie)
  unfolding has
  Taken-others env s flags iid cs p l t k now e = elim (Bool-cases (has k t.dead)) [
    | inl dead ↦ inr (inl (t.all_dead k dead))
    | inr no_dead ↦ elim (Bool-cases (k == t.cookie)) [
      | inl hit ↦ inr (inr ((==_iff k t.cookie).0 hit))
      | inr other ↦
          let kept : has k l ≡ false = rw (t.revoked) (ground (arith, no_dead, other)) in
          inl (e ∙ rw kept refl)
    ]
  ]

  pub Taken-named :
      (env : Env) (s : Rot O M N) (flags iid : ℕ) (oid : Text) (p : ℕ) (l : List ℕ)
      → IsConsistent s
      → (t : Taken env s flags iid (MultiTable.values M s.by_oid oid) p l) → t.info.oid ≡ oid
  Taken-named env s flags iid oid p l ok t =
      let listed = count-has t.cookie (MultiTable.values M s.by_oid oid) t.listed in
      let once : count t.cookie (MultiTable.values M s.by_oid oid) ≡ places oid (some t.info) =
        ok oid t.cookie ∙ rw (t.there) refl in
      same_text_sound t.info.oid oid (ground (arith, listed, once))
