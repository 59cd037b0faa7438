-- ===== src/Rot/Inserted.antt =====
-- What insert_info leaves in the two tables where it succeeds.
use oocore.Prelude.{
  ℕ, ◌≤◌, ◌≡◌, refl, sym, subst, ◌∙◌, inl, inr, none, some, ◌==◌, ==_iff, Option-cases,
  if◌then◌else◌, arith,
}
use oocore.Registry.Tables.{Text, same_text}
use oocore.Rot.Tables.{HandleTable, MultiTable, insert_at}
use oocore.Rot.State.{Info, Rot}
use oocore.Rot.Register.{insert_info}
use oocore.Rot.Loop.{count, count-insert_at}
use oocore.Rot.Consistent.{IsConsistent}

module _ {O : HandleTable Info} {M : MultiTable} {N : HandleTable ℕ} where
  open O use {find, insert, insert-free, find-insert}
  open M use {values, values-insert}

  some-inj : {a b : Rot O M N × ℕ} → some a ≡ some b → a ≡ b
  some-inj e = cc

  -- What insert_info has done where it succeeds
  pub record Inserted (info : Info) (s s' : Rot O M N) (cookie : ℕ) : Type 0 where
    pub was_free : find s.objects cookie ≡ none
    pub low : 1 ≤ cookie
    pub high : cookie ≤ 0xFFFFFFFF
    pub place : ℕ
    pub now : (c : ℕ) → find s'.objects c ≡ (if cookie == c then some info else find s.objects c)
    pub placed :
        (oid : Text)
        → values s'.by_oid oid ≡ (
            if same_text info.oid oid
            then insert_at place cookie (values s.by_oid oid)
            else values s.by_oid oid)
    pub same_log : s'.log ≡ s.log
    pub same_rot : s'.has_rot ≡ s.has_rot
    pub same_notify : s'.notify ≡ s.notify

  pub insert_info-Inserted :
      (info : Info) (s s' : Rot O M N) (cookie : ℕ)
      → insert_info info s ≡ some (s', cookie)
      → Inserted info s s' cookie
  unfolding insert_info
  insert_info-Inserted info s s' cookie e =
      elim (Option-cases (insert s.objects info 1 0xFFFFFFFF)) [
        | inl e1 ↦ let none_is : insert_info info s ≡ none = rw (insert_info, e1) refl in cc
        | inr ((objects, c), e1) ↦ elim (Option-cases (M.insert s.by_oid info.oid c)) [
          | inl e2 ↦ let none_is : insert_info info s ≡ none = rw (insert_info, e1, e2) refl in cc
          | inr (by_oid, e2) ↦
              let made : insert_info info s
                  ≡ some (record s { objects = objects; by_oid = by_oid }, c) =
                rw (insert_info, e1, e2) refl in
              let free = insert-free s.objects objects info 1 0xFFFFFFFF c e1 in
              let it : Inserted info s (record s { objects = objects; by_oid = by_oid }) c =
                record {
                  was_free = free.0;
                  low = free.1;
                  high = free.2;
                  place = M.place s.by_oid info.oid;
                  now = λ j. find-insert s.objects objects info 1 0xFFFFFFFF c j e1;
                  placed = λ j. values-insert s.by_oid by_oid info.oid j c e2;
                  same_log = refl;
                  same_rot = refl;
                  same_notify = refl;
                } in
              subst (λ (r : Rot O M N × ℕ). Inserted info s r.0 r.1) (some-inj (sym made ∙ e)) it
        ]
      ]

  pub Inserted-IsConsistent :
      (info : Info) (s s' : Rot O M N) (cookie : ℕ)
      → Inserted info s s' cookie
      → IsConsistent s
      → IsConsistent s'
  unfolding count
  Inserted-IsConsistent info s s' cookie new ok oid c =
      rw (new.placed oid, new.now c)
        (ground (
          arith,
          count-insert_at c new.place cookie (values s.by_oid oid),
          ok oid c,
          new.was_free,
          ==_iff cookie c,
        ))
