-- ===== src/Rot/Loop.antt =====
-- How often a cookie stands among the places of an OID, and what the loop of RevokeObject_i leaves.
use oocore.Prelude.{
  ℕ, zero, suc, ◌+◌, ◌≤◌, ◌≡◌, refl, ◌∙◌, ap, inl, inr, sym, Bool, true, false, none, some, List,
  [], ◌∷◌, ◌++◌, ◌==◌, Bool-cases, Option-cases, if◌then◌else◌, length, get_elem?, arith,
  length-append, ++-assoc,
}
use oocore.Registry.Tables.{Text, same_text}
use oocore.Registry.Values.{same_text_refl}
use oocore.Rot.Tables.{MultiTable, insert_at, erase_at}
use oocore.Rot.Revoke.{drop_cookie}

unfoldable pub count : ℕ → List ℕ → ℕ
count c [] = 0
count c (v ∷ vs) = (if v == c then 1 else 0) + count c vs

-- The list without a value. What stands directly behind one that goes is kept, whatever it is: the
-- first argument says that this is so of the head.
unfoldable pub skip : Bool → ℕ → List ℕ → List ℕ
skip kept c [] = []
skip true c (v ∷ vs) = v ∷ skip false c vs
skip false c (v ∷ vs) = if v == c then skip true c vs else v ∷ skip false c vs

pub count-insert_at :
    (c n v : ℕ) (l : List ℕ) → count c (insert_at n v l) ≡ (if v == c then 1 else 0) + count c l
unfolding count insert_at
count-insert_at c zero v l = refl
count-insert_at c (suc n) v [] = refl
count-insert_at c (suc n) v (x ∷ l) = ground (arith, count-insert_at c n v l)

get_elem?-end : (xs : List ℕ) (i : ℕ) → length xs ≤ i → get_elem? xs i ≡ none
get_elem?-end [] i h = refl
get_elem?-end (x ∷ xs) zero h = absurd (omega arith)
get_elem?-end (x ∷ xs) (suc i) h = get_elem?-end xs i (omega arith)

get_elem?-append :
    (pre : List ℕ) (v : ℕ) (vs : List ℕ) → get_elem? (pre ++ v ∷ vs) (length pre) ≡ some v
get_elem?-append [] v vs = refl
get_elem?-append (x ∷ pre) v vs = get_elem?-append pre v vs

erase_at-append :
    (pre : List ℕ) (v : ℕ) (vs : List ℕ) → erase_at (length pre) (pre ++ v ∷ vs) ≡ pre ++ vs
unfolding erase_at
erase_at-append [] v vs = refl
erase_at-append (x ∷ pre) v vs = ap (λ l. x ∷ l) (erase_at-append pre v vs)

pub count-skip :
    (kept : Bool) (c d : ℕ) (l : List ℕ)
    → (if kept then 1 else 0) + count c l ≤ 1
    → count d (skip kept c l) ≡ (if kept then count d l else if c == d then 0 else count d l)
unfolding skip count
count-skip true c d [] h = refl
count-skip false c d [] h = ground arith
count-skip true c d (v ∷ vs) h = ground (arith, count-skip false c d vs)
count-skip false c d (v ∷ vs) h = ground (arith, count-skip false c d vs, count-skip true c d vs)

-- A loop past the end does nothing.
drop_cookie-end :
    (M : MultiTable) (fuel : ℕ) (oid : Text) (c i : ℕ) (t : MultiTable.Carrier M)
    → length (MultiTable.values M t oid) ≤ i
    → drop_cookie M fuel oid c i t ≡ t
unfolding drop_cookie
drop_cookie-end M zero oid c i t h = refl
drop_cookie-end M (suc fuel) oid c i t h =
    rw (drop_cookie, get_elem?-end (MultiTable.values M t oid) i h) refl

module _ (M : MultiTable) (oid : Text) (c : ℕ) where
  open M use {Carrier, values, remove_at, values-remove_at}

  abbrev Leaves : ℕ → List ℕ → ℕ → Carrier → List ℕ → Type 0
  Leaves fuel pre i t l = values (drop_cookie M fuel oid c i t) oid ≡ pre ++ l

  -- A round that leaves the value v behind
  step_over :
      (fuel : ℕ) (pre : List ℕ) (v : ℕ) (l : List ℕ) (t : Carrier)
      → Leaves fuel (pre ++ v ∷ []) (length (pre ++ v ∷ [])) t l
      → Leaves fuel pre (length pre + 1) t (v ∷ l)
  step_over fuel pre v l t h =
      let n : length (pre ++ v ∷ []) ≡ length pre + 1 = omega (arith, length-append pre (v ∷ [])) in
      ap (λ i. values (drop_cookie M fuel oid c i t) oid) (sym n) ∙ h ∙ ++-assoc pre (v ∷ []) l

  values-removed :
      (pre : List ℕ) (v : ℕ) (vs : List ℕ) (t : Carrier)
      → values t oid ≡ pre ++ v ∷ vs
      → values (remove_at t oid (length pre)) oid ≡ pre ++ vs
  values-removed pre v vs t e =
      values-remove_at t oid oid (length pre)
      ∙ rw (same_text_refl oid, e) (erase_at-append pre v vs)

  drop_cookie-step :
      (fuel i v : ℕ) (t : Carrier)
      → get_elem? (values t oid) i ≡ some v
      → drop_cookie M (suc fuel) oid c i t
        ≡ drop_cookie M fuel oid c (i + 1) (if v == c then remove_at t oid i else t)
  unfolding drop_cookie
  drop_cookie-step fuel i v t e = rw (drop_cookie, e) refl

  -- The round after a removal keeps what it meets.
  after_removal :
      (fuel : ℕ)
      → ((pre rest : List ℕ) (t : Carrier)
          → values t oid ≡ pre ++ rest
          → length rest ≤ fuel
          → Leaves fuel pre (length pre) t (skip false c rest))
      → (pre vs : List ℕ) (t : Carrier) → values t oid ≡ pre ++ vs
      → length vs ≤ fuel
      → Leaves fuel pre (length pre + 1) t (skip true c vs)
  unfolding skip
  after_removal fuel ih pre [] t e h =
      rw
        (drop_cookie-end M fuel oid c (length pre + 1) t
          (rw (e, length-append pre []) (omega arith)))
        e
  after_removal fuel ih pre (w ∷ ws) t e h =
      step_over fuel pre w (skip false c ws) t
        (ih (pre ++ w ∷ []) ws t (e ∙ sym (++-assoc pre (w ∷ []) ws)) (omega arith))

  -- The loop from a place on, with enough rounds for the rest
  pub values-drop_cookie :
      (fuel : ℕ) (pre rest : List ℕ) (t : Carrier)
      → values t oid ≡ pre ++ rest
      → length rest ≤ fuel
      → Leaves fuel pre (length pre) t (skip false c rest)
  unfolding skip
  values-drop_cookie fuel pre [] t e h =
      rw (drop_cookie-end M fuel oid c (length pre) t (rw (e, length-append pre []) (omega arith)))
        e
  values-drop_cookie zero pre (v ∷ vs) t e h = absurd (omega arith)
  values-drop_cookie (suc fuel) pre (v ∷ vs) t e h =
      let found : get_elem? (values t oid) (length pre) ≡ some v =
        rw e (get_elem?-append pre v vs) in
      elim (Bool-cases (v == c)) [
        | inr other ↦
            rw (drop_cookie-step fuel (length pre) v t found, other)
              (step_over fuel pre v (skip false c vs) t (
                values-drop_cookie fuel (pre ++ v ∷ []) vs t (e ∙ sym (++-assoc pre (v ∷ []) vs))
                  (omega arith)))
        | inl hit ↦
            rw (drop_cookie-step fuel (length pre) v t found, hit)
              (after_removal fuel (values-drop_cookie fuel) pre vs (remove_at t oid (length pre))
                (values-removed pre v vs t e) (omega arith))
      ]

  -- The whole loop
  pub values-drop_cookie_all :
      (t : Carrier)
      → values (drop_cookie M (length (values t oid)) oid c 0 t) oid ≡ skip false c (values t oid)
  values-drop_cookie_all t =
      values-drop_cookie (length (values t oid)) [] (values t oid) t refl (omega arith)

  pub values-drop_cookie_other :
      (fuel i : ℕ) (t : Carrier) (j : Text)
      → same_text oid j ≡ false
      → values (drop_cookie M fuel oid c i t) j ≡ values t j
  unfolding drop_cookie
  values-drop_cookie_other zero i t j h = refl
  values-drop_cookie_other (suc fuel) i t j h = elim (Option-cases (get_elem? (values t oid) i)) [
    | inl e ↦ rw (drop_cookie, e) refl
    | inr (v, e) ↦ rw (drop_cookie-step fuel i v t e) (
        values-drop_cookie_other fuel (i + 1) (if v == c then remove_at t oid i else t) j h
        ∙ elim (Bool-cases (v == c)) [
          | inl hit ↦ rw (hit, values-remove_at t oid j i, h) refl
          | inr other ↦ rw other refl
        ])
  ]
