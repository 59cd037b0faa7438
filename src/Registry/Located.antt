-- ===== src/Registry/Located.antt =====
-- The key that a search comes to, found or not, is the root or a key of the tables.
use oocore.Prelude.{
  ℕ, zero, suc, ◌≡◌, refl, sym, subst, ◌⊎◌, inl, inr, some, List, [], ◌∷◌, arith, ◌==◌, ◌||◌,
  Bool-cases, Option-cases, length, drop,
}
use oocore.Registry.Tables.{Text, Key, Tables, key_by_id, key_by_name, same_text}
use oocore.Registry.Hive.{
  HiveError, is_ok, is_not_found, Env, dot_access, dot_links, access_check, access_of,
  check_key_exists, get_key_info_stmt, get_value_i, read_check,
}
use oocore.Registry.Find.{
  Search, Part, last, slash, before_slash, cut, get_child, follow_link, get_key_info, note_name,
  visit, end_path, visit_last, walk, find_key,
}
use oocore.Registry.Sound.{IsPresent}

pub Part-cases :
    (p : Part)
    → ((n : Text) × (p ≡ last n))
      ⊎ (((r : Text) × (p ≡ slash r)) ⊎ ((n : Text) × (r : Text) × (p ≡ before_slash n r)))
Part-cases (last n) = inl (n, refl)
Part-cases (slash r) = inr (inl (r, refl))
Part-cases (before_slash n r) = inr (inr (n, r, refl))

key_by_name-present :
    (ks : List Key) (name : Text) (parent : ℕ) (k : Key)
    → key_by_name ks name parent ≡ some k
    → (j : Key) × (key_by_id ks k.id ≡ some j)
unfolding key_by_name key_by_id
key_by_name-present [] name parent k e = absurd (ground (arith, e))
key_by_name-present (r ∷ rs) name parent k e = elim (Bool-cases (r.id == k.id)) [
  | inl f ↦ (r, rw f refl)
  | inr f ↦
      let ih = key_by_name-present rs name parent k (ground (arith, e, f)) in (ih.0, rw f ih.1)
]

module _ (env : Env) (t : Tables) (channel : ℕ) where
  get_child-IsPresent :
      (parent : ℕ) (name : Text) (s : Search)
      → IsPresent t s.key
      → IsPresent t (get_child env t parent name channel s).1.key
  unfolding get_child
  get_child-IsPresent parent name s there =
      elim (Bool-cases (env.reads (get_key_info_stmt name parent) 0 t)) [
        | inr f ↦ rw (get_child, f) there
        | inl f ↦ elim (Option-cases (key_by_name t.keys name parent)) [
          | inl g ↦ rw (get_child, f, g) there
          | inr (k, g) ↦ rw (get_child, f, g) (inr (key_by_name-present t.keys name parent k g))
        ]
      ]

  follow_link-IsPresent :
      (parent : ℕ) (name : Text) (v : HiveError × Text) (s : Search)
      → IsPresent t s.key
      → IsPresent t (follow_link env t parent name channel v s).1.key
  unfolding follow_link
  follow_link-IsPresent parent name (err, link) s there = elim (Bool-cases (is_ok err)) [
    | inl f ↦ rw f there
    | inr f ↦ elim (Bool-cases (is_not_found err)) [
      | inl g ↦ rw (f, g) (get_child-IsPresent parent name s there)
      | inr g ↦ rw (f, g) there
    ]
  ]

  get_key_info-IsPresent :
      (parent : ℕ) (name : Text) (s : Search)
      → IsPresent t s.key
      → IsPresent t (get_key_info env t parent name channel s).1.key
  unfolding get_key_info
  get_key_info-IsPresent parent name s there =
      let child = get_child-IsPresent parent name s there in
      elim (Bool-cases (same_text name dot_links || same_text name dot_access)) [
        | inl f ↦ rw (get_key_info, f) child
        | inr f ↦ elim (Bool-cases (env.reads (get_key_info_stmt dot_links parent) 0 t)) [
          | inr g ↦ rw (get_key_info, f, g) there
          | inl g ↦ elim (Option-cases (key_by_name t.keys dot_links parent)) [
            | inl h ↦ rw (get_key_info, f, g, h) child
            | inr (k, h) ↦
                let mask = access_of env t.values k.id in
                let s' : Search = record s { mask = mask } in
                let v = get_value_i env t k.id name s'.link in
                elim (Bool-cases (is_ok (access_check env channel mask read_check))) [
                  | inr o ↦ rw (get_key_info, f, g, h, o) there
                  | inl o ↦
                      rw (get_key_info, f, g, h, o) (follow_link-IsPresent parent name v s' there)
                ]
          ]
        ]
      ]

  note_name-key :
      (first rest onward : Text) (r : HiveError × Search)
      → (note_name first rest onward r).1.key ≡ r.1.key
  unfolding note_name
  note_name-key first rest onward (err, s) = ground arith

  visit-IsPresent :
      (parent : ℕ) (first rest onward : Text) (s : Search)
      → IsPresent t s.key
      → IsPresent t (visit env t parent first rest onward channel s).1.key
  unfolding visit
  visit-IsPresent parent first rest onward s there =
      let r = get_key_info env t parent first channel s in
      subst (IsPresent t) (sym (note_name-key first rest onward r))
        (get_key_info-IsPresent parent first s there)

  end_path-key : (r : HiveError × Search) → (end_path r).1.key ≡ r.1.key
  unfolding end_path
  end_path-key (err, s) = ground arith

  visit_last-IsPresent :
      (parent : ℕ) (first : Text) (s : Search)
      → IsPresent t parent
      → IsPresent t s.key
      → IsPresent t (visit_last env t parent first channel s).1.key
  unfolding visit_last
  visit_last-IsPresent parent [] s up there = up
  visit_last-IsPresent parent (c ∷ cs) s up there =
      subst (IsPresent t) (sym (end_path-key (visit env t parent (c ∷ cs) (c ∷ cs) [] channel s)))
        (visit-IsPresent parent (c ∷ cs) (c ∷ cs) [] s there)

  walk-IsPresent :
      (fuel parent : ℕ) (path : Text) (s : Search) (r : HiveError × Search)
      → IsPresent t parent
      → IsPresent t s.key
      → walk env t channel fuel parent path s ≡ some r
      → IsPresent t r.1.key
  unfolding walk
  walk-IsPresent zero parent path s r up there e = absurd (ground (arith, e))
  walk-IsPresent (suc fuel) parent path s r up there e = elim (Part-cases (cut path)) [
    | inl (n, f) ↦
        let same : visit_last env t parent n channel s ≡ r = ground (arith, e, f) in
        subst (λ (x : HiveError × Search). IsPresent t x.1.key) same
          (visit_last-IsPresent parent n s up there)
    | inr (inl (rest, f)) ↦ walk-IsPresent fuel parent rest s r up there (ground (arith, e, f))
    | inr (inr (n, rest, f)) ↦
        let v = visit env t parent n path rest channel s in
        let next = visit-IsPresent parent n path rest s there in
        elim (Bool-cases (is_ok v.0)) [
          | inl g ↦
              walk-IsPresent fuel v.1.key (drop 1 rest) v.1 r next next (ground (arith, e, f, g))
          | inr g ↦
              let same : v ≡ r = ground (arith, e, f, g) in
              subst (λ (x : HiveError × Search). IsPresent t x.1.key) same next
        ]
  ]

  pub find_key-IsPresent :
      (parent : ℕ) (s : Search) (r : HiveError × Search)
      → IsPresent t parent
      → IsPresent t s.key
      → find_key env t parent channel s ≡ some r
      → IsPresent t r.1.key
  unfolding find_key
  find_key-IsPresent parent s r up there e =
      let (err, mask) = check_key_exists env t parent s.mask in
      let s' : Search = record s { mask = mask } in
      let err' = access_check env channel mask read_check in
      elim (Bool-cases (is_ok err)) [
        | inr f ↦
            let same : s.key ≡ r.1.key = ground (arith, e, f) in subst (IsPresent t) same there
        | inl f ↦ elim (Bool-cases (is_ok err')) [
          | inr g ↦
              let same : s.key ≡ r.1.key = ground (arith, e, f, g) in subst (IsPresent t) same there
          | inl g ↦
              walk-IsPresent (suc (length s.sub_key)) parent s.sub_key s' r up there
                (ground (arith, e, f, g))
        ]
      ]
