-- ===== src/Registry/Find/Descend.antt =====
-- find_key as a descent along the names of a path.
use oocore.Prelude.{
  ℕ, zero, suc, ◌<◌, ◌≡◌, refl, ap, inl, inr, false, Option, none, some, List, [], ◌∷◌, arith, ◌==◌,
  if◌then◌else◌, length, take, drop, Bool-cases, Option-cases, length-drop,
}
use oocore.Registry.Tables.{Text, Tables}
use oocore.Registry.Hive.{
  HiveError, hive_ok, is_ok, is_link, read_check, Env, access_check, check_key_exists,
}
use oocore.Registry.Find.{
  Search, get_key_info, find_slash, last, slash, before_slash, cut, extend, is_empty, visit,
  visit_last, note_name, end_path, walk, find_key,
}

abbrev push : ℕ → List Text → List Text
push c [] = (c ∷ []) ∷ []
push c (n ∷ ns) = (c ∷ n) ∷ ns

-- A path cut at its slashes, empty names included
unfoldable pub split : Text → List Text
split [] = [] ∷ []
split (c ∷ cs) = if c == 47 then [] ∷ split cs else push c (split cs)

unfoldable pub non_empty : List Text → List Text
non_empty [] = []
non_empty (n ∷ ns) = if is_empty n then non_empty ns else n ∷ non_empty ns

-- The names of a path
unfoldable pub components : Text → List Text
unfolding split non_empty
components path = non_empty (split path)

-- One get_key_info for each name, until one does not find a key
unfoldable pub descend : Env → Tables → ℕ → ℕ → List Text → Search → HiveError × Search
descend env t channel parent [] s = (hive_ok, record s { key = parent })
descend env t channel parent (name ∷ rest) s =
    let (err, s') = get_key_info env t parent name channel s in
    let named : Search = record s' { full_name = extend s'.full_name name } in
    let deeper = descend env t channel named.key rest named in
    if is_ok err then deeper else (err, if is_link err then named else s')

-- All that a search returns but the rest of the path
abbrev pub view : HiveError × Search → HiveError × Search
view (err, s) = (err, record s { sub_key = [] })

abbrev pub view_of : Option (HiveError × Search) → Option (HiveError × Search)
view_of none = none
view_of (some r) = some (view r)

split-find_slash :
    (path : Text)
    → split path ≡ elim (find_slash path) [
      | none ↦ path ∷ []
      | some n ↦ take n path ∷ split (drop (suc n) path)
    ]
unfolding split find_slash
split-find_slash [] = refl
split-find_slash (c ∷ cs) = elim (Bool-cases (c == 47)) [
  | inl e ↦ rw e refl
  | inr e ↦ elim (Option-cases (find_slash cs)) [
    | inl f ↦ let ih = split-find_slash cs in rw (e, ih, f)
    | inr (n, f) ↦ let ih = split-find_slash cs in rw (e, ih, f)
  ]
]

pub find_slash-lt : (path : Text) (n : ℕ) → find_slash path ≡ some n → n < length path
unfolding find_slash
find_slash-lt [] n e = ground (arith, e)
find_slash-lt (c ∷ cs) n e = elim (Bool-cases (c == 47)) [
  | inl f ↦ ground arith
  | inr f ↦ elim (Option-cases (find_slash cs)) [
    | inl g ↦ ground arith
    | inr (m, g) ↦ let ih = find_slash-lt cs m g in ground (arith, ih)
  ]
]

drop_one : (n : ℕ) (path : Text) → drop 1 (drop n path) ≡ drop (suc n) path
drop_one zero path = refl
drop_one (suc n) [] = refl
drop_one (suc n) (c ∷ cs) = drop_one n cs

take_not_empty : (n : ℕ) (path : Text) → n < length path → is_empty (take (suc n) path) ≡ false
take_not_empty n [] h = absurd (omega (arith, h))
take_not_empty n (c ∷ cs) h = refl

pub cut-last : (path : Text) → find_slash path ≡ none → cut path ≡ last path
unfolding cut
cut-last path e = rw (cut, e) refl

pub cut-slash : (path : Text) → find_slash path ≡ some 0 → cut path ≡ slash (drop 1 path)
unfolding cut
cut-slash path e = rw (cut, e) refl

pub cut-name :
    (path : Text) (n : ℕ)
    → find_slash path ≡ some (suc n)
    → cut path ≡ before_slash (take (suc n) path) (drop (suc n) path)
unfolding cut
cut-name path n e = rw (cut, e) refl

-- The last name of a path
components-last : (path : Text) → find_slash path ≡ none → components path ≡ non_empty (path ∷ [])
unfolding components
components-last path e = let s = split-find_slash path in rw (s, e)

components-slash :
    (path : Text) → find_slash path ≡ some 0 → components path ≡ components (drop 1 path)
unfolding components non_empty
components-slash path e = let s = split-find_slash path in rw (s, e)

components-name :
    (path : Text) (n : ℕ)
    → find_slash path ≡ some (suc n)
    → components path ≡ take (suc n) path ∷ components (drop (suc (suc n)) path)
unfolding components non_empty
components-name path n e =
    let s = split-find_slash path in
    let short = find_slash-lt path (suc n) e in
    let named = take_not_empty n path (omega (arith, short)) in rw (s, e, named)

module _ (env : Env) (t : Tables) (channel : ℕ) where
  note_last :
      (name : Text) (r : HiveError × Search)
      → view (end_path (note_name name name [] r))
        ≡ view (
            let named : Search = record r.1 { full_name = extend r.1.full_name name } in
            if is_ok r.0
            then (hive_ok, record named { key = named.key })
            else (r.0, if is_link r.0 then named else r.1))
  unfolding end_path note_name
  note_last name (err, s) = ground arith

  visit_last-descend :
      (parent : ℕ) (name : Text) (s : Search)
      → view (visit_last env t parent name channel s)
        ≡ view (descend env t channel parent (non_empty (name ∷ [])) s)
  unfolding visit_last visit descend non_empty
  visit_last-descend parent [] s = refl
  visit_last-descend parent (c ∷ cs) s =
      note_last (c ∷ cs) (get_key_info env t parent (c ∷ cs) channel s)

  note_then :
      (name path onward : Text) (r : HiveError × Search) (go : Search → Option (HiveError × Search))
      (want : Search → HiveError × Search)
      → ((u : Search) → view_of (go u) ≡ some (view (want u)))
      → let q = note_name name path onward r in
        let named : Search = record r.1 { full_name = extend r.1.full_name name } in
        view_of (if is_ok q.0 then go q.1 else some q)
        ≡ some (view (if is_ok r.0 then want named else (r.0, if is_link r.0 then named else r.1)))
  unfolding note_name
  note_then name path onward (err, s) go want same = elim (Bool-cases (is_ok err)) [
    | inl e ↦ rw (e, e) (same (record s { full_name = extend s.full_name name }))
    | inr e ↦ ground (arith, e)
  ]

  pub walk-descend :
      (fuel parent : ℕ) (path : Text) (s : Search)
      → length path < fuel
      → view_of (walk env t channel fuel parent path s)
        ≡ some (view (descend env t channel parent (components path) s))
  unfolding walk descend visit
  walk-descend zero parent path s h = absurd (omega (arith, h))
  walk-descend (suc fuel) parent path s h = elim (Option-cases (find_slash path)) [
    | inl e ↦
        let one = visit_last-descend parent path s in
        rw (walk, cut-last path e, components-last path e) (ap some one)
    | inr (zero, e) ↦
        let short = find_slash-lt path 0 e in
        let less = length-drop 1 path in
        let ih = walk-descend fuel parent (drop 1 path) s (omega (arith, short, less, h)) in
        rw (walk, cut-slash path e, components-slash path e) ih
    | inr (suc n, e) ↦
        let short = find_slash-lt path (suc n) e in
        let less = length-drop (suc (suc n)) path in
        let name = take (suc n) path in
        let rest = drop (suc (suc n)) path in
        let same = λ (u : Search). walk-descend fuel u.key rest u (omega (arith, short, less, h)) in
        rw (walk, cut-name path n e, components-name path n e, drop_one (suc n) path)
          (note_then name path (drop (suc n) path) (get_key_info env t parent name channel s)
            (λ u. walk env t channel fuel u.key rest u)
            (λ u. descend env t channel u.key (components rest) u) same)
  ]

  -- Where the key to start from exists and may be read, find_key ends and returns, up to the rest
  -- of the path, what a descent along the names of the path returns; slashes in front, at the end
  -- or doubled do not matter.
  pub find_key-descend :
      (parent mask : ℕ) (s : Search)
      → check_key_exists env t parent s.mask ≡ (hive_ok, mask)
      → access_check env channel mask read_check ≡ hive_ok
      → view_of (find_key env t parent channel s)
        ≡ some
            (view (descend env t channel parent (components s.sub_key) (record s { mask = mask })))
  unfolding find_key
  find_key-descend parent mask s exists may =
      rw (find_key, exists, may)
        (walk-descend (suc (length s.sub_key)) parent s.sub_key (record s { mask = mask })
          (omega arith))
