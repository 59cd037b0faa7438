-- ===== src/Registry/Pruned.antt =====
-- Deleting only takes away what may be deleted: the relation, and what it is made of.
use oocore.Prelude.{
  ℕ, ◌≡◌, ◌≢◌, refl, subst, ◌∙◌, inl, inr, true, none, some, List, [], ◌∷◌, arith, ◌==◌, bit_and,
  Bool-cases, Option-cases,
}
use oocore.Registry.Tables.{Key, Value, Tables, key_by_id, value_by_name}
use oocore.Registry.Hive.{
  HiveError, hive_ok, is_ok, Env, dot_access, access_of, access_check, check_key_exists,
  check_key_stmt, write_check, protect_key,
}
use oocore.Registry.Delete.{may_delete}
use oocore.Registry.Rows.{Distinct}

-- Every key but a top one has its parent.
abbrev pub HasParents : List Key → Type 0
HasParents ks =
    (i : ℕ) (k : Key)
    → key_by_id ks i ≡ some k
    → k.parent ≢ 0
    → (p : Key) × (key_by_id ks k.parent ≡ some p)

abbrev pub HasNoChild : ℕ → List Key → Type 0
HasNoChild p ks = (i : ℕ) (k : Key) → key_by_id ks i ≡ some k → k.parent ≢ p

pub key_by_id-id : (ks : List Key) (i : ℕ) (k : Key) → key_by_id ks i ≡ some k → k.id ≡ i
unfolding key_by_id
key_by_id-id [] i k e = absurd (ground (arith, e))
key_by_id-id (r ∷ rs) i k e = let ih = key_by_id-id rs i k in ground (arith, e, ih)

pub is_ok_sound : (e : HiveError) → is_ok e ≡ true → e ≡ hive_ok
is_ok_sound HiveError.hive_ok e = refl
is_ok_sound HiveError.hive_errored e = ground (arith, e)
is_ok_sound HiveError.hive_not_found e = ground (arith, e)
is_ok_sound HiveError.hive_already_exists e = ground (arith, e)
is_ok_sound HiveError.hive_read_only e = ground (arith, e)
is_ok_sound HiveError.hive_no_read e = ground (arith, e)
is_ok_sound HiveError.hive_no_write e = ground (arith, e)
is_ok_sound HiveError.hive_prot_key e = ground (arith, e)
is_ok_sound HiveError.hive_bad_name e = ground (arith, e)
is_ok_sound HiveError.hive_link e = ground (arith, e)

module _ (env : Env) where
  pub access_of-same :
      (vs vs' : List Value) (i : ℕ)
      → value_by_name vs' dot_access i ≡ value_by_name vs dot_access i
      → access_of env vs' i ≡ access_of env vs i
  unfolding access_of
  access_of-same vs vs' i e = rw (access_of, e) refl

module _ (env : Env) (channel : ℕ) where
  -- The channel may write to the key, and the key is not protected.
  pub record IsDeletable (t : Tables) (i : ℕ) : Type 0 where
    pub writable : access_check env channel (access_of env t.values i) write_check ≡ hive_ok
    pub unprotected : bit_and (access_of env t.values i) protect_key ≡ 0

  -- From t to t' only keys that were deletable in t are gone, and the others have their rows and
  -- their access rights.
  pub record IsPruned (t t' : Tables) : Type 0 where
    pub kept :
        (i : ℕ) (k : Key)
        → key_by_id t'.keys i ≡ some k
        → (key_by_id t.keys i ≡ some k) × (access_of env t'.values i ≡ access_of env t.values i)
    pub gone :
        (i : ℕ) (k : Key)
        → key_by_id t.keys i ≡ some k
        → key_by_id t'.keys i ≡ none
        → IsDeletable t i
    pub distinct : Distinct t'.keys
    pub parents : HasParents t.keys → HasParents t'.keys
    pub next_id : t'.next_id ≡ t.next_id

  pub may_delete-ok :
      (t : Tables) (i : ℕ)
      → may_delete env channel i t ≡ hive_ok
      → (k : Key) × (key_by_id t.keys i ≡ some k) × IsDeletable t i
  unfolding may_delete check_key_exists
  may_delete-ok t i e = elim (Bool-cases (i == 0)) [
    | inl z ↦ absurd (ground (arith, e, z))
    | inr z ↦ elim (Bool-cases (env.reads (check_key_stmt i) 0 t)) [
      | inr f ↦ absurd (ground (arith, e, z, f))
      | inl f ↦ elim (Option-cases (key_by_id t.keys i)) [
        | inl g ↦ absurd (ground (arith, e, z, f, g))
        | inr (k, g) ↦
            let id = key_by_id-id t.keys i k g in
            let mask = access_of env t.values k.id in
            let sound = is_ok_sound (access_check env channel mask write_check) in
            let may : access_check env channel mask write_check ≡ hive_ok =
              ground (arith, e, z, f, g, sound) in
            let free : bit_and mask protect_key ≡ 0 = ground (arith, e, z, f, g) in
            (k, g, subst (λ j. IsDeletable t j) id (record { writable = may; unprotected = free }))
      ]
    ]
  ]

  pub IsDeletable-back :
      (t u : Tables) (i : ℕ)
      → access_of env u.values i ≡ access_of env t.values i
      → IsDeletable u i
      → IsDeletable t i
  IsDeletable-back t u i same d = record {
    writable = subst (λ m. access_check env channel m write_check ≡ hive_ok) same d.writable;
    unprotected = subst (λ m. bit_and m protect_key ≡ 0) same d.unprotected;
  }

  pub IsPruned-refl : (t : Tables) → Distinct t.keys → IsPruned t t
  IsPruned-refl t d = record {
    kept = λ i k e. (e, refl);
    gone = λ i k e f. absurd (ground (arith, e, f));
    distinct = d;
    parents = λ p. p;
    next_id = refl;
  }

  pub IsPruned-trans : (t u v : Tables) → IsPruned t u → IsPruned u v → IsPruned t v
  IsPruned-trans t u v a b = record {
    kept = λ i k e.
        let later = b.kept i k e in
        let sooner = a.kept i k later.0 in (sooner.0, later.1 ∙ sooner.1);
    gone = λ i k e f. elim (Option-cases (key_by_id u.keys i)) [
      | inl g ↦ a.gone i k e g
      | inr (k', g) ↦ IsDeletable-back t u i (a.kept i k' g).1 (b.gone i k' g f)
    ];
    distinct = b.distinct;
    parents = λ p. b.parents (a.parents p);
    next_id = b.next_id ∙ a.next_id;
  }
