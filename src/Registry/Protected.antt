-- ===== src/Registry/Protected.antt =====
-- delete_subkeys takes away what may be deleted and leaves no key without its parent.
use oocore.Prelude.{
  ℕ, zero, suc, ◌≡◌, refl, ap, subst, ◌∙◌, inl, inr, true, Option, none, some, List, [], ◌∷◌, arith,
  ◌==◌, Bool-cases, Option-cases,
}
use oocore.Routing.Table.{has}
use oocore.Registry.Tables.{
  Key, Tables, key_by_id, keys_below, keep_not_below, delete_below, drop_values_of,
}
use oocore.Registry.Hive.{HiveError, hive_ok, is_ok, Env, dot_access, delete_keys_stmt}
use oocore.Registry.Delete.{
  may_delete, popped, lists_all, delete_children, delete_each, delete_subkeys,
}
use oocore.Registry.Values.{finish-ok}
use oocore.Registry.Rows.{
  Distinct, keep_not_below-Distinct, keep_not_below-kept, keep_not_below-gone, has-popped,
  drop_values_of-other,
}
use oocore.Registry.Pruned.{
  HasNoChild, is_ok_sound, access_of-same, IsDeletable, IsPruned, may_delete-ok, IsDeletable-back,
  IsPruned-refl, IsPruned-trans,
}

module _ (env : Env) (channel : ℕ) where
  -- A key that was deletable has lost all that is below it, and is itself still there.
  pub record IsEmptied (t : Tables) (key : ℕ) (t' : Tables) : Type 0 where
    pub pruned : IsPruned env channel t t'
    pub deletable : IsDeletable env channel t key
    pub row : (k : Key) × (key_by_id t.keys key ≡ some k)
    pub childless : HasNoChild key t'.keys

  -- Each of these keys was deletable, and none of them has anything below it left.
  abbrev AllEmptied : Tables → List ℕ → Tables → Type 0
  AllEmptied t ids t' =
      (i : ℕ)
      → has i ids ≡ true
      → ((k : Key) × (key_by_id t.keys i ≡ some k))
        × IsDeletable env channel t i
        × HasNoChild i t'.keys

  module _ (delete : ℕ → Tables → Option (HiveError × Tables))
      (empties : (i : ℕ) (u u' : Tables)
        → Distinct u.keys
        → delete i u ≡ some (hive_ok, u')
        → IsEmptied u i u') where
    delete_each-AllEmptied :
        (ids : List ℕ) (t t' : Tables)
        → Distinct t.keys
        → delete_each delete ids t ≡ some (hive_ok, t')
        → IsPruned env channel t t' × AllEmptied t ids t'
    unfolding delete_each has
    delete_each-AllEmptied [] t t' d e =
        let same : t ≡ t' = ground (arith, e) in
        (
          subst (IsPruned env channel t) same (IsPruned-refl env channel t d),
          λ i h. absurd (ground (arith, h)),
        )
    delete_each-AllEmptied (id ∷ ids) t t' d e = elim (Option-cases (delete id t)) [
      | inl f ↦ absurd (ground (arith, e, f))
      | inr ((err, u), f) ↦
          let sound = is_ok_sound err in
          let ok : err ≡ hive_ok = ground (arith, e, f, sound) in
          let first = empties id t u d (f ∙ ap (λ x. some (x, u)) ok) in
          let rest =
            delete_each-AllEmptied ids u t' first.pruned.distinct (ground (arith, e, f, ok)) in
          (
            IsPruned-trans env channel t u t' first.pruned rest.0,
            λ i h. elim (Bool-cases (i == id)) [
              | inl g ↦
                  let same : id ≡ i = ground (arith, g) in
                  subst
                    (λ j.
                      ((k : Key) × (key_by_id t.keys j ≡ some k))
                      × IsDeletable env channel t j
                      × HasNoChild j t'.keys)
                    same
                    (
                      first.row,
                      first.deletable,
                      λ j k at. first.childless j k (rest.0.kept j k at).0,
                    )
              | inr g ↦
                  let later = rest.1 i (ground (arith, g, h)) in
                  let (k, at) = later.0 in
                  let before = first.pruned.kept i k at in
                  ((k, before.0), IsDeletable-back env channel t u i before.1 later.1, later.2)
            ],
          )
    ]

  module _ (t t' : Tables) (key : ℕ) (pruned : IsPruned env channel t t')
      (emptied : AllEmptied t (popped (keys_below t.keys key)) t') where
    -- A row that goes with the children of the key was one of those on the stack.
    went :
        (i : ℕ) (k : Key)
        → key_by_id t'.keys i ≡ some k
        → key_by_id (keep_not_below key t'.keys) i ≡ none
        → IsDeletable env channel t i × HasNoChild i t'.keys
    went i k at gone =
        let below = keep_not_below-gone key i k t'.keys at gone in
        let all = emptied i (has-popped key i k t.keys (pruned.kept i k at).0 below) in
        (all.1, all.2)

    below-IsPruned : IsPruned env channel t (delete_below key t')
    unfolding delete_below
    below-IsPruned = record {
      kept = λ i k at.
          let left = keep_not_below-kept key i k t'.keys pruned.distinct at in
          let sooner = pruned.kept i k left.0 in
          let same = drop_values_of-other dot_access i (keys_below t'.keys key) t'.values left.2 in
          (
            sooner.0,
            access_of-same env t'.values (drop_values_of (keys_below t'.keys key) t'.values) i same
                ∙ sooner.1,
          );
      gone = λ i k at gone. elim (Option-cases (key_by_id t'.keys i)) [
        | inl f ↦ pruned.gone i k at f
        | inr (k', f) ↦ (went i k' f gone).0
      ];
      distinct = keep_not_below-Distinct key t'.keys pruned.distinct;
      next_id = pruned.next_id;
      parents = λ p i k at nz.
          let left = keep_not_below-kept key i k t'.keys pruned.distinct at in
          let (q, there) = pruned.parents p i k left.0 nz in
          elim (Option-cases (key_by_id (keep_not_below key t'.keys) k.parent)) [
            | inr found ↦ found
            | inl lost ↦ absurd ((went k.parent q there lost).1 i k left.0 refl)
          ];
    }

    below-HasNoChild : HasNoChild key (delete_below key t').keys
    unfolding delete_below
    below-HasNoChild i k at = (keep_not_below-kept key i k t'.keys pruned.distinct at).1

  -- Whatever delete_subkeys deletes was deletable, the key itself too; nothing is left below the key,
  -- and where every key had its parent before, every key that is left still has.
  pub delete_subkeys-IsEmptied :
      (fuel key : ℕ) (t t' : Tables)
      → Distinct t.keys
      → delete_subkeys env channel fuel key t ≡ some (hive_ok, t')
      → IsEmptied t key t'
  unfolding delete_subkeys delete_children
  delete_subkeys-IsEmptied zero key t t' d e = absurd (ground (arith, e))
  delete_subkeys-IsEmptied (suc fuel) key t t' d e =
      let err = may_delete env channel key t in
      let below = keys_below t.keys key in
      let each = λ (id : ℕ) (u : Tables). delete_subkeys env channel fuel id u in
      elim (Bool-cases (is_ok err)) [
        | inr f ↦ absurd (let sound = f in ground (arith, e, sound))
        | inl f ↦ elim (Bool-cases (lists_all env key 0 below t)) [
          | inr g ↦ absurd (ground (arith, e, f, g))
          | inl g ↦ elim (Option-cases (delete_each each (popped below) t)) [
            | inl a ↦ absurd (ground (arith, e, f, g, a))
            | inr ((err', u), a) ↦
                let may = may_delete-ok env channel t key (is_ok_sound err f) in
                let sound = is_ok_sound err' in
                let ok : err' ≡ hive_ok = ground (arith, e, f, g, a, sound) in
                let last : delete_children env key u ≡ (hive_ok, t') =
                  ground (arith, e, f, g, a, ok) in
                let done : some (delete_below key u) ≡ some t' =
                  finish-ok (env.writes (delete_keys_stmt key) u) (some (delete_below key u)) u t'
                    last in
                let same : delete_below key u ≡ t' = ground (arith, done) in
                let all =
                  delete_each-AllEmptied each (delete_subkeys-IsEmptied fuel) (popped below) t u d
                    (a ∙ ap (λ x. some (x, u)) ok) in
                subst (IsEmptied t key) same (record {
                  pruned = below-IsPruned t u key all.0 all.1;
                  deletable = may.2;
                  row = (may.0, may.1);
                  childless = below-HasNoChild t u key all.0 all.1;
                })
          ]
        ]
      ]
