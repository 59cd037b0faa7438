-- ===== src/Registry/Removed.antt =====
-- What a successful delete_key has done.
use oocore.Prelude.{
  ℕ, ◌≡◌, sym, ap, subst, ◌∙◌, inl, inr, none, some, arith, Bool-cases, Option-cases,
}
use oocore.Registry.Tables.{Key, Tables, key_by_id, keep_not_id, delete_id, drop_values}
use oocore.Registry.Hive.{HiveError, hive_ok, is_ok, Env, dot_access, delete_key_stmt, finish}
use oocore.Registry.Transaction.{Connection, is_done, on_connection, begin, with_tables}
use oocore.Registry.Find.{Search, find_key}
use oocore.Registry.Delete.{delete_subkeys, delete_whole, delete_found, delete_key}
use oocore.Registry.Values.{finish-ok}
use oocore.Registry.Ended.{begin-done, end_transaction-ok}
use oocore.Registry.Rows.{
  Distinct, keep_not_id-Distinct, keep_not_id-kept, keep_not_id-gone, keep_not_id-none,
  drop_values-other,
}
use oocore.Registry.Pruned.{HasNoChild, is_ok_sound, access_of-same, IsDeletable, IsPruned}
use oocore.Registry.Protected.{IsEmptied, delete_subkeys-IsEmptied}

module _ (env : Env) (channel : ℕ) (t : Tables) where
  -- From t to t' the key and other keys have gone, as far as that is allowed.
  pub record IsRemoved (key : ℕ) (t' : Tables) : Type 0 where
    pub pruned : IsPruned env channel t t'
    pub there : (k : Key) × (key_by_id t.keys key ≡ some k)
    pub absent : key_by_id t'.keys key ≡ none
    pub childless : HasNoChild key t'.keys

  delete_id-IsRemoved :
      (key : ℕ) (u : Tables) → IsEmptied env channel t key u → IsRemoved key (delete_id key u)
  unfolding delete_id
  delete_id-IsRemoved key u emptied =
      let pruned = emptied.pruned in
      record {
        pruned = record {
          kept = λ i k at.
              let left = keep_not_id-kept key i k u.keys at in
              let sooner = pruned.kept i k left.0 in
              let same = drop_values-other dot_access key i u.values left.1 in
              (sooner.0, access_of-same env u.values (drop_values key u.values) i same ∙ sooner.1);
          gone = λ i k at gone. elim (Option-cases (key_by_id u.keys i)) [
            | inl f ↦ pruned.gone i k at f
            | inr (k', f) ↦
                subst (λ j. IsDeletable env channel t j)
                  (sym (keep_not_id-gone key i k' u.keys f gone)) emptied.deletable
          ];
          distinct = keep_not_id-Distinct key u.keys pruned.distinct;
          next_id = pruned.next_id;
          parents = λ p i k at nz.
              let left = keep_not_id-kept key i k u.keys at in
              let (q, found) = pruned.parents p i k left.0 nz in
              elim (Option-cases (key_by_id (keep_not_id key u.keys) k.parent)) [
                | inr kept ↦ kept
                | inl lost ↦ absurd (
                    emptied.childless i k left.0
                      (keep_not_id-gone key k.parent q u.keys found lost))
              ];
        };
        there = emptied.row;
        absent = keep_not_id-none key u.keys;
        childless = λ i k at. emptied.childless i k (keep_not_id-kept key i k u.keys at).0;
      }

  delete_whole-ok :
      (key : ℕ) (r : HiveError × Tables) (t' : Tables)
      → delete_whole env key r ≡ (hive_ok, t')
      → (r.0 ≡ hive_ok) × (delete_id key r.1 ≡ t')
  unfolding delete_whole
  delete_whole-ok key (err, u) t' e = elim (Bool-cases (is_ok err)) [
    | inr f ↦
        let same : err ≡ hive_ok = ground (arith, e, f) in
        absurd (let no = ap is_ok same in ground (arith, f, no))
    | inl f ↦
        let sound = is_ok_sound err in
        let both : finish (env.writes (delete_key_stmt key) u) (some (delete_id key u)) u
            ≡ (hive_ok, t') =
          ground (arith, e, f) in
        let done =
          finish-ok (env.writes (delete_key_stmt key) u) (some (delete_id key u)) u t' both in
        (ground (arith, f, sound), ground (arith, done))
  ]

module _ (env : Env) (channel : ℕ) (c : Connection) where
  delete_found-IsRemoved :
      (fuel key mask : ℕ) (c' : Connection)
      → Distinct c.tables.keys
      → delete_found env channel fuel key mask c ≡ some (hive_ok, c')
      → IsRemoved env channel c.tables key c'.tables
  unfolding delete_found
  delete_found-IsRemoved fuel key mask c' d e =
      let began = begin-done env c in
      let trans = (begin env (on_connection c)).1 in
      elim (Bool-cases (is_done (begin env (on_connection c)).0)) [
        | inr g ↦ absurd (ground (arith, e, g))
        | inl g ↦
            let same : trans.connection.tables ≡ c.tables =
              ap (λ x. x.connection.tables) (began g) in
            elim (Option-cases (delete_subkeys env channel fuel key trans.connection.tables)) [
              | inl a ↦ absurd (ground (arith, e, g, a))
              | inr (r, a) ↦
                  let (err, u) = delete_whole env key r in
                  let ended =
                    end_transaction-ok env err (with_tables u trans) c' (ground (arith, e, g, a)) in
                  let whole =
                    delete_whole-ok env channel c.tables key r u (ap (λ x. (x, u)) ended.0) in
                  let emptied = delete_subkeys-IsEmptied env channel fuel key c.tables r.1 d (
                    ap (λ x. delete_subkeys env channel fuel key x) (sym same)
                    ∙ a
                    ∙ ap (λ x. some (x, r.1)) whole.0) in
                  subst (IsRemoved env channel c.tables key) (whole.1 ∙ ended.1)
                    (delete_id-IsRemoved env channel c.tables key r.1 emptied)
            ]
      ]

  -- A successful delete_key, on tables with distinct ids, has removed the key that was found and
  -- all that was directly below it; every key that has gone could be written by the channel and
  -- was not protected, and every other key keeps its row, its access rights and its parent.
  pub delete_key-IsRemoved :
      (parent fuel : ℕ) (s s' : Search) (c' : Connection)
      → Distinct c.tables.keys
      → delete_key env parent channel fuel s c ≡ some (hive_ok, s', c')
      → IsRemoved env channel c.tables s'.key c'.tables
  unfolding delete_key
  delete_key-IsRemoved parent fuel s s' c' d e =
      elim (Option-cases (find_key env c.tables parent channel s)) [
        | inl f ↦ absurd (ground (arith, e, f))
        | inr ((err, q), f) ↦ elim (Option-cases (delete_found env channel fuel q.key q.mask c)) [
          | inl g ↦ absurd (ground (arith, e, f, g))
          | inr ((err', u), g) ↦ elim (Bool-cases (is_ok err)) [
            | inr bad ↦ absurd (ground (arith, e, f, g, bad))
            | inl fine ↦
                let ok : err' ≡ hive_ok = ground (arith, e, f, g, fine) in
                let key : q.key ≡ s'.key = ground (arith, e, f, g, fine) in
                let last : u ≡ c' = ground (arith, e, f, g, fine) in
                let removed =
                  delete_found-IsRemoved fuel q.key q.mask c' d
                    (g ∙ ap (λ x. some (x, u)) ok ∙ ap (λ x. some (hive_ok, x)) last) in
                subst (λ j. IsRemoved env channel c.tables j c'.tables) key removed
          ]
        ]
      ]
