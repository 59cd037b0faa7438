-- ===== src/Routing/Shutdown.antt =====
-- The shutdown of the channels ends, and reaches every connection.
use oocore.Prelude.{
  ℕ, zero, suc, ◌<◌, ◌≡◌, refl, sym, ap, subst, ◌∙◌, inl, inr, ◌⊎◌, Bool, true, false, ◌||◌, none,
  some, List, [], ◌∷◌, ◌++◌, ◌==◌, ==_iff, Bool-cases, Option-cases, arith,
}
use oocore.Routing.Table.{HashTable}
use oocore.Routing.Handler.{Action, Handler, act, stopped}
use oocore.Routing.Threads.{shutdown_channels}

module _ {P : Type 0} where
  -- Whether a connection has been shut down
  unfoldable pub was_stopped : ℕ → List (Action P) → Bool
  was_stopped conn [] = false
  was_stopped conn (stopped c ∷ log) = (c == conn) || was_stopped conn log
  was_stopped conn (_ ∷ log) = was_stopped conn log

  was_stopped-append :
      (conn c : ℕ) (log : List (Action P))
      → was_stopped conn (log ++ stopped c ∷ []) ≡ (was_stopped conn log || (c == conn))
  unfolding was_stopped
  was_stopped-append conn c [] = ground arith
  was_stopped-append conn c (stopped d ∷ log) = ground (arith, was_stopped-append conn c log)
  was_stopped-append conn c (_ ∷ log) = was_stopped-append conn c log

or_false : (a b : Bool) → (a || b) ≡ false → a ≡ false
or_false false b h = refl
or_false true b h = absurd (cc)

module _ {H : HashTable ℕ} {P : Type 0} where
  open H use {Carrier, find, size, pop, remove, pop-none, pop-some, find-remove}

  pub record IsShutDown (h h' : Handler H P) : Type 0 where
    pub emptied : (channel : ℕ) → find h'.channels channel ≡ none
    pub told :
        (channel : ℕ)
        → (find h.channels channel ≡ none)
          ⊎ ((conn : ℕ) × (find h.channels channel ≡ some conn) × (was_stopped conn h'.log ≡ true))
    pub kept : (conn : ℕ) → (was_stopped conn h.log ≡ false) ⊎ (was_stopped conn h'.log ≡ true)

  first_told :
      (h h' : Handler H P) (t : Carrier) (v : ℕ)
      → (was_stopped v (h.log ++ stopped v ∷ []) ≡ false) ⊎ (was_stopped v h'.log ≡ true)
      → was_stopped v h'.log ≡ true
  first_told h h' t v (inr done) = done
  first_told h h' t v (inl none_yet) =
      let now = was_stopped-append v v h.log in absurd (ground (arith, now, none_yet))

  -- One entry, and what comes of the rest
  IsShutDown-step :
      (h h' : Handler H P) (t : Carrier) (k v : ℕ)
      → find h.channels k ≡ some v
      → t ≡ remove h.channels k
      → IsShutDown (act (stopped v) (record h { channels = t })) h'
      → IsShutDown h h'
  IsShutDown-step h h' t k v there rest d = record {
    emptied = d.emptied;
    told = λ channel. elim (Bool-cases (k == channel)) [
      | inl hit ↦ inr (
        v,
        subst (λ c. find h.channels c ≡ some v) ((==_iff k channel).0 hit) there,
        first_told h h' t v (d.kept v),
      )
      | inr other ↦
          let same : find t channel ≡ find h.channels channel =
            ap (λ x. find x channel) rest ∙ find-remove h.channels k channel ∙ rw other refl in
          elim (d.told channel) [
            | inl absent ↦ inl (sym same ∙ absent)
            | inr (conn, at, done) ↦ inr (conn, sym same ∙ at, done)
          ]
    ];
    kept = λ conn. elim (d.kept conn) [
      | inr done ↦ inr done
      | inl none_yet ↦ inl (
          or_false (was_stopped conn h.log) (v == conn)
            (sym (was_stopped-append conn v h.log) ∙ none_yet))
    ];
  }

  ended_now : (h : Handler H P) → pop h.channels ≡ none → IsShutDown h h
  ended_now h empty = record {
    emptied = λ channel. pop-none h.channels channel empty;
    told = λ channel. inl (pop-none h.channels channel empty);
    kept = λ conn. elim (Bool-cases (was_stopped conn h.log)) [
      | inl done ↦ inr done
      | inr none_yet ↦ inl none_yet
    ];
  }

  -- shutdown_channels ends with a round for each channel and one more; then no channel is
  -- registered, and every connection that was has been shut down.
  pub shutdown_channels-IsShutDown :
      (fuel : ℕ) (h : Handler H P)
      → size h.channels < fuel
      → (h' : Handler H P) × (shutdown_channels fuel h ≡ some h') × IsShutDown h h'
  unfolding shutdown_channels
  shutdown_channels-IsShutDown zero h enough = absurd (omega arith)
  shutdown_channels-IsShutDown (suc fuel) h enough = elim (Option-cases (pop h.channels)) [
    | inl empty ↦ (h, rw (shutdown_channels, empty) refl, ended_now h empty)
    | inr ((k, v, t), e) ↦
        let (there, rest, less) = pop-some h.channels t k v e in
        let (h', done, d) =
          shutdown_channels-IsShutDown fuel (act (stopped v) (record h { channels = t }))
            (omega arith) in
        (h', rw (shutdown_channels, e) done, IsShutDown-step h h' t k v there rest d)
  ]
