-- ===== src/Routing/Nested.antt =====
-- Requests that are processed while a thread waits leave nothing behind in its context.
use oocore.Prelude.{
  ℕ, ◌≡◌, refl, sym, ap, subst, ◌∙◌, ◌⊎◌, inl, inr, true, false, Option, none, some, List, [], ◌∷◌,
  bit_and, ◌==◌, ==_iff, Bool-cases, Option-cases, if◌then◌else◌, arith,
}
use oocore.Routing.Table.{HashTable}
use oocore.Routing.Handler.{Message, Context, Handler, system_message, async_function}
use oocore.Routing.Wait.{
  Manager, threads_of, set_threads, enter_channel, leave_channel, store, restore,
  process_async_function, process_in_context, process_request_context,
}

module _ {H : HashTable ℕ} where
  open H use {Carrier, find}

  -- The thread that a thread's own context has for a channel
  abbrev pub own_thread : List (Context H) → ℕ → ℕ → Option ℕ
  own_thread cs thread channel = elim (threads_of cs thread) [
    | none ↦ none
    | some t ↦ find t channel
  ]

  threads_of-set_threads :
      (cs : List (Context H)) (thread : ℕ) (t t' : Carrier)
      → threads_of cs thread ≡ some t
      → threads_of (set_threads cs thread t') thread ≡ some t'
  unfolding threads_of set_threads
  threads_of-set_threads [] thread t t' e = absurd (cc)
  threads_of-set_threads (c ∷ cs) thread t t' e =
      ground (arith, threads_of-set_threads cs thread t t')

-- A state of one key after a request: that of the key itself, or of another
elsewhere :
    (channel src j : ℕ) (now before : Option ℕ)
    → (now ≡ (if channel == j then some src else before)) ⊎ (now ≡ none)
    → ((if channel == j then none else now) ≡ before)
      ⊎ ((if channel == j then none else now) ≡ none)
elsewhere channel src j now before h = elim (Bool-cases (channel == j)) [
  | inl hit ↦ rw hit (inr refl)
  | inr other ↦ rw (other) (rw other at h)
]

elsewhere' :
    (channel src j : ℕ) (now before : Option ℕ)
    → (channel ≡ j → now ≡ none)
    → (now ≡ (if channel == j then some src else before)) ⊎ (now ≡ none)
    → (now ≡ before) ⊎ (now ≡ none)
elsewhere' channel src j now before gone h = elim (Bool-cases (channel == j)) [
  | inl hit ↦ inr (gone ((==_iff channel j).0 hit))
  | inr other ↦ rw other at h
]

back :
    (channel src j : ℕ) (now before : Option ℕ) (old : ℕ)
    → (channel ≡ j → some old ≡ before)
    → (now ≡ (if channel == j then some src else before)) ⊎ (now ≡ none)
    → ((if channel == j then some old else now) ≡ before)
      ⊎ ((if channel == j then some old else now) ≡ none)
back channel src j now before old same h = elim (Bool-cases (channel == j)) [
  | inl hit ↦ rw hit (inl (same ((==_iff channel j).0 hit)))
  | inr other ↦ rw (other) (rw other at h)
]

module _ (H : HashTable ℕ) where
  open H use {Carrier, find, insert, assign, remove, find-insert, find-assign, find-remove}

  enter_channel-find :
      (t t' : Carrier) (channel src j : ℕ)
      → enter_channel H channel src t ≡ some t'
      → find t' j ≡ (if channel == j then some src else find t j)
  unfolding enter_channel
  enter_channel-find t t' channel src j e = elim (Option-cases (find t channel)) [
    | inl absent ↦ find-insert t t' channel j src absent (rw (enter_channel, absent) at e)
    | inr (old, there) ↦
        let written : some (assign t channel src) ≡ some t' = rw (enter_channel, there) at e in
        let same : assign t channel src ≡ t' = cc in
        ap (λ x. find x j) (sym same) ∙ find-assign t channel j src old there
  ]

  -- What is left at a channel after a request is what was there before, or nothing.
  leave_channel-find :
      (t t' t2 : Carrier) (channel src j : ℕ)
      → enter_channel H channel src t ≡ some t'
      → (find t2 j ≡ find t' j) ⊎ (find t2 j ≡ none)
      → (find (leave_channel H channel (find t channel) t2) j ≡ find t j)
        ⊎ (find (leave_channel H channel (find t channel) t2) j ≡ none)
  unfolding leave_channel
  leave_channel-find t t' t2 channel src j e h =
      let entered = enter_channel-find t t' channel src j e in
      elim (Option-cases (find t channel)) [
        | inl absent ↦
            rw (absent, find-remove t2 channel j)
              (elsewhere channel src j (find t2 j) (find t j) (rw entered at h))
        | inr (old, there) ↦ elim (Option-cases (find t2 channel)) [
          | inl gone ↦
              rw (there, gone)
                (elsewhere' channel src j (find t2 j) (find t j)
                  (λ hit. ap (λ k. find t2 k) (sym hit) ∙ gone) (rw entered at h))
          | inr (x, still) ↦
              rw (there, still, find-assign t2 channel j old x still)
                (back channel src j (find t2 j) (find t j) old
                  (λ hit. sym there ∙ ap (λ k. find t k) hit) (rw entered at h))
        ]
      ]

module _ {H : HashTable ℕ} {P : Type 0} where
  -- Compared with a state before, a thread's context has lost entries at most.
  abbrev pub NothingNew : ℕ → Handler H P → Handler H P → Type 0
  NothingNew thread h h' =
      (j : ℕ)
      → (own_thread h'.contexts thread j ≡ own_thread h.contexts thread j)
        ⊎ (own_thread h'.contexts thread j ≡ none)

  pub NothingNew-trans :
      (thread : ℕ) (h h' h'' : Handler H P)
      → NothingNew thread h h'
      → NothingNew thread h' h''
      → NothingNew thread h h''
  NothingNew-trans thread h h' h'' p q j = elim (q j) [
    | inr gone ↦ inr gone
    | inl kept ↦ elim (p j) [ inl same ↦ inl (kept ∙ same) | inr gone ↦ inr (kept ∙ gone) ]
  ]

module _ {H : HashTable ℕ} {P : Type 0} (manager : Manager H P) (thread : ℕ) where
  open H use {Carrier, find}

  abbrev pub Tidy : Type 0
  Tidy =
      ((msg : Message P) (h : Handler H P) → NothingNew thread h (manager.process_request msg h))
      × ((payload : P) (h : Handler H P) → NothingNew thread h (manager.call_function payload h).0)

  own_thread-threads_of :
      (cs : List (Context H)) (t : Carrier) (j : ℕ)
      → threads_of cs thread ≡ some t
      → own_thread cs thread j ≡ find t j
  own_thread-threads_of cs t j e = ground arith

  own_thread-lost :
      (cs : List (Context H)) (j : ℕ) → threads_of cs thread ≡ none → own_thread cs thread j ≡ none
  own_thread-lost cs j e = ground arith

  -- Before and after the request itself
  restore-NothingNew :
      (t t' : Carrier) (channel src : ℕ) (h h2 : Handler H P)
      → threads_of h.contexts thread ≡ some t
      → enter_channel H channel src t ≡ some t'
      → NothingNew thread (store thread t' h) h2
      → NothingNew thread h (restore thread channel (find t channel) h2)
  unfolding store restore
  restore-NothingNew t t' channel src h h2 there entered kept j =
      let own1 : own_thread (store thread t' h).contexts thread j ≡ find t' j =
        own_thread-threads_of (set_threads h.contexts thread t') t' j
          (threads_of-set_threads h.contexts thread t t' there) in
      let own = own_thread-threads_of h.contexts t j there in
      elim (Option-cases (threads_of h2.contexts thread)) [
        | inl lost ↦
            let stays : restore thread channel (find t channel) h2 ≡ h2 = rw (restore, lost) refl in
            inr
              (ap (λ x. own_thread x.contexts thread j) stays ∙ own_thread-lost h2.contexts j lost)
        | inr (t2, there2) ↦
            let left = leave_channel H channel (find t channel) t2 in
            let done : restore thread channel (find t channel) h2 ≡ store thread left h2 =
              rw (restore, there2) refl in
            let own2 = own_thread-threads_of h2.contexts t2 j there2 in
            let ends : own_thread (restore thread channel (find t channel) h2).contexts thread j
                ≡ find left j =
              ap (λ x. own_thread x.contexts thread j) done
              ∙ own_thread-threads_of (set_threads h2.contexts thread left) left j
                  (threads_of-set_threads h2.contexts thread t2 left there2) in
            let before : (find t2 j ≡ find t' j) ⊎ (find t2 j ≡ none) = elim (kept j) [
              | inl same ↦ inl (sym own2 ∙ same ∙ own1)
              | inr gone ↦ inr (sym own2 ∙ gone)
            ] in
            elim (leave_channel-find H t t' t2 channel src j entered before) [
              | inl same ↦ inl (ends ∙ same ∙ sym own)
              | inr gone ↦ inr (ends ∙ gone)
            ]
      ]

  process_in_context-NothingNew :
      Tidy
      → (msg : Message P) (h : Handler H P)
      → NothingNew thread h (process_in_context manager thread msg h).0
  unfolding process_in_context
  process_in_context-NothingNew tidy msg h = elim (Option-cases (threads_of h.contexts thread)) [
    | inl lost ↦
        let e : process_in_context manager thread msg h ≡ (h, false) =
          rw (process_in_context, lost) refl in
        subst (λ r. NothingNew thread h r.0) (sym e) (λ j. inl refl)
    | inr (t, there) ↦
        elim (Option-cases (enter_channel H msg.src_channel_id msg.src_thread_id t)) [
          | inl full ↦
              let e : process_in_context manager thread msg h ≡ (h, false) =
                rw (process_in_context, there, full) refl in
              subst (λ r. NothingNew thread h r.0) (sym e) (λ j. inl refl)
          | inr (t', entered) ↦
              let h2 = manager.process_request msg (store thread t' h) in
              let e : process_in_context manager thread msg h
                  ≡ (restore thread msg.src_channel_id (find t msg.src_channel_id) h2, true) =
                rw (process_in_context, there, entered) refl in
              subst (λ r. NothingNew thread h r.0) (sym e)
                (restore-NothingNew t t' msg.src_channel_id msg.src_thread_id h h2 there entered
                  (tidy.0 msg (store thread t' h)))
        ]
  ]

  process_async_function-NothingNew :
      Tidy
      → (msg : Message P) (h : Handler H P)
      → NothingNew thread h (process_async_function manager msg h).0
  unfolding process_async_function
  process_async_function-NothingNew tidy msg h = elim (Bool-cases (manager.can_read msg.payload)) [
    | inl readable ↦
        let e : process_async_function manager msg h ≡ manager.call_function msg.payload h =
          rw (process_async_function, readable) refl in
        subst (λ r. NothingNew thread h r.0) (sym e) (tidy.1 msg.payload h)
    | inr corrupt ↦
        let e : process_async_function manager msg h ≡ (h, false) =
          rw (process_async_function, corrupt) refl in
        subst (λ r. NothingNew thread h r.0) (sym e) (λ j. inl refl)
  ]

  pub process_request_context-NothingNew :
      Tidy
      → (msg : Message P) (h : Handler H P)
      → NothingNew thread h (process_request_context manager thread msg h).0
  unfolding process_request_context
  process_request_context-NothingNew tidy msg h =
      elim (Bool-cases (bit_and msg.attribs system_message == async_function)) [
        | inr plain ↦
            let e : process_request_context manager thread msg h
                ≡ process_in_context manager thread msg h =
              rw (process_request_context, plain) refl in
            subst (λ r. NothingNew thread h r.0) (sym e) (process_in_context-NothingNew tidy msg h)
        | inl function ↦
            let e : process_request_context manager thread msg h
                ≡ process_async_function manager msg h =
              rw (process_request_context, function) refl in
            subst (λ r. NothingNew thread h r.0) (sym e)
              (process_async_function-NothingNew tidy msg h)
      ]
