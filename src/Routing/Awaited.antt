-- ===== src/Routing/Awaited.antt =====
-- What wait_for_response waits for, that it ends, and what it leaves behind.
use oocore.Prelude.{
  ℕ, zero, suc, ◌<◌, ◌≡◌, refl, sym, ap, subst, ◌∙◌, ◌⊎◌, inl, inr, Bool, true, false, Option, none,
  some, List, [], ◌∷◌, Option-cases, arith, take, drop,
}
use oocore.Routing.Table.{HashTable, is_some}
use oocore.Routing.Handler.{response, request, Handler, IoResult, success, channel_closed, failed}
use oocore.Routing.Env.{Env}
use oocore.Routing.Send.{close_channel}
use oocore.Routing.Close.{close_channel-find}
use oocore.Routing.Wait.{
  Manager, Popped, message, pulsed, closed, error, Turn, Waited, process_request_context,
  wait_for_response,
}
use oocore.Routing.Nested.{NothingNew, NothingNew-trans, Tidy, process_request_context-NothingNew}

module _ {P : Type 0} where
  -- The result with which a pop ends a wait: a response, the end of the queue, or its failure
  unfoldable pub ending : Popped P → Option (IoResult × Option P)
  ending (message msg) = elim msg.type [
    | response ↦ some (success, some msg.payload)
    | request ↦ none
  ]
  ending pulsed = none
  ending closed = some (channel_closed, none)
  ending error = some (failed, none)

module _ {H : HashTable ℕ} {P : Type 0} where
  -- The first of the turns that ends the wait by what is popped
  unfoldable pub first_ending : List (Turn H P) → Option (IoResult × Option P)
  first_ending [] = none
  first_ending (turn ∷ turns) = elim (ending turn.popped) [
    | some e ↦ some e
    | none ↦ first_ending turns
  ]

  handler_of : Handler H P → Option (Waited H P) → Handler H P
  handler_of h none = h
  handler_of h (some w) = w.handler

  module _ (manager : Manager H P) (thread from : ℕ) where
    -- What a pop that does not end the wait makes of the state
    unfoldable pub worked : Popped P → Handler H P → Handler H P
    worked (message msg) h = (process_request_context manager thread msg h).0
    worked pulsed h = h
    worked closed h = h
    worked error h = h

    wait-gone :
        (turns : List (Turn H P)) (h : Handler H P)
        → HashTable.find H h.channels from ≡ none
        → wait_for_response manager thread from turns h
          ≡ some (record { handler = h; result = channel_closed; payload = none })
    unfolding wait_for_response
    wait-gone [] h e = rw (wait_for_response, e) refl
    wait-gone (turn ∷ turns) h e = rw (wait_for_response, e) refl

    wait-ends :
        (turn : Turn H P) (turns : List (Turn H P)) (h : Handler H P) (conn : ℕ) (r : IoResult)
        (p : Option P)
        → HashTable.find H h.channels from ≡ some conn
        → ending turn.popped ≡ some (r, p)
        → wait_for_response manager thread from (turn ∷ turns) h
          ≡ some (record { handler = turn.meanwhile h; result = r; payload = p })
    unfolding wait_for_response ending
    wait-ends turn turns h conn r p e d = ground arith

    wait-goes_on :
        (turn : Turn H P) (turns : List (Turn H P)) (h : Handler H P) (conn : ℕ)
        → HashTable.find H h.channels from ≡ some conn
        → ending turn.popped ≡ none
        → wait_for_response manager thread from (turn ∷ turns) h
          ≡ wait_for_response manager thread from turns (worked turn.popped (turn.meanwhile h))
    unfolding wait_for_response ending worked
    wait-goes_on turn turns h conn e d = ground arith

    -- What the turns make of the state, if none of them ends the wait
    unfoldable pub reached : List (Turn H P) → Handler H P → Handler H P
    unfolding worked
    reached [] h = h
    reached (turn ∷ turns) h = reached turns (worked turn.popped (turn.meanwhile h))

    abbrev pub is_registered : Handler H P → Bool
    is_registered h = is_some (HashTable.find H h.channels from)

    -- How a wait ends after `count` turns: the channel has been registered before each of them and
    -- none of them has ended the wait, and then the channel has gone, or the next pop ends it.
    pub record Ends (turns : List (Turn H P)) (h : Handler H P) (w : Waited H P) : Type 0 where
      pub count : ℕ
      pub registered : (k : ℕ) → k < count → is_registered (reached (take k turns) h) ≡ true
      pub working : first_ending (take count turns) ≡ none
      pub last :
          ((is_registered (reached (take count turns) h) ≡ false)
            × (w ≡ record {
              handler = reached (take count turns) h;
              result = channel_closed;
              payload = none;
            }))
          ⊎ ((is_registered (reached (take count turns) h) ≡ true)
              × (turn : Turn H P) × (rest : List (Turn H P)) × (drop count turns ≡ turn ∷ rest)
              × (ending turn.popped ≡ some (w.result, w.payload))
              × (turn.meanwhile (reached (take count turns) h) ≡ w.handler))

    registered-more :
        (turn : Turn H P) (turns : List (Turn H P)) (h : Handler H P) (n k : ℕ)
        → is_registered h ≡ true
        → ((j : ℕ)
            → j < n
            → is_registered (reached (take j turns) (worked turn.popped (turn.meanwhile h))) ≡ true)
        → k < suc n
        → is_registered (reached (take k (turn ∷ turns)) h) ≡ true
    unfolding reached
    registered-more turn turns h n zero there after less = there
    registered-more turn turns h n (suc k) there after less = after k (omega (arith, less))

    Ends-more :
        (turn : Turn H P) (turns : List (Turn H P)) (h : Handler H P) (w : Waited H P)
        → is_registered h ≡ true
        → ending turn.popped ≡ none
        → Ends turns (worked turn.popped (turn.meanwhile h)) w
        → Ends (turn ∷ turns) h w
    unfolding reached first_ending
    Ends-more turn turns h w there more ends = record {
      count = suc ends.count;
      registered = λ k less. registered-more turn turns h ends.count k there ends.registered less;
      working = rw (first_ending, more) ends.working;
      last = ends.last;
    }

    -- If one of the pops gives a response, the end of the queue or its failure, wait_for_response
    -- returns, after turns before each of which the channel was registered and none of which ended
    -- the wait, whatever the other threads and the requests that were processed did: with
    -- channel_closed in the state that these turns reached, where the channel is no longer
    -- registered in it; or else with what the next pop gives, a response with its payload.
    pub wait_for_response-Ends :
        (turns : List (Turn H P)) (h : Handler H P) (e : IoResult × Option P)
        → first_ending turns ≡ some e
        → (w : Waited H P) × (wait_for_response manager thread from turns h ≡ some w)
          × Ends turns h w
    unfolding first_ending reached
    wait_for_response-Ends [] h e d = absurd (cc)
    wait_for_response-Ends (turn ∷ turns) h e d =
        elim (Option-cases (HashTable.find H h.channels from)) [
          | inl gone ↦ (
            record { handler = h; result = channel_closed; payload = none },
            wait-gone (turn ∷ turns) h gone,
            record {
              count = 0;
              registered = λ k less. absurd (omega (arith, less));
              working = refl;
              last = inl (rw gone refl, refl);
            },
          )
          | inr (conn, there) ↦ elim (Option-cases (ending turn.popped)) [
            | inr ((r, p), ends) ↦ (
              record { handler = turn.meanwhile h; result = r; payload = p },
              wait-ends turn turns h conn r p there ends,
              record {
                count = 0;
                registered = λ k less. absurd (omega (arith, less));
                working = refl;
                last = inr (rw there refl, turn, turns, refl, ends, refl);
              },
            )
            | inl more ↦
                let (w, got, ends) =
                  wait_for_response-Ends turns (worked turn.popped (turn.meanwhile h)) e
                    (rw (first_ending, more) at d) in
                (
                  w,
                  wait-goes_on turn turns h conn there more ∙ got,
                  Ends-more turn turns h w (rw there refl) more ends,
                )
          ]
        ]

    abbrev pub TidyTurns : List (Turn H P) → Type 0
    TidyTurns [] = Unit {0}
    TidyTurns (turn ∷ turns) =
        ((h : Handler H P) → NothingNew thread h (turn.meanwhile h)) × TidyTurns turns

    stopped :
        (h : Handler H P) (r : IoResult) (p : Option P) (w : Waited H P)
        → some (record { handler = h; result = r; payload = p }) ≡ some w
        → NothingNew thread h w.handler
    unfolding handler_of
    stopped h r p w e =
        let same : h ≡ w.handler = ap (λ (o : Option (Waited H P)). handler_of h o) e in
        subst (λ x. NothingNew thread h x) same (λ j. inl refl)

    worked-NothingNew :
        Tidy manager thread
        → (popped : Popped P) (h : Handler H P) → NothingNew thread h (worked popped h)
    unfolding worked
    worked-NothingNew tidy (message msg) h =
        process_request_context-NothingNew manager thread tidy msg h
    worked-NothingNew tidy pulsed h = λ j. inl refl
    worked-NothingNew tidy closed h = λ j. inl refl
    worked-NothingNew tidy error h = λ j. inl refl

    -- Where neither the requests themselves nor the other threads put anything into the thread's
    -- context, the context after a wait has, for each channel, the thread that it had before or
    -- none, however many requests have been processed meanwhile.
    pub wait_for_response-NothingNew :
        Tidy manager thread
        → (turns : List (Turn H P)) (h : Handler H P) (w : Waited H P) → TidyTurns turns
        → wait_for_response manager thread from turns h ≡ some w
        → NothingNew thread h w.handler
    unfolding wait_for_response
    wait_for_response-NothingNew tidy [] h w quiet e =
        elim (Option-cases (HashTable.find H h.channels from)) [
          | inl gone ↦ stopped h channel_closed none w (sym (wait-gone [] h gone) ∙ e)
          | inr (conn, there) ↦
              let waits : wait_for_response manager thread from [] h ≡ none =
                rw (wait_for_response, there) refl in
              absurd (let both = sym waits ∙ e in cc)
        ]
    wait_for_response-NothingNew tidy (turn ∷ turns) h w quiet e =
        elim (Option-cases (HashTable.find H h.channels from)) [
          | inl gone ↦ stopped h channel_closed none w (sym (wait-gone (turn ∷ turns) h gone) ∙ e)
          | inr (conn, there) ↦ elim (Option-cases (ending turn.popped)) [
            | inr ((r, p), last) ↦
                NothingNew-trans thread h (turn.meanwhile h) w.handler (quiet.0 h) (
                  stopped (turn.meanwhile h) r p w
                    (sym (wait-ends turn turns h conn r p there last) ∙ e))
            | inl more ↦ NothingNew-trans thread h (turn.meanwhile h) w.handler (quiet.0 h) (
                NothingNew-trans thread (turn.meanwhile h) (worked turn.popped (turn.meanwhile h))
                  w.handler (worked-NothingNew tidy turn.popped (turn.meanwhile h))
                  (wait_for_response-NothingNew tidy turns (worked turn.popped (turn.meanwhile h)) w
                    quiet.1 (sym (wait-goes_on turn turns h conn there more) ∙ e)))
          ]
        ]

  module _ (env : Env P) (manager : Manager H P) where
    -- A thread that waits for a response through a registered channel returns channel_closed when
    -- another thread closes that channel and the wait is woken.
    pub wait_for_response-closed :
        (thread other from src conn : ℕ) (turns : List (Turn H P)) (h : Handler H P)
        → HashTable.find H h.channels from ≡ some conn
        → wait_for_response manager thread from
            (record { meanwhile = close_channel env other from src; popped = pulsed } ∷ turns)
            h
          ≡ some (record {
            handler = close_channel env other from src h;
            result = channel_closed;
            payload = none;
          })
    unfolding ending worked
    wait_for_response-closed thread other from src conn turns h there =
        wait-goes_on manager thread from
          (record { meanwhile = close_channel env other from src; popped = pulsed }) turns h conn
          there refl
        ∙ wait-gone manager thread from turns (close_channel env other from src h)
            (close_channel-find env other from src from h ∙ ground arith)
