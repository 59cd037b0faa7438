-- ===== src/Routing/Request.antt =====
-- What has happened when send_request waits for a response.
use oocore.Prelude.{
  ℕ, ◌%◌, ◌^◌, ◌<◌, ◌≤◌, ◌≡◌, ◌≢◌, refl, sym, ap, subst, ◌∙◌, ◌⊎◌, inl, inr, true, false, not, ◌&&◌,
  some, arith, ◌==◌, ltb, bit_and, if◌then◌else◌, Bool-cases, Option-cases,
}
use oocore.Routing.Table.{HashTable}
use oocore.Routing.Layout.{Widths, address, node_of, child_of, prefix-address, address-zero}
use oocore.Routing.Handler.{
  Handler, Message, request, IoResult, success, channel_closed, failed, word, act, sent, sent_off,
  asynchronous,
}
use oocore.Routing.Env.{Env}
use oocore.Routing.Register.Result.{IsLaidOut}
use oocore.Routing.Receive.{is_own}
use oocore.Routing.Route.{IsUpstream, is_own-node, masks-down, is_off-lt}
use oocore.Routing.Send.{
  awaiting, total_len, too_big, channel_thread, actual_dest, is_off, send_message, call_route_off,
  send, continue_request, send_request,
}

-- The channel by which a message for `dest` leaves the node `own`: the id of the child that has it,
-- whatever its compartment, or else the upstream channel.
unfoldable pub exit_of : Widths → ℕ → ℕ → ℕ → ℕ
exit_of w own upstream dest =
    if node_of w dest == own then address w own (child_of w dest) else upstream

module _ {H : HashTable ℕ} {P : Type 0} (env : Env P) where
  send_message-success :
      (actual : ℕ) (msg : Message P) (h h' : Handler H P)
      → send_message env actual msg h ≡ (success, h')
      → (conn : ℕ) × (HashTable.find H h.channels actual ≡ some conn)
        × (env.send_ok h.log conn msg ≡ true)
        × (h' ≡ act (sent actual msg (total_len env msg % word)) h)
  unfolding send_message
  send_message-success actual msg h h' e = elim (Bool-cases (too_big env msg)) [
    | inl f ↦ absurd (ground (arith, e, f))
    | inr f ↦ elim (Bool-cases (env.header_ok msg)) [
      | inr g ↦ absurd (ground (arith, e, f, g))
      | inl g ↦ elim (Option-cases (HashTable.find H h.channels actual)) [
        | inl k ↦ absurd (ground (arith, e, f, g, k))
        | inr (conn, k) ↦ elim (Bool-cases (env.send_ok h.log conn msg)) [
          | inr o ↦ absurd (ground (arith, e, f, g, k, o))
          | inl o ↦ (conn, k, o, ground (arith, e, f, g, k, o))
        ]
      ]
    ]
  ]

  -- A request from `src`
  abbrev pub request_message : ℕ → ℕ → ℕ → P → ℕ → Handler H P → Message P
  request_message src thread dest payload attribs h = record {
    dest_channel_id = dest;
    src_channel_id = src;
    attribs = attribs;
    dest_thread_id = channel_thread h.contexts thread dest;
    src_thread_id = thread;
    type = request;
    payload = payload;
  }

  continue_request-awaiting :
      (attribs actual a : ℕ) (r : IoResult × Handler H P) (h' : Handler H P)
      → continue_request env attribs actual r ≡ (awaiting a, h')
      → (r ≡ (success, h')) × (actual ≡ a) × (bit_and attribs asynchronous ≡ 0)
  continue_request-awaiting attribs actual a (success, h) h' e =
      elim (Bool-cases (bit_and attribs asynchronous == 0)) [
        | inl f ↦
            let at : actual ≡ a = ground (arith, e, f) in
            let same : h ≡ h' = ground (arith, e, f) in
            (ap (λ x. (success, x)) same, at, ground (arith, f))
        | inr f ↦ absurd (ground (arith, e, f))
      ]
  continue_request-awaiting attribs actual a (channel_closed, h) h' e = absurd (ground (arith, e))
  continue_request-awaiting attribs actual a (failed, h) h' e = absurd (ground (arith, e))

  -- `msg` has gone out: off this machine, where the handler is below the root and the address is
  -- not one of its machine, or else to the connection that is registered for the channel `a`.
  abbrev pub HasGone : Message P → ℕ → Handler H P → Handler H P → Type 0
  HasGone msg a h h' =
      ((h.upstream ≢ 0) × (msg.dest_channel_id < 2 ^ 31) × (h' ≡ act (sent_off msg) h))
      ⊎ (((h.upstream ≡ 0) ⊎ (2 ^ 31 ≤ msg.dest_channel_id))
          × (conn : ℕ) × (HashTable.find H h.channels a ≡ some conn)
          × (env.send_ok h.log conn msg ≡ true)
          × (h' ≡ act (sent a msg (total_len env msg % word)) h))

  send-HasGone :
      (msg : Message P) (h h' : Handler H P)
      → IsUpstream h.upstream
      → msg.dest_channel_id < 2 ^ 32
      → send env msg h ≡ (success, h')
      → HasGone msg (actual_dest h msg.dest_channel_id) h h'
  unfolding send call_route_off
  send-HasGone msg h h' u small e =
      let dest = msg.dest_channel_id in
      let test = is_off-lt h dest u small in
      elim (Bool-cases (is_off h dest)) [
        | inl off ↦
            let outside : (not (h.upstream == 0) && ltb dest (2 ^ 31)) ≡ true = sym test ∙ off in
            inl (ground (arith, outside), ground (arith, outside), ground (arith, off, e))
        | inr on ↦
            let inside : (not (h.upstream == 0) && ltb dest (2 ^ 31)) ≡ false = sym test ∙ on in
            let (conn, found, taken, done) =
              send_message-success (actual_dest h dest) msg h h' (ground (arith, on, e)) in
            inr (ground (arith, inside), conn, found, taken, done)
      ]

module _ {H : HashTable ℕ} {P : Type 0} (env : Env P) (w : Widths) (h : Handler H P)
    (l : IsLaidOut w h) (u : IsUpstream h.upstream) where
  actual_dest-exit_of :
      (dest : ℕ) → dest < 2 ^ 32 → actual_dest h dest ≡ exit_of w l.own h.upstream dest
  unfolding actual_dest exit_of is_own
  actual_dest-exit_of dest small =
      let mine = is_own-node w h l dest small in
      let prefix = masks-down w h l dest small ∙ prefix-address w dest in
      elim (Bool-cases (node_of w dest == l.own)) [
        | inl f ↦
            let same : node_of w dest ≡ l.own = ground (arith, f) in
            rw (mine, f) (prefix ∙ ap (λ n. address w n (child_of w dest)) same)
        | inr f ↦ rw (mine, f) refl
      ]

  -- Where send_request comes to the wait for a response, for a 32-bit id in a laid out handler
  -- whose upstream channel is the root's or none, the request is not asynchronous, and the wait is
  -- for the id of the child that the destination's address names, without its compartment, or for
  -- the upstream channel if the address is another node's. A request from the handler's own id has
  -- gone out, and nothing else has changed: to the connection that is registered for the channel
  -- that is waited for, or to route_off where the handler is below the root and the address is
  -- below the root's half.
  pub send_request-awaiting :
      (thread dest : ℕ) (payload : P) (attribs a : ℕ) (h' : Handler H P)
      → dest < 2 ^ 32
      → send_request env thread dest payload attribs h ≡ (awaiting a, h')
      → (bit_and attribs asynchronous ≡ 0)
        × (a ≡ exit_of w l.own h.upstream dest)
        × HasGone env (request_message env (address w l.own 0) thread dest payload attribs h) a h h'
  unfolding send_request
  send_request-awaiting thread dest payload attribs a h' small e =
      let asked = λ (src : ℕ). request_message env src thread dest payload attribs h in
      let own : h.channel_id ≡ address w l.own 0 = l.channel_id_eq ∙ sym (address-zero w l.own) in
      let (ok, at, sync) =
        continue_request-awaiting env attribs (actual_dest h dest) a
          (send env (asked h.channel_id) h) h' e in
      let gone = send-HasGone env (asked h.channel_id) h h' u small ok in
      (
        sync,
        sym at ∙ actual_dest-exit_of dest small,
        subst (λ x. HasGone env (asked x) a h h') own
            (subst (λ x. HasGone env (asked h.channel_id) x h h') at gone),
      )
