-- ===== src/Routing/Route.antt =====
-- Routing by the parts of an address, which the handler reads off its masks.
use oocore.Prelude.{
  ℕ, ◌*◌, ◌/◌, ◌^◌, ◌<◌, bit_and, bit_or, ◌≡◌, ◌⊎◌, inl, inr, refl, ap, ◌∙◌, Bool, true, false, not,
  ◌&&◌, arith, ◌==◌, ltb, if◌then◌else◌,
}
use oocore.Prelude.Bits.{bit_and_field}
use oocore.Routing.Table.{HashTable}
use oocore.Routing.Layout.{Widths, node_of, child_of, test_own, test_child, both_masks}
use oocore.Routing.Handler.{Handler, Message, Incoming, corrupt, truncated, whole, IoResult, failed}
use oocore.Routing.Register.Result.{IsLaidOut}
use oocore.Routing.Env.{Env}
use oocore.Routing.Send.{is_off, send_message, call_route_off}
use oocore.Routing.Receive.{
  is_own, handle_message, forward_message, accept, relay, queue_route_off, route_input,
  parse_message,
}

-- Where a message for `dest` goes from the node `own`: kept, down to a child's connection, off the
-- machine, or up to the upstream handler.
pub data Route : Type 0 where
  keep : Route
  down : ℕ → Route
  off : Route
  up : Route

unfoldable pub route_of : Widths → ℕ → ℕ → ℕ → Route
route_of w own upstream dest =
    if node_of w dest == own
    then if child_of w dest == 0 then keep else down (dest / 2 ^ w.sub * 2 ^ w.sub)
    else if not (upstream == 0) && ltb dest (2 ^ 31)
    then off
    else up

-- The channel of the root in every other handler, and none in the root.
abbrev pub IsUpstream : ℕ → Type 0
IsUpstream u = (u ≡ 0) ⊎ (u ≡ 2 ^ 31)

module _ {H : HashTable ℕ} {P : Type 0} (w : Widths) (h : Handler H P) (l : IsLaidOut w h) where
  pub is_own-node : (x : ℕ) → x < 2 ^ 32 → is_own h x ≡ (node_of w x == l.own)
  unfolding is_own
  is_own-node x small = rw (l.mask_eq, l.channel_id_eq) (test_own w x l.own small)

  pub child_mask-child : (x : ℕ) → (bit_and x h.child_mask == 0) ≡ (child_of w x == 0)
  child_mask-child x = rw l.child_mask_eq (test_child w x)

  pub masks-down :
      (x : ℕ)
      → x < 2 ^ 32
      → bit_and x (bit_or h.channel_mask h.child_mask) ≡ x / 2 ^ w.sub * 2 ^ w.sub
  masks-down x small = rw (l.mask_eq, l.child_mask_eq) (both_masks w x small)

pub is_off-lt :
    {H : HashTable ℕ} {P : Type 0} (h : Handler H P) (x : ℕ)
    → IsUpstream h.upstream
    → x < 2 ^ 32
    → is_off h x ≡ (not (h.upstream == 0) && ltb x (2 ^ 31))
unfolding is_off
is_off-lt h x (inl root) small = rw root refl
is_off-lt h x (inr e) small = rw (e, bit_and_field 31 1 x) (ground arith)

module _ {H : HashTable ℕ} {P : Type 0} (env : Env P) (thread : ℕ) where
  -- What forward_message does along a route.
  abbrev pub follow : Widths → ℕ → Message P → Handler H P → Route → IoResult × Handler H P
  follow w own msg h keep = handle_message env thread msg h
  follow w own msg h (down id) =
      if (node_of w msg.src_channel_id == own)
        && not (env.can_route msg.src_channel_id msg.dest_channel_id)
      then (failed, h)
      else send_message env id msg h
  follow w own msg h off = call_route_off env msg h
  follow w own msg h up = send_message env h.upstream msg h

  -- What parse_message does along a route.
  abbrev pub pass_on : Widths → ℕ → ℕ → ℕ → Incoming P → Handler H P → Route → Bool × Handler H P
  pass_on w own dest src input h keep = accept env thread input h
  pass_on w own dest src input h (down id) =
      if (node_of w src == own) && not (env.can_route src dest)
      then (false, h)
      else relay env thread id src dest input h
  pass_on w own dest src input h off = (true, queue_route_off env input h)
  pass_on w own dest src input h up = relay env thread h.upstream src dest input h

module _ {H : HashTable ℕ} {P : Type 0} (env : Env P) (thread : ℕ) (w : Widths) (h : Handler H P)
    (l : IsLaidOut w h) (u : IsUpstream h.upstream) where
  -- In a laid out handler whose upstream channel is the root's or none, forward_message does with
  -- a message what the route of its destination's address says, for 32-bit ids.
  pub forward_message-route :
      (msg : Message P)
      → msg.dest_channel_id < 2 ^ 32
      → msg.src_channel_id < 2 ^ 32
      → forward_message env thread msg h
        ≡ follow env thread w l.own msg h (route_of w l.own h.upstream msg.dest_channel_id)
  unfolding forward_message route_of
  forward_message-route msg dest-lt src-lt =
      rw
        (
          is_own-node w h l msg.dest_channel_id dest-lt,
          is_own-node w h l msg.src_channel_id src-lt,
          child_mask-child w h l msg.dest_channel_id,
          masks-down w h l msg.dest_channel_id dest-lt,
          is_off-lt h msg.dest_channel_id u dest-lt,
        )
        (ground arith)

  route_input-route :
      (dest src : ℕ) (input : Incoming P)
      → dest < 2 ^ 32
      → src < 2 ^ 32
      → route_input env thread dest src input h
        ≡ pass_on env thread w l.own dest src input h (route_of w l.own h.upstream dest)
  unfolding route_input route_of
  route_input-route dest src input dest-lt src-lt =
      rw
        (
          is_own-node w h l dest dest-lt,
          is_own-node w h l src src-lt,
          child_mask-child w h l dest,
          masks-down w h l dest dest-lt,
          is_off-lt h dest u dest-lt,
        )
        (ground arith)

  -- In a laid out handler whose upstream channel is the root's or none, parse_message does with a
  -- buffer what the route of its destination's address says, for 32-bit ids, with a whole buffer
  -- and with one whose rest after the two ids cannot be read; it refuses a buffer whose ids cannot
  -- be read.
  pub parse_message-route :
      (dest src : ℕ) (msg : Message P)
      → dest < 2 ^ 32
      → src < 2 ^ 32
      → msg.dest_channel_id ≡ dest
      → msg.src_channel_id ≡ src
      → (parse_message env thread (whole msg) h
          ≡ pass_on env thread w l.own dest src (whole msg) h (route_of w l.own h.upstream dest))
        × (parse_message env thread (truncated dest src) h
            ≡ pass_on env thread w l.own dest src
                (truncated dest src)
                h
                (route_of w l.own h.upstream dest))
        × (parse_message env thread corrupt h ≡ (false, h))
  unfolding parse_message
  parse_message-route dest src msg dest-lt src-lt d s = (
    ap (λ t. route_input env thread t msg.src_channel_id (whole msg) h) d
        ∙ ap (λ t. route_input env thread dest t (whole msg) h) s
        ∙ route_input-route dest src (whole msg) dest-lt src-lt,
    route_input-route dest src (truncated dest src) dest-lt src-lt,
    refl,
  )
