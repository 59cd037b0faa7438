-- ===== src/Routing/Reach.antt =====
-- A connection that was given an id receives what is addressed to it and to its compartments.
use oocore.Prelude.{
  ℕ, zero, suc, ◌*◌, ◌/◌, ◌%◌, ◌^◌, ◌<◌, ◌≡◌, ◌≢◌, sym, ap, subst, ◌∙◌, true, false, some, arith,
  ◌==◌,
}
use oocore.Routing.Table.{HashTable}
use oocore.Routing.Layout.{
  Widths, address, node_of, child_of, sub_of, prefix-address, address_of_parts,
}
use oocore.Routing.Handler.{Handler, Message, success, act, sent, word}
use oocore.Routing.Register.{insert_channel, register_channel}
use oocore.Routing.Register.Result.{IsLaidOut, register_channel-IsAdded, register_channel-address}
use oocore.Routing.Env.{Env}
use oocore.Routing.Send.{send_message, total_len, too_big}
use oocore.Routing.Receive.{forward_message}
use oocore.Routing.Route.{down, route_of, IsUpstream, follow, forward_message-route}

-- The fields that register_channel leaves alone.
record SameNode {H : HashTable ℕ} {P : Type 0} (h h' : Handler H P) : Type 0 where
  channel_id : h'.channel_id ≡ h.channel_id
  channel_mask : h'.channel_mask ≡ h.channel_mask
  child_mask : h'.child_mask ≡ h.child_mask
  next_channel_mask : h'.next_channel_mask ≡ h.next_channel_mask
  next_channel_shift : h'.next_channel_shift ≡ h.next_channel_shift
  upstream : h'.upstream ≡ h.upstream
  log : h'.log ≡ h.log

module _ {H : HashTable ℕ} {P : Type 0} where
  insert_channel-SameNode :
      (h : Handler H P) (conn id : ℕ) → SameNode h (insert_channel h conn id).1
  unfolding insert_channel
  insert_channel-SameNode h conn id = ground arith

  register_channel-SameNode :
      (h : Handler H P) (conn id : ℕ) (r : ℕ × Handler H P)
      → register_channel h conn id ≡ some r
      → SameNode h r.1
  unfolding register_channel insert_channel
  register_channel-SameNode h conn zero r e = ground arith
  register_channel-SameNode h conn (suc id) r e = ground arith

  SameNode-IsLaidOut :
      (w : Widths) {h h' : Handler H P} → SameNode h h' → IsLaidOut w h → IsLaidOut w h'
  SameNode-IsLaidOut w s l = record {
    mask_eq = s.channel_mask ∙ l.mask_eq;
    child_mask_eq = s.child_mask ∙ l.child_mask_eq;
    next_mask_eq = s.next_channel_mask ∙ l.next_mask_eq;
    shift_eq = s.next_channel_shift ∙ l.shift_eq;
    own = l.own;
    own_lt = l.own_lt;
    channel_id_eq = s.channel_id ∙ l.channel_id_eq;
  }

  -- Registering a connection keeps the layout of the handler's ids.
  pub register_channel-IsLaidOut :
      (w : Widths) (h : Handler H P) (conn id : ℕ) (r : ℕ × Handler H P)
      → IsLaidOut w h
      → register_channel h conn id ≡ some r
      → IsLaidOut w r.1
  register_channel-IsLaidOut w h conn id r l e =
      SameNode-IsLaidOut w (register_channel-SameNode h conn id r e) l

  send_message-sent :
      (env : Env P) (id conn : ℕ) (msg : Message P) (h : Handler H P)
      → HashTable.find H h.channels id ≡ some conn
      → too_big env msg ≡ false
      → env.header_ok msg ≡ true
      → env.send_ok h.log conn msg ≡ true
      → send_message env id msg h ≡ (success, act (sent id msg (total_len env msg % word)) h)
  unfolding send_message
  send_message-sent env id conn msg h found small ok taken = rw (small, ok, found, taken)

route-child :
    (w : Widths) (own upstream dest id : ℕ)
    → node_of w id ≡ own
    → 0 < child_of w id
    → sub_of w id ≡ 0
    → node_of w dest ≡ node_of w id
    → child_of w dest ≡ child_of w id
    → route_of w own upstream dest ≡ down id
unfolding route_of
route-child w own upstream dest id mine pos whole same_node same_child =
    let here : (node_of w dest == own) ≡ true = ground arith in
    let below : (child_of w dest == 0) ≡ false = ground arith in
    let prefix : dest / 2 ^ w.sub * 2 ^ w.sub ≡ id =
      prefix-address w dest
      ∙ ap (λ t. address w t (child_of w dest)) same_node
      ∙ ap (address w (node_of w id)) same_child
      ∙ sym (address_of_parts w id whole) in
    rw (here, below, prefix)

module _ {H : HashTable ℕ} {P : Type 0} (env : Env P) (thread : ℕ) (w : Widths) (h : Handler H P)
    (l : IsLaidOut w h) (u : IsUpstream h.upstream) where
  -- After register_channel, in a laid out handler whose upstream channel is the root's or none,
  -- has given a connection an id of its choice, a message with 32-bit ids for any address under
  -- that id is sent to that connection and nothing else changes, where the rules, the length, the
  -- header and the socket allow it.
  pub forward_message-reaches :
      (conn : ℕ) (r : ℕ × Handler H P) (msg : Message P)
      → register_channel h conn 0 ≡ some r
      → r.0 ≢ 0
      → msg.dest_channel_id < 2 ^ 32
      → msg.src_channel_id < 2 ^ 32
      → node_of w msg.dest_channel_id ≡ node_of w r.0
      → child_of w msg.dest_channel_id ≡ child_of w r.0
      → env.can_route msg.src_channel_id msg.dest_channel_id ≡ true
      → too_big env msg ≡ false
      → env.header_ok msg ≡ true
      → env.send_ok r.1.log conn msg ≡ true
      → forward_message env thread msg r.1
        ≡ (success, act (sent r.0 msg (total_len env msg % word)) r.1)
  unfolding SameNode-IsLaidOut
  forward_message-reaches conn r msg e nz dest-lt src-lt same_node same_child may small ok taken =
      let s = register_channel-SameNode h conn 0 r e in
      let l' = SameNode-IsLaidOut w s l in
      let parts = register_channel-address w h l conn r e nz in
      let added = register_channel-IsAdded h conn 0 r e nz in
      let u' = subst IsUpstream (sym s.upstream) u in
      forward_message-route env thread w r.1 l' u' msg dest-lt src-lt
      ∙ ap (follow env thread w l.own msg r.1) (
          route-child w l.own r.1.upstream msg.dest_channel_id r.0 parts.0 parts.1 parts.2 same_node
            same_child)
      ∙ rw (may, send_message-sent env r.0 conn msg r.1 added.connected small ok taken)
          (ground arith)
