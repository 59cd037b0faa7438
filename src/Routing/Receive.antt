-- ===== src/Routing/Receive.antt =====
-- Receiving: parse_message, forward_message, handle_message and queue_message, of
-- src/OOServer/MessageConnection.cpp.
use oocore.Prelude.{
  ℕ, ◌+◌, ◌-◌, ◌%◌, ◌^◌, bit_and, bit_or, Bool, true, false, not, ◌&&◌, ◌||◌, Option, none, some,
  List, [], ◌∷◌, map, ◌==◌, leb, if◌then◌else◌,
}
use oocore.Routing.Table.{HashTable}
use oocore.Routing.Handler.{
  MessageType, response, request, Message, Incoming, corrupt, truncated, whole, IoResult, success,
  channel_closed, failed, Context, Handler, word, act, queued, started, relayed, asynchronous,
  system_message, channel_close, channel_reflect, channel_ping, async_function,
}
use oocore.Routing.Env.{Env, QueueResult}
use oocore.Routing.Send.{
  is_off, send_message, call_route_off, send_response, send_channel_close, close_channel,
}

abbrev is_request : MessageType → Bool
is_request request = true
is_request response = false

abbrev is_success : IoResult → Bool
is_success success = true
is_success channel_closed = false
is_success failed = false

module _ {H : HashTable ℕ} where
  has_context : ℕ → List (Context H) → Bool
  has_context thread [] = false
  has_context thread (c ∷ cs) = c.thread_id == thread || has_context thread cs

  abbrev forget_channel : ℕ → Context H → Context H
  forget_channel channel c = record c {
    channel_threads = HashTable.remove H c.channel_threads channel;
  }

module _ {H : HashTable ℕ} {P : Type 0} where
  -- (id & m_uChannelMask) == m_uChannelId
  unfoldable pub is_own : Handler H P → ℕ → Bool
  is_own h id = bit_and id h.channel_mask == h.channel_id

module _ {H : HashTable ℕ} {P : Type 0} (env : Env P) where
  -- A message for a thread goes to its queue, if there is such a thread; else to the default queue.
  unfoldable pub queue_message : Message P → Handler H P → IoResult × Handler H P
  unfolding has_context
  queue_message msg h =
      if msg.dest_thread_id == 0
      then elim (env.push h.log 0 msg) [
        | QueueResult.success ↦ (
          success,
          if leb (env.waiting h.log) 1
              then act started (act (queued 0 msg) h)
              else act (queued 0 msg) h,
        )
        | QueueResult.closed ↦ (channel_closed, h)
        | QueueResult.error ↦ (failed, h)
      ]
      else if has_context msg.dest_thread_id h.contexts
      then elim (env.push h.log msg.dest_thread_id msg) [
        | QueueResult.success ↦ (success, act (queued msg.dest_thread_id msg) h)
        | QueueResult.closed ↦ (channel_closed, h)
        | QueueResult.error ↦ (failed, h)
      ]
      else (channel_closed, h)

  unfoldable pub process_channel_close : ℕ → Message P → Handler H P → IoResult × Handler H P
  unfolding close_channel
  process_channel_close thread msg h = elim (env.read_u32 msg.payload) [
    | none ↦ (failed, h)
    | some channel ↦
        let h' = close_channel env thread channel msg.src_channel_id h in
        (success, record h' { contexts = map (forget_channel channel) h'.contexts })
  ]

  -- The answer to a reflect or a ping, if it could be written.
  abbrev answer : ℕ → Message P → ℕ → Option P → Handler H P → IoResult × Handler H P
  answer thread msg kind none h = (failed, h)
  answer thread msg kind (some payload) h =
      send_response env thread msg.src_channel_id msg.src_thread_id payload kind h

  unfoldable pub handle_system : ℕ → Message P → Handler H P → IoResult × Handler H P
  unfolding queue_message process_channel_close send_response
  handle_system thread msg h =
      let kind = bit_and msg.attribs system_message in
      if kind == channel_close
      then process_channel_close thread msg h
      else if kind == channel_reflect
      then answer thread msg channel_reflect (env.write_u32 msg.src_channel_id) h
      else if kind == channel_ping
      then answer thread msg channel_ping (env.write_byte 1) h
      else if kind == async_function
      then queue_message msg h
      else (failed, h)

  unfoldable pub handle_message : ℕ → Message P → Handler H P → IoResult × Handler H P
  unfolding handle_system
  handle_message thread msg h =
      if is_request msg.type && not (bit_and msg.attribs system_message == 0)
      then handle_system thread msg h
      else queue_message msg h

  -- The common guard against routing from a local source by an illegal path.
  unfoldable pub is_illegal : Handler H P → ℕ → ℕ → Bool
  unfolding is_own
  is_illegal h src dest = is_own h src && not (env.can_route src dest)

  unfoldable pub forward_message : ℕ → Message P → Handler H P → IoResult × Handler H P
  unfolding is_own is_illegal is_off call_route_off
  forward_message thread msg h =
      let dest = msg.dest_channel_id in
      if is_own h dest
      then if bit_and dest h.child_mask == 0
        then handle_message thread msg h
        else if is_illegal h msg.src_channel_id dest
        then (failed, h)
        else send_message env (bit_and dest (bit_or h.channel_mask h.child_mask)) msg h
      else if is_off h dest
      then call_route_off env msg h
      else send_message env h.upstream msg h

  -- call_async_function_i("do_route_off", …), whose result is not looked at
  unfoldable pub queue_route_off : Incoming P → Handler H P → Handler H P
  unfolding queue_message
  queue_route_off input h = elim (env.write_async input) [
    | none ↦ h
    | some payload ↦
        (queue_message
          (record {
            dest_channel_id = 0;
            src_channel_id = h.channel_id;
            attribs = asynchronous + async_function;
            dest_thread_id = 0;
            src_thread_id = 0;
            type = request;
            payload = payload;
          })
          h).1
  ]

  -- The end of parse_message where the message is for another channel.
  unfoldable pub relay : ℕ → ℕ → ℕ → ℕ → Incoming P → Handler H P → Bool × Handler H P
  unfolding send_channel_close
  relay thread actual src dest input h = elim (HashTable.find H h.channels actual) [
    | none ↦ (true, send_channel_close env thread src dest h)
    | some conn ↦
        if env.relay_ok h.log conn input then (true, act (relayed actual input) h) else (false, h)
  ]

  -- The end of parse_message where the message is this handler's own.
  unfoldable pub accept : ℕ → Incoming P → Handler H P → Bool × Handler H P
  unfolding handle_message
  accept thread (whole msg) h = let (r, h') = handle_message thread msg h in (is_success r, h')
  accept thread corrupt h = (false, h)
  accept thread (truncated dest src) h = (false, h)

  unfoldable pub route_input : ℕ → ℕ → ℕ → Incoming P → Handler H P → Bool × Handler H P
  unfolding is_own is_illegal is_off queue_route_off relay accept
  route_input thread dest src input h =
      if is_own h dest
      then if bit_and dest h.child_mask == 0
        then accept thread input h
        else if is_illegal h src dest
        then (false, h)
        else relay thread (bit_and dest (bit_or h.channel_mask h.child_mask)) src dest input h
      else if is_off h dest
      then (true, queue_route_off input h)
      else relay thread h.upstream src dest input h

  -- false: the connection is closed
  unfoldable pub parse_message : ℕ → Incoming P → Handler H P → Bool × Handler H P
  unfolding route_input
  parse_message thread corrupt h = (false, h)
  parse_message thread (truncated dest src) h = route_input thread dest src (truncated dest src) h
  parse_message thread (whole msg) h =
      route_input thread msg.dest_channel_id msg.src_channel_id (whole msg) h

module _ {H : HashTable ℕ} {P : Type 0} where
  -- ~(m_uChannelMask | m_uChildMask) on a uint32_t
  abbrev low_mask : Handler H P → ℕ
  low_mask h = word - 1 - bit_or h.channel_mask h.child_mask

  -- Values of Remoting::MarshalFlags: same, compartment, inter-process, inter-user, another machine.
  unfoldable pub classify_channel : Handler H P → ℕ → ℕ
  unfolding is_own
  classify_channel h id =
      if is_own h id
      then if bit_and id h.child_mask == 0
        then if bit_and id (low_mask h) % 2 ^ 16 == 0 then 0 else 1
        else 2
      else if not (bit_and id 0x80000000 == 0)
      then 3
      else 4
