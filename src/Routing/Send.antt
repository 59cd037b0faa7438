-- ===== src/Routing/Send.antt =====
-- Sending: send_message, send_request, send_response, send_channel_close, and channel_closed, of
-- src/OOServer/MessageConnection.cpp.
use oocore.Prelude.{
  ℕ, ◌+◌, ◌-◌, ◌%◌, ◌^◌, bit_and, bit_or, Bool, not, ◌&&◌, ◌||◌, none, some, List, [], ◌∷◌, ◌==◌,
  ltb, if◌then◌else◌,
}
use oocore.Routing.Table.{HashTable, is_some}
use oocore.Routing.Handler.{
  response, request, Message, IoResult, success, channel_closed, failed, Context, Handler, word,
  act, sent, sent_off, closed, pulsed, asynchronous, channel_close,
}
use oocore.Routing.Env.{Env}

-- What send_request comes to: a result, or the wait for a response over a channel.
pub data Request : Type 0 where
  finished : IoResult → Request
  awaiting : ℕ → Request

module _ {P : Type 0} (env : Env P) where
  -- the length that the header gets
  abbrev pub total_len : Message P → ℕ
  total_len msg = env.header_len msg + env.payload_len msg.payload

  -- `msg.m_payload.length() > 0xFFFFFFFF - len`, in size_t, where there is a payload
  abbrev pub too_big : Message P → Bool
  too_big msg =
      not (env.payload_len msg.payload == 0)
      && ltb ((0xFFFFFFFF + 2 ^ 64 - env.header_len msg) % 2 ^ 64) (env.payload_len msg.payload)

module _ {H : HashTable ℕ} where
  -- m_mapChannelThreads.find of the thread's context, or 0
  unfoldable pub channel_thread : List (Context H) → ℕ → ℕ → ℕ
  channel_thread [] thread channel = 0
  channel_thread (c ∷ cs) thread channel =
      if c.thread_id == thread
      then elim (HashTable.find H c.channel_threads channel) [ none ↦ 0 | some t ↦ t ]
      else channel_thread cs thread channel

module _ {H : HashTable ℕ} {P : Type 0} where
  -- The connection for a destination that is not to be routed off this machine.
  unfoldable pub actual_dest : Handler H P → ℕ → ℕ
  actual_dest h dest =
      if bit_and dest h.channel_mask == h.channel_id
      then bit_and dest (bit_or h.channel_mask h.child_mask)
      else h.upstream

  -- m_uUpstreamChannel && !(dest & m_uUpstreamChannel)
  unfoldable pub is_off : Handler H P → ℕ → Bool
  is_off h dest = not (h.upstream == 0) && (bit_and dest h.upstream == 0)

module _ {H : HashTable ℕ} {P : Type 0} (env : Env P) where
  unfoldable pub send_message : ℕ → Message P → Handler H P → IoResult × Handler H P
  send_message actual msg h =
      if too_big env msg
      then (failed, h)
      else if not (env.header_ok msg)
      then (failed, h)
      else elim (HashTable.find H h.channels actual) [
        | none ↦ (channel_closed, h)
        | some conn ↦
            if env.send_ok h.log conn msg
            then (success, act (sent actual msg (total_len env msg % word)) h)
            else (failed, h)
      ]

  unfoldable pub call_route_off : Message P → Handler H P → IoResult × Handler H P
  call_route_off msg h = (env.route_off h.log msg, act (sent_off msg) h)

  unfoldable pub send : Message P → Handler H P → IoResult × Handler H P
  unfolding send_message call_route_off actual_dest is_off
  send msg h =
      if is_off h msg.dest_channel_id
      then call_route_off msg h
      else send_message (actual_dest h msg.dest_channel_id) msg h

  abbrev pub continue_request : ℕ → ℕ → IoResult × Handler H P → Request × Handler H P
  continue_request attribs actual (success, h) =
      (if bit_and attribs asynchronous == 0 then awaiting actual else finished success, h)
  continue_request attribs actual (channel_closed, h) = (finished channel_closed, h)
  continue_request attribs actual (failed, h) = (finished failed, h)

  -- `thread` is the id of the calling thread's context.
  unfoldable pub send_request : ℕ → ℕ → P → ℕ → Handler H P → Request × Handler H P
  unfolding send channel_thread
  send_request thread dest payload attribs h =
      let msg : Message P = record {
        dest_channel_id = dest;
        src_channel_id = h.channel_id;
        attribs = attribs;
        dest_thread_id = channel_thread h.contexts thread dest;
        src_thread_id = thread;
        type = request;
        payload = payload;
      } in
      continue_request attribs (actual_dest h dest) (send msg h)

  unfoldable pub send_response : ℕ → ℕ → ℕ → P → ℕ → Handler H P → IoResult × Handler H P
  unfolding send
  send_response thread dest dest_thread payload attribs h =
      let msg : Message P = record {
        dest_channel_id = dest;
        src_channel_id = h.channel_id;
        attribs = attribs;
        dest_thread_id = dest_thread;
        src_thread_id = thread;
        type = response;
        payload = payload;
      } in
      send msg h

  unfoldable pub send_channel_close : ℕ → ℕ → ℕ → Handler H P → Handler H P
  unfolding send_request
  send_channel_close thread dest closed_id h = elim (env.write_u32 closed_id) [
    | none ↦ h
    | some payload ↦ (send_request thread dest payload (asynchronous + channel_close) h).1
  ]

  -- The keys to tell, as channel_closed pushes them: the last pushed stands first.
  unfoldable pub to_tell : Handler H P → ℕ → ℕ → List ℕ → List ℕ → List ℕ
  to_tell h channel src [] stack = stack
  to_tell h channel src (k ∷ ks) stack =
      to_tell h channel src ks (
        if not (k == src) && (k == h.upstream || env.can_route channel k) then k ∷ stack else stack)

  unfoldable pub tell : ℕ → ℕ → List ℕ → Handler H P → Handler H P
  unfolding send_channel_close
  tell thread channel [] h = h
  tell thread channel (k ∷ ks) h = tell thread channel ks (send_channel_close thread k channel h)

  unfoldable pub close_channel : ℕ → ℕ → ℕ → Handler H P → Handler H P
  unfolding to_tell tell
  close_channel thread channel src h =
      let found = is_some (HashTable.find H h.channels channel) in
      let rest : Handler H P = record h { channels = HashTable.remove H h.channels channel } in
      let told =
        act (closed channel) (
          tell thread channel (to_tell rest channel src (HashTable.keys H rest.channels) [])
            rest) in
      let reported = if not found && src == 0 then rest else told in
      if found then act pulsed reported else reported

  -- MessageConnection::on_closed, of the connection `conn`
  unfoldable pub on_closed : ℕ → ℕ → Handler H P → Handler H P
  unfolding close_channel
  on_closed thread conn h =
      if h.connection_id conn == 0 then h else close_channel thread (h.connection_id conn) 0 h
