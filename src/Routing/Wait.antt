-- ===== src/Routing/Wait.antt =====
-- The loops of a thread: process_request_context, wait_for_response and pump_requests, and the
-- contexts of threads, of src/OOServer/MessageConnection.cpp.
use oocore.Prelude.{
  ℕ, bit_and, Bool, true, false, not, ◌&&◌, ◌||◌, Option, none, some, List, [], ◌∷◌, ◌++◌, ◌==◌,
  ltb, if◌then◌else◌,
}
use oocore.Routing.Table.{HashTable, is_some}
use oocore.Routing.Handler.{
  response, request, Message, IoResult, success, channel_closed, failed, Context, Handler,
  system_message, async_function,
}

-- What the manager and the called functions do with a request, whatever it is. An asynchronous
-- function is read from the payload (whether that succeeds) and called; false: it has thrown.
pub record Manager (H : HashTable ℕ) (P : Type 0) : Type 0 where
  pub process_request : Message P → Handler H P → Handler H P
  pub can_read : P → Bool
  pub call_function : P → Handler H P → Handler H P × Bool

-- BoundedQueue::Result of a pop, with what has been popped
pub data Popped (P : Type 0) : Type 0 where
  message : Message P → Popped P
  pulsed closed error : Popped P

-- A pop that blocks: what the other threads do meanwhile, and what it gives
pub record Turn (H : HashTable ℕ) (P : Type 0) : Type 0 where
  pub meanwhile : Handler H P → Handler H P
  pub popped : Popped P

-- A pop of the default queue, none if it times out, and how many threads wait for it then
pub record PumpTurn (H : HashTable ℕ) (P : Type 0) : Type 0 where
  pub meanwhile : Handler H P → Handler H P
  pub waiters : ℕ
  pub popped : Option (Popped P)

pub record Waited (H : HashTable ℕ) (P : Type 0) : Type 0 where
  pub handler : Handler H P
  pub result : IoResult
  pub payload : Option P

-- while (!bOnce)
unfoldable pub go_on : Bool → Option ℕ
go_on once = if once then some 1 else none

-- After a pop without a message
unfoldable pub idle : Bool → Bool → ℕ → Option ℕ
idle infinite once waiters =
    if not infinite || (ltb 2 waiters && not once) then some 0 else go_on once

module _ {H : HashTable ℕ} where
  open H use {Carrier}

  -- m_mapChannelThreads of a thread
  unfoldable pub threads_of : List (Context H) → ℕ → Option Carrier
  threads_of [] thread = none
  threads_of (c ∷ cs) thread =
      if c.thread_id == thread then some c.channel_threads else threads_of cs thread

  unfoldable pub set_threads : List (Context H) → ℕ → Carrier → List (Context H)
  set_threads [] thread t = []
  set_threads (c ∷ cs) thread t =
      if c.thread_id == thread
      then record c { channel_threads = t } ∷ cs
      else c ∷ set_threads cs thread t

  -- remove_thread_context
  unfoldable pub remove_context : ℕ → List (Context H) → List (Context H)
  remove_context thread [] = []
  remove_context thread (c ∷ cs) =
      let rest = remove_context thread cs in if c.thread_id == thread then rest else c ∷ rest

module _ (H : HashTable ℕ) where
  open H use {Carrier, find, insert, assign, remove}

  -- The context's own thread id for a channel while a request is processed, if it can be stored
  unfoldable pub enter_channel : ℕ → ℕ → Carrier → Option Carrier
  enter_channel channel src_thread t = elim (find t channel) [
    | none ↦ insert t channel src_thread
    | some old ↦ some (assign t channel src_thread)
  ]

  -- And after it: the old one back, unless the channel has been forgotten meanwhile.
  unfoldable pub leave_channel : ℕ → Option ℕ → Carrier → Carrier
  leave_channel channel none t = remove t channel
  leave_channel channel (some old) t = if is_some (find t channel) then assign t channel old else t

module _ {H : HashTable ℕ} {P : Type 0} where
  open H use {Carrier, find}

  -- insert_thread_context, over the id that the handle table gives, and remove_thread_context
  unfoldable pub insert_thread_context : Option ℕ → Carrier → Handler H P → Handler H P × ℕ
  insert_thread_context none empty h = (h, 0)
  insert_thread_context (some id) empty h = (
    record h { contexts = h.contexts ++ record { thread_id = id; channel_threads = empty } ∷ [] },
    id,
  )

  unfoldable pub remove_thread_context : ℕ → Handler H P → Handler H P
  remove_thread_context thread h = record h { contexts = remove_context thread h.contexts }

  unfoldable pub store : ℕ → Carrier → Handler H P → Handler H P
  store thread t h = record h { contexts = set_threads h.contexts thread t }

  unfoldable pub restore : ℕ → ℕ → Option ℕ → Handler H P → Handler H P
  restore thread channel old h = elim (threads_of h.contexts thread) [
    | none ↦ h
    | some t ↦ store thread (leave_channel H channel old t) h
  ]

module _ {H : HashTable ℕ} {P : Type 0} (manager : Manager H P) where
  open H use {find}

  unfoldable pub process_async_function : Message P → Handler H P → Handler H P × Bool
  process_async_function msg h =
      if manager.can_read msg.payload then manager.call_function msg.payload h else (h, false)

  -- A thread without a context cannot come here.
  unfoldable pub process_in_context : ℕ → Message P → Handler H P → Handler H P × Bool
  process_in_context thread msg h = elim (threads_of h.contexts thread) [
    | none ↦ (h, false)
    | some t ↦ elim (enter_channel H msg.src_channel_id msg.src_thread_id t) [
      | none ↦ (h, false)
      | some t' ↦ (
        restore thread msg.src_channel_id (find t msg.src_channel_id)
            (manager.process_request msg (store thread t' h)),
        true,
      )
    ]
  ]

  unfoldable pub process_request_context : ℕ → Message P → Handler H P → Handler H P × Bool
  process_request_context thread msg h =
      if bit_and msg.attribs system_message == async_function
      then process_async_function msg h
      else process_in_context thread msg h

  -- none: the turns have ended before the wait
  unfoldable pub wait_for_response : ℕ → ℕ → List (Turn H P) → Handler H P → Option (Waited H P)
  wait_for_response thread from [] h =
      if is_some (find h.channels from)
      then none
      else some (record { handler = h; result = channel_closed; payload = none })
  wait_for_response thread from (turn ∷ turns) h = elim (find h.channels from) [
    | none ↦ some (record { handler = h; result = channel_closed; payload = none })
    | some conn ↦
        let h' = turn.meanwhile h in
        elim turn.popped [
          | error ↦ some (record { handler = h'; result = failed; payload = none })
          | pulsed ↦ wait_for_response thread from turns h'
          | closed ↦ some (record { handler = h'; result = channel_closed; payload = none })
          | message msg ↦ elim msg.type [
            | response ↦
                some (record { handler = h'; result = success; payload = some msg.payload })
            | request ↦
                wait_for_response thread from turns (process_request_context thread msg h').0
          ]
        ]
  ]

  unfoldable pub pump_message : ℕ → Bool → Message P → Handler H P → Handler H P × Option ℕ
  pump_message thread once msg h = elim msg.type [
    | response ↦ (h, go_on once)
    | request ↦
        let (h', ok) = process_request_context thread msg h in
        (h', if ok then go_on once else some 0)
  ]

  -- A round of the pump ends it with a result, or it goes on: `continue` comes to the test of `once`
  -- too.
  unfoldable pub pump_round : ℕ → Bool → Bool → PumpTurn H P → Handler H P → Handler H P × Option ℕ
  pump_round thread infinite once turn h = elim turn.popped [
    | none ↦ (turn.meanwhile h, idle infinite once turn.waiters)
    | some popped ↦ elim popped [
      | error ↦ (turn.meanwhile h, some 0)
      | closed ↦ (turn.meanwhile h, some 0)
      | pulsed ↦ (turn.meanwhile h, idle infinite once turn.waiters)
      | message msg ↦ pump_message thread once msg (turn.meanwhile h)
    ]
  ]

  unfoldable pub pump_requests :
      ℕ → Bool → Bool → List (PumpTurn H P) → Handler H P → Option (Handler H P × ℕ)
  pump_requests thread infinite once [] h = none
  pump_requests thread infinite once (turn ∷ turns) h =
      let (h', done) = pump_round thread infinite once turn h in
      elim done [ some n ↦ some (h', n) | none ↦ pump_requests thread infinite once turns h' ]
