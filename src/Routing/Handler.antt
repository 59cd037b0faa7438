-- ===== src/Routing/Handler.antt =====
-- The handler's state, messages and outcomes (MessageConnection.h), and its constructor.
use oocore.Prelude.{ℕ, ◌^◌, Option, none, some, List, [], ◌∷◌, ◌++◌, ◌==◌, if◌then◌else◌}
use oocore.Routing.Table.{HashTable}
use oocore.Routing.Layout.{strip_zeros}

-- Message_t::Type
pub data MessageType : Type 0 where
  response request : MessageType

-- Message_t::Attributes
abbrev pub asynchronous : ℕ
asynchronous = 1

abbrev pub system_message : ℕ
system_message = 0xFFFF0000

abbrev pub channel_close : ℕ
channel_close = 0x10000

abbrev pub channel_reflect : ℕ
channel_reflect = 0x20000

abbrev pub channel_ping : ℕ
channel_ping = 0x30000

abbrev pub async_function : ℕ
async_function = 0x0FFF0000

-- io_result::type
pub data IoResult : Type 0 where
  success channel_closed failed : IoResult

-- A message with the destination that its header carries. P is the type of CDR streams.
pub record Message (P : Type 0) : Type 0 where
  pub dest_channel_id : ℕ
  pub src_channel_id : ℕ
  pub attribs : ℕ
  pub dest_thread_id : ℕ
  pub src_thread_id : ℕ
  pub type : MessageType
  pub payload : P

-- What CDR reads out of a received buffer: not even the two channel ids, only those, or all.
pub data Incoming (P : Type 0) : Type 0 where
  corrupt : Incoming P
  truncated : ℕ → ℕ → Incoming P
  whole : Message P → Incoming P

-- What the handler does to the world outside its own tables, in order.
pub data Action (P : Type 0) : Type 0 where
  -- a message, and the length in its header, given to the connection registered under an id
  sent : ℕ → Message P → ℕ → Action P
  -- a received buffer passed on whole to the connection registered under an id
  relayed : ℕ → Incoming P → Action P
  -- a message handed to route_off
  sent_off : Message P → Action P
  -- a message put on the queue of a thread, 0 for the default queue
  queued : ℕ → Message P → Action P
  -- one more thread for the default queue
  started : Action P
  -- on_channel_closed
  closed : ℕ → Action P
  -- the queue of every thread woken
  pulsed : Action P
  -- MessageConnection::shutdown, of a connection
  stopped : ℕ → Action P
  -- the queue of a thread closed, 0 for the default queue
  ended : ℕ → Action P
  -- the end of all threads of the pool awaited
  joined : Action P

-- ThreadContext: its id and m_mapChannelThreads.
pub record Context (H : HashTable ℕ) : Type 0 where
  pub thread_id : ℕ
  pub channel_threads : HashTable.Carrier H

pub record Handler (H : HashTable ℕ) (P : Type 0) : Type 0 where
  pub upstream : ℕ
  pub channel_id : ℕ
  pub channel_mask : ℕ
  pub child_mask : ℕ
  pub next_channel_id : ℕ
  pub next_channel_mask : ℕ
  pub next_channel_shift : ℕ
  -- the registered channels: references of connections
  pub channels : HashTable.Carrier H
  -- MessageConnection::m_channel_id of each connection
  pub connection_id : ℕ → ℕ
  -- m_mapThreadContexts
  pub contexts : List (Context H)
  pub log : List (Action P)

abbrev pub word : ℕ
word = 2 ^ 32

module _ {H : HashTable ℕ} {P : Type 0} where
  -- MessageHandler(), over an empty table
  unfoldable pub init : HashTable.Carrier H → Handler H P
  init empty = record {
    upstream = 0;
    channel_id = 0;
    channel_mask = 0;
    child_mask = 0;
    next_channel_id = 0;
    next_channel_mask = 0;
    next_channel_shift = 0;
    channels = empty;
    connection_id = λ _. 0;
    contexts = [];
    log = [];
  }

  -- none: the mask of the children is 0, and the loop goes on for ever
  unfoldable pub set_channel : Handler H P → ℕ → ℕ → ℕ → ℕ → Option (Handler H P)
  set_channel h channel_id mask child_mask upstream_id = elim (strip_zeros 32 child_mask 0) [
    | none ↦ none
    | some (next_mask, shift) ↦ some (record h {
      channel_id = channel_id;
      channel_mask = mask;
      child_mask = child_mask;
      upstream = upstream_id;
      next_channel_mask = next_mask;
      next_channel_shift = shift;
    })
  ]

  -- MessageConnection::set_channel_id
  unfoldable pub set_channel_id : ℕ → ℕ → Handler H P → Handler H P
  set_channel_id conn id h = record h {
    connection_id = λ c. if c == conn then id else h.connection_id c;
  }

  abbrev pub act : Action P → Handler H P → Handler H P
  act a h = record h { log = h.log ++ a ∷ [] }
