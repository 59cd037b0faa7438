-- ===== src/Routing/Env.antt =====
-- What the handler is given: the virtual methods of MessageHandler that a manager overrides, and the
-- sockets, queues and CDR streams of OOBase, which are not in the repository.
use oocore.Prelude.{ℕ, Bool, Option, List}
use oocore.Routing.Handler.{Message, Incoming, IoResult, Action}

-- OOBase::BoundedQueue<Message>::Result of a push
pub data QueueResult : Type 0 where
  success closed error : QueueResult

-- An outcome may depend on all that has happened before.
pub record Env (P : Type 0) : Type 0 where
  -- virtual
  pub can_route : ℕ → ℕ → Bool
  pub route_off : List (Action P) → Message P → IoResult
  -- AsyncLocalSocket::send returns 0, for a connection and what it is given
  pub send_ok : List (Action P) → ℕ → Message P → Bool
  pub relay_ok : List (Action P) → ℕ → Incoming P → Bool
  pub push : List (Action P) → ℕ → Message P → QueueResult
  -- m_waiting_threads
  pub waiting : List (Action P) → ℕ
  -- buffer()->length() of a stream
  pub payload_len : P → ℕ
  -- the length of the header that send_message writes, aligned if a payload follows, less the 8
  -- bytes before the destination; and whether last_error() is 0 then
  pub header_len : Message P → ℕ
  pub header_ok : Message P → Bool
  -- a stream with one value written, if that succeeds, and a value read from the front of a stream
  pub write_u32 : ℕ → Option P
  pub write_byte : ℕ → Option P
  pub read_u32 : P → Option ℕ
  -- the payload of call_async_function_i
  pub write_async : Incoming P → Option P
