-- ===== src/Tests/Waiting.antt =====
-- The waiting loops, and a connection, at concrete inputs.
use oocore.Prelude.{ℕ, ◌≡◌, refl, inl, true, Option, none, some, List, [], ◌∷◌, ◌++◌, length, arith}
use oocore.Routing.Handler.{Message, response, request, Handler, success, channel_closed}
use oocore.Routing.Env.{Env, QueueResult}
use oocore.Routing.Send.{close_channel}
use oocore.Routing.Wait.{
  Manager, message, pulsed, Turn, Waited, go_on, idle, threads_of, set_threads, enter_channel,
  leave_channel, store, restore, process_in_context, process_request_context, wait_for_response,
  pump_round, pump_requests,
}
use oocore.Routing.Nested.{NothingNew}
use oocore.Routing.Awaited.{
  ending, first_ending, Ends, wait_for_response-Ends, wait_for_response-NothingNew,
  wait_for_response-closed,
}
use oocore.Routing.Handler.{queued, whole}
use oocore.Routing.Receive.{parse_message}
use oocore.Routing.Threads.{shutdown_channels}
use oocore.Routing.Shutdown.{IsShutDown, shutdown_channels-IsShutDown}
use oocore.Routing.Connection.{Wire, receive}
use oocore.Routing.Frames.{Frame, IsFrame, bytes_of, parse_all, receive-frames}
use oocore.Tests.Assoc.{pairs_table}

abbrev Here : Type 0
Here = Handler pairs_table ℕ

-- A handler with channel 9, and the context of thread 3 with an entry for it
abbrev waiting : Here
waiting = record {
  upstream = 9;
  channel_id = 0x81000000;
  channel_mask = 0xFF000000;
  child_mask = 0x00FFF000;
  next_channel_id = 0;
  next_channel_mask = 0xFFF;
  next_channel_shift = 12;
  channels = (9, 7) ∷ [];
  connection_id = λ conn. 9;
  contexts = record { thread_id = 3; channel_threads = (9, 5) ∷ [] } ∷ [];
  log = [];
}

abbrev manager : Manager pairs_table ℕ
manager = record {
  process_request = λ msg h. h;
  can_read = λ payload. true;
  call_function = λ payload h. (h, true);
}

abbrev asked : Message ℕ
asked = record {
  dest_channel_id = 0x81000000;
  src_channel_id = 9;
  attribs = 0;
  dest_thread_id = 3;
  src_thread_id = 6;
  type = request;
  payload = 11;
}

abbrev answered : Message ℕ
answered = record asked { type = response; payload = 12 }

-- A request is processed while the thread waits, then the response comes.
abbrev turns : List (Turn pairs_table ℕ)
turns =
    record { meanwhile = λ h. h; popped = message asked }
    ∷ record { meanwhile = λ h. h; popped = message answered }
    ∷ []

first : first_ending turns ≡ some (success, some 12)
unfolding first_ending ending
first = refl

wait_for_response-Ends_example :
    (w : Waited pairs_table ℕ) × (wait_for_response manager 3 9 turns waiting ≡ some w)
    × Ends manager 3 9 turns waiting w
wait_for_response-Ends_example =
    wait_for_response-Ends manager 3 9 turns waiting (success, some 12) first

came :
    wait_for_response manager 3 9 turns waiting
    ≡ some (record { handler = waiting; result = success; payload = some 12 })
unfolding wait_for_response process_request_context process_in_context threads_of set_threads
    enter_channel leave_channel store restore
came = refl

wait_for_response-NothingNew_example : NothingNew 3 waiting waiting
wait_for_response-NothingNew_example =
    wait_for_response-NothingNew manager 3 9
      (λ (msg : Message ℕ) (h : Here) (j : ℕ). inl refl, λ (p : ℕ) (h : Here) (j : ℕ). inl refl)
      turns waiting (record { handler = waiting; result = success; payload = some 12 })
      (λ (h : Here) (j : ℕ). inl refl, (λ (h : Here) (j : ℕ). inl refl, tt)) came

abbrev calm : Env ℕ
calm = record {
  can_route = λ src dest. true;
  route_off = λ log msg. channel_closed;
  send_ok = λ log conn msg. true;
  relay_ok = λ log conn input. true;
  push = λ log thread msg. QueueResult.success;
  waiting = λ log. 0;
  payload_len = λ payload. 4;
  header_len = λ msg. 16;
  header_ok = λ msg. true;
  write_u32 = λ n. some n;
  write_byte = λ n. some n;
  read_u32 = λ payload. some payload;
  write_async = λ input. none;
}

wait_for_response-closed_example :
    wait_for_response manager 3 9
      (record { meanwhile = close_channel calm 4 9 0; popped = pulsed } ∷ turns)
      waiting
    ≡ some (record {
      handler = close_channel calm 4 9 0 waiting;
      result = channel_closed;
      payload = none;
    })
wait_for_response-closed_example =
    wait_for_response-closed calm manager 3 4 9 0 7 turns waiting refl

-- A pump for one request, without a timeout of its own, that has waited 15 seconds in vain, says that
-- it has processed one.
idle_pump :
    pump_requests manager 3 true true
      (record { meanwhile = λ h. h; waiters = 0; popped = none } ∷ [])
      waiting
    ≡ some (waiting, 1)
unfolding pump_requests pump_round idle go_on
idle_pump = refl

version_and_length : List ℕ → Option (ℕ × ℕ)
version_and_length (order ∷ version ∷ sign ∷ pad ∷ a ∷ b ∷ c ∷ d ∷ rest) = some (version, a)
version_and_length _ = none

version_and_length-append :
    (header rest : List ℕ)
    → length header ≡ 8
    → version_and_length (header ++ rest) ≡ version_and_length header
unfolding version_and_length
version_and_length-append (o ∷ v ∷ s ∷ p ∷ a ∷ b ∷ c ∷ d ∷ tail) rest e = refl
version_and_length-append _ rest e = absurd (omega (arith, e))

wire : Wire ℕ
wire = record {
  read_header = version_and_length;
  decode = λ bytes. whole asked;
  read_header-append = version_and_length-append;
}

abbrev frame : Frame
frame = record { header = 1 ∷ 1 ∷ 83 ∷ 0 ∷ 2 ∷ 0 ∷ 0 ∷ 0 ∷ []; body = 5 ∷ 6 ∷ [] }

frame-IsFrame : IsFrame wire frame
unfolding wire version_and_length
frame-IsFrame = record { header_length = refl; counted = refl; not_empty = omega arith }

abbrev queued_one : Here
queued_one = record waiting { log = queued 3 asked ∷ [] }

parsed : parse_all wire calm 3 7 (frame ∷ []) waiting ≡ some queued_one
unfolding parse_all wire parse_message
parsed = refl

receive-frames_example :
    receive wire calm 3 7 12 (bytes_of (frame ∷ []) ++ 1 ∷ 1 ∷ []) waiting
    ≡ receive wire calm 3 7 12 (1 ∷ 1 ∷ []) queued_one
receive-frames_example =
    receive-frames wire calm 3 7 12 (frame ∷ []) (1 ∷ 1 ∷ []) waiting queued_one (frame-IsFrame, tt)
      parsed (omega arith)

shutdown_channels-IsShutDown_example :
    (h : Here) × (shutdown_channels 2 waiting ≡ some h) × IsShutDown waiting h
shutdown_channels-IsShutDown_example = shutdown_channels-IsShutDown 2 waiting (omega arith)
