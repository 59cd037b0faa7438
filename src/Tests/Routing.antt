-- ===== src/Tests/Routing.antt =====
-- The routing theorems at concrete handlers.
use oocore.Prelude.{
  ℕ, bit_and, ◌<◌, ◌≡◌, refl, inr, true, false, some, [], ◌∷◌, arith, ◌==◌, if◌then◌else◌,
}
use oocore.Tests.Assoc.{pairs_table}
use oocore.Routing.Layout.{Widths, address, node_of, child_of}
use oocore.Routing.Handler.{
  Handler, Message, corrupt, truncated, whole, success, channel_closed, failed, request, sent, act,
  set_channel,
}
use oocore.Routing.Env.{Env, QueueResult}
use oocore.Routing.Register.{register_channel, find_free, candidate, exists}
use oocore.Routing.Register.Result.{
  IsLaidOut, IsAdded, register_channel-total, register_channel-IsAdded,
}
use oocore.Routing.Send.{close_channel, send_request, send, send_message, awaiting}
use oocore.Routing.Receive.{forward_message, parse_message, route_input}
use oocore.Routing.Route.{route_of, follow, pass_on, forward_message-route, parse_message-route}
use oocore.Routing.Reach.{forward_message-reaches}
use oocore.Routing.Request.{request_message, exit_of, HasGone, send_request-awaiting}
use oocore.Routing.Close.{close_channel-once}
use oocore.Routing.Setup.{set_channel-IsLaidOut}
use oocore.Routing.Root.{can_route, root_can_route, root_widths, root_isolates_users}

-- A user process: 8 bits of its own, 12 for a child, 12 for its compartments.
abbrev user_widths : Widths
user_widths = record { sub = 12; child = 12; node = 8; total = refl; has_child = positive }
  where
    positive : 0 < 12
    positive = omega arith

-- Payloads are single numbers; everything that may fail succeeds.
abbrev calm : Env ℕ
calm = record {
  can_route = can_route;
  route_off = λ _ _. channel_closed;
  send_ok = λ _ _ _. true;
  relay_ok = λ _ _ _. true;
  push = λ _ _ _. QueueResult.success;
  waiting = λ _. 2;
  payload_len = λ _. 4;
  header_len = λ _. 24;
  header_ok = λ _. true;
  write_u32 = λ n. some n;
  write_byte = λ n. some n;
  read_u32 = λ n. some n;
  write_async = λ _. some 0;
}

-- The user process 0x81 with its upstream connection and a child that has a compartment's thread.
abbrev user : Handler pairs_table ℕ
user = record {
  upstream = 0x80000000;
  channel_id = 0x81000000;
  channel_mask = 0xFF000000;
  child_mask = 0x00FFF000;
  next_channel_id = 0;
  next_channel_mask = 0xFFF;
  next_channel_shift = 12;
  channels = (0x80000000, 1) ∷ [];
  connection_id = λ c. if c == 1 then 0x80000000 else 0;
  contexts = [];
  log = [];
}

user_layout : IsLaidOut user_widths user
user_layout = record {
  mask_eq = refl;
  child_mask_eq = refl;
  next_mask_eq = refl;
  shift_eq = refl;
  own = 0x81;
  own_lt = omega arith;
  channel_id_eq = refl;
}

abbrev hello : Message ℕ
hello = record {
  dest_channel_id = 0x81001007;
  src_channel_id = 0x82003000;
  attribs = 0;
  dest_thread_id = 0;
  src_thread_id = 5;
  type = request;
  payload = 9;
}

-- The user process after it has given connection 7 an id.
abbrev user_and_child : Handler pairs_table ℕ
user_and_child = record user {
  next_channel_id = 1;
  channels = (0x81001000, 7) ∷ (0x80000000, 1) ∷ [];
  connection_id = λ c. if c == 7 then 0x81001000 else if c == 1 then 0x80000000 else 0;
}

registers : register_channel user 7 0 ≡ some (0x81001000, user_and_child)
unfolding register_channel find_free candidate exists
registers = refl

fixed_twice : register_channel user 8 0x80000000 ≡ some (0, user)
unfolding register_channel exists
fixed_twice = refl

register_channel-total_example :
    (r : ℕ × Handler pairs_table ℕ) × (register_channel user 7 0 ≡ some r)
register_channel-total_example = register_channel-total user_widths user user_layout 7 0

register_channel-IsAdded_example : IsAdded user.channels 7 0x81001000 user_and_child
register_channel-IsAdded_example =
    register_channel-IsAdded user 7 0 (0x81001000, user_and_child) registers (omega arith)

forward_message-route_example :
    forward_message calm 3 hello user
    ≡ follow calm 3 user_widths 0x81 hello user (route_of user_widths 0x81 0x80000000 0x81001007)
unfolding user_layout
forward_message-route_example =
    forward_message-route calm 3 user_widths user user_layout (inr refl) hello (omega arith)
      (omega arith)

parse_message-route_example :
    (parse_message calm 3 (whole hello) user
      ≡ pass_on calm 3 user_widths 0x81 0x81001007 0x82003000
          (whole hello)
          user
          (route_of user_widths 0x81 0x80000000 0x81001007))
    × (parse_message calm 3 (truncated 0x81001007 0x82003000) user
        ≡ pass_on calm 3 user_widths 0x81 0x81001007 0x82003000
            (truncated 0x81001007 0x82003000)
            user
            (route_of user_widths 0x81 0x80000000 0x81001007))
    × (parse_message calm 3 corrupt user ≡ (false, user))
unfolding user_layout
parse_message-route_example =
    parse_message-route calm 3 user_widths user user_layout (inr refl) 0x81001007 0x82003000 hello
      (omega arith) (omega arith) refl refl

forward_message-reaches_example :
    forward_message calm 3 hello user_and_child
    ≡ (success, act (sent 0x81001000 hello 28) user_and_child)
unfolding node_of child_of can_route
forward_message-reaches_example =
    forward_message-reaches calm 3 user_widths user user_layout (inr refl) 7
      (0x81001000, user_and_child) hello registers (omega arith) (omega arith) (omega arith) refl
      refl refl refl refl refl

close_channel-once_example :
    (close_channel calm 3 0x81001000 0 (close_channel calm 3 0x81001000 0 user_and_child)).log
    ≡ (close_channel calm 3 0x81001000 0 user_and_child).log
close_channel-once_example = close_channel-once calm 3 0x81001000 0 user_and_child

-- The root, whose sandbox is its child 5, with two more children.
abbrev root : Handler pairs_table ℕ
root = record {
  upstream = 0;
  channel_id = 0x80000000;
  channel_mask = 0x80000000;
  child_mask = 0x7F000000;
  next_channel_id = 7;
  next_channel_mask = 0x7F;
  next_channel_shift = 24;
  channels = (0x85000000, 1) ∷ (0x86000000, 2) ∷ (0x87000000, 3) ∷ [];
  connection_id = λ c. if c == 1 then 0x85000000 else if c == 2 then 0x86000000 else 0x87000000;
  contexts = [];
  log = [];
}

root_layout : IsLaidOut root_widths root
root_layout = record {
  mask_eq = refl;
  child_mask_eq = refl;
  next_mask_eq = refl;
  shift_eq = refl;
  own = 1;
  own_lt = omega arith;
  channel_id_eq = refl;
}

abbrev root_env : Env ℕ
root_env = record calm { can_route = root_can_route 0x85000000 }

abbrev between_users : Message ℕ
between_users = record hello { dest_channel_id = 0x87003000; src_channel_id = 0x86001000 }

set_channel-IsLaidOut_example :
    (h' : Handler pairs_table ℕ) × (set_channel user 0x81000000 0xFF000000 0x00FFF000 0x80000000
      ≡ some h')
    × IsLaidOut user_widths h'
    × (h'.upstream ≡ 0x80000000)
set_channel-IsLaidOut_example = set_channel-IsLaidOut user_widths user 0x81 0x80000000 (omega arith)

root_isolates_users_example :
    (forward_message root_env 1 between_users root ≡ (failed, root))
    × (route_input root_env 1 0x87003000 0x86001000 (whole between_users) root ≡ (false, root))
unfolding root_layout node_of child_of
root_isolates_users_example =
    root_isolates_users root_env 1 root root_layout 0x85000000 0x86001000 0x87003000 between_users
      (whole between_users) (λ a b. refl) refl (omega arith, refl) (omega arith, refl)
      (omega arith, refl) refl refl (omega arith) (omega arith) (omega arith)

-- The user process asks compartment 7 of its child 0x81001000, with no flags, from thread 4.
abbrev question : Message ℕ
question = request_message calm 0x81000000 4 0x81001007 9 0 user_and_child

asks :
    send_request calm 4 0x81001007 9 0 user_and_child
    ≡ (awaiting 0x81001000, act (sent 0x81001000 question 28) user_and_child)
unfolding send_request send send_message
asks = refl

send_request-awaiting_example :
    (bit_and 0 1 ≡ 0)
    × (0x81001000 ≡ exit_of user_widths 0x81 0x80000000 0x81001007)
    × HasGone calm question 0x81001000 user_and_child
        (act (sent 0x81001000 question 28) user_and_child)
unfolding user_layout address
send_request-awaiting_example =
    send_request-awaiting calm user_widths user_and_child user_layout (inr refl) 4 0x81001007 9 0
      0x81001000 (act (sent 0x81001000 question 28) user_and_child) (omega arith) asks
