-- ===== src/Routing/Root.antt =====
-- Root::Manager::can_route of src/OOServer/RootManager.cpp, over MessageHandler::can_route.
use oocore.Prelude.{
  ℕ, ◌+◌, ◌*◌, ◌^◌, ◌<◌, bit_and, ◌≡◌, ◌≢◌, refl, ◌∙◌, Bool, true, false, not, ◌&&◌, ◌||◌, arith,
  ◌==◌, if◌then◌else◌,
}
use oocore.Prelude.Bits.{bit_and_field}
use oocore.Routing.Table.{HashTable}
use oocore.Routing.Layout.{Widths, node_of, child_of}
use oocore.Routing.Handler.{Handler, Message, Incoming, failed}
use oocore.Routing.Register.Result.{IsLaidOut}
use oocore.Routing.Env.{Env}
use oocore.Routing.Receive.{is_own, is_illegal, forward_message, route_input}
use oocore.Routing.Route.{is_own-node, child_mask-child}

-- MessageHandler::can_route
unfoldable pub can_route : ℕ → ℕ → Bool
can_route src dest = not (src == 0) && not (dest == 0) && not (src == dest)

unfoldable pub root_can_route : ℕ → ℕ → ℕ → Bool
unfolding can_route
root_can_route sandbox src dest =
    if can_route src dest
    then bit_and src 0xFF000000 == bit_and sandbox 0xFF000000
      || bit_and dest 0xFF000000 == bit_and sandbox 0xFF000000
    else false

-- The root's ids: one bit of its own, 7 for a user process, 24 below it.
abbrev pub root_widths : Widths
root_widths = record { sub = 24; child = 7; node = 1; total = refl; has_child = root_child }
  where
    root_child : 0 < 7
    root_child = omega arith

-- An id of a user process, or of what is below one: it has the root's bit.
abbrev IsBelowRoot : ℕ → Type 0
IsBelowRoot x = (x < 2 ^ 32) × (node_of root_widths x ≡ 1)

top_byte : (x : ℕ) → IsBelowRoot x → bit_and x 0xFF000000 ≡ (128 + child_of root_widths x) * 2 ^ 24
unfolding node_of child_of
top_byte x (small, below) = bit_and_field 24 8 x ∙ omega (arith, small, below)

root_can_route-strangers :
    (sandbox src dest : ℕ)
    → IsBelowRoot sandbox
    → IsBelowRoot src
    → IsBelowRoot dest
    → child_of root_widths src ≢ child_of root_widths sandbox
    → child_of root_widths dest ≢ child_of root_widths sandbox
    → root_can_route sandbox src dest ≡ false
unfolding root_can_route
root_can_route-strangers sandbox src dest b s d ns nd =
    rw (top_byte sandbox b, top_byte src s, top_byte dest d) (ground arith)

module _ {H : HashTable ℕ} {P : Type 0} (env : Env P) (thread : ℕ) (h : Handler H P)
    (l : IsLaidOut root_widths h) where
  -- A root that is laid out as its ids are, and whose rules are root_can_route, refuses a message
  -- from one user process, or what is below it, to another, neither of them the sandbox, whether
  -- it is forwarded or read from a socket, and its state stays.
  pub root_isolates_users :
      (sandbox src dest : ℕ) (msg : Message P) (input : Incoming P)
      → ((a b : ℕ) → env.can_route a b ≡ root_can_route sandbox a b)
      → l.own ≡ 1
      → IsBelowRoot sandbox
      → IsBelowRoot src
      → IsBelowRoot dest
      → msg.src_channel_id ≡ src
      → msg.dest_channel_id ≡ dest
      → child_of root_widths dest ≢ 0
      → child_of root_widths src ≢ child_of root_widths sandbox
      → child_of root_widths dest ≢ child_of root_widths sandbox
      → (forward_message env thread msg h ≡ (failed, h))
        × (route_input env thread dest src input h ≡ (false, h))
  unfolding forward_message route_input is_illegal
  root_isolates_users sandbox src dest msg input rules own b s d es ed child ns nd =
      let apart = rules src dest ∙ root_can_route-strangers sandbox src dest b s d ns nd in
      let dest_own : is_own h dest ≡ true = is_own-node root_widths h l dest d.0 ∙ ground arith in
      let src_own : is_own h src ≡ true = is_own-node root_widths h l src s.0 ∙ ground arith in
      let below : (bit_and dest h.child_mask == 0) ≡ false =
        child_mask-child root_widths h l dest ∙ ground arith in
      (rw (es, ed, dest_own, below, src_own, apart), rw (dest_own, below, src_own, apart))
