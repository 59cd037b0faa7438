-- ===== src/Routing/Close.antt =====
-- What channel_closed does to the table and whom it tells.
use oocore.Prelude.{
  ℕ, ◌≡◌, refl, ◌∙◌, not, ◌&&◌, ◌||◌, none, List, [], ◌∷◌, arith, ◌==◌, if◌then◌else◌,
}
use oocore.Routing.Table.{HashTable, has}
use oocore.Routing.Handler.{Handler, Message}
use oocore.Routing.Env.{Env}
use oocore.Routing.Send.{send, send_request, send_channel_close, tell, to_tell, close_channel}

-- Two states of one handler that differ at most in what has been sent.
record SameTables {H : HashTable ℕ} {P : Type 0} (h h' : Handler H P) : Type 0 where
  channels : h'.channels ≡ h.channels
  upstream : h'.upstream ≡ h.upstream
  connection_id : h'.connection_id ≡ h.connection_id
  contexts : h'.contexts ≡ h.contexts

module _ {H : HashTable ℕ} {P : Type 0} (env : Env P) (thread : ℕ) where
  send-SameTables : (msg : Message P) (h : Handler H P) → SameTables h (send env msg h).1
  unfolding send
  send-SameTables msg h = ground arith

  send_request-SameTables :
      (dest : ℕ) (payload : P) (attribs : ℕ) (h : Handler H P)
      → SameTables h (send_request env thread dest payload attribs h).1
  unfolding send_request
  send_request-SameTables dest payload attribs h = ground arith

  send_channel_close-SameTables :
      (dest channel : ℕ) (h : Handler H P)
      → SameTables h (send_channel_close env thread dest channel h)
  unfolding send_channel_close
  send_channel_close-SameTables dest channel h = ground arith

  tell-SameTables :
      (channel : ℕ) (ks : List ℕ) (h : Handler H P) → SameTables h (tell env thread channel ks h)
  unfolding tell
  tell-SameTables channel [] h = ground arith
  tell-SameTables channel (k ∷ ks) h =
      let one = send_channel_close-SameTables k channel h in
      let rest = tell-SameTables channel ks (send_channel_close env thread k channel h) in
      record {
        channels = rest.channels ∙ one.channels;
        upstream = rest.upstream ∙ one.upstream;
        connection_id = rest.connection_id ∙ one.connection_id;
        contexts = rest.contexts ∙ one.contexts;
      }

  close_channel-channels :
      (channel src : ℕ) (h : Handler H P)
      → (close_channel env thread channel src h).channels ≡ HashTable.remove H h.channels channel
  unfolding close_channel
  close_channel-channels channel src h =
      let rest : Handler H P = record h { channels = HashTable.remove H h.channels channel } in
      let told =
        tell-SameTables channel (to_tell env rest channel src (HashTable.keys H rest.channels) [])
          rest in
      ground (arith, told.channels)

  -- channel_closed takes the channel out of the table and leaves every other entry, although it
  -- sends messages on the way.
  pub close_channel-find :
      (channel src j : ℕ) (h : Handler H P)
      → HashTable.find H (close_channel env thread channel src h).channels j
        ≡ (if channel == j then none else HashTable.find H h.channels j)
  close_channel-find channel src j h =
      rw (close_channel-channels channel src h) (HashTable.find-remove H h.channels channel j)

  close_channel-silent :
      (channel : ℕ) (h : Handler H P)
      → HashTable.find H h.channels channel ≡ none
      → (close_channel env thread channel 0 h).log ≡ h.log
  unfolding close_channel
  close_channel-silent channel h gone = rw gone

  -- After channel_closed on a channel, a second close of it from its own connection sends nothing,
  -- tells no manager and wakes no thread.
  pub close_channel-once :
      (channel src : ℕ) (h : Handler H P)
      → let h' = close_channel env thread channel src h in
        (close_channel env thread channel 0 h').log ≡ h'.log
  close_channel-once channel src h =
      let h' = close_channel env thread channel src h in
      let gone : HashTable.find H h'.channels channel ≡ none =
        close_channel-find channel src channel h ∙ ground arith in
      close_channel-silent channel h' gone

  -- The channels that channel_closed tells are those listed that did not report the close and are
  -- the upstream one or one that the rules let the closed channel reach.
  has-to_tell :
      (h : Handler H P) (channel src k : ℕ) (ks stack : List ℕ)
      → has k (to_tell env h channel src ks stack) ≡ (
          (has k ks && (not (k == src) && (k == h.upstream || env.can_route channel k)))
          || has k stack)
  unfolding to_tell has
  has-to_tell h channel src k [] stack = refl
  has-to_tell h channel src k (j ∷ ks) stack =
      let kept = has-to_tell h channel src k ks stack in
      let pushed = has-to_tell h channel src k ks (j ∷ stack) in ground (arith, kept, pushed)
