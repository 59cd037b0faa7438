-- ===== src/Routing/Connection.antt =====
-- MessageConnection: the framing of messages in the bytes of a socket (recv, on_recv1, on_recv2 and
-- on_recv of src/OOServer/MessageConnection.cpp).
use oocore.Prelude.{
  ℕ, zero, suc, ◌≡◌, Bool, true, false, Option, none, some, List, [], ◌∷◌, ◌++◌, ◌==◌, ltb,
  if◌then◌else◌, length, take, drop,
}
use oocore.Routing.Table.{HashTable}
use oocore.Routing.Handler.{Handler, Incoming}
use oocore.Routing.Env.{Env}
use oocore.Routing.Send.{on_closed}
use oocore.Routing.Receive.{parse_message}

abbrev pub header_len : ℕ
header_len = 8

-- What CDR reads from a buffer: the version and the length of a header, or nothing, and the rest. The
-- header is read from its own bytes.
pub record Wire (P : Type 0) : Type 0 where
  pub read_header : List ℕ → Option (ℕ × ℕ)
  pub decode : List ℕ → Incoming P
  pub read_header-append :
      (header rest : List ℕ)
      → length header ≡ header_len
      → read_header (header ++ rest) ≡ read_header header

-- What on_recv makes of a buffer: the end of the connection, a second read, or a message
pub data Received : Type 0 where
  finished : Received
  read_more : ℕ → Received
  complete : Received

-- A receiving connection: it waits for bytes, with those that it has not used, or is closed.
pub data Reception : Type 0 where
  waiting : List ℕ → Reception
  ended : Reception

module _ {P : Type 0} (wire : Wire P) where
  -- After the version has been checked
  unfoldable pub on_length : Bool → ℕ → Received
  on_length first_part zero = finished
  on_length first_part (suc n) = if first_part then read_more (suc n) else complete

  -- Up to the call of parse_message; the buffer has been read without an error.
  unfoldable pub on_recv : Bool → List ℕ → Received
  on_recv first_part [] = finished
  on_recv first_part (b ∷ buffer) = elim (wire.read_header (b ∷ buffer)) [
    | none ↦ finished
    | some (version, read_len) ↦ if version == 1 then on_length first_part read_len else finished
  ]

  module _ {H : HashTable ℕ} (env : Env P) (thread conn : ℕ) where
    unfoldable pub close : Handler H P → Handler H P × Reception
    close h = (on_closed env thread conn h, ended)

    -- The second part: the whole buffer, and the bytes behind it. `again` starts the next read.
    unfoldable pub on_recv2 :
        (List ℕ → Handler H P → Handler H P × Reception)
        → List ℕ
        → List ℕ
        → Handler H P
        → Handler H P × Reception
    on_recv2 again buffer rest h = elim (on_recv false buffer) [
      | finished ↦ close h
      | read_more n ↦ close h
      | complete ↦
          let (ok, h') = parse_message env thread (wire.decode buffer) h in
          if ok then again rest h' else close h'
    ]

    -- The first part, with the bytes behind the header. The socket gives as many as are asked for.
    unfoldable pub on_recv1 :
        (List ℕ → Handler H P → Handler H P × Reception)
        → List ℕ
        → List ℕ
        → Handler H P
        → Handler H P × Reception
    on_recv1 again header rest h = elim (on_recv true header) [
      | finished ↦ close h
      | complete ↦ close h
      | read_more n ↦
          if ltb (length rest) n
          then (h, waiting (header ++ rest))
          else on_recv2 again (header ++ take n rest) (drop n rest) h
    ]

    -- recv() and all that follows from the bytes that have arrived. A message takes more than the
    -- header's bytes, so that a round for each byte is enough.
    unfoldable pub receive : ℕ → List ℕ → Handler H P → Handler H P × Reception
    receive zero bytes h = (h, waiting bytes)
    receive (suc fuel) bytes h =
        if ltb (length bytes) header_len
        then (h, waiting bytes)
        else on_recv1 (λ rest h'. receive fuel rest h') (take header_len bytes)
            (drop header_len bytes) h
