-- ===== src/Routing/Register.antt =====
-- MessageHandler::register_channel of src/OOServer/MessageConnection.cpp.
pub mod Candidates
pub mod Result
use oocore.Prelude.{
  ℕ, zero, suc, ◌+◌, ◌-◌, ◌*◌, ◌%◌, ◌^◌, bit_and, bit_or, Bool, true, false, Option, none, some,
  ◌==◌, leb, if◌then◌else◌, ◌||◌, not,
}
use oocore.Routing.Table.{HashTable, is_some}
use oocore.Routing.Handler.{Handler, set_channel_id, word}

module _ {H : HashTable ℕ} {P : Type 0} where
  -- m_mapChannelIds.exists
  unfoldable pub exists : Handler H P → ℕ → Bool
  exists h id = is_some (HashTable.find H h.channels id)

  -- m_uChannelId | ((next & m_uNextChannelMask) << m_uNextChannelShift)
  unfoldable pub candidate : Handler H P → ℕ → ℕ
  candidate h next =
      bit_or h.channel_id (bit_and next h.next_channel_mask * 2 ^ h.next_channel_shift % word)

  -- the test of the do loop, on fuel: none if the fuel ran out
  unfoldable pub find_free : Handler H P → ℕ → ℕ → Option (ℕ × ℕ)
  find_free h zero next = none
  find_free h (suc fuel) next =
      let next' = (next + 1) % word in
      let id = candidate h next' in
      let rest = find_free h fuel next' in
      if id == h.channel_id || exists h id then rest else some (next', id)

  -- the insertion and what follows it; 0 where the table has no space
  unfoldable pub insert_channel : Handler H P → ℕ → ℕ → ℕ × Handler H P
  unfolding set_channel_id
  insert_channel h conn id = elim (HashTable.insert H h.channels id conn) [
    | none ↦ (0, h)
    | some t ↦ (id, set_channel_id conn id (record h { channels = t }))
  ]

  -- none: the loop did not end within its fuel
  unfoldable pub register_channel : Handler H P → ℕ → ℕ → Option (ℕ × Handler H P)
  unfolding insert_channel
  register_channel h conn zero =
      if leb ((h.next_channel_mask + word - 1) % word) (HashTable.size H h.channels)
      then some (0, h)
      else elim (find_free h (h.next_channel_mask + 1) h.next_channel_id) [
        | none ↦ none
        | some (next, id) ↦ some (insert_channel (record h { next_channel_id = next }) conn id)
      ]
  register_channel h conn (suc id) =
      if exists h (suc id) then some (0, h) else some (insert_channel h conn (suc id))
