-- ===== src/Routing/Register/Result.antt =====
-- What register_channel returns and what it leaves in the table.
use native.Mathlib.Nat.{mod-lt, one-le-pow}
use oocore.Prelude.{
  ℕ, zero, suc, ◌+◌, ◌-◌, ◌%◌, ◌^◌, ◌<◌, ◌≡◌, ◌≢◌, ◌⊎◌, inl, inr, refl, sym, ap, subst, ◌∙◌, false,
  none, some, arith, leb, Bool-cases, Option-cases,
}
use oocore.Routing.Table.{HashTable}
use oocore.Routing.Layout.{
  Widths, IsLayout, address, node_of, child_of, sub_of, child_of-address, node_of-address,
  sub_of-address, address-zero, child-le-word, two-le-child,
}
use oocore.Routing.Handler.{Handler, word}
use oocore.Routing.Register.{exists, find_free, insert_channel, register_channel}
use oocore.Routing.Register.Candidates.{candidate-eq, free_exists, find_free-some}

zero_or_pos : (n : ℕ) → (n ≡ 0) ⊎ (0 < n)
zero_or_pos zero = inl refl
zero_or_pos (suc n) = inr (omega arith)

abbrev pub IsLaidOut : {H : HashTable ℕ} {P : Type 0} → Widths → Handler H P → Type 0
IsLaidOut w h =
    IsLayout w h.channel_id h.channel_mask h.child_mask h.next_channel_mask h.next_channel_shift

module _ {H : HashTable ℕ} {P : Type 0} (w : Widths) (h : Handler H P) (l : IsLaidOut w h) where
  room :
      leb ((h.next_channel_mask + word - 1) % word) (HashTable.size H h.channels) ≡ false
      → suc (HashTable.size H h.channels) < h.next_channel_mask
  room e = ground (arith, l.next_mask_eq, two-le-child w, child-le-word w)

  -- Registering a connection ends and returns a result on every handler whose ids are laid out by
  -- its masks, however full the table is and wherever the counter stands.
  pub register_channel-total :
      (conn id : ℕ) → (r : ℕ × Handler H P) × (register_channel h conn id ≡ some r)
  unfolding register_channel
  register_channel-total conn zero =
      elim (Bool-cases
        (leb ((h.next_channel_mask + word - 1) % word) (HashTable.size H h.channels))) [
          | inl full ↦ ((0, h), rw full)
          | inr e ↦ elim (Option-cases (find_free h (h.next_channel_mask + 1) h.next_channel_id)) [
            | inl stuck ↦ absurd (free_exists w h l (room e) stuck)
            | inr ((next, id), found) ↦
                (insert_channel (record h { next_channel_id = next }) conn id, rw (e, found))
          ]
        ]
  register_channel-total conn (suc id) = elim (Bool-cases (exists h (suc id))) [
    | inl e ↦ ((0, h), rw e)
    | inr e ↦ (insert_channel h conn (suc id), rw e)
  ]

-- Beside the table t, h' has the connection under the new key `id`, and nothing else has changed.
pub record IsAdded {H : HashTable ℕ} {P : Type 0} (t : HashTable.Carrier H) (conn id : ℕ)
    (h' : Handler H P) : Type 0 where
  pub absent : HashTable.find H t id ≡ none
  pub connected : HashTable.find H h'.channels id ≡ some conn
  pub others : (j : ℕ) → j ≢ id → HashTable.find H h'.channels j ≡ HashTable.find H t j
  pub named : h'.connection_id conn ≡ id

module _ {H : HashTable ℕ} {P : Type 0} where
  absent_of_exists :
      (h : Handler H P) (id : ℕ) → exists h id ≡ false → HashTable.find H h.channels id ≡ none
  unfolding exists
  absent_of_exists h id e = ground arith

  insert_channel-IsAdded :
      (h : Handler H P) (conn id : ℕ)
      → exists h id ≡ false
      → (insert_channel h conn id).0 ≢ 0
      → ((insert_channel h conn id).0 ≡ id)
        × IsAdded h.channels conn (insert_channel h conn id).0 (insert_channel h conn id).1
  unfolding insert_channel
  insert_channel-IsAdded h conn id new nz =
      elim (Option-cases (HashTable.insert H h.channels id conn)) [
        | inl full ↦ absurd (nz (rw (full, insert_channel)))
        | inr (t, put) ↦
            let absent = absent_of_exists h id new in
            rw (put, insert_channel)
              (
                refl,
                record {
                  absent = absent;
                  connected =
                      HashTable.find-insert H h.channels t id id conn absent put ∙ ground arith;
                  others = λ j ne.
                      HashTable.find-insert H h.channels t id j conn absent put ∙ ground arith;
                  named = ground arith;
                },
              )
      ]

  inserted :
      (h : Handler H P) (conn id : ℕ) (r : ℕ × Handler H P)
      → insert_channel h conn id ≡ r
      → exists h id ≡ false
      → r.0 ≢ 0
      → (r.0 ≡ id) × IsAdded h.channels conn r.0 r.1
  inserted h conn id r q new =
      subst (λ (r : ℕ × Handler H P). r.0 ≢ 0 → (r.0 ≡ id) × IsAdded h.channels conn r.0 r.1) q
        (insert_channel-IsAdded h conn id new)

  -- The cases in which a new id is allocated.
  allocated :
      (h : Handler H P) (conn : ℕ) (r : ℕ × Handler H P)
      → register_channel h conn 0 ≡ some r
      → r.0 ≢ 0
      → (next id : ℕ) × (find_free h (h.next_channel_mask + 1) h.next_channel_id ≡ some (next, id))
        × (insert_channel (record h { next_channel_id = next }) conn id ≡ r)
  unfolding register_channel
  allocated h conn r e nz =
      elim (Bool-cases
        (leb ((h.next_channel_mask + word - 1) % word) (HashTable.size H h.channels))) [
          | inl full ↦ absurd (nz (ground arith))
          | inr free ↦
              elim (Option-cases (find_free h (h.next_channel_mask + 1) h.next_channel_id)) [
                | inl stuck ↦ absurd (ground arith)
                | inr ((next, id), found) ↦ (next, id, found, ground arith)
              ]
        ]

  -- A result other than 0 of register_channel was no key before; now it has the connection behind
  -- it, the connection knows it, and no other key has changed.
  pub register_channel-IsAdded :
      (h : Handler H P) (conn id : ℕ) (r : ℕ × Handler H P)
      → register_channel h conn id ≡ some r
      → r.0 ≢ 0
      → IsAdded h.channels conn r.0 r.1
  unfolding register_channel
  register_channel-IsAdded h conn zero r e nz =
      let (next, id, found, q) = allocated h conn r e nz in
      (inserted (record h { next_channel_id = next }) conn id r q
        (unfold exists in (find_free-some h (h.next_channel_mask + 1) h.next_channel_id found).3)
        nz).1
  register_channel-IsAdded h conn (suc id) r e nz = elim (Bool-cases (exists h (suc id))) [
    | inl old ↦ absurd (nz (ground arith))
    | inr new ↦ (inserted h conn (suc id) r (ground arith) new nz).1
  ]

module _ {H : HashTable ℕ} {P : Type 0} (w : Widths) (h : Handler H P) (l : IsLaidOut w h) where
  -- In a laid out handler an allocated id has the handler's own number, a child's number above 0
  -- and no compartment.
  pub register_channel-address :
      (conn : ℕ) (r : ℕ × Handler H P)
      → register_channel h conn 0 ≡ some r
      → r.0 ≢ 0
      → (node_of w r.0 ≡ l.own) × (0 < child_of w r.0) × (sub_of w r.0 ≡ 0)
  register_channel-address conn r e nz =
      let (next, id, found, q) = allocated h conn r e nz in
      let some_id = find_free-some h (h.next_channel_mask + 1) h.next_channel_id found in
      let k = next % 2 ^ w.child in
      let k-lt : k < 2 ^ w.child = mod-lt next (one-le-pow w.child 2 (omega arith)) in
      let same =
        (inserted (record h { next_channel_id = next }) conn id r q (unfold exists in some_id.3)
          nz).0 in
      let e' : r.0 ≡ address w l.own k = same ∙ some_id.1 ∙ candidate-eq w h l next in
      let other : address w l.own k ≢ h.channel_id = λ c. ground (arith, some_id.2, same, e', c) in
      let pos : 0 < k = elim (zero_or_pos k) [
        | inl z ↦
            absurd (other (ap (address w l.own) z ∙ address-zero w l.own ∙ sym l.channel_id_eq))
        | inr p ↦ p
      ] in
      rw e' (
        node_of-address w l.own k k-lt,
        rw (child_of-address w l.own k k-lt) pos,
        sub_of-address w l.own k k-lt,
      )
