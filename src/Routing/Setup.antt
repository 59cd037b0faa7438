-- ===== src/Routing/Setup.antt =====
-- set_channel, and the classification of channel ids by classify_channel.
use native.Mathlib.Nat.{zero-add, mod-lt, one-le-pow, mod-eq_of_lt}
use oocore.Prelude.{
  ℕ, zero, suc, ◌+◌, ◌-◌, ◌*◌, ◌%◌, ◌^◌, ◌≤◌, ◌<◌, bit_and, bit_or, ◌≡◌, refl, some, arith, ◌==◌,
  ltb, if◌then◌else◌,
}
use oocore.Prelude.Bits.{bit_and_field, bit_and_low, pow_mono}
use oocore.Routing.Table.{HashTable}
use oocore.Routing.Layout.{
  Widths, node_of, child_of, sub_of, strip_zeros_lem, both_masks_eq, high-pow,
}
use oocore.Routing.Handler.{Handler, set_channel, word}
use oocore.Routing.Register.Result.{IsLaidOut}
use oocore.Routing.Receive.{classify_channel}
use oocore.Routing.Route.{is_own-node, child_mask-child}

module _ {H : HashTable ℕ} {P : Type 0} (w : Widths) (h : Handler H P) where
  -- set_channel ends on every channel mask and child mask of adjacent bits that fill the id from
  -- the top, and leaves the handler laid out by their widths with the given upstream channel.
  pub set_channel-IsLaidOut :
      (own upstream : ℕ)
      → own < 2 ^ w.node
      → (h' : Handler H P) × (set_channel h
            (own * 2 ^ (w.sub + w.child))
            ((2 ^ w.node - 1) * 2 ^ (w.sub + w.child))
            ((2 ^ w.child - 1) * 2 ^ w.sub)
            upstream
          ≡ some h')
        × IsLaidOut w h'
        × (h'.upstream ≡ upstream)
  unfolding set_channel
  set_channel-IsLaidOut own upstream fits =
      let stripped =
        strip_zeros_lem w.sub w.child 32 0 w.has_child (omega (arith, w.total, w.has_child)) in
      (
        record h {
          channel_id = own * 2 ^ (w.sub + w.child);
          channel_mask = (2 ^ w.node - 1) * 2 ^ (w.sub + w.child);
          child_mask = (2 ^ w.child - 1) * 2 ^ w.sub;
          upstream = upstream;
          next_channel_mask = 2 ^ w.child - 1;
          next_channel_shift = w.sub;
        },
        rw (set_channel, stripped, zero-add),
        record {
          mask_eq = refl;
          child_mask_eq = refl;
          next_mask_eq = refl;
          shift_eq = refl;
          own = own;
          own_lt = fits;
          channel_id_eq = refl;
        },
        refl,
      )

low_complement : (m p : ℕ) → 1 ≤ m → m * p ≡ 2 ^ 32 → word - 1 - (m - 1) * p ≡ p - 1
low_complement zero p h e = elim h [ ]
low_complement (suc m) p h e = let q : suc m - 1 ≡ m = omega arith in rw q (omega (arith, e))

sub_of-lt : (w : Widths) (id : ℕ) → sub_of w id < 2 ^ w.sub
unfolding sub_of
sub_of-lt w id = mod-lt id (one-le-pow w.sub 2 (omega arith))

-- What classify_channel says by the parts of the address.
unfoldable pub class_of : Widths → ℕ → ℕ → ℕ
class_of w own id =
    if node_of w id == own
    then if child_of w id == 0 then if sub_of w id == 0 then 0 else 1 else 2
    else if ltb id (2 ^ 31)
    then 4
    else 3

module _ {H : HashTable ℕ} {P : Type 0} (w : Widths) (h : Handler H P) (l : IsLaidOut w h) where
  low_bits-sub : (id : ℕ) → bit_and id (word - 1 - bit_or h.channel_mask h.child_mask) ≡ sub_of w id
  unfolding sub_of
  low_bits-sub id =
      rw
        (
          l.mask_eq,
          l.child_mask_eq,
          both_masks_eq w,
          low_complement (2 ^ (w.child + w.node)) (2 ^ w.sub)
              (one-le-pow (w.child + w.node) 2 (omega arith)) (high-pow w),
        )
        (bit_and_low w.sub id)

  -- In a laid out handler classify_channel tells same, compartment, process, user and machine
  -- apart by the parts of a 32-bit id, where a compartment's number has at most 16 bits.
  classify_channel-class :
      (id : ℕ) → id < 2 ^ 32 → w.sub ≤ 16 → classify_channel h id ≡ class_of w l.own id
  unfolding classify_channel class_of
  classify_channel-class id small narrow =
      let cut : sub_of w id % 2 ^ 16 ≡ sub_of w id =
        mod-eq_of_lt (omega (arith, sub_of-lt w id, pow_mono w.sub 16 narrow)) in
      rw
        (
          is_own-node w h l id small,
          child_mask-child w h l id,
          low_bits-sub id,
          cut,
          bit_and_field 31 1 id,
        )
        (ground arith)
