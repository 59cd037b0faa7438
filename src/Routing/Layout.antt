-- ===== src/Routing/Layout.antt =====
-- How a channel id is cut into the handler's own part, a child's number and a compartment.
use native.Mathlib.Nat.{
  zero-mul, div-add-mod', div-div-eq-div-mul, add-zero, div-eq_of_lt-le, mul-add-mod_self_right,
  mul-mod_left, mul-div_cancel, div-lt_iff_lt-mul, one-le-pow, pow-suc, mod-eq_of_lt,
}
use oocore.Prelude.{
  ℕ, zero, suc, ◌+◌, ◌-◌, ◌*◌, ◌/◌, ◌%◌, ◌^◌, ◌≤◌, ◌<◌, bit_and, bit_or, ◌≡◌, sym, ap, ◌∙◌, Option,
  none, some, arith, ◌==◌, if◌then◌else◌,
}
use oocore.Prelude.Bits.{bit_or_disjoint, bit_and_field, bit_and_low, pow-add, mul-pow_twice}

-- The first loop of set_channel: for (shift = 0; !(mask & 1); ++shift) mask >>= 1.
pub strip_zeros : ℕ → ℕ → ℕ → Option (ℕ × ℕ)
strip_zeros zero mask shift = none
strip_zeros (suc fuel) mask shift =
    let rest = strip_zeros fuel (mask / 2) (shift + 1) in
    if bit_and mask 1 == 0 then rest else some (mask, shift)

-- The widths in bits, from the low end: `sub` for the compartments below a child, `child`, and
-- `node` for the handler's own number.
pub record Widths : Type 0 where
  pub sub : ℕ
  pub child : ℕ
  pub node : ℕ
  pub total : sub + child + node ≡ 32
  pub has_child : 0 < child

pub record IsLayout (w : Widths) (channel_id mask child_mask next_mask shift : ℕ) : Type 0 where
  pub mask_eq : mask ≡ (2 ^ w.node - 1) * 2 ^ (w.sub + w.child)
  pub child_mask_eq : child_mask ≡ (2 ^ w.child - 1) * 2 ^ w.sub
  pub next_mask_eq : next_mask ≡ 2 ^ w.child - 1
  pub shift_eq : shift ≡ w.sub
  pub own : ℕ
  pub own_lt : own < 2 ^ w.node
  pub channel_id_eq : channel_id ≡ own * 2 ^ (w.sub + w.child)

-- The parts of an address.
unfoldable pub node_of : Widths → ℕ → ℕ
node_of w x = x / 2 ^ (w.sub + w.child)

unfoldable pub child_of : Widths → ℕ → ℕ
child_of w x = x / 2 ^ w.sub % 2 ^ w.child

unfoldable pub sub_of : Widths → ℕ → ℕ
sub_of w x = x % 2 ^ w.sub

mask_sum : (p c n : ℕ) → 0 < c → 0 < n → (n - 1) * (p * c) + (c - 1) * p ≡ (c * n - 1) * p
mask_sum p zero n h k = elim h [ ]
mask_sum p (suc c) zero h k = elim k [ ]
mask_sum p (suc c) (suc n) h k =
    let e : suc c * suc n - 1 ≡ c * n + c + n = omega arith in
    let ec : suc c - 1 ≡ c = omega arith in
    let en : suc n - 1 ≡ n = omega arith in rw (e, ec, en) (omega arith)

mask_fits : (p c : ℕ) → 0 < p → 0 < c → (c - 1) * p < p * c
mask_fits p zero h k = elim k [ ]
mask_fits p (suc c) h k = let ec : suc c - 1 ≡ c = omega arith in rw ec (omega (arith, h))

==-mul : (a b p : ℕ) → 0 < p → (a * p == b * p) ≡ (a == b)
==-mul a b p h = ground (
  arith,
  λ (e : a * p ≡ b * p). sym (mul-div_cancel a h) ∙ ap (λ t. t / p) e ∙ mul-div_cancel b h,
  λ (e : a ≡ b). ap (λ t. t * p) e,
)

==-mul-zero : (a p : ℕ) → 0 < p → (a * p == 0) ≡ (a == 0)
==-mul-zero a p h = rw zero-mul at (==-mul a 0 p h)

pub field-lt : (r p c : ℕ) → 0 < p → r < c → r * p < p * c
field-lt r p c h k = grind arith

module _ (w : Widths) where
  open w use {sub, child, node, total}

  pub pow_total : 2 ^ (sub + child) * 2 ^ node ≡ 2 ^ 32
  pow_total = sym (pow-add (sub + child) node) ∙ ap (λ (t : ℕ). 2 ^ t) total

  node_of-lt : (x : ℕ) → x < 2 ^ 32 → node_of w x < 2 ^ node
  unfolding node_of
  node_of-lt x h =
      (div-lt_iff_lt-mul (one-le-pow (sub + child) 2 (omega arith))).1 (omega (arith, pow_total, h))

  -- The three masks that the handler uses, as parts of the address.
  pub own_mask :
      (x : ℕ)
      → x < 2 ^ 32
      → bit_and x ((2 ^ node - 1) * 2 ^ (sub + child)) ≡ node_of w x * 2 ^ (sub + child)
  unfolding node_of
  own_mask x h =
      bit_and_field (sub + child) node x
      ∙ ap (λ t. t * 2 ^ (sub + child)) (mod-eq_of_lt (node_of-lt x h))

  pub child_mask : (x : ℕ) → bit_and x ((2 ^ child - 1) * 2 ^ sub) ≡ child_of w x * 2 ^ sub
  unfolding child_of
  child_mask x = bit_and_field sub child x

  div-sub-lt : (x : ℕ) → x < 2 ^ 32 → x / 2 ^ sub < 2 ^ (child + node)
  div-sub-lt x h =
      let widths : sub + (child + node) ≡ 32 = omega (arith, total) in
      let e : 2 ^ (sub + (child + node)) ≡ 2 ^ 32 = ap (λ (t : ℕ). 2 ^ t) widths in
      (div-lt_iff_lt-mul (one-le-pow sub 2 (omega arith))).1
        (omega (arith, pow-add sub (child + node), e, h))

  pub both_masks_eq :
      bit_or ((2 ^ node - 1) * 2 ^ (sub + child)) ((2 ^ child - 1) * 2 ^ sub)
      ≡ (2 ^ (child + node) - 1) * 2 ^ sub
  both_masks_eq =
      let p = one-le-pow sub 2 (omega arith) in
      let c = one-le-pow child 2 (omega arith) in
      bit_or_disjoint (sub + child) (2 ^ node - 1) ((2 ^ child - 1) * 2 ^ sub)
        (rw pow-add (mask_fits (2 ^ sub) (2 ^ child) p c))
      ∙ rw (pow-add sub child, pow-add child node)
          (mask_sum (2 ^ sub) (2 ^ child) (2 ^ node) c (one-le-pow node 2 (omega arith)))

  pub both_masks :
      (x : ℕ)
      → x < 2 ^ 32
      → bit_and x (bit_or ((2 ^ node - 1) * 2 ^ (sub + child)) ((2 ^ child - 1) * 2 ^ sub))
        ≡ x / 2 ^ sub * 2 ^ sub
  both_masks x h =
      rw both_masks_eq
        (bit_and_field sub (child + node) x ∙ ap (λ t. t * 2 ^ sub) (mod-eq_of_lt (div-sub-lt x h)))

  -- The same tests as the code writes them.
  pub test_own :
      (x own : ℕ)
      → x < 2 ^ 32
      → (bit_and x ((2 ^ node - 1) * 2 ^ (sub + child)) == own * 2 ^ (sub + child))
        ≡ (node_of w x == own)
  test_own x own h =
      rw (own_mask x h)
        (==-mul (node_of w x) own (2 ^ (sub + child)) (one-le-pow (sub + child) 2 (omega arith)))

  pub test_child : (x : ℕ) → (bit_and x ((2 ^ child - 1) * 2 ^ sub) == 0) ≡ (child_of w x == 0)
  test_child x =
      rw (child_mask x) (==-mul-zero (child_of w x) (2 ^ sub) (one-le-pow sub 2 (omega arith)))

odd_mask : (c : ℕ) → 0 < c → (2 ^ c - 1) % 2 ≡ 1
odd_mask zero h = elim h [ ]
odd_mask (suc c) h = rw (pow-suc 2 c) (omega (arith, one-le-pow c 2 (omega arith)))

-- The first loop of set_channel ends, with the shift of the child's mask and the mask shifted down.
pub strip_zeros_lem :
    (s c fuel shift : ℕ)
    → 0 < c
    → s < fuel
    → strip_zeros fuel ((2 ^ c - 1) * 2 ^ s) shift ≡ some (2 ^ c - 1, shift + s)
unfolding strip_zeros
strip_zeros_lem s c zero shift h k = elim k [ ]
strip_zeros_lem zero c (suc fuel) shift h k =
    let e : (2 ^ c - 1) * 2 ^ 0 ≡ 2 ^ c - 1 = omega arith in
    let one : (2 ^ c - 1) % 2 ≡ 1 = odd_mask c h in
    rw (e, bit_and_low 1 (2 ^ c - 1), one) (rw add-zero)
strip_zeros_lem (suc s) c (suc fuel) shift h k =
    let low : (2 ^ c - 1) * 2 ^ suc s % 2 ≡ 0 = rw mul-pow_twice (omega arith) in
    let half : (2 ^ c - 1) * 2 ^ suc s / 2 ≡ (2 ^ c - 1) * 2 ^ s = rw mul-pow_twice (omega arith) in
    let next : shift + suc s ≡ shift + 1 + s = omega arith in
    rw (bit_and_low 1 ((2 ^ c - 1) * 2 ^ suc s), low, half, next)
      (strip_zeros_lem s c fuel (shift + 1) h (omega arith))

pub field-lt-word : (w : Widths) (r : ℕ) → r < 2 ^ w.child → r * 2 ^ w.sub < 2 ^ (w.sub + w.child)
field-lt-word w r h =
    rw pow-add (field-lt r (2 ^ w.sub) (2 ^ w.child) (one-le-pow w.sub 2 (omega arith)) h)

pub pow-le-word : (w : Widths) → 2 ^ (w.sub + w.child) ≤ 2 ^ 32
pow-le-word w = let n = one-le-pow w.node 2 (omega arith) in grind (arith, pow_total w, n)

-- All the bits above a compartment.
pub high-pow : (w : Widths) → 2 ^ (w.child + w.node) * 2 ^ w.sub ≡ 2 ^ 32
high-pow w =
    let widths : w.child + w.node + w.sub ≡ 32 = omega (arith, w.total) in
    sym (pow-add (w.child + w.node) w.sub) ∙ ap (λ (t : ℕ). 2 ^ t) widths

pub child-le-word : (w : Widths) → 2 ^ w.child ≤ 2 ^ 32
child-le-word w =
    let p = one-le-pow w.sub 2 (omega arith) in
    grind (arith, pow-le-word w, pow-add w.sub w.child, p)

two-le-pow : (c : ℕ) → 0 < c → 2 ≤ 2 ^ c
two-le-pow zero h = elim h [ ]
two-le-pow (suc c) h = omega (arith, pow-suc 2 c, one-le-pow c 2 (omega arith))

pub two-le-child : (w : Widths) → 2 ≤ 2 ^ w.child
two-le-child w = two-le-pow w.child w.has_child

-- The id of child r of the node `own`.
unfoldable pub address : Widths → ℕ → ℕ → ℕ
address w own r = own * 2 ^ (w.sub + w.child) + r * 2 ^ w.sub

module _ (w : Widths) (own r : ℕ) (r-lt : r < 2 ^ w.child) where
  open w use {sub, child}

  pub node_of-address : node_of w (address w own r) ≡ own
  unfolding node_of address
  node_of-address =
      div-eq_of_lt-le (2 ^ (sub + child)) (omega arith) (omega (arith, field-lt-word w r r-lt))

  address-split : address w own r ≡ (own * 2 ^ child + r) * 2 ^ sub
  unfolding address
  address-split = rw pow-add (omega arith)

  pub child_of-address : child_of w (address w own r) ≡ r
  unfolding child_of
  child_of-address =
      rw (address-split, mul-div_cancel (own * 2 ^ child + r) (one-le-pow sub 2 (omega arith)))
        (mul-add-mod_self_right own (2 ^ child) r ∙ mod-eq_of_lt r-lt)

  pub sub_of-address : sub_of w (address w own r) ≡ 0
  unfolding sub_of
  sub_of-address = rw address-split (mul-mod_left (own * 2 ^ child + r) (2 ^ sub))

pub address-zero : (w : Widths) (own : ℕ) → address w own 0 ≡ own * 2 ^ (w.sub + w.child)
unfolding address
address-zero w own = omega arith

-- An address without its compartment.
pub prefix-address :
    (w : Widths) (x : ℕ) → x / 2 ^ w.sub * 2 ^ w.sub ≡ address w (node_of w x) (child_of w x)
unfolding address node_of child_of
prefix-address w x =
    let q = x / 2 ^ w.sub in
    let split : q / 2 ^ w.child * 2 ^ w.child + q % 2 ^ w.child ≡ q =
      div-add-mod' q (2 ^ w.child) in
    let whole : x / (2 ^ w.sub * 2 ^ w.child) ≡ q / 2 ^ w.child =
      sym (div-div-eq-div-mul x (2 ^ w.sub) (2 ^ w.child)) in
    rw (pow-add w.sub w.child, whole)
      (ap (λ t. t * 2 ^ w.sub) (sym split)
        ∙ regroup (q / 2 ^ w.child) (2 ^ w.child) (q % 2 ^ w.child) (2 ^ w.sub))
  where
    regroup : (a c r p : ℕ) → (a * c + r) * p ≡ a * (p * c) + r * p
    regroup a c r p = omega arith

-- An address with no compartment is its own prefix.
pub address_of_parts :
    (w : Widths) (x : ℕ) → sub_of w x ≡ 0 → x ≡ address w (node_of w x) (child_of w x)
unfolding sub_of
address_of_parts w x z = omega (arith, div-add-mod' x (2 ^ w.sub)) ∙ prefix-address w x
