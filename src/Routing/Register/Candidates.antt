-- ===== src/Routing/Register/Candidates.antt =====
-- The candidates of register_channel's loop: distinct ids below the handler's own, all tried.
use native.Mathlib.Nat.{
  add-zero, mod-eq_of_lt, mod-lt, one-le-pow, add-mod, add-mul-mod_self_right, mod-add-div',
}
use oocore.Prelude.{
  ℕ, zero, suc, ◌+◌, ◌*◌, ◌/◌, ◌%◌, ◌^◌, ◌≤◌, ◌<◌, ◌≡◌, ◌≢◌, sym, ap, subst, ◌∙◌, true, false, none,
  some, List, [], ◌∷◌, arith, ◌==◌, if◌then◌else◌, length,
}
use oocore.Prelude.Bits.{bit_or_disjoint, bit_and_low, pow-add}
use oocore.Routing.Table.{HashTable, has, has-cons}
use oocore.Routing.Layout.{
  Widths, address, IsLayout, child_of, child_of-address, field-lt-word, pow-le-word,
}
use oocore.Routing.Handler.{Handler, word}
use oocore.Routing.Register.{exists, candidate, find_free}

-- A pigeonhole: n distinct values in a list need n places.
without : ℕ → List ℕ → List ℕ
without k [] = []
without k (j ∷ js) = if k == j then js else j ∷ without k js

length-without : (k : ℕ) (js : List ℕ) → has k js ≡ true → suc (length (without k js)) ≡ length js
unfolding without has
length-without k [] h = ground arith
length-without k (j ∷ js) h = ground (arith, length-without k js)

has-without :
    (k i : ℕ) (js : List ℕ) → has i js ≡ true → (i == k) ≡ false → has i (without k js) ≡ true
unfolding without has
has-without k i [] h ne = ground arith
has-without k i (j ∷ js) h ne = ground (arith, has-without k i js)

pub pigeonhole :
    (n : ℕ) (f : ℕ → ℕ) (ks : List ℕ)
    → ((i j : ℕ) → i < n → j < n → f i ≡ f j → i ≡ j)
    → ((i : ℕ) → i < n → has (f i) ks ≡ true)
    → n ≤ length ks
pigeonhole zero f ks inj all = omega arith
pigeonhole (suc n) f ks inj all =
    let fits = all n (omega arith) in
    let rest =
      pigeonhole n f (without (f n) ks) (λ i j p q. inj i j (omega arith) (omega arith))
        (λ i p.
          has-without (f n) (f i) ks (all i (omega arith))
            (ground (arith, inj i n (omega arith) (omega arith)))) in
    omega (arith, rest, length-without (f n) ks fits)

mod_of_multiple : (n a m : ℕ) → n % (a * m) % m ≡ n % m
mod_of_multiple n a m =
    let e : n ≡ n % (a * m) + n / (a * m) * a * m = omega (arith, mod-add-div' n (a * m)) in
    sym (ap (λ t. t % m) e ∙ add-mul-mod_self_right (n % (a * m)) (n / (a * m) * a) m)

-- Adding one modulo the word and then reducing is adding one and reducing.
word-mod : (w : Widths) (n : ℕ) → n % word % 2 ^ w.child ≡ n % 2 ^ w.child
word-mod w n =
    let widths : w.sub + w.node + w.child ≡ 32 = omega (arith, w.total) in
    let e : 2 ^ (w.sub + w.node) * 2 ^ w.child ≡ word =
      sym (pow-add (w.sub + w.node) w.child) ∙ ap (λ (t : ℕ). 2 ^ t) widths in
    ap (λ t. n % t % 2 ^ w.child) (sym e) ∙ mod_of_multiple n (2 ^ (w.sub + w.node)) (2 ^ w.child)

-- The residue that the loop tests i rounds after the next one.
later_residue :
    (w : Widths) (next i : ℕ)
    → ((next + 1) % word + 1 + i) % 2 ^ w.child ≡ (next + 1 + suc i) % 2 ^ w.child
later_residue w next i =
    let m = 2 ^ w.child in
    let d : (next + 1) % word + 1 + i ≡ (next + 1) % word + (1 + i) = omega arith in
    let d' : next + 1 + suc i ≡ next + 1 + (1 + i) = omega arith in
    rw (d, d')
      (add-mod ((next + 1) % word) (1 + i) m
        ∙ ap (λ t. (t + (1 + i) % m) % m) (word-mod w (next + 1))
        ∙ sym (add-mod (next + 1) (1 + i) m))

same_residue : (m n i j : ℕ) → i < m → j < m → (n + i) % m ≡ (n + j) % m → i ≡ j
same_residue m n i j p q e = grind arith

module _ {H : HashTable ℕ} {P : Type 0} (w : Widths) (h : Handler H P)
    (l : IsLayout w h.channel_id h.channel_mask h.child_mask h.next_channel_mask
      h.next_channel_shift) where
  pub candidate-eq : (next : ℕ) → candidate h next ≡ address w l.own (next % 2 ^ w.child)
  unfolding candidate address
  candidate-eq next =
      let r = next % 2 ^ w.child in
      let r-lt : r < 2 ^ w.child = mod-lt next (one-le-pow w.child 2 (omega arith)) in
      let fits : r * 2 ^ w.sub < 2 ^ (w.sub + w.child) = field-lt-word w r r-lt in
      let small : r * 2 ^ w.sub < word = omega (arith, fits, pow-le-word w) in
      rw (l.next_mask_eq, l.shift_eq, l.channel_id_eq, bit_and_low w.child next, mod-eq_of_lt small)
        (bit_or_disjoint (w.sub + w.child) l.own (r * 2 ^ w.sub) fits)

  find_free-none :
      (fuel next i : ℕ)
      → find_free h fuel next ≡ none
      → i < fuel
      → has
          (address w l.own ((next + 1 + i) % 2 ^ w.child))
          (h.channel_id ∷ HashTable.keys H h.channels)
        ≡ true
  unfolding find_free exists
  find_free-none zero next i e p = elim p [ ]
  find_free-none (suc fuel) next zero e p =
      let c : candidate h ((next + 1) % word) ≡ address w l.own ((next + 1 + 0) % 2 ^ w.child) =
        candidate-eq ((next + 1) % word)
        ∙ ap (address w l.own)
            (word-mod w (next + 1) ∙ ap (λ t. t % 2 ^ w.child) (sym (add-zero (next + 1)))) in
      let id = candidate h ((next + 1) % word) in
      let keys = HashTable.keys H h.channels in
      let here : has id (h.channel_id ∷ keys) ≡ true =
        ground (arith, has-cons id h.channel_id keys, HashTable.has-keys H h.channels id) in
      subst (λ t. has t (h.channel_id ∷ keys) ≡ true) c here
  find_free-none (suc fuel) next (suc i) e p =
      let more : find_free h fuel ((next + 1) % word) ≡ none = ground arith in
      rw (← later_residue w next i)
        (find_free-none fuel ((next + 1) % word) i more (omega (arith, p)))

  residue_lt : (n : ℕ) → n % 2 ^ w.child < 2 ^ w.child
  residue_lt n = mod-lt n (one-le-pow w.child 2 (omega arith))

  distinct :
      (n i j : ℕ)
      → i < 2 ^ w.child
      → j < 2 ^ w.child
      → address w l.own ((n + i) % 2 ^ w.child) ≡ address w l.own ((n + j) % 2 ^ w.child)
      → i ≡ j
  distinct n i j p q e = same_residue (2 ^ w.child) n i j p q (
      sym (child_of-address w l.own ((n + i) % 2 ^ w.child) (residue_lt (n + i)))
      ∙ ap (child_of w) e
      ∙ child_of-address w l.own ((n + j) % 2 ^ w.child) (residue_lt (n + j)))

  -- While the guard of register_channel lets it, the loop finds a free id.
  pub free_exists :
      suc (HashTable.size H h.channels) < h.next_channel_mask
      → find_free h (h.next_channel_mask + 1) h.next_channel_id ≢ none
  free_exists room e =
      let n = h.next_channel_id + 1 in
      let one : 1 ≤ 2 ^ w.child = one-le-pow w.child 2 (omega arith) in
      let fuel : h.next_channel_mask + 1 ≡ 2 ^ w.child = omega (arith, l.next_mask_eq) in
      let taken = λ (i : ℕ) (p : i < 2 ^ w.child).
        find_free-none (h.next_channel_mask + 1) h.next_channel_id i e (omega (arith, p, fuel)) in
      let full =
        pigeonhole (2 ^ w.child) (λ i. address w l.own ((n + i) % 2 ^ w.child))
          (h.channel_id ∷ HashTable.keys H h.channels) (distinct n) taken in
      omega (arith, full, HashTable.size-keys H h.channels, room, l.next_mask_eq)

module _ {H : HashTable ℕ} {P : Type 0} (h : Handler H P) where
  pub find_free-some :
      (fuel next : ℕ) {next' id : ℕ}
      → find_free h fuel next ≡ some (next', id)
      → (next' < word)
        × (id ≡ candidate h next')
        × ((id == h.channel_id) ≡ false)
        × (exists h id ≡ false)
  unfolding find_free
  find_free-some zero next e = ground arith
  find_free-some (suc fuel) next {next'} {id} e =
      let n = (next + 1) % word in
      let ih = find_free-some fuel n {next' = next'} {id = id} in
      let small : n < word = mod-lt (next + 1) {m = word} (omega arith) in ground (arith, ih, small)
