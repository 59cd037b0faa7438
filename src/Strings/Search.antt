-- ===== src/Strings/Search.antt =====
-- What the searches find.
use oocore.Prelude.{
  ℕ, zero, suc, ◌+◌, ◌-◌, ◌≤◌, ◌<◌, ◌≡◌, ◌≢◌, ◌⊎◌, refl, sym, ap, subst, ◌∙◌, inl, inr, true, false,
  Option, none, some, List, [], ◌∷◌, arith, ◌==◌, leb, length, get_elem?, drop, Bool-cases,
  Option-cases,
}
use oocore.Strings.{memchr, find1, byte_at, scan_back, rfind}

-- The first place of c from `pos` on, or none
abbrev pub IsFirst : List ℕ → ℕ → ℕ → Option ℕ → Type 0
IsFirst s c pos none = (j : ℕ) → pos ≤ j → get_elem? s j ≢ some c
IsFirst s c pos (some i) =
    (pos ≤ i) × (get_elem? s i ≡ some c) × ((j : ℕ) → pos ≤ j → j < i → get_elem? s j ≢ some c)

-- The last place of c up to `pos`, or none
abbrev pub IsLast : List ℕ → ℕ → ℕ → Option ℕ → Type 0
IsLast s c pos none = (j : ℕ) → j ≤ pos → get_elem? s j ≢ some c
IsLast s c pos (some i) =
    (i ≤ pos) × (get_elem? s i ≡ some c) × ((j : ℕ) → i < j → j ≤ pos → get_elem? s j ≢ some c)

get_elem?-drop : (pos i : ℕ) (s : List ℕ) → get_elem? (drop pos s) i ≡ get_elem? s (pos + i)
get_elem?-drop zero i s =
    let e : i ≡ 0 + i = omega arith in subst (λ t. get_elem? s i ≡ get_elem? s t) e refl
get_elem?-drop (suc pos) i [] = refl
get_elem?-drop (suc pos) i (b ∷ bs) =
    let e : suc (pos + i) ≡ suc pos + i = omega arith in
    get_elem?-drop pos i bs ∙ subst (λ t. get_elem? bs (pos + i) ≡ get_elem? (b ∷ bs) t) e refl

pub get_elem?-out : (s : List ℕ) (j : ℕ) (c : ℕ) → get_elem? s j ≡ some c → j < length s
get_elem?-out [] j c e = ground (arith, e)
get_elem?-out (b ∷ bs) zero c e = omega arith
get_elem?-out (b ∷ bs) (suc j) c e = let ih = get_elem?-out bs j c e in omega (arith, ih)

memchr-none : (s : List ℕ) (c j : ℕ) → memchr s c ≡ none → get_elem? s j ≢ some c
unfolding memchr
memchr-none [] c j e f = ground (arith, f)
memchr-none (b ∷ bs) c zero e f = ground (arith, e, f)
memchr-none (b ∷ bs) c (suc j) e f = let ih = memchr-none bs c j in ground (arith, e, f, ih)

memchr-some :
    (s : List ℕ) (c i : ℕ)
    → memchr s c ≡ some i
    → (get_elem? s i ≡ some c) × ((j : ℕ) → j < i → get_elem? s j ≢ some c)
unfolding memchr
memchr-some [] c i e = absurd (ground (arith, e))
memchr-some (b ∷ bs) c i e = elim (Bool-cases (b == c)) [
  | inl f ↦
      let z : 0 ≡ i = ground (arith, e, f) in
      let b_c : b ≡ c = ground (arith, f) in
      subst
        (λ n. (get_elem? (b ∷ bs) n ≡ some c) × ((j : ℕ) → j < n → get_elem? (b ∷ bs) j ≢ some c)) z
        (rw b_c refl, λ j h. absurd (omega (arith, h)))
  | inr f ↦ elim (Option-cases (memchr bs c)) [
    | inl g ↦ absurd (ground (arith, e, f, g))
    | inr (m, g) ↦
        let ih = memchr-some bs c m g in
        let at : suc m ≡ i = ground (arith, e, f, g) in
        subst
          (λ n. (get_elem? (b ∷ bs) n ≡ some c) × ((j : ℕ) → j < n → get_elem? (b ∷ bs) j ≢ some c))
          at (ih.0, before b bs c m f ih.1)
  ]
]
  where
    before :
        (b : ℕ) (bs : List ℕ) (c m : ℕ)
        → (b == c) ≡ false
        → ((j : ℕ) → j < m → get_elem? bs j ≢ some c)
        → (j : ℕ) → j < suc m
        → get_elem? (b ∷ bs) j ≢ some c
    before b bs c m f rest zero h e = ground (arith, f, e)
    before b bs c m f rest (suc j) h e = rest j (omega (arith, h)) e

-- find1 returns the first place of the byte from the given one on, and npos only where there is
-- none.
pub find1-IsFirst : (s : List ℕ) (c pos : ℕ) → IsFirst s c pos (find1 s c pos)
unfolding find1
find1-IsFirst s c pos = elim (Bool-cases (leb (length s) pos)) [
  | inl far ↦
      rw (find1, far) (λ j h e. let out = get_elem?-out s j c e in ground (arith, far, h, out))
  | inr near ↦ elim (Option-cases (memchr (drop pos s) c)) [
    | inl f ↦
        rw (find1, near, f)
          (λ j h e.
            let at : pos + (j - pos) ≡ j = omega (arith, h) in
            memchr-none (drop pos s) c (j - pos) f (get_elem?-drop pos (j - pos) s ∙ rw at e))
    | inr (m, f) ↦
        let found = memchr-some (drop pos s) c m f in
        rw (find1, near, f)
          (
            omega arith,
            sym (get_elem?-drop pos m s) ∙ found.0,
            λ j h l e.
                let at : pos + (j - pos) ≡ j = omega (arith, h) in
                found.1 (j - pos) (omega (arith, h, l)) (get_elem?-drop pos (j - pos) s ∙ rw at e),
          )
  ]
]

get_elem?-byte_at : (s : List ℕ) (i c : ℕ) → i < length s → byte_at s i ≡ c → get_elem? s i ≡ some c
unfolding byte_at
get_elem?-byte_at [] i c h e = absurd (omega (arith, h))
get_elem?-byte_at (b ∷ bs) zero c h e = ap some e
get_elem?-byte_at (b ∷ bs) (suc i) c h e = get_elem?-byte_at bs i c (omega (arith, h)) e

byte_at-get_elem? : (s : List ℕ) (i c : ℕ) → get_elem? s i ≡ some c → byte_at s i ≡ c
unfolding byte_at
byte_at-get_elem? s i c e = rw (byte_at, e) refl

at_or_below : (j i : ℕ) → j ≤ suc i → (j ≡ suc i) ⊎ (j ≤ i)
at_or_below j i h = elim (Bool-cases (leb j i)) [
  | inl f ↦ inr (ground (arith, f))
  | inr f ↦ inl (ground (arith, f, h))
]

-- One place more that is not c
IsLast-up :
    (s : List ℕ) (c i : ℕ) (o : Option ℕ)
    → get_elem? s (suc i) ≢ some c
    → IsLast s c i o
    → IsLast s c (suc i) o
IsLast-up s c i none ne last =
    λ j k e. elim (at_or_below j i k) [ inl f ↦ ne (rw f at e) | inr f ↦ last j f e ]
IsLast-up s c i (some m) ne (up, at, last) = (
  omega (arith, up),
  at,
  λ j l k e. elim (at_or_below j i k) [ inl f ↦ ne (rw f at e) | inr f ↦ last j l f e ],
)

-- The loop from i - 1 down
scan_back-IsLast : (s : List ℕ) (c i : ℕ) → i < length s → IsLast s c i (scan_back s c (suc i))
unfolding scan_back
scan_back-IsLast s c zero h = elim (Bool-cases (byte_at s 0 == c)) [
  | inl f ↦ rw f (
    omega arith,
    get_elem?-byte_at s 0 c h (ground (arith, f)),
    λ j l k e. absurd (omega (arith, l, k)),
  )
  | inr f ↦ rw f (λ j k e.
      let z : j ≡ 0 = omega (arith, k) in
      let at = byte_at-get_elem? s 0 c (rw z at e) in ground (arith, f, at))
]
scan_back-IsLast s c (suc i) h = elim (Bool-cases (byte_at s (suc i) == c)) [
  | inl f ↦ rw f (
    omega arith,
    get_elem?-byte_at s (suc i) c h (ground (arith, f)),
    λ j l k e. absurd (omega (arith, l, k)),
  )
  | inr f ↦ rw f (
      IsLast-up s c i (scan_back s c (suc i))
        (λ e. let at = byte_at-get_elem? s (suc i) c e in ground (arith, f, at))
        (scan_back-IsLast s c i (omega (arith, h))))
]

-- There is nothing behind the end.
IsLast-far :
    (s : List ℕ) (c n pos : ℕ) (o : Option ℕ)
    → length s ≤ suc n
    → n ≤ pos
    → IsLast s c n o
    → IsLast s c pos o
IsLast-far s c n pos none end h last =
    λ j k e. let out = get_elem?-out s j c e in last j (omega (arith, out, end)) e
IsLast-far s c n pos (some m) end h (up, at, last) = (
  omega (arith, up, h),
  at,
  λ j l k e. let out = get_elem?-out s j c e in last j l (omega (arith, out, end)) e,
)

rfind-far :
    (b : ℕ) (bs : List ℕ) (c pos : ℕ)
    → leb (length (b ∷ bs)) pos ≡ true
    → rfind (b ∷ bs) c pos ≡ scan_back (b ∷ bs) c (suc (length bs))
unfolding rfind
rfind-far b bs c pos far =
    let last : suc (length bs) - 1 ≡ length bs = omega arith in
    let some_byte : (suc (length bs) == 0) ≡ false = ground arith in
    rw (rfind, far, last, some_byte) refl

rfind-near :
    (b : ℕ) (bs : List ℕ) (c pos : ℕ)
    → leb (length (b ∷ bs)) pos ≡ false
    → rfind (b ∷ bs) c pos ≡ scan_back (b ∷ bs) c (suc pos)
unfolding rfind
rfind-near b bs c pos near =
    let some_byte : (suc (length bs) == 0) ≡ false = ground arith in
    rw (rfind, near, some_byte) refl

-- rfind returns the last place of the byte up to the given one, and npos only where there is none,
-- also on the empty string and from past the end.
rfind-IsLast : (s : List ℕ) (c pos : ℕ) → IsLast s c pos (rfind s c pos)
rfind-IsLast [] c pos = unfold rfind in λ j k e. ground (arith, e)
rfind-IsLast (b ∷ bs) c pos = elim (Bool-cases (leb (length (b ∷ bs)) pos)) [
  | inl far ↦ rw (rfind-far b bs c pos far) (
      IsLast-far (b ∷ bs) c (length bs) pos (scan_back (b ∷ bs) c (suc (length bs))) (omega arith)
        (ground (arith, far)) (scan_back-IsLast (b ∷ bs) c (length bs) (omega arith)))
  | inr near ↦
      rw (rfind-near b bs c pos near) (scan_back-IsLast (b ∷ bs) c pos (ground (arith, near)))
]
