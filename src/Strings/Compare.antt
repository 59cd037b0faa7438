-- ===== src/Strings/Compare.antt =====
-- The comparison is the order of the dictionary.
use oocore.Prelude.{
  ℕ, zero, suc, ◌-◌, ◌≤◌, ◌≡◌, refl, sym, ap, ◌∙◌, inl, inr, List, [], ◌∷◌, arith, ltb, leb, ◌==◌,
  ◌&&◌, if◌then◌else◌, length, take, drop, Bool-cases, length-drop, take-all,
}
use oocore.Strings.{Sign, below, same, above, memcmp, compare_at, left, right}

-- Byte by byte, a string before all that it begins
unfoldable pub dictionary : List ℕ → List ℕ → Sign
dictionary [] [] = same
dictionary [] (b ∷ bs) = below
dictionary (a ∷ as_) [] = above
dictionary (a ∷ as_) (b ∷ bs) =
    let rest = dictionary as_ bs in if ltb a b then below else if ltb b a then above else rest

-- memcmp on the common length, and the lengths after it
by_length : List ℕ → List ℕ → ℕ → Sign
by_length as_ bs n = elim (memcmp as_ bs (if ltb (length bs) n then length bs else n)) [
  | below ↦ below
  | above ↦ above
  | same ↦ if ltb (length bs) n then above else if ltb n (length bs) then below else same
]

by_length-dictionary :
    (as_ bs : List ℕ) (n : ℕ) → n ≤ length as_ → by_length as_ bs n ≡ dictionary (take n as_) bs
unfolding memcmp dictionary by_length
by_length-dictionary as_ [] zero h = refl
by_length-dictionary as_ (b ∷ bs) zero h =
    let m : (if ltb (suc (length bs)) 0 then suc (length bs) else 0) ≡ 0 = ground arith in
    rw (by_length, m) (ground arith)
by_length-dictionary [] bs (suc n) h = absurd (omega (arith, h))
by_length-dictionary (a ∷ as_) [] (suc n) h =
    let m : (if ltb 0 (suc n) then 0 else suc n) ≡ 0 = ground arith in
    rw (by_length, m) (ground arith)
by_length-dictionary (a ∷ as_) (b ∷ bs) (suc n) h =
    let ih = by_length-dictionary as_ bs n (omega (arith, h)) in
    let m : (if ltb (suc (length bs)) (suc n) then suc (length bs) else suc n)
        ≡ suc (if ltb (length bs) n then length bs else n) =
      ground arith in
    rw (by_length, m) (ground (arith, ih))

-- What is taken past the end does not matter.
take-over : (n m : ℕ) (s : List ℕ) → length s ≤ n → length s ≤ m → take n s ≡ take m s
take-over zero zero s h k = refl
take-over zero (suc m) [] h k = refl
take-over (suc n) zero [] h k = refl
take-over (suc n) (suc m) [] h k = refl
take-over zero (suc m) (b ∷ bs) h k = absurd (omega (arith, h))
take-over (suc n) zero (b ∷ bs) h k = absurd (omega (arith, k))
take-over (suc n) (suc m) (b ∷ bs) h k =
    ap (λ t. b ∷ t) (take-over n m bs (omega (arith, h)) (omega (arith, k)))

-- compare has the sign of the dictionary order between the part of the first string from pos up to
-- the place len, clamped to the string, and the second string.
pub compare_at-dictionary :
    (s1 s2 : List ℕ) (pos len : ℕ)
    → compare_at s1 s2 pos len ≡ dictionary (take (len - pos) (drop pos s1)) s2
unfolding compare_at by_length
compare_at-dictionary s1 s2 pos len =
    let l = if ltb len (length s1) then len else length s1 in
    let len1 = if leb l pos then 0 else l - pos in
    let rest = length-drop pos s1 in
    let fits : len1 ≤ length (drop pos s1) = ground (arith, rest) in
    by_length-dictionary (drop pos s1) s2 len1 fits
    ∙ ap (λ t. dictionary t s2)
        (elim (Bool-cases (ltb len (length s1))) [
          | inl f ↦
              let same_len : len1 ≡ len - pos = ground (arith, f) in
              ap (λ t. take t (drop pos s1)) same_len
          | inr f ↦
              take-over len1 (len - pos) (drop pos s1) (ground (arith, f, rest))
                (ground (arith, f, rest))
        ])

-- left is the part from the given place on of at most the given length, whatever lies past the
-- end.
pub left-take : (s : List ℕ) (start len : ℕ) → left s start len ≡ take len (drop start s)
unfolding left
left-take s start len =
    let rest = length-drop start s in
    elim (Bool-cases (leb (length s) start)) [
      | inl f ↦
          rw (left, f)
            (take-over 0 len (drop start s) (ground (arith, f, rest)) (ground (arith, f, rest)))
      | inr f ↦ elim (Bool-cases (ltb (length s - start) len)) [
        | inl g ↦ elim (Bool-cases ((start == 0) && (length s == (length s - start)))) [
          | inl w ↦
              let z : start ≡ 0 = ground (arith, w) in
              rw (left, f, g, w, z) (sym (take-all len s (ground (arith, g, z))))
          | inr w ↦
              rw (left, f, g, w)
                (take-over (length s - start) len (drop start s) (omega (arith, rest))
                  (ground (arith, g, rest)))
        ]
        | inr g ↦ elim (Bool-cases ((start == 0) && (length s == len))) [
          | inl w ↦
              let z : start ≡ 0 = ground (arith, w) in
              rw (left, f, g, w, z) (sym (take-all len s (ground (arith, w))))
          | inr w ↦ rw (left, f, g, w) refl
        ]
      ]
    ]

-- right is the end of the string of the given length, and the whole string where it is shorter.
right-drop : (s : List ℕ) (len : ℕ) → right s len ≡ drop (length s - len) s
unfolding right
right-drop s len = elim (Bool-cases (leb (length s) len)) [
  | inl f ↦ let z : length s - len ≡ 0 = ground (arith, f) in rw (right, f, z) refl
  | inr f ↦
      let rest = length-drop (length s - len) s in
      rw (right, f) (take-all len (drop (length s - len) s) (ground (arith, rest, f)))
]
