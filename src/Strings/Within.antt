-- ===== src/Strings/Within.antt =====
-- The search for a string in another, OOCore_string_t_find2 of src/OOCore/Types.cpp.
use oocore.Prelude.{
  ℕ, zero, suc, ◌+◌, ◌-◌, ◌≤◌, ◌≡◌, ◌⊎◌, refl, sym, ap, ◌∙◌, inl, inr, false, List, [], ◌∷◌, ◌++◌,
  arith, ◌==◌, leb, ltb, if◌then◌else◌, length, drop, length-drop, Bool-cases,
}
use oocore.Strings.{below, same, above, memcmp, byte_at}

-- What a search returns: a place, npos, or nothing that C++ says, after a read behind the terminator
pub data Searched : Type 0 where
  found : ℕ → Searched
  npos beyond : Searched

-- memchr over `len` bytes of the memory that is left: the distance of the byte
unfoldable pub look : List ℕ → ℕ → ℕ → Searched
look mem c zero = npos
look [] c (suc len) = beyond
look (b ∷ bs) c (suc len) =
    let rest = look bs c len in
    if b == c
    then found 0
    else elim rest [ found i ↦ found (suc i) | npos ↦ npos | beyond ↦ beyond ]

-- A round of find2 after memchr: p is the byte's distance from `start`, offset and len are those
-- after it, and rest is what the further rounds give.
unfoldable pub judge : List ℕ → List ℕ → ℕ → ℕ → ℕ → Searched → Searched
judge mem search p offset len rest =
    if ltb len (length search)
    then npos
    else if ltb (length (drop p mem)) (length search)
    then beyond
    else elim (memcmp (drop p mem) search (length search)) [
      | same ↦ found offset
      | below ↦ rest
      | above ↦ rest
    ]

-- The loop of find2, with the memory from `start` on. A round with a mismatch moves start on by at
-- least one byte, so as many rounds as there is memory are enough.
unfoldable pub search_from : ℕ → List ℕ → List ℕ → ℕ → ℕ → Searched
unfolding look judge
search_from zero mem search offset len = if len == 0 then npos else beyond
search_from (suc fuel) mem search offset len =
    if len == 0 then npos else elim (look mem (byte_at search 0) len) [
      | npos ↦ npos
      | beyond ↦ beyond
      | found p ↦
          let rest = search_from fuel (drop (suc (offset + p)) mem) search (offset + p) (len - p) in
          judge mem search p (offset + p) (len - p) rest
    ]

-- OOCore_string_t_find2
unfoldable pub find2 : List ℕ → List ℕ → ℕ → Searched
unfolding search_from
find2 s search pos =
    let len = if leb (length s) pos then 0 else length s - pos in
    if ltb len (length search)
    then npos
    else if length search == 0
    then found 0
    else search_from (suc (length s)) (drop pos (s ++ (0 ∷ []))) search pos len

look-[] : (c len : ℕ) → (len == 0) ≡ false → look [] c len ≡ beyond
unfolding look
look-[] c zero e = absurd (ground (arith, e))
look-[] c (suc len) e = refl

Searched-cases : (r : Searched) → ((r ≡ npos) ⊎ (r ≡ beyond)) ⊎ ((p : ℕ) × (r ≡ found p))
Searched-cases (found p) = inr (p, refl)
Searched-cases npos = inl (inl refl)
Searched-cases beyond = inl (inr refl)

search_from-judge :
    (fuel : ℕ) (mem search : List ℕ) (offset len p : ℕ)
    → (len == 0) ≡ false
    → look mem (byte_at search 0) len ≡ found p
    → search_from (suc fuel) mem search offset len
      ≡ judge mem search p
          (offset + p)
          (len - p)
          (search_from fuel (drop (suc (offset + p)) mem) search (offset + p) (len - p))
unfolding search_from
search_from-judge fuel mem search offset len p e f = rw (search_from, e, f) refl

-- A round more changes nothing where the rounds cover the memory.
search_from-more :
    (fuel : ℕ) (mem search : List ℕ) (offset len : ℕ)
    → length mem ≤ fuel
    → search_from (suc fuel) mem search offset len ≡ search_from fuel mem search offset len
unfolding search_from
search_from-more zero [] search offset len h = elim (Bool-cases (len == 0)) [
  | inl e ↦ rw e refl
  | inr e ↦ rw (e, look-[] (byte_at search 0) len e) refl
]
search_from-more zero (b ∷ mem) search offset len h = absurd (omega (arith, h))
search_from-more (suc fuel) mem search offset len h = elim (Bool-cases (len == 0)) [
  | inl e ↦ rw e refl
  | inr e ↦ elim (Searched-cases (look mem (byte_at search 0) len)) [
    | inl (inl f) ↦ rw (e, f) refl
    | inl (inr f) ↦ rw (e, f) refl
    | inr (p, f) ↦
        let left = length-drop (suc (offset + p)) mem in
        let ih =
          search_from-more fuel (drop (suc (offset + p)) mem) search (offset + p) (len - p)
            (omega (arith, left, h)) in
        search_from-judge (suc fuel) mem search offset len p e f
        ∙ ap (judge mem search p (offset + p) (len - p)) ih
        ∙ sym (search_from-judge fuel mem search offset len p e f)
  ]
]
