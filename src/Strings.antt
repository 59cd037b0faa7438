-- ===== src/Strings.antt =====
-- The comparison, searches and slices of strings: src/OOCore/Types.cpp.
pub mod Search
pub mod Compare
pub mod Within
pub mod Oneof
use oocore.Prelude.{
  ℕ, zero, suc, ◌+◌, ◌-◌, Option, none, some, List, [], ◌∷◌, ◌==◌, ltb, leb, if◌then◌else◌, length,
  get_elem?, take, drop, ◌&&◌, Bool, true, false,
}

-- A string as its bytes. A position is none where the code returns npos.
-- memchr: the first place of a byte
unfoldable pub memchr : List ℕ → ℕ → Option ℕ
memchr [] c = none
memchr (b ∷ bs) c =
    if b == c then some 0 else elim (memchr bs c) [ none ↦ none | some i ↦ some (suc i) ]

-- OOCore_string_t_find1
unfoldable pub find1 : List ℕ → ℕ → ℕ → Option ℕ
unfolding memchr
find1 s c pos =
    if leb (length s) pos
    then none
    else elim (memchr (drop pos s) c) [ none ↦ none | some i ↦ some (pos + i) ]

-- The loop of find_not over what is left, from place i
unfoldable pub scan_not : List ℕ → ℕ → ℕ → Option ℕ
scan_not [] c i = none
scan_not (b ∷ bs) c i = let rest = scan_not bs c (suc i) in if b == c then rest else some i

-- OOCore_string_t_find_not
unfoldable pub find_not : List ℕ → ℕ → ℕ → Option ℕ
unfolding scan_not
find_not s c pos = scan_not (drop pos s) c pos

-- The byte at a place, with the terminator behind the last
unfoldable pub byte_at : List ℕ → ℕ → ℕ
byte_at s i = elim (get_elem? s i) [ none ↦ 0 | some b ↦ b ]

-- The loop of rfind down from i - 1
unfoldable pub scan_back : List ℕ → ℕ → ℕ → Option ℕ
unfolding byte_at
scan_back s c zero = none
scan_back s c (suc i) = let rest = scan_back s c i in if byte_at s i == c then some i else rest

-- OOCore_string_t_rfind
unfoldable pub rfind : List ℕ → ℕ → ℕ → Option ℕ
unfolding scan_back
rfind s c pos =
    let last = if leb (length s) pos then length s - 1 else pos in
    if length s == 0 then none else scan_back s c (suc last)

-- OOCore_string_t_left: the part from a place on, of a length
unfoldable pub left : List ℕ → ℕ → ℕ → List ℕ
left s start len =
    if leb (length s) start
    then []
    else let len' = if ltb (length s - start) len then length s - start else len in
      if (start == 0) && (length s == len') then s else take len' (drop start s)

-- OOCore_string_t_right
unfoldable pub right : List ℕ → ℕ → List ℕ
right s len = if leb (length s) len then s else take len (drop (length s - len) s)

-- The sign of a comparison: negative, 0 and positive
pub data Sign : Type 0 where
  below same above : Sign

-- The sign of memcmp on n bytes
unfoldable pub memcmp : List ℕ → List ℕ → ℕ → Sign
memcmp as_ bs zero = same
memcmp [] bs (suc n) = same
memcmp (a ∷ as_) [] (suc n) = same
memcmp (a ∷ as_) (b ∷ bs) (suc n) =
    let rest = memcmp as_ bs n in if ltb a b then below else if ltb b a then above else rest

-- compare: `len` is the place where the part of the first string ends
unfoldable pub compare_at : List ℕ → List ℕ → ℕ → ℕ → Sign
unfolding memcmp
compare_at s1 s2 pos len =
    let l = if ltb len (length s1) then len else length s1 in
    let len1 = if leb l pos then 0 else l - pos in
    let common = if ltb (length s2) len1 then length s2 else len1 in
    elim (memcmp (drop pos s1) s2 common) [
      | below ↦ below
      | above ↦ above
      | same ↦ if ltb (length s2) len1 then above else if ltb len1 (length s2) then below else same
    ]
