-- ===== src/Strings/Oneof.antt =====
-- The search for one of several bytes, OOCore_string_t_find_oneof of src/OOCore/Types.cpp.
use oocore.Prelude.{
  ℕ, zero, suc, ◌+◌, ◌-◌, Bool, false, ◌||◌, List, [], ◌∷◌, ◌++◌, ◌==◌, leb, if◌then◌else◌, length,
  drop,
}
use oocore.Strings.Within.{Searched, found, npos, beyond}

-- Whether a C string has a byte
unfoldable pub is_in : List ℕ → ℕ → Bool
is_in [] c = false
is_in (b ∷ bs) c = let rest = is_in bs c in if b == 0 then false else (b == c) || rest

-- strpbrk and strlen over the memory that is left: the distance of the byte, and of the terminator
unfoldable pub strpbrk : List ℕ → List ℕ → Searched
unfolding is_in
strpbrk [] set = beyond
strpbrk (b ∷ bs) set =
    let rest = strpbrk bs set in
    if b == 0
    then npos
    else if is_in set b
    then found 0
    else elim rest [ found i ↦ found (suc i) | npos ↦ npos | beyond ↦ beyond ]

unfoldable pub strlen : List ℕ → Searched
strlen [] = beyond
strlen (b ∷ bs) =
    let rest = strlen bs in
    if b == 0
    then found 0
    else elim rest [ found i ↦ found (suc i) | npos ↦ npos | beyond ↦ beyond ]

-- The loop, with the memory from `start` on. Each round takes at least one byte off it.
unfoldable pub oneof_from : ℕ → List ℕ → List ℕ → ℕ → ℕ → Searched
unfolding strpbrk strlen
oneof_from zero mem set offset len = if len == 0 then npos else beyond
oneof_from (suc fuel) mem set offset len = if len == 0 then npos else elim (strpbrk mem set) [
  | found i ↦ found (offset + i)
  | beyond ↦ beyond
  | npos ↦ elim (strlen mem) [
    | found p ↦ oneof_from fuel (drop (suc (offset + p)) mem) set (offset + p) (len - p)
    | npos ↦ beyond
    | beyond ↦ beyond
  ]
]

-- OOCore_string_t_find_oneof
unfoldable pub find_oneof : List ℕ → List ℕ → ℕ → Searched
unfolding oneof_from
find_oneof s set pos =
    let len = if leb (length s) pos then 0 else length s - pos in
    if (len == 0) || (length set == 0)
    then npos
    else oneof_from (suc (length s)) (drop pos (s ++ (0 ∷ []))) set pos len
