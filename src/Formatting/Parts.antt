-- ===== src/Formatting/Parts.antt =====
-- The parts of a custom format, and the texts of bool_t: find_skip_quote, parse_custom and
-- OOCore_to_string_bool_t of src/OOCore/Formatting.cpp.
use oocore.Prelude.{
  ℕ, zero, suc, ◌+◌, ◌-◌, Bool, true, false, not, ◌&&◌, ◌||◌, Option, none, some, List, [], ◌∷◌,
  ◌++◌, ◌==◌, if◌then◌else◌, length,
}
use oocore.Strings.{find1, byte_at, left}
use oocore.Strings.Within.{Searched, found, npos, beyond}
use oocore.Strings.Oneof.{find_oneof}
use oocore.Formatting.Decimal.{Text}
use oocore.Formatting.Braces.{mid}

-- The end of a quotation that begins at `opened`. A round goes on by at least one byte.
unfoldable pub close_quote : ℕ → Text → ℕ → ℕ → Option ℕ
unfolding find1 byte_at
close_quote zero s quote opened = none
close_quote (suc fuel) s quote opened = elim (find1 s quote (opened + 1)) [
  | none ↦ none
  | some i ↦
      let rest = close_quote fuel s quote i in if byte_at s (i - 1) == 92 then rest else some i
]

-- Whether a quote at a place has a backslash in front
unfoldable pub is_escaped : Text → ℕ → Bool
unfolding byte_at
is_escaped s i = not (i == 0) && (byte_at s (i - 1) == 92)

-- find_skip_quote, for the bytes of `wanted` outside of quotations. A round goes on by at least one
-- byte.
unfoldable pub find_skip_quote_from : ℕ → Text → ℕ → Text → Searched
unfolding find_oneof close_quote is_escaped
find_skip_quote_from zero s start wanted = npos
find_skip_quote_from (suc fuel) s start wanted =
    elim (find_oneof s (wanted ++ (39 ∷ 34 ∷ [])) start) [
      | npos ↦ npos
      | beyond ↦ beyond
      | found i ↦
          let c = byte_at s i in
          let behind = find_skip_quote_from fuel s (i + 1) wanted in
          let quoted : Searched = elim (close_quote (suc (length s)) s c i) [
            | none ↦ npos
            | some j ↦ find_skip_quote_from fuel s (j + 1) wanted
          ] in
          if not ((c == 39) || (c == 34))
          then found i
          else if is_escaped s i
          then behind
          else quoted
    ]

unfoldable pub find_skip_quote : Text → ℕ → Text → Searched
unfolding find_skip_quote_from
find_skip_quote s start wanted = find_skip_quote_from (suc (length s)) s start wanted

-- parse_custom: one, two or three parts; none after a read behind the terminator
unfoldable pub parse_custom : Text → Option (List Text)
unfolding find_skip_quote left mid
parse_custom s = elim (find_skip_quote s 0 (59 ∷ [])) [
  | beyond ↦ none
  | npos ↦ some (s ∷ [])
  | found i ↦ elim (find_skip_quote s (i + 1) (59 ∷ [])) [
    | beyond ↦ none
    | npos ↦ some (left s 0 i ∷ mid s (i + 1) ∷ [])
    | found j ↦ some (left s 0 i ∷ left s (i + 1) (j - (i + 1)) ∷ mid s (j + 1) ∷ [])
  ]
]

-- OOCore_to_string_bool_t, with "true" and "false" where the format has not two parts
unfoldable pub plain_bool : Bool → Text
plain_bool true = 116 ∷ 114 ∷ 117 ∷ 101 ∷ []
plain_bool false = 102 ∷ 97 ∷ 108 ∷ 115 ∷ 101 ∷ []

unfoldable pub bool_of_parts : Bool → List Text → Text
unfolding plain_bool
bool_of_parts v [] = plain_bool v
bool_of_parts v (a ∷ []) = plain_bool v
bool_of_parts v (a ∷ b ∷ []) = if v then a else b
bool_of_parts v (a ∷ b ∷ c ∷ more) = plain_bool v

unfoldable pub to_string_bool : Bool → Text → Option Text
unfolding parse_custom bool_of_parts
to_string_bool v format =
    if length format == 0
    then some (plain_bool v)
    else elim (parse_custom format) [ none ↦ none | some parts ↦ some (bool_of_parts v parts) ]
