-- ===== src/Formatting/Braces.antt =====
-- The text of a format string: find_brace, merge_braces and parse_arg of src/OOCore/Formatting.cpp.
use oocore.Prelude.{
  ℕ, zero, suc, ◌+◌, ◌-◌, Bool, true, false, not, ◌&&◌, ◌||◌, Option, none, some, [], ◌++◌, ◌==◌,
  ltb, if◌then◌else◌, length, drop,
}
use oocore.Values.Int.{ℤ, pos}
use oocore.Strings.{find1, byte_at, left}
use oocore.Formatting.Decimal.{Text, strtol, strtoul}

-- (unsigned long)-1
abbrev pub filled : ℕ
filled = 18446744073709551615

-- insert_t, of which index is `filled` where the text stands in strFormat
pub record Insert : Type 0 where
  pub index : ℕ
  pub alignment : ℤ
  pub format : Text
  pub suffix : Text

-- Mid with the length left out, which is npos and no less than any length
unfoldable pub mid : Text → ℕ → Text
unfolding left
mid s start = left s start (length s)

-- find_brace. A round goes on by two bytes; a round for each byte and one more are enough.
unfoldable pub find_brace_from : ℕ → Text → ℕ → ℕ → Option ℕ
unfolding find1 byte_at
find_brace_from zero s start brace = none
find_brace_from (suc fuel) s start brace = elim (find1 s brace start) [
  | none ↦ none
  | some found ↦
      let rest = find_brace_from fuel s (found + 2) brace in
      if (found == length s - 1) || not (byte_at s (found + 1) == brace) then some found else rest
]

unfoldable pub find_brace : Text → ℕ → ℕ → Option ℕ
unfolding find_brace_from
find_brace s start brace = find_brace_from (suc (length s)) s start brace

-- A loop of merge_braces, from a place on. Each round takes a byte out of the text.
unfoldable pub merge_from : ℕ → ℕ → Text → ℕ → Text
unfolding find1 left mid
merge_from zero brace s at = s
merge_from (suc fuel) brace s at = elim (find1 s brace at) [
  | none ↦ s
  | some found ↦ merge_from fuel brace (left s 0 found ++ mid s (found + 1)) found
]

unfoldable pub merge_braces : Text → Text
unfolding merge_from
merge_braces s =
    let merged = merge_from (suc (length s)) 123 s 0 in
    merge_from (suc (length merged)) 125 merged 0

-- a < b of places, where none is npos, which is above all others
unfoldable pub before : Option ℕ → Option ℕ → Bool
before none b = false
before (some a) none = true
before (some a) (some b) = ltb a b

unfoldable pub is_at : Option ℕ → ℕ → Bool
is_at none b = false
is_at (some a) b = a == b

-- The alignment of an argument that begins at `at` and ends at `end`
unfoldable pub alignment_of : Text → ℕ → Option ℕ → Option ℕ → ℤ
unfolding before strtol
alignment_of s end none colon = pos 0
alignment_of s end (some comma) colon =
    if ltb comma end && before (some comma) colon then (strtol (drop (comma + 1) s)).0 else pos 0

-- Its format
unfoldable pub format_of : Text → ℕ → Option ℕ → Text
unfolding left merge_braces
format_of s end none = []
format_of s end (some colon) =
    if ltb colon end then merge_braces (left s (colon + 1) (end - colon - 1)) else []

-- parse_arg: the new place, and the argument where it returns true
unfoldable pub parse_arg : Text → ℕ → ℕ × Option Insert
unfolding find_brace find1 is_at strtoul alignment_of format_of
parse_arg s at = elim (find_brace s at 125) [
  | none ↦ (at, none)
  | some end ↦
      let comma = find1 s 44 at in
      let colon = find1 s 58 at in
      if is_at comma at || is_at colon at then (end + 1, none) else (
        end + 1,
        some (record {
          index = (strtoul (drop at s)).0;
          alignment = alignment_of s end comma colon;
          format = format_of s end colon;
          suffix = [];
        }),
      )
]
