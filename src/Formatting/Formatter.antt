-- ===== src/Formatting/Formatter.antt =====
-- formatter_t: the texts with arguments of src/OOCore/Formatting.cpp and the operators of
-- include/Omega/internal/types.inl.
use oocore.Prelude.{
  ℕ, zero, suc, ◌+◌, ◌-◌, Bool, false, not, ◌&&◌, ◌||◌, Option, none, some, List, [], ◌∷◌, ◌++◌,
  ◌≡◌, ◌==◌, ltb, leb, if◌then◌else◌, length,
}
use oocore.Values.Int.{ℤ, pos, negsuc}
use oocore.Strings.{left}
use oocore.Formatting.Decimal.{Text, print_unsigned, print_signed}
use oocore.Formatting.Braces.{filled, Insert, mid, find_brace, merge_braces, parse_arg}

-- format_state_t
pub record FormatState : Type 0 where
  pub prefix : Text
  pub inserts : List Insert

-- OOBase's Bag, by what `at` gives at the places below `size`: add puts behind the last.
pub record Bag : Type 0 where
  pub add : List Insert → Insert → List Insert
  pub add-append : (xs : List Insert) (x : Insert) → add xs x ≡ xs ++ x ∷ []

unfoldable pub spaces : ℕ → Text
spaces zero = []
spaces (suc n) = 32 ∷ spaces n

-- The width of an alignment
unfoldable pub width_of : ℤ → ℕ
width_of (pos n) = n
width_of (negsuc n) = suc n

unfoldable pub pad : ℤ → Text → Text → Text
pad (pos n) fill s = fill ++ s
pad (negsuc n) fill s = s ++ fill

unfoldable pub align : Text → ℤ → Text
unfolding spaces width_of pad
align s alignment =
    if leb (width_of alignment) (length s)
    then s
    else pad alignment (spaces (width_of alignment - length s)) s

-- The end of a round of parse_format: the suffix up to the next brace
unfoldable pub with_suffix : Insert → Text → ℕ → Option ℕ → Insert
unfolding mid left merge_braces
with_suffix ins s at none = record ins { suffix = merge_braces (mid s at) }
with_suffix ins s at (some found) = record ins { suffix = merge_braces (left s at (found - at)) }

-- `stale` is what a new insert_t has in its memory, which its constructor leaves as it is.
module _ (bag : Bag) (stale : Insert) where
  -- The loop of parse_format. A round takes the place on by one at least.
  unfoldable pub parse_args : ℕ → Text → ℕ → List Insert → List Insert
  unfolding parse_arg with_suffix find_brace
  parse_args zero s at inserts = inserts
  parse_args (suc fuel) s at inserts =
      let (at', parsed) = parse_arg s at in
      elim parsed [
        | none ↦
            bag.add inserts (with_suffix (record stale { format = []; suffix = [] }) s at' none)
        | some ins ↦
            let inserts' = bag.add inserts (with_suffix ins s at' (find_brace s at' 123)) in
            elim (find_brace s at' 123) [
              | none ↦ inserts'
              | some found ↦ parse_args fuel s (found + 1) inserts'
            ]
      ]

  -- OOCore_formatter_t__ctor1 with parse_format: a text without arguments leaves the prefix empty.
  unfoldable pub make_formatter : Text → FormatState
  unfolding parse_args find_brace merge_braces left
  make_formatter s = elim (find_brace s 0 123) [
    | none ↦ record { prefix = []; inserts = [] }
    | some found ↦ record {
      prefix = merge_braces (left s 0 found);
      inserts = parse_args (suc (length s)) s (found + 1) [];
    }
  ]

-- The loop of set_arg: none where no insert has the index
unfoldable pub fill : List Insert → ℕ → Text → Option (List Insert)
unfolding align
fill [] index arg = none
fill (ins ∷ rest) index arg =
    if ins.index == index
    then some (record ins { format = align arg ins.alignment; index = filled } ∷ rest)
    else elim (fill rest index arg) [ none ↦ none | some rest' ↦ some (ins ∷ rest') ]

module _ (bag : Bag) where
  -- The loop of the copy
  unfoldable pub copy_inserts : FormatState → Bool → List Insert → FormatState
  copy_inserts new pushed [] = new
  copy_inserts new pushed (ins ∷ rest) =
      let merges = not pushed && (ins.index == filled) in
      copy_inserts
        (if merges
          then record new { prefix = new.prefix ++ (ins.format ++ ins.suffix) }
          else record new { inserts = bag.add new.inserts ins })
        (not merges || pushed) rest

  -- OOCore_formatter_t__ctor2
  unfoldable pub copy : FormatState → FormatState
  unfolding copy_inserts
  copy s = copy_inserts (record { prefix = s.prefix; inserts = [] }) false s.inserts

  -- OOCore_formatter_t_set_arg
  unfoldable pub set_arg : FormatState → ℕ → Text → FormatState
  unfolding fill
  set_arg s index arg = elim (fill s.inserts index arg) [
    | some inserts ↦ record s { inserts = inserts }
    | none ↦ record s {
      inserts =
          bag.add s.inserts
            (record { index = filled; alignment = pos 0; format = 32 ∷ arg; suffix = [] });
    }
  ]

-- OOCore_formatter_t_get_arg: the lowest index from the left, and its format
unfoldable pub lowest : List Insert → ℕ × Text → ℕ × Text
lowest [] best = best
lowest (ins ∷ rest) best =
    lowest rest (if ltb ins.index best.0 then (ins.index, ins.format) else best)

unfoldable pub get_arg : FormatState → ℕ × Text
unfolding lowest
get_arg s = lowest s.inserts (filled, [])

-- operator %, with the argument as its ToString
unfoldable pub apply_arg : Bag → FormatState → (Text → Text) → FormatState
unfolding get_arg set_arg
apply_arg bag s arg = let (index, format) = get_arg s in set_arg bag s index (arg format)

unfoldable pub alignment_text : ℤ → Text
unfolding print_signed
alignment_text (pos zero) = []
alignment_text (pos (suc n)) = 44 ∷ print_signed (pos (suc n))
alignment_text (negsuc n) = 44 ∷ print_signed (negsuc n)

-- What the text has of an insert
unfoldable pub text_of : Insert → Text
unfolding print_unsigned alignment_text
text_of ins =
    if ins.index == filled
    then ins.format ++ ins.suffix
    else (123 ∷ print_unsigned ins.index)
      ++ (alignment_text ins.alignment ++ (ins.format ++ 125 ∷ []))

unfoldable pub texts_of : List Insert → Text
unfolding text_of
texts_of [] = []
texts_of (ins ∷ rest) = text_of ins ++ texts_of rest

-- OOCore_formatter_t_cast
unfoldable pub cast : FormatState → Text
unfolding texts_of
cast s = s.prefix ++ texts_of s.inserts
