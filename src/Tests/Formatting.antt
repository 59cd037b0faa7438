-- ===== src/Tests/Formatting.antt =====
-- The formatting at concrete inputs.
use oocore.Prelude.{ℕ, ◌-◌, arith, ◌≡◌, refl, ◌++◌, none, some, List, [], ◌∷◌}
use oocore.Values.Int.{pos, negsuc, has_value}
use oocore.Strings.{memchr, find1, byte_at, left}
use oocore.Formatting.Decimal.{Text, strtol, strtoul}
use oocore.Formatting.Braces.{Insert, merge_braces}
use oocore.Formatting.Formatter.{
  Bag, FormatState, make_formatter, copy, align, get_arg, apply_arg, cast,
}
use oocore.Formatting.Places.{without}
use oocore.Formatting.Merged.{merge_braces-without}
use oocore.Formatting.Parsed.{Piece}
use oocore.Formatting.Rounds.{written, inserts_of}
use oocore.Formatting.Written.{make_formatter-written}
use oocore.Formatting.Copied.{copy-same}
use oocore.Formatting.Waiting.{texts_with, count}
use oocore.Formatting.Filled.{apply_args, apply_args-cast}

abbrev bag : Bag
bag = record { add = λ xs x. xs ++ x ∷ []; add-append = λ xs x. refl }

abbrev stale : Insert
stale = record { index = 0; alignment = pos 0; format = []; suffix = [] }

-- a{1,-3:x}b{0}
abbrev source : Text
source = 97 ∷ 123 ∷ 49 ∷ 44 ∷ 45 ∷ 51 ∷ 58 ∷ 120 ∷ 125 ∷ 98 ∷ 123 ∷ 48 ∷ 125 ∷ []

abbrev first_piece : Piece
first_piece = record {
  index = 1;
  alignment = some (negsuc 2);
  format = some (120 ∷ []);
  suffix = 98 ∷ [];
}

abbrev second_piece : Piece
second_piece = record { index = 0; alignment = none; format = none; suffix = [] }

abbrev two_inserts : List Insert
two_inserts =
    record { index = 1; alignment = negsuc 2; format = 120 ∷ []; suffix = 98 ∷ [] }
    ∷ record { index = 0; alignment = pos 0; format = []; suffix = [] }
    ∷ []

abbrev state : FormatState
state = record { prefix = 97 ∷ []; inserts = two_inserts }

make_formatter-written_example :
    make_formatter bag stale (97 ∷ [] ++ written (first_piece ∷ (second_piece ∷ []))) ≡ state
unfolding inserts_of memchr has_value
make_formatter-written_example =
    make_formatter-written bag stale (97 ∷ []) first_piece (second_piece ∷ []) (refl, refl)
      ((omega arith, refl, (refl, refl), (refl, refl)), ((omega arith, tt, tt, (refl, refl)), tt))

abbrev eight_nine : ℕ → Text → Text
eight_nine k format = (57 - k) ∷ []

apply_args-cast_example :
    cast (apply_args bag state eight_nine 0 2) ≡ 97 ∷ 56 ∷ 32 ∷ 32 ∷ 98 ∷ 57 ∷ []
unfolding texts_with count align
apply_args-cast_example =
    apply_args-cast bag eight_nine 2 state (omega arith) (λ k ne. ground arith)

copy-same_example :
    (cast (copy bag state) ≡ cast state) × (get_arg (copy bag state) ≡ get_arg state)
copy-same_example = copy-same bag state

merge_braces-without_example : merge_braces (123 ∷ 123 ∷ 97 ∷ 125 ∷ 125 ∷ []) ≡ 97 ∷ []
unfolding without
merge_braces-without_example = merge_braces-without (123 ∷ 123 ∷ 97 ∷ 125 ∷ 125 ∷ [])

parsed : make_formatter bag stale source ≡ state
unfolding make_formatter find1 byte_at left strtol strtoul
parsed = refl

-- The arguments "9" and "8": a8  b9
made :
    cast (
      apply_arg bag (apply_arg bag (make_formatter bag stale source) (λ f. 57 ∷ [])) (λ f. 56 ∷ []))
    ≡ 97 ∷ 56 ∷ 32 ∷ 32 ∷ 98 ∷ 57 ∷ []
unfolding make_formatter apply_arg cast find1 byte_at left strtol strtoul
made = refl

-- A third argument takes the place of the first insert.
overwritten :
    cast (
      apply_arg bag
        (apply_arg bag
          (apply_arg bag (make_formatter bag stale source) (λ f. 57 ∷ []))
          (λ f. 56 ∷ []))
        (λ f. 55 ∷ []))
    ≡ 97 ∷ 55 ∷ 32 ∷ 32 ∷ 98 ∷ 57 ∷ []
unfolding make_formatter apply_arg cast find1 byte_at left strtol strtoul
overwritten = refl

-- An argument that has not come loses its colon and what stands behind it: a{1,-3x}9
unfilled :
    cast (apply_arg bag (make_formatter bag stale source) (λ f. 57 ∷ []))
    ≡ 97 ∷ 123 ∷ 49 ∷ 44 ∷ 45 ∷ 51 ∷ 120 ∷ 125 ∷ 57 ∷ []
unfolding make_formatter apply_arg cast find1 byte_at left strtol strtoul
unfilled = refl

-- A text without arguments is lost.
lost : cast (make_formatter bag stale (97 ∷ 98 ∷ [])) ≡ []
unfolding make_formatter cast find1 byte_at left
lost = refl
