-- ===== src/Formatting/Numbers/Locale.antt =====
-- The locale in the formats of numbers of src/OOCore/Formatting.cpp, in its branch for POSIX.
use oocore.Prelude.{
  ℕ, zero, suc, ◌+◌, ◌-◌, Bool, ◌||◌, Option, none, some, [], ◌∷◌, ◌++◌, ◌==◌, leb, if◌then◌else◌,
  length, take, drop,
}
use oocore.Guid.{head}
use oocore.Values.Int.{ℤ}
use oocore.Formatting.Decimal.{Text}

-- The part of the C library's lconv for one sign
pub record MonetarySign : Type 0 where
  pub cs_precedes : ℕ
  pub sep_by_space : ℕ
  pub sign_posn : ℕ
  pub sign : Text

pub record Lconv : Type 0 where
  pub decimal_point : Text
  pub thousands_sep : Text
  pub grouping : Text
  pub mon_decimal_point : Text
  pub mon_thousands_sep : Text
  pub mon_grouping : Text
  pub frac_digits : ℕ
  pub currency_symbol : Text
  pub positive : MonetarySign
  pub negative : MonetarySign

-- What is not in the source: OOBase's search in a LocalString, and numbers of type double with what
-- printf makes of them (the precision left out where the code leaves it out).
pub record Env (F : Type 0) : Type 0 where
  pub find : Text → Text → Option ℕ
  pub same_text : Text → Text → Bool
  pub print_fixed : Option ℕ → F → Text
  pub print_scientific : Bool → ℕ → F → Text
  pub print_general : Bool → Option ℕ → F → Text
  pub to_int64 : F → ℤ
  pub to_uint64 : F → ℕ
  pub from_int64 : ℤ → F
  pub from_uint64 : ℕ → F
  pub is_negative : F → Bool

abbrev pub char_max : ℕ
char_max = 127

unfoldable pub insert_text : Text → ℕ → Text → Text
insert_text s at sz = take at s ++ (sz ++ drop at s)

-- The loop that puts the separators in, from the place `at` down. Each round takes at least one from
-- the place, unless it is the last.
unfoldable pub group_from : ℕ → Text → ℕ → ℕ → Text → Text → Text
unfolding insert_text
group_from zero s at grp grouping sep = s
group_from (suc fuel) s at grp grouping sep =
    let grp' = if head grouping == 0 then grp else head grouping in
    let grouping' = if head grouping == 0 then grouping else drop 1 grouping in
    let rest = group_from fuel (insert_text s (at - grp') sep) (at - grp') grp' grouping' sep in
    if (grp' == char_max) || leb at grp' then s else rest

unfoldable pub group : Text → ℕ → Text → Text → Text
unfolding group_from
group s at grouping sep = group_from (suc at) s at char_max grouping sep

unfoldable pub or_end : Option ℕ → Text → ℕ
or_end none s = length s
or_end (some i) s = i

module _ {F : Type 0} (env : Env F) where
  -- replace: the new text, and the place
  unfoldable pub replace : Text → Text → Text → Text × Option ℕ
  replace s orig repl = elim (env.find s orig) [
    | none ↦ (s, none)
    | some at ↦
        if env.same_text orig repl
        then (s, some at)
        else (take at s ++ (repl ++ drop (at + length orig) s), some at)
  ]

  -- do_intl: the new text, and the place of the decimal point before
  unfoldable pub do_intl : Lconv → Text → Bool → Text × Option ℕ
  unfolding group or_end
  do_intl lc s thousands =
      let dp = env.find s lc.decimal_point in
      (if thousands then group s (or_end dp s) lc.grouping lc.thousands_sep else s, dp)

  unfoldable pub undo_intl : Lconv → Text → Text
  unfolding replace
  undo_intl lc s = (replace s lc.decimal_point (46 ∷ [])).0

  -- The number beside the currency, or beside the currency with its sign
  unfoldable pub beside : MonetarySign → Text → Text → Text
  beside m money s =
      let space = if m.sep_by_space == 1 then 32 ∷ [] else [] in
      if m.cs_precedes == 1 then money ++ (space ++ s) else s ++ (space ++ money)

  unfoldable pub with_sign : MonetarySign → Text → Text → Text
  unfolding beside
  with_sign m currency s =
      if m.sign_posn == 0
      then 40 ∷ (beside m currency s ++ 41 ∷ [])
      else if m.sign_posn == 1
      then m.sign ++ beside m currency s
      else if m.sign_posn == 2
      then beside m currency s ++ m.sign
      else if m.sign_posn == 3
      then beside m (m.sign ++ currency) s
      else beside m (currency ++ m.sign) s

  unfoldable pub do_intl_mon : Lconv → Text → Bool → Text
  unfolding replace group or_end with_sign
  do_intl_mon lc s negative =
      let point =
        if head lc.mon_decimal_point == 0 then lc.mon_decimal_point else lc.decimal_point in
      let (s', at) = replace s lc.decimal_point point in
      with_sign (if negative then lc.negative else lc.positive) lc.currency_symbol
        (group s' (or_end at s') lc.mon_grouping lc.mon_thousands_sep)
