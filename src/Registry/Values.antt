-- ===== src/Registry/Values.antt =====
-- A value that was set is read back, and deleted values are gone.
use oocore.Prelude.{
  ℕ, ◌≡◌, refl, true, false, ◌&&◌, Option, none, some, List, [], ◌∷◌, ◌++◌, arith, ◌==◌,
}
use oocore.Registry.Tables.{
  Text, Value, Tables, same_text, value_by_name, update_values, keep_other_values,
}
use oocore.Registry.Hive.{hive_ok, Outcome, done, read_only, failed, finish}

pub same_text_refl : (a : Text) → same_text a a ≡ true
unfolding same_text
same_text_refl [] = refl
same_text_refl (c ∷ cs) = let ih = same_text_refl cs in ground (arith, ih)

pub same_text_sound : (a b : Text) → same_text a b ≡ true → a ≡ b
unfolding same_text
same_text_sound [] [] e = refl
same_text_sound [] (b ∷ bs) e = ground (arith, e)
same_text_sound (a ∷ as_) [] e = ground (arith, e)
same_text_sound (a ∷ as_) (b ∷ bs) e = let ih = same_text_sound as_ bs in ground (arith, e, ih)

pub value_by_name-append :
    (name : Text) (key : ℕ) (v : Value) (vs : List Value)
    → value_by_name vs name key ≡ none
    → v.name ≡ name
    → v.parent ≡ key
    → value_by_name (vs ++ v ∷ []) name key ≡ some v
unfolding value_by_name
value_by_name-append name key v [] e n k =
    let same = same_text_refl name in rw (n, k) (ground (arith, same))
value_by_name-append name key v (u ∷ us) e n k =
    let ih = value_by_name-append name key v us in ground (arith, e, ih, n, k)

pub value_by_name-update :
    (name : Text) (key : ℕ) (text : Text) (v : Value) (vs : List Value)
    → value_by_name vs name key ≡ some v
    → value_by_name (update_values name key text vs) name key
      ≡ some (record v { value = some text })
unfolding value_by_name update_values
value_by_name-update name key text v [] e = ground (arith, e)
value_by_name-update name key text v (u ∷ us) e =
    let ih = value_by_name-update name key text v us in ground (arith, e, ih)

pub value_by_name-delete :
    (name : Text) (key : ℕ) (vs : List Value)
    → value_by_name (keep_other_values name key vs) name key ≡ none
unfolding value_by_name keep_other_values
value_by_name-delete name key [] = refl
value_by_name-delete name key (u ∷ us) =
    let ih = value_by_name-delete name key us in ground (arith, ih)

-- A value of another name or key
abbrev pub Other : Text → ℕ → Text → ℕ → Type 0
Other name key name' key' = (same_text name name' && (key == key')) ≡ false

-- A row that matches one does not match the other.
no_match :
    (name : Text) (key : ℕ) (name' : Text) (key' : ℕ) (v : Value)
    → Other name key name' key'
    → (same_text v.name name && (v.parent == key)) ≡ true
    → (same_text v.name name' && (v.parent == key')) ≡ false
no_match name key name' key' v other e =
    let n : v.name ≡ name = same_text_sound v.name name (ground (arith, e)) in
    let k : v.parent ≡ key = ground (arith, e) in rw (n, k) other

module _ (name : Text) (key : ℕ) (name' : Text) (key' : ℕ) (other : Other name key name' key') where
  pub other-append :
      (v : Value) (vs : List Value)
      → v.name ≡ name
      → v.parent ≡ key
      → value_by_name (vs ++ v ∷ []) name' key' ≡ value_by_name vs name' key'
  unfolding value_by_name
  other-append v [] n k = rw (n, k) (ground (arith, other))
  other-append v (u ∷ us) n k = let ih = other-append v us n k in ground (arith, ih)

  pub other-update :
      (text : Text) (vs : List Value)
      → value_by_name (update_values name key text vs) name' key' ≡ value_by_name vs name' key'
  unfolding value_by_name update_values
  other-update text [] = refl
  other-update text (u ∷ us) =
      let ih = other-update text us in
      let apart = no_match name key name' key' u other in ground (arith, ih, apart)

  pub other-delete :
      (vs : List Value)
      → value_by_name (keep_other_values name key vs) name' key' ≡ value_by_name vs name' key'
  unfolding value_by_name keep_other_values
  other-delete [] = refl
  other-delete (u ∷ us) =
      let ih = other-delete us in
      let apart = no_match name key name' key' u other in ground (arith, ih, apart)

pub finish-ok :
    (o : Outcome) (r : Option Tables) (t t' : Tables) → finish o r t ≡ (hive_ok, t') → r ≡ some t'
unfolding finish
finish-ok done none t t' e = ground (arith, e)
finish-ok done (some u) t t' e = ground (arith, e)
finish-ok read_only r t t' e = ground (arith, e)
finish-ok failed r t t' e = ground (arith, e)
