-- ===== src/Tests/Strings.antt =====
-- The theorems on strings at "abcab".
use oocore.Prelude.{ℕ, ◌≡◌, refl, some, List, [], ◌∷◌}
use oocore.Strings.{byte_at, memcmp, find_not, compare_at, below}
use oocore.Strings.Within.{found, beyond, find2}
use oocore.Strings.Compare.{dictionary, compare_at-dictionary}

abbrev abcab : List ℕ
abcab = 97 ∷ 98 ∷ 99 ∷ 97 ∷ 98 ∷ []

compare_at-dictionary_example : compare_at abcab (98 ∷ 99 ∷ 100 ∷ []) 1 3 ≡ below
unfolding dictionary
compare_at-dictionary_example = compare_at-dictionary abcab (98 ∷ 99 ∷ 100 ∷ []) 1 3

skips_a : find_not (97 ∷ 97 ∷ 98 ∷ []) 97 1 ≡ some 2
unfolding find_not
skips_a = refl

finds_ab : find2 abcab (97 ∷ 98 ∷ []) 1 ≡ found 3
unfolding find2 byte_at memcmp
finds_ab = refl

-- find2 gives the place 0 for "ab" in "aab", and 1 for "ac" in "abac".
misplaces_ab : find2 (97 ∷ 97 ∷ 98 ∷ []) (97 ∷ 98 ∷ []) 0 ≡ found 0
unfolding find2 byte_at memcmp
misplaces_ab = refl

misplaces_ac : find2 (97 ∷ 98 ∷ 97 ∷ 99 ∷ []) (97 ∷ 99 ∷ []) 0 ≡ found 1
unfolding find2 byte_at memcmp
misplaces_ac = refl

-- It looks for "ac" in "abab" and reads behind the terminator.
overruns : find2 (97 ∷ 98 ∷ 97 ∷ 98 ∷ []) (97 ∷ 99 ∷ []) 0 ≡ beyond
unfolding find2 byte_at memcmp
overruns = refl
