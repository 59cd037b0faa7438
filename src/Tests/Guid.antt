-- ===== src/Tests/Guid.antt =====
-- The theorem on GUIDs at one of them, and what the reader accepts.
use oocore.Prelude.{ℕ, zero, suc, ◌≡◌, refl, false, none, some, List, [], ◌∷◌, arith}
use oocore.Guid.{Guid, to_string, from_string, guid_from_string}
use oocore.Guid.RoundTrip.{IsGuid, from_string-to_string}

-- {D063D32C-FB9A-004A-D2E5-BB5451808FF5}, of Omega.Surrogate
abbrev surrogate : Guid
surrogate = record {
  data1 = 0xD063D32C;
  data2 = 0xFB9A;
  data3 = 0x004A;
  a = 0xD2;
  b = 0xE5;
  c = 0xBB;
  d = 0x54;
  e = 0x51;
  f = 0x80;
  g = 0x8F;
  h = 0xF5;
}

surrogate-IsGuid : IsGuid surrogate
surrogate-IsGuid = record {
  data1 = omega arith;
  data2 = omega arith;
  data3 = omega arith;
  a = omega arith;
  b = omega arith;
  c = omega arith;
  d = omega arith;
  e = omega arith;
  f = omega arith;
  g = omega arith;
  h = omega arith;
}

from_string-to_string_example : from_string (to_string surrogate) ≡ some surrogate
from_string-to_string_example = from_string-to_string surrogate surrogate-IsGuid

abbrev zero_guid : Guid
zero_guid = record {
  data1 = 0;
  data2 = 0;
  data3 = 0;
  a = 0;
  b = 0;
  c = 0;
  d = 0;
  e = 0;
  f = 0;
  g = 0;
  h = 0;
}

abbrev zeros : ℕ → List ℕ → List ℕ
zeros zero rest = rest
zeros (suc n) rest = 48 ∷ zeros n rest

-- {00000000-0000-0000-0000x000000000000}: the last dash may be another character.
accepts_x :
    from_string
      (123 ∷ zeros 8 (45 ∷ zeros 4 (45 ∷ zeros 4 (45 ∷ zeros 4 (120 ∷ zeros 12 (125 ∷ []))))))
    ≡ some zero_guid
unfolding from_string
accepts_x = refl

-- Without its braces it is refused.
refuses_bare : from_string (zeros 8 []) ≡ none
unfolding from_string
refuses_bare = refl

-- A text that is refused leaves Data4 as it was, as memset sets no byte.
not_cleared :
    guid_from_string [] surrogate ≡ (false, record surrogate { data1 = 0; data2 = 0; data3 = 0 })
unfolding guid_from_string
not_cleared = refl

-- One that ends too late leaves Data4 written.
half_written :
    guid_from_string
      (123 ∷ zeros 8 (45 ∷ zeros 4 (45 ∷ zeros 4 (45 ∷ zeros 4 (45 ∷ zeros 12 (125 ∷ 48 ∷ []))))))
      surrogate
    ≡ (false, zero_guid)
unfolding guid_from_string
half_written = refl
