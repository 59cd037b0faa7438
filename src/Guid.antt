-- ===== src/Guid.antt =====
-- Printing and reading GUIDs: src/OOCore/Types.cpp, and the readers of numbers of
-- src/OOCore/Formatting.cpp over the C library's.
pub mod Hex
pub mod RoundTrip
use oocore.Prelude.{
  ℕ, ◌+◌, ◌-◌, ◌*◌, ◌/◌, ◌%◌, ◌^◌, Bool, true, false, not, ◌&&◌, ◌||◌, Option, none, some, List, [],
  ◌∷◌, ◌++◌, ◌==◌, ltb, leb, if◌then◌else◌, length, drop, zero, suc, ◌>>=◌,
}

-- guid_base_t; Data4 is the eight bytes a to h.
pub record Guid : Type 0 where
  pub data1 : ℕ
  pub data2 : ℕ
  pub data3 : ℕ
  pub a : ℕ
  pub b : ℕ
  pub c : ℕ
  pub d : ℕ
  pub e : ℕ
  pub f : ℕ
  pub g : ℕ
  pub h : ℕ

-- One digit of %X
unfoldable pub hex_digit : ℕ → ℕ
hex_digit d = if ltb d 10 then 48 + d else 55 + d

-- %.nX of a number of at most n digits
unfoldable pub print_hex : ℕ → ℕ → List ℕ
unfolding hex_digit
print_hex zero v = []
print_hex (suc n) v = print_hex n (v / 16) ++ hex_digit (v % 16) ∷ []

-- {%.8X-%.4X-%.4X-%.2X%.2X-%.2X%.2X%.2X%.2X%.2X%.2X}
unfoldable pub to_string : Guid → List ℕ
unfolding print_hex
to_string x =
    123
    ∷ (print_hex 8 x.data1
        ++ (45
            ∷ (print_hex 4 x.data2
                ++ (45
                    ∷ (print_hex 4 x.data3
                        ++ (45
                            ∷ (print_hex 2 x.a
                                ++ (print_hex 2 x.b
                                    ++ (45
                                        ∷ (print_hex 2 x.c
                                            ++ (print_hex 2 x.d
                                                ++ (print_hex 2 x.e
                                                    ++ (print_hex 2 x.f
                                                        ++ (print_hex 2 x.g
                                                            ++ (print_hex 2 x.h
                                                            ++ 125 ∷ [])))))))))))))))

-- The character at the front of a C string, 0 at its end
abbrev pub head : List ℕ → ℕ
head [] = 0
head (c ∷ cs) = c

-- The value of a digit in base 16
unfoldable pub digit_value : ℕ → Option ℕ
digit_value c =
    if leb 48 c && leb c 57
    then some (c - 48)
    else if leb 65 c && leb c 70
    then some (c - 55)
    else if leb 97 c && leb c 102
    then some (c - 87)
    else none

-- priv_isxdigit
unfoldable pub is_xdigit : ℕ → Bool
is_xdigit c = (leb 48 c && leb c 57) || ((leb 65 c && leb c 70) || (leb 97 c && leb c 102))

-- The digits at the front, and what is behind them
unfoldable pub scan : ℕ → List ℕ → ℕ × List ℕ
unfolding digit_value
scan value [] = (value, [])
scan value (c ∷ cs) = elim (digit_value c) [
  | none ↦ (value, c ∷ cs)
  | some d ↦ scan (value * 16 + d) cs
]

-- The subject of strtoul in base 16 after an optional 0x, which counts only before a digit
unfoldable pub after_prefix : List ℕ → List ℕ
unfolding is_xdigit
after_prefix s =
    if (head s == 48)
      && ((head (drop 1 s) == 120 || head (drop 1 s) == 88) && is_xdigit (head (drop 2 s)))
    then drop 2 s
    else s

unfoldable pub skip_space : List ℕ → List ℕ
skip_space [] = []
skip_space (c ∷ cs) = if c == 32 || (leb 9 c && leb c 13) then skip_space cs else c ∷ cs

-- Negative numbers wrap around, and what is too large becomes the largest number of 64 bits. Where
-- there is no number, the end is the beginning `all`.
unfoldable pub read_number : List ℕ → Bool → List ℕ → ℕ × List ℕ
unfolding scan after_prefix is_xdigit
read_number all negative s =
    let (value, rest) = scan 0 (after_prefix s) in
    if not (is_xdigit (head s))
    then (0, all)
    else if leb (2 ^ 64) value
    then (2 ^ 64 - 1, rest)
    else (if negative then (2 ^ 64 - value) % 2 ^ 64 else value, rest)

-- strtoul and strtoull in base 16, of 64 bits: the number, and the text at endptr
unfoldable pub strtoul : List ℕ → ℕ × List ℕ
unfolding read_number skip_space
strtoul s =
    let t = skip_space s in
    if head t == 45
    then read_number s true (drop 1 t)
    else if head t == 43
    then read_number s false (drop 1 t)
    else read_number s false t

-- A field of n digits: it starts with a digit, and the number ends after n characters.
unfoldable pub read_field : ℕ → List ℕ → Option (ℕ × List ℕ)
unfolding is_xdigit strtoul
read_field n s =
    let (value, endp) = strtoul s in
    if is_xdigit (head s) && (length endp + n == length s) then some (value, endp) else none

-- A dash, and a field
unfoldable pub read_dashed : ℕ → List ℕ → Option (ℕ × List ℕ)
unfolding read_field
read_dashed n s = if head s == 45 then read_field n (drop 1 s) else none

-- The last field. Its dash is asked for only where no digit follows.
unfoldable pub read_last : List ℕ → Option (ℕ × List ℕ)
unfolding is_xdigit strtoul
read_last s =
    let (value, endp) = strtoul (drop 1 s) in
    if not (head s == 45) && not (is_xdigit (head (drop 1 s)))
    then none
    else if length endp + 13 == length s
    then some (value, endp)
    else none

-- The numbers of the fields, cut to the sizes of the members
unfoldable pub make_guid : ℕ → ℕ → ℕ → ℕ → ℕ → Guid
make_guid v1 v2 v3 v4 v5 = record {
  data1 = v1 % 2 ^ 32;
  data2 = v2 % 2 ^ 16;
  data3 = v3 % 2 ^ 16;
  a = v4 % 2 ^ 32 / 2 ^ 8 % 2 ^ 8;
  b = v4 % 2 ^ 32 % 2 ^ 8;
  c = v5 / 2 ^ 40 % 2 ^ 8;
  d = v5 / 2 ^ 32 % 2 ^ 8;
  e = v5 / 2 ^ 24 % 2 ^ 8;
  f = v5 / 2 ^ 16 % 2 ^ 8;
  g = v5 / 2 ^ 8 % 2 ^ 8;
  h = v5 % 2 ^ 8;
}

-- guid_t_from_string: none where it returns 0
unfoldable pub from_string : List ℕ → Option Guid
unfolding read_field read_dashed read_last make_guid
from_string s = if not (head s == 123) then none else do
  (v1, s1) ← read_field 8 (drop 1 s)
  (v2, s2) ← read_dashed 4 s1
  (v3, s3) ← read_dashed 4 s2
  (v4, s4) ← read_dashed 4 s3
  (v5, s5) ← read_last s4
  if head s5 == 125 && (head (drop 1 s5) == 0) then some (make_guid v1 v2 v3 v4 v5) else none

-- The members that guid_t_from_string has written into Data4 by the time that it returns 0
unfoldable pub written_data4 : List ℕ → Guid → Guid
unfolding read_field read_dashed read_last
written_data4 s old =
    let fourth = do
      (v1, s1) ← read_field 8 (drop 1 s)
      (v2, s2) ← read_dashed 4 s1
      (v3, s3) ← read_dashed 4 s2
      read_dashed 4 s3
    in if not (head s == 123) then old else elim fourth [
      | none ↦ old
      | some (v4, s4) ↦
          let half = record old { a = v4 % 2 ^ 32 / 2 ^ 8 % 2 ^ 8; b = v4 % 2 ^ 32 % 2 ^ 8 } in
          elim (read_last s4) [
            | none ↦ half
            | some (v5, s5) ↦ record half {
              c = v5 / 2 ^ 40 % 2 ^ 8;
              d = v5 / 2 ^ 32 % 2 ^ 8;
              e = v5 / 2 ^ 24 % 2 ^ 8;
              f = v5 / 2 ^ 16 % 2 ^ 8;
              g = v5 / 2 ^ 8 % 2 ^ 8;
              h = v5 % 2 ^ 8;
            }
          ]
    ]

-- OOCore_guid_t_from_string: what it returns, and the GUID. Its memset sets no byte.
unfoldable pub guid_from_string : List ℕ → Guid → Bool × Guid
unfolding from_string written_data4
guid_from_string s old = elim (from_string s) [
  | some x ↦ (true, x)
  | none ↦ (false, record (written_data4 s old) { data1 = 0; data2 = 0; data3 = 0 })
]
