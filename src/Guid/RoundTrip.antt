-- ===== src/Guid/RoundTrip.antt =====
-- A GUID is read back from what it is printed as.
use oocore.Prelude.{
  ++-assoc, ℕ, ◌+◌, ◌*◌, ◌/◌, ◌%◌, ◌^◌, ◌<◌, ◌≡◌, refl, sym, ap, ◌∙◌, some, List, [], ◌∷◌, ◌++◌,
  arith,
}
use oocore.Guid.{
  Guid, print_hex, to_string, scan, digit_value, read_field, read_dashed, read_last, make_guid,
  from_string,
}
use oocore.Guid.Hex.{strtoul-print_hex, read_field-print_hex, print_hex-append, length-print_hex}

-- The members are within their types.
pub record IsGuid (x : Guid) : Type 0 where
  pub data1 : x.data1 < 2 ^ 32
  pub data2 : x.data2 < 2 ^ 16
  pub data3 : x.data3 < 2 ^ 16
  pub a : x.a < 2 ^ 8
  pub b : x.b < 2 ^ 8
  pub c : x.c < 2 ^ 8
  pub d : x.d < 2 ^ 8
  pub e : x.e < 2 ^ 8
  pub f : x.f < 2 ^ 8
  pub g : x.g < 2 ^ 8
  pub h : x.h < 2 ^ 8

-- The fourth and the last field as numbers
abbrev fourth : Guid → ℕ
fourth x = x.a * 256 + x.b

abbrev fifth : Guid → ℕ
fifth x = ((((x.c * 256 + x.d) * 256 + x.e) * 256 + x.f) * 256 + x.g) * 256 + x.h

join :
    (n v w : ℕ) (rest : List ℕ)
    → w < 2 ^ 8
    → print_hex n v ++ (print_hex 2 w ++ rest) ≡ print_hex (n + 2) (v * 256 + w) ++ rest
join n v w rest h =
    sym (++-assoc (print_hex n v) (print_hex 2 w) rest)
    ∙ ap (λ t. t ++ rest) (print_hex-append n 2 v w (omega (arith, h)))
    ∙ ap (λ t. print_hex (n + 2) t ++ rest) (omega arith)

-- What is printed behind the last dash
last_joined :
    (x : Guid)
    → IsGuid x
    → print_hex 2 x.c
        ++ (print_hex 2 x.d
            ++ (print_hex 2 x.e
                ++ (print_hex 2 x.f ++ (print_hex 2 x.g ++ (print_hex 2 x.h ++ 125 ∷ [])))))
      ≡ print_hex 12 (fifth x) ++ 125 ∷ []
unfolding print_hex
last_joined x r =
    let end : List ℕ = 125 ∷ [] in
    let h : List ℕ = print_hex 2 x.h ++ end in
    let g : List ℕ = print_hex 2 x.g ++ h in
    let f : List ℕ = print_hex 2 x.f ++ g in
    let cd = x.c * 256 + x.d in
    let ce = cd * 256 + x.e in
    let cf = ce * 256 + x.f in
    let cg = cf * 256 + x.g in
    join 2 x.c x.d (print_hex 2 x.e ++ f) r.d
    ∙ join 4 cd x.e f r.e
    ∙ join 6 ce x.f g r.f
    ∙ join 8 cf x.g h r.g
    ∙ join 10 cg x.h end r.h

read_dashed-print_hex :
    (v : ℕ) (rest : List ℕ)
    → v < 2 ^ 16
    → read_dashed 4 (45 ∷ (print_hex 4 v ++ 45 ∷ rest)) ≡ some (v, 45 ∷ rest)
unfolding read_dashed scan digit_value
read_dashed-print_hex v rest fits =
    read_field-print_hex 3 v (45 ∷ rest) (omega arith) (omega (arith, fits)) refl (λ value. refl)

read_last-print_hex :
    (v : ℕ) → v < 2 ^ 48 → read_last (45 ∷ (print_hex 12 v ++ 125 ∷ [])) ≡ some (v, 125 ∷ [])
unfolding read_last scan digit_value
read_last-print_hex v fits =
    let read =
      strtoul-print_hex 11 v (125 ∷ []) (omega arith) (omega (arith, fits)) refl (λ value. refl) in
    let long = length-print_hex 12 v (125 ∷ []) in rw (read, long) refl

fifth-lt : (x : Guid) → IsGuid x → fifth x < 2 ^ 48
fifth-lt x r = omega (arith, r.c, r.d, r.e, r.f, r.g, r.h)

make_guid-fields :
    (x : Guid) → IsGuid x → make_guid x.data1 x.data2 x.data3 (fourth x) (fifth x) ≡ x
unfolding make_guid
make_guid-fields x r =
    let data1 : x.data1 % 2 ^ 32 ≡ x.data1 = omega (arith, r.data1) in
    let data2 : x.data2 % 2 ^ 16 ≡ x.data2 = omega (arith, r.data2) in
    let data3 : x.data3 % 2 ^ 16 ≡ x.data3 = omega (arith, r.data3) in
    let a : fourth x % 2 ^ 32 / 2 ^ 8 % 2 ^ 8 ≡ x.a = omega (arith, r.a, r.b) in
    let b : fourth x % 2 ^ 32 % 2 ^ 8 ≡ x.b = omega (arith, r.a, r.b) in
    let c : fifth x / 2 ^ 40 % 2 ^ 8 ≡ x.c = omega (arith, r.c, r.d, r.e, r.f, r.g, r.h) in
    let d : fifth x / 2 ^ 32 % 2 ^ 8 ≡ x.d = omega (arith, r.c, r.d, r.e, r.f, r.g, r.h) in
    let e : fifth x / 2 ^ 24 % 2 ^ 8 ≡ x.e = omega (arith, r.c, r.d, r.e, r.f, r.g, r.h) in
    let f : fifth x / 2 ^ 16 % 2 ^ 8 ≡ x.f = omega (arith, r.c, r.d, r.e, r.f, r.g, r.h) in
    let g : fifth x / 2 ^ 8 % 2 ^ 8 ≡ x.g = omega (arith, r.c, r.d, r.e, r.f, r.g, r.h) in
    let h : fifth x % 2 ^ 8 ≡ x.h = omega (arith, r.c, r.d, r.e, r.f, r.g, r.h) in
    rw (make_guid, data1, data2, data3, a, b, c, d, e, f, g, h) refl

-- The fields one after the other
from_string-fields :
    (s s1 s2 s3 s4 : List ℕ) (v1 v2 v3 v4 v5 : ℕ)
    → read_field 8 s ≡ some (v1, s1)
    → read_dashed 4 s1 ≡ some (v2, s2)
    → read_dashed 4 s2 ≡ some (v3, s3)
    → read_dashed 4 s3 ≡ some (v4, s4)
    → read_last s4 ≡ some (v5, 125 ∷ [])
    → from_string (123 ∷ s) ≡ some (make_guid v1 v2 v3 v4 v5)
unfolding from_string
from_string-fields s s1 s2 s3 s4 v1 v2 v3 v4 v5 e1 e2 e3 e4 e5 =
    rw (from_string, e1, e2, e3, e4, e5) refl

-- A GUID whose members are within their types is read back by guid_t_from_string from what it is
-- printed as.
pub from_string-to_string : (x : Guid) → IsGuid x → from_string (to_string x) ≡ some x
unfolding to_string scan digit_value
from_string-to_string x r =
    let tail4 : List ℕ = 45 ∷ (print_hex 12 (fifth x) ++ 125 ∷ []) in
    let tail3 : List ℕ = 45 ∷ (print_hex 4 (fourth x) ++ tail4) in
    let tail2 : List ℕ = 45 ∷ (print_hex 4 x.data3 ++ tail3) in
    let tail1 : List ℕ = 45 ∷ (print_hex 4 x.data2 ++ tail2) in
    let first =
      read_field-print_hex 7 x.data1 tail1 (omega arith) (omega (arith, r.data1)) refl
        (λ value. refl) in
    let second = read_dashed-print_hex x.data2 (print_hex 4 x.data3 ++ tail3) r.data2 in
    let third = read_dashed-print_hex x.data3 (print_hex 4 (fourth x) ++ tail4) r.data3 in
    let fourth_read =
      read_dashed-print_hex (fourth x) (print_hex 12 (fifth x) ++ 125 ∷ [])
        (omega (arith, r.a, r.b)) in
    let last = read_last-print_hex (fifth x) (fifth-lt x r) in
    let printed : to_string x ≡ 123 ∷ (print_hex 8 x.data1 ++ tail1) =
      ap
        (λ t.
          123
          ∷ (print_hex 8 x.data1
              ++ (45 ∷ (print_hex 4 x.data2 ++ (45 ∷ (print_hex 4 x.data3 ++ (45 ∷ t)))))))
        (ap (λ t. print_hex 2 x.a ++ (print_hex 2 x.b ++ (45 ∷ t))) (last_joined x r)
          ∙ join 2 x.a x.b tail4 r.b) in
    ap from_string printed
    ∙ from_string-fields (print_hex 8 x.data1 ++ tail1) tail1 tail2 tail3 tail4 x.data1 x.data2
        x.data3 (fourth x) (fifth x) first second third fourth_read last
    ∙ ap some (make_guid-fields x r)
