-- ===== src/Routing/Frames.antt =====
-- The messages that a connection makes of the bytes of a socket.
use oocore.Prelude.{
  take-append, drop-append, ℕ, zero, suc, ◌+◌, ◌≤◌, ◌<◌, ◌≡◌, refl, sym, ap, ◌∙◌, inl, inr, ◌⊎◌,
  Bool, true, false, Option, none, some, List, [], ◌∷◌, ◌++◌, ltb, if◌then◌else◌, length, take,
  drop, length-append, length-drop, ++-assoc, ++-[], Bool-cases, arith,
}
use oocore.Routing.Table.{HashTable}
use oocore.Routing.Handler.{Handler}
use oocore.Routing.Env.{Env}
use oocore.Routing.Receive.{parse_message}
use oocore.Routing.Connection.{
  header_len, Wire, Received, finished, read_more, complete, Reception, on_length, on_recv,
  on_recv2, on_recv1, receive,
}

-- A message on the wire: its header, and the bytes that the header counts
pub record Frame : Type 0 where
  pub header : List ℕ
  pub body : List ℕ

abbrev pub bytes_of : List Frame → List ℕ
bytes_of [] = []
bytes_of (f ∷ fs) = f.header ++ (f.body ++ bytes_of fs)

Received-cases : (r : Received) → (r ≡ finished) ⊎ ((n : ℕ) × (r ≡ read_more n)) ⊎ (r ≡ complete)
Received-cases finished = inl refl
Received-cases (read_more n) = inr (inl (n, refl))
Received-cases complete = inr (inr refl)

shorter :
    (bytes : List ℕ)
    → ltb (length bytes) header_len ≡ false
    → length (drop header_len bytes) + 8 ≤ length bytes
shorter bytes long =
    let e = length-drop header_len bytes in
    let at_least : 8 ≤ length bytes = ground arith in omega (arith, e, at_least)

regroup :
    (f : Frame) (fs : List Frame) (rest : List ℕ)
    → bytes_of (f ∷ fs) ++ rest ≡ f.header ++ (f.body ++ (bytes_of fs ++ rest))
regroup f fs rest =
    ++-assoc f.header (f.body ++ bytes_of fs) rest
    ∙ ap (λ l. f.header ++ l) (++-assoc f.body (bytes_of fs) rest)

pair_true {ℓ} : {A : Type ℓ} (r : Bool × A) → r.0 ≡ true → r ≡ (true, r.1)
pair_true r e = ground arith

module _ {P : Type 0} (wire : Wire P) where
  pub record IsFrame (f : Frame) : Type 0 where
    pub header_length : length f.header ≡ header_len
    pub counted : wire.read_header f.header ≡ some (1, length f.body)
    pub not_empty : 0 < length f.body

  abbrev pub AllFrames : List Frame → Type 0
  AllFrames [] = Unit {0}
  AllFrames (f ∷ fs) = IsFrame f × AllFrames fs

  on_recv-list :
      (first_part : Bool) (header body rest : List ℕ)
      → length header ≡ header_len
      → wire.read_header header ≡ some (1, length body)
      → 0 < length body
      → on_recv wire first_part (header ++ rest)
        ≡ (if first_part then read_more (length body) else complete)
  unfolding on_recv on_length
  on_recv-list first_part [] body rest len e pos = absurd (omega arith)
  on_recv-list first_part (b ∷ header) [] rest len e pos = absurd (omega arith)
  on_recv-list first_part (b ∷ header) (x ∷ body) rest len e pos =
      let read : wire.read_header (b ∷ header ++ rest) ≡ some (1, length (x ∷ body)) =
        wire.read_header-append (b ∷ header) rest len ∙ e in
      rw (on_recv, read) refl

  frame-length :
      (f : Frame) (fs : List Frame) (rest : List ℕ)
      → IsFrame f
      → length (bytes_of fs ++ rest) + 9 ≤ length (bytes_of (f ∷ fs) ++ rest)
  frame-length f fs rest ok =
      let whole = ap (λ (l : List ℕ). length l) (regroup f fs rest) in
      let outer = length-append f.header (f.body ++ (bytes_of fs ++ rest)) in
      let inner = length-append f.body (bytes_of fs ++ rest) in
      omega (arith, whole, outer, inner, ok.header_length, ok.not_empty)

  module _ {H : HashTable ℕ} (env : Env P) (thread conn : ℕ) where
    -- The messages handed to parse_message one by one; none where it refuses one
    unfoldable pub parse_all : List Frame → Handler H P → Option (Handler H P)
    parse_all [] h = some h
    parse_all (f ∷ fs) h =
        let (ok, h') = parse_message env thread (wire.decode (f.header ++ f.body)) h in
        if ok then parse_all fs h' else none

    on_recv2-cong :
        (again again' : List ℕ → Handler H P → Handler H P × Reception) (buffer rest : List ℕ)
        (h : Handler H P)
        → ((h' : Handler H P) → again rest h' ≡ again' rest h')
        → on_recv2 wire env thread conn again buffer rest h
          ≡ on_recv2 wire env thread conn again' buffer rest h
    unfolding on_recv2
    on_recv2-cong again again' buffer rest h same =
        elim (Received-cases (on_recv wire false buffer)) [
          | inl e ↦ rw (on_recv2, e) refl
          | inr (inl (n, e)) ↦ rw (on_recv2, e) refl
          | inr (inr e) ↦
              let next = (parse_message env thread (wire.decode buffer) h).1 in
              elim (Bool-cases (parse_message env thread (wire.decode buffer) h).0) [
                | inl ok ↦ rw (on_recv2, e, ok) (same next)
                | inr refused ↦ rw (on_recv2, e, refused) refl
              ]
        ]

    on_recv1-cong :
        (again again' : List ℕ → Handler H P → Handler H P × Reception) (header rest : List ℕ)
        (h : Handler H P)
        → ((r : List ℕ) (h' : Handler H P) → length r ≤ length rest → again r h' ≡ again' r h')
        → on_recv1 wire env thread conn again header rest h
          ≡ on_recv1 wire env thread conn again' header rest h
    unfolding on_recv1
    on_recv1-cong again again' header rest h same =
        elim (Received-cases (on_recv wire true header)) [
          | inl e ↦ rw (on_recv1, e) refl
          | inr (inr e) ↦ rw (on_recv1, e) refl
          | inr (inl (n, e)) ↦ elim (Bool-cases (ltb (length rest) n)) [
            | inl short ↦ rw (on_recv1, e, short) refl
            | inr long ↦
                rw (on_recv1, e, long)
                  (on_recv2-cong again again' (header ++ take n rest) (drop n rest) h
                    (λ h'. same (drop n rest) h' (omega (arith, length-drop n rest))))
          ]
        ]

    pub receive-fuel :
        (f g : ℕ) (bytes : List ℕ) (h : Handler H P)
        → length bytes ≤ f
        → length bytes ≤ g
        → receive wire env thread conn f bytes h ≡ receive wire env thread conn g bytes h
    unfolding receive
    receive-fuel zero zero bytes h p q = refl
    receive-fuel zero (suc g) [] h p q = refl
    receive-fuel (suc f) zero [] h p q = refl
    receive-fuel zero (suc g) (b ∷ bytes) h p q = absurd (omega arith)
    receive-fuel (suc f) zero (b ∷ bytes) h p q = absurd (omega arith)
    receive-fuel (suc f) (suc g) bytes h p q = elim (Bool-cases (ltb (length bytes) header_len)) [
      | inl short ↦ rw short refl
      | inr long ↦ rw long (
          on_recv1-cong (λ rest h'. receive wire env thread conn f rest h')
            (λ rest h'. receive wire env thread conn g rest h') (take header_len bytes)
            (drop header_len bytes) h
            (λ r h' le.
              receive-fuel f g r h' (omega (arith, shorter bytes long, p))
                (omega (arith, shorter bytes long, q))))
    ]

    on_recv1-frame :
        (again : List ℕ → Handler H P → Handler H P × Reception) (f : Frame) (tail : List ℕ)
        (h h' : Handler H P)
        → IsFrame f
        → parse_message env thread (wire.decode (f.header ++ f.body)) h ≡ (true, h')
        → on_recv1 wire env thread conn again f.header (f.body ++ tail) h ≡ again tail h'
    unfolding on_recv1 on_recv2
    on_recv1-frame again f tail h h' ok parsed =
        let first : on_recv wire true f.header ≡ read_more (length f.body) =
          ap (λ l. on_recv wire true l) (sym (++-[] f.header))
          ∙ on_recv-list true f.header f.body [] ok.header_length ok.counted ok.not_empty in
        let second : on_recv wire false (f.header ++ f.body) ≡ complete =
          on_recv-list false f.header f.body f.body ok.header_length ok.counted ok.not_empty in
        let there : ltb (length (f.body ++ tail)) (length f.body) ≡ false =
          let e = length-append f.body tail in ground arith in
        let next : on_recv2 wire env thread conn again (f.header ++ f.body) tail h ≡ again tail h' =
          rw (on_recv2, second, parsed) refl in
        rw (on_recv1, first, there, take-append f.body tail, drop-append f.body tail) next

    -- One message that is not refused
    receive-frame :
        (fuel : ℕ) (f : Frame) (tail : List ℕ) (h h' : Handler H P)
        → IsFrame f
        → parse_message env thread (wire.decode (f.header ++ f.body)) h ≡ (true, h')
        → receive wire env thread conn (suc fuel) (f.header ++ (f.body ++ tail)) h
          ≡ receive wire env thread conn fuel tail h'
    unfolding receive
    receive-frame fuel f tail h h' ok parsed =
        let again = λ (rest : List ℕ) (x : Handler H P). receive wire env thread conn fuel rest x in
        let len = ok.header_length in
        let enough : ltb (length (f.header ++ (f.body ++ tail))) header_len ≡ false =
          let e = length-append f.header (f.body ++ tail) in ground arith in
        let head : take header_len (f.header ++ (f.body ++ tail)) ≡ f.header =
          ap (λ n. take n (f.header ++ (f.body ++ tail))) (sym len)
          ∙ take-append f.header (f.body ++ tail) in
        let behind : drop header_len (f.header ++ (f.body ++ tail)) ≡ f.body ++ tail =
          ap (λ n. drop n (f.header ++ (f.body ++ tail))) (sym len)
          ∙ drop-append f.header (f.body ++ tail) in
        rw enough (rw (head, behind) (on_recv1-frame again f tail h h' ok parsed))

    -- Of the bytes of well-formed messages, one behind the other and followed by any others, a
    -- connection makes those messages in their order: if none is refused, it goes on with the
    -- bytes behind them in the state in which parse_message has left the handler, with a round for
    -- each byte.
    pub receive-frames :
        (fuel : ℕ) (fs : List Frame) (rest : List ℕ) (h h' : Handler H P)
        → AllFrames fs
        → parse_all fs h ≡ some h'
        → length (bytes_of fs ++ rest) ≤ fuel
        → receive wire env thread conn fuel (bytes_of fs ++ rest) h
          ≡ receive wire env thread conn fuel rest h'
    unfolding parse_all
    receive-frames fuel [] rest h h' ok all enough =
        ap (λ x. receive wire env thread conn fuel rest x) (let same = all in cc)
    receive-frames zero (f ∷ fs) rest h h' ok all enough =
        absurd (omega (arith, frame-length f fs rest ok.0, enough))
    receive-frames (suc fuel) (f ∷ fs) rest h h' ok all enough =
        let r = parse_message env thread (wire.decode (f.header ++ f.body)) h in
        elim (Bool-cases r.0) [
          | inr refused ↦ absurd (let none_is = rw (parse_all, refused) at all in cc)
          | inl accepted ↦
              ap (λ l. receive wire env thread conn (suc fuel) l h) (regroup f fs rest)
              ∙ receive-frame fuel f (bytes_of fs ++ rest) h r.1 ok.0 (pair_true r accepted)
              ∙ receive-frames fuel fs rest r.1 h' ok.1 (rw (parse_all, accepted) at all)
                  (omega (arith, frame-length f fs rest ok.0, enough))
              ∙ receive-fuel fuel (suc fuel) rest h'
                  (omega
                    (arith, frame-length f fs rest ok.0, length-append (bytes_of fs) rest, enough))
                  (omega
                    (arith, frame-length f fs rest ok.0, length-append (bytes_of fs) rest, enough))
        ]
