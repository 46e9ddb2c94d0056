-- ===== src/Reactor/SocketIo/Lines.antt =====
-- `ReadLine` of src/reactor/socket_io.cc, when the kernel keeps up: it returns the first line.
use serach_engine.Base.{
  ℕ, zero, suc, ◌+◌, ◌-◌, ◌*◌, ◌≤◌, ◌<◌, ◌≡◌, refl, ap, ◌∙◌, min, Text, false, List, [], ◌∷◌, ◌++◌,
  none, some, length, take, drop, nat_beq, ltb→lt, arith, All, ltb, Bool-cases, inl, inr,
  length-append, length-drop,
}
use serach_engine.Base.Int.{pos}
use serach_engine.Reactor.SocketIo.Transfers.{IsPrompt, append_append, readn_loop-IsPrompt}
use serach_engine.Reactor.SocketIo.{
  Reply, interrupted, failed, up_to, amount, readn, line_end, read_line_loop, read_line,
}

-- No line feed.
abbrev pub IsOneLine : Text → Type 0
IsOneLine = All (λ c. nat_beq c 10 ≡ false)

-- The line and its line feed.
abbrev pub ended : Text → Text
ended line = line ++ 10 ∷ []

line_end-short :
    (n : ℕ) (line rest : Text)
    → IsOneLine line
    → n ≤ length line
    → line_end (take n (line ++ 10 ∷ rest)) ≡ none
unfolding line_end
line_end-short zero line rest h le = refl
line_end-short (suc n) [] rest h le = absurd (omega arith)
line_end-short (suc n) (c ∷ line) rest (h, hs) le =
    rw (h, line_end-short n line rest hs (omega arith)) refl

line_end-long :
    (n : ℕ) (line rest : Text)
    → IsOneLine line
    → length line < n
    → line_end (take n (line ++ 10 ∷ rest)) ≡ some (suc (length line))
unfolding line_end
line_end-long zero line rest h le = absurd (omega arith)
line_end-long (suc n) [] rest h le = refl
line_end-long (suc n) (c ∷ line) rest (h, hs) le =
    rw (h, line_end-long n line rest hs (omega arith)) refl

take-within {ℓ} :
    {A : Type ℓ} (n : ℕ) (xs ys : List A) → n ≤ length xs → take n (xs ++ ys) ≡ take n xs
take-within zero xs ys h = refl
take-within (suc n) [] ys h = absurd (omega arith)
take-within (suc n) (x ∷ xs) ys h = ap (◌∷◌ x) (take-within n xs ys (omega arith))

drop-within {ℓ} :
    {A : Type ℓ} (n : ℕ) (xs ys : List A) → n ≤ length xs → drop n (xs ++ ys) ≡ drop n xs ++ ys
drop-within zero xs ys h = refl
drop-within (suc n) [] ys h = absurd (omega arith)
drop-within (suc n) (x ∷ xs) ys h = drop-within n xs ys (omega arith)

take-line : (line rest : Text) → take (suc (length line)) (line ++ 10 ∷ rest) ≡ ended line
take-line [] rest = refl
take-line (c ∷ line) rest = ap (◌∷◌ c) (take-line line rest)

drop-line : (line rest : Text) → drop (suc (length line)) (line ++ 10 ∷ rest) ≡ rest
drop-line [] rest = refl
drop-line (c ∷ line) rest = drop-line line rest

IsOneLine-drop : (n : ℕ) (line : Text) → IsOneLine line → IsOneLine (drop n line)
IsOneLine-drop zero line h = h
IsOneLine-drop (suc n) [] h = tt
IsOneLine-drop (suc n) (c ∷ line) (h, hs) = IsOneLine-drop n line hs

take-drop_line : (n : ℕ) (line : Text) → take n line ++ ended (drop n line) ≡ ended line
take-drop_line zero line = refl
take-drop_line (suc n) [] = refl
take-drop_line (suc n) (c ∷ line) = ap (◌∷◌ c) (take-drop_line n line)

-- The inner `Readn` of so many bytes.
readn-spare :
    (n need spare : ℕ) (incoming : Text) (rs : List Reply)
    → n ≤ length incoming
    → n + spare ≤ need
    → IsPrompt need rs
    → (rs' : List Reply) × IsPrompt spare rs'
      × (length rs' ≤ length rs)
      × (readn n incoming rs ≡ some (pos n, (take n incoming, (drop n incoming, rs'))))
unfolding readn
readn-spare n need spare incoming rs le en h =
    let (rs', p, fewer, e) = readn_loop-IsPrompt n n need spare [] incoming rs (omega arith) en h in
    let z : n - n + min n (length incoming) ≡ n = omega arith in
    (rs', p, fewer, e ∙ ap (λ (m : ℕ). some (pos m, (take n incoming, (drop n incoming, rs')))) z)

abbrev Reads : ℕ → ℕ → ℕ → ℕ → Text → Text → Text → List Reply → Type 0
Reads fuel len left total buf line rest rs =
    (rs' : List Reply) × (read_line_loop fuel len left total buf (line ++ 10 ∷ rest) rs
      ≡ some (pos (total + suc (length line)), (buf ++ ended line, (rest, rs'))))

interrupted_round :
    (fuel len left total : ℕ) (buf line rest : Text) (rs : List Reply)
    → Reads fuel len (suc left) total buf line rest rs
    → Reads (suc fuel) len (suc left) total buf line rest (interrupted ∷ rs)
unfolding read_line_loop
interrupted_round fuel len left total buf line rest rs h = h

-- The round that sees the end of the line.
last_round :
    (fuel len left k need total : ℕ) (buf line rest : Text) (rs : List Reply)
    → IsOneLine line
    → length line < amount (suc k) (suc left) (line ++ 10 ∷ rest)
    → suc (length line) ≤ need
    → IsPrompt need rs
    → Reads (suc fuel) len (suc left) total buf line rest (up_to (suc k) ∷ rs)
unfolding read_line_loop
last_round fuel len left k need total buf line rest rs o long en h =
    let text = line ++ 10 ∷ rest in
    let ret = amount (suc k) (suc left) text in
    let more : nat_beq ret 0 ≡ false = ground arith in
    let end : line_end (take ret text) ≡ some (suc (length line)) =
      line_end-long ret line rest o long in
    let (rs', p, fewer, e) =
      readn-spare (suc (length line)) need 0 text rs
        (omega (arith, length-append {0} line (10 ∷ rest))) (omega arith) h in
    (rs', rw (more, end, e, take-line line rest, drop-line line rest) refl)

-- A round that sees a part of the line, and the rounds behind it.
inner_round :
    (fuel len left k need total : ℕ) (buf line rest : Text) (rs rs' : List Reply)
    → IsOneLine line
    → amount (suc k) (suc left) (line ++ 10 ∷ rest) ≤ length line
    → readn (amount (suc k) (suc left) (line ++ 10 ∷ rest)) (line ++ 10 ∷ rest) rs
      ≡ some (
        pos (amount (suc k) (suc left) (line ++ 10 ∷ rest)),
        (
          take (amount (suc k) (suc left) (line ++ 10 ∷ rest)) (line ++ 10 ∷ rest),
          (drop (amount (suc k) (suc left) (line ++ 10 ∷ rest)) (line ++ 10 ∷ rest), rs'),
        ),
      )
    → Reads fuel len
        (suc left - amount (suc k) (suc left) (line ++ 10 ∷ rest))
        (total + amount (suc k) (suc left) (line ++ 10 ∷ rest))
        (buf ++ take (amount (suc k) (suc left) (line ++ 10 ∷ rest)) line)
        (drop (amount (suc k) (suc left) (line ++ 10 ∷ rest)) line)
        rest
        rs'
    → Reads (suc fuel) len (suc left) total buf line rest (up_to (suc k) ∷ rs)
unfolding read_line_loop
inner_round fuel len left k need total buf line rest rs rs' o short e (final, h) =
    let text = line ++ 10 ∷ rest in
    let ret = amount (suc k) (suc left) text in
    let more : nat_beq ret 0 ≡ false = ground (arith, length-append {0} line (10 ∷ rest)) in
    let end : line_end (take ret text) ≡ none = line_end-short ret line rest o short in
    let z : total + ret + suc (length (drop ret line)) ≡ total + suc (length line) =
      omega (arith, length-drop ret line, short) in
    let b : (buf ++ take ret line) ++ ended (drop ret line) ≡ buf ++ ended line =
      append_append buf (take ret line) (ended (drop ret line))
      ∙ ap (◌++◌ buf) (take-drop_line ret line) in
    (
      final,
      rw
          (
            more,
            end,
            e,
            take-within ret line (10 ∷ rest) short,
            drop-within ret line (10 ∷ rest) short,
          )
          (h ∙ rw (z, b) refl),
    )

read_line_loop-IsPrompt :
    (fuel len left need total : ℕ) (buf line rest : Text) (rs : List Reply)
    → length rs < fuel
    → IsOneLine line
    → length line < left
    → 2 * suc (length line) ≤ need
    → IsPrompt need rs
    → Reads fuel len left total buf line rest rs
read_line_loop-IsPrompt zero len left need total buf line rest rs lf o ll en h =
    absurd (omega arith)
read_line_loop-IsPrompt (suc fuel) len zero need total buf line rest rs lf o ll en h =
    absurd (omega arith)
read_line_loop-IsPrompt (suc fuel) len (suc left) zero total buf line rest rs lf o ll en h =
    absurd (omega arith)
read_line_loop-IsPrompt (suc fuel) len (suc left) (suc need) total buf line rest [] lf o ll en h =
    absurd h
read_line_loop-IsPrompt (suc fuel) len (suc left) (suc need) total buf line rest (interrupted ∷ rs)
      lf o ll en h =
    interrupted_round fuel len left total buf line rest rs (
      read_line_loop-IsPrompt fuel len (suc left) (suc need) total buf line rest rs (omega arith) o
        ll en h)
read_line_loop-IsPrompt (suc fuel) len (suc left) (suc need) total buf line rest (failed ∷ rs) lf o
      ll en h =
    absurd h
read_line_loop-IsPrompt (suc fuel) len (suc left) (suc need) total buf line rest (up_to zero ∷ rs)
      lf o ll en h =
    absurd h
read_line_loop-IsPrompt (suc fuel) len (suc left) (suc need) total buf line rest
      (up_to (suc k) ∷ rs) lf o ll en h =
    let ret = amount (suc k) (suc left) (line ++ 10 ∷ rest) in
    elim (Bool-cases (ltb (length line) ret)) [
      | inl long ↦
          last_round fuel len left k need total buf line rest rs o (ltb→lt _ _ long) (omega arith) h
      | inr short ↦
          let le : ret ≤ length line = ground arith in
          let some_bytes : 0 < ret = omega (arith, length-append {0} line (10 ∷ rest)) in
          let (rs', p, fewer, e) =
            readn-spare ret need (2 * suc (length line - ret)) (line ++ 10 ∷ rest) rs
              (omega (arith, length-append {0} line (10 ∷ rest))) (omega arith) h in
          inner_round fuel len left k need total buf line rest rs rs' o le e (
            read_line_loop-IsPrompt fuel len (suc left - ret) (2 * suc (length line - ret))
              (total + ret) (buf ++ take ret line) (drop ret line) rest rs' (omega arith)
              (IsOneLine-drop ret line o) (omega (arith, length-drop ret line))
              (omega (arith, length-drop ret line)) p)
    ]

-- ReadLine returns the first line, with its line feed, and leaves what comes behind it.
pub read_line-IsPrompt :
    (len : ℕ) (line rest : Text) (rs : List Reply)
    → IsOneLine line
    → suc (length line) < len
    → IsPrompt (2 * suc (length line)) rs
    → (rs' : List Reply) × (read_line len (line ++ 10 ∷ rest) rs
        ≡ some (pos (suc (length line)), (ended line, (rest, rs'))))
unfolding read_line
read_line-IsPrompt len line rest rs o le h =
    let (rs', e) =
      read_line_loop-IsPrompt (suc (length rs)) len (len - 1) (2 * suc (length line)) 0 [] line rest
        rs (omega arith) o (omega arith) (omega arith) h in
    let z : 0 + suc (length line) ≡ suc (length line) = omega arith in
    (rs', e ∙ ap (λ (m : ℕ). some (pos m, (ended line, (rest, rs')))) z)
