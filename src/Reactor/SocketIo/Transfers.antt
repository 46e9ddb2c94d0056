-- ===== src/Reactor/SocketIo/Transfers.antt =====
-- `Readn` and `Writen` of src/reactor/socket_io.cc, when the kernel keeps up.
use serach_engine.Base.{
  ℕ, zero, suc, ◌+◌, ◌-◌, ◌≤◌, ◌≡◌, refl, ap, sym, ◌∙◌, min, Text, false, true, List, [], ◌∷◌, ◌++◌,
  some, length, take, drop, nat_beq, arith, take-nil, drop-nil, length-drop, take-append-drop,
}
use mathlib.Core.List.{append-nil}
use serach_engine.Base.Int.{pos}
use serach_engine.Reactor.SocketIo.{
  Reply, interrupted, failed, up_to, amount, readn_loop, readn, writen_loop, writen,
}

-- The first `n` calls that are not interrupted go well, with one byte or more at once.
abbrev pub IsPrompt : ℕ → List Reply → Type 0
IsPrompt zero rs = Unit {0}
IsPrompt (suc n) [] = ⊥
IsPrompt (suc n) (interrupted ∷ rs) = IsPrompt (suc n) rs
IsPrompt (suc n) (failed ∷ rs) = ⊥
IsPrompt (suc n) (up_to zero ∷ rs) = ⊥
IsPrompt (suc n) (up_to (suc k) ∷ rs) = IsPrompt n rs

pub IsPrompt-le : (m n : ℕ) (rs : List Reply) → m ≤ n → IsPrompt n rs → IsPrompt m rs
IsPrompt-le zero n rs le h = tt
IsPrompt-le (suc m) zero rs le h = absurd (omega arith)
IsPrompt-le (suc m) (suc n) [] le h = h
IsPrompt-le (suc m) (suc n) (interrupted ∷ rs) le h = IsPrompt-le (suc m) (suc n) rs le h
IsPrompt-le (suc m) (suc n) (failed ∷ rs) le h = h
IsPrompt-le (suc m) (suc n) (up_to zero ∷ rs) le h = h
IsPrompt-le (suc m) (suc n) (up_to (suc k) ∷ rs) le h = IsPrompt-le m n rs (omega arith) h

pub append_append {ℓ} : {A : Type ℓ} (xs ys zs : List A) → (xs ++ ys) ++ zs ≡ xs ++ (ys ++ zs)
append_append [] ys zs = refl
append_append (x ∷ xs) ys zs = ap (◌∷◌ x) (append_append xs ys zs)

-- A list taken in two parts.
take-take-drop {ℓ} :
    {A : Type ℓ} (m n : ℕ) (xs : List A) → m ≤ n → take m xs ++ take (n - m) (drop m xs) ≡ take n xs
take-take-drop zero n xs h = ap (λ k. take k xs) (omega arith)
take-take-drop (suc m) zero xs h = absurd (omega arith)
take-take-drop (suc m) (suc n) [] h = take-nil (suc n - suc m)
take-take-drop (suc m) (suc n) (x ∷ xs) h =
    let e : suc n - suc m ≡ n - m = omega arith in
    rw e (ap (◌∷◌ x) (take-take-drop m n xs (omega arith)))

drop-drop {ℓ} : {A : Type ℓ} (m n : ℕ) (xs : List A) → m ≤ n → drop (n - m) (drop m xs) ≡ drop n xs
drop-drop zero n xs h = ap (λ k. drop k xs) (omega arith)
drop-drop (suc m) zero xs h = absurd (omega arith)
drop-drop (suc m) (suc n) [] h = drop-nil (suc n - suc m)
drop-drop (suc m) (suc n) (x ∷ xs) h =
    let e : suc n - suc m ≡ n - m = omega arith in rw e (drop-drop m n xs (omega arith))

-- What the loop returns; of the good replies, as many as it needs not are left.
pub readn_loop-IsPrompt :
    (len left n spare : ℕ) (buf incoming : Text) (rs : List Reply)
    → left ≤ len
    → left + spare ≤ n
    → IsPrompt n rs
    → (rs' : List Reply) × IsPrompt spare rs'
      × (length rs' ≤ length rs)
      × (readn_loop len left buf incoming rs
          ≡ some (
            pos (len - left + min left (length incoming)),
            (buf ++ take left incoming, (drop left incoming, rs')),
          ))
unfolding readn_loop
readn_loop-IsPrompt len zero n spare buf incoming rs le en h =
    let e : len - 0 + min 0 (length incoming) ≡ len = omega arith in
    (rs, IsPrompt-le spare n rs (omega arith) h, omega arith, rw (e, append-nil buf) refl)
readn_loop-IsPrompt len (suc left) zero spare buf incoming rs le en h = absurd (omega arith)
readn_loop-IsPrompt len (suc left) (suc n) spare buf incoming [] le en h = absurd h
readn_loop-IsPrompt len (suc left) (suc n) spare buf incoming (interrupted ∷ rs) le en h =
    let (rs', p, fewer, e) =
      readn_loop-IsPrompt len (suc left) (suc n) spare buf incoming rs le en h in
    (rs', p, omega arith, e)
readn_loop-IsPrompt len (suc left) (suc n) spare buf incoming (failed ∷ rs) le en h = absurd h
readn_loop-IsPrompt len (suc left) (suc n) spare buf incoming (up_to zero ∷ rs) le en h = absurd h
readn_loop-IsPrompt len (suc left) (suc n) spare buf [] (up_to (suc k) ∷ rs) le en h =
    let e : len - suc left + min (suc left) 0 ≡ len - suc left = omega arith in
    let stop : nat_beq (amount (suc k) (suc left) []) 0 ≡ true = ground arith in
    (rs, IsPrompt-le spare n rs (omega arith) h, omega arith, rw (e, append-nil buf, stop) refl)
readn_loop-IsPrompt len (suc left) (suc n) spare buf (c ∷ incoming) (up_to (suc k) ∷ rs) le en h =
    let text = c ∷ incoming in
    let ret = amount (suc k) (suc left) text in
    let more : nat_beq ret 0 ≡ false = ground arith in
    let (rs', p, fewer, e) =
      readn_loop-IsPrompt len (suc left - ret) n spare (buf ++ take ret text) (drop ret text) rs
        (omega arith) (omega arith) h in
    let z : len - (suc left - ret) + min (suc left - ret) (length (drop ret text))
        ≡ len - suc left + min (suc left) (length text) =
      omega (arith, length-drop ret text, le) in
    let b : (buf ++ take ret text) ++ take (suc left - ret) (drop ret text)
        ≡ buf ++ take (suc left) text =
      append_append buf _ _ ∙ ap (◌++◌ buf) (take-take-drop ret (suc left) text (omega arith)) in
    let d : drop (suc left - ret) (drop ret text) ≡ drop (suc left) text =
      drop-drop ret (suc left) text (omega arith) in
    (rs', p, omega arith, rw (more, sym z, sym b, sym d) e)

-- When the first len calls of read that are not interrupted give a byte or more while there are
-- any, Readn returns: the result is the smaller of len and the number of bytes that come, the
-- buffer has those bytes in order, and the bytes behind them are still to come.
pub readn-IsPrompt :
    (len : ℕ) (incoming : Text) (rs : List Reply)
    → IsPrompt len rs
    → (rs' : List Reply) × (readn len incoming rs
        ≡ some (pos (min len (length incoming)), (take len incoming, (drop len incoming, rs'))))
unfolding readn
readn-IsPrompt len incoming rs h =
    let (rs', p, fewer, e) =
      readn_loop-IsPrompt len len len 0 [] incoming rs (omega arith) (omega arith) h in
    let n : min len (length incoming) ≡ len - len + min len (length incoming) = omega arith in
    (rs', rw n e)

writen_loop-IsPrompt :
    (len : ℕ) (text sent : Text) (rs : List Reply)
    → IsPrompt (length text) rs
    → (rs' : List Reply) × (writen_loop len text sent rs ≡ some (pos len, (sent ++ text, rs')))
unfolding writen_loop
writen_loop-IsPrompt len [] sent rs h = (rs, rw (append-nil sent) refl)
writen_loop-IsPrompt len (c ∷ text) sent [] h = absurd h
writen_loop-IsPrompt len (c ∷ text) sent (interrupted ∷ rs) h =
    writen_loop-IsPrompt len (c ∷ text) sent rs h
writen_loop-IsPrompt len (c ∷ text) sent (failed ∷ rs) h = absurd h
writen_loop-IsPrompt len (c ∷ text) sent (up_to zero ∷ rs) h = absurd h
writen_loop-IsPrompt len (c ∷ text) sent (up_to (suc k) ∷ rs) h =
    let ret = min (suc k) (length (c ∷ text)) in
    let more : nat_beq ret 0 ≡ false = ground arith in
    let (rs', e) = writen_loop-IsPrompt len (drop ret (c ∷ text)) (sent ++ take ret (c ∷ text)) rs (
      IsPrompt-le (length (drop ret (c ∷ text))) (length text) rs
        (omega (arith, length-drop ret (c ∷ text))) h) in
    let all : (sent ++ take ret (c ∷ text)) ++ drop ret (c ∷ text) ≡ sent ++ c ∷ text =
      append_append sent _ _ ∙ ap (◌++◌ sent) (take-append-drop ret (c ∷ text)) in
    (rs', rw (more, sym all) e)

-- When as many calls of write as the text has bytes, interrupted ones aside, take a byte or more,
-- Writen returns the length of the text and has sent the whole text in order.
pub writen-IsPrompt :
    (text : Text) (rs : List Reply)
    → IsPrompt (length text) rs
    → (rs' : List Reply) × (writen text rs ≡ some (pos (length text), (text, rs')))
unfolding writen
writen-IsPrompt text rs h = writen_loop-IsPrompt (length text) text [] rs h
