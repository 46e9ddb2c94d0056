-- ===== src/Reactor/SocketIo/Bounds.antt =====
-- The buffer and the rounds of `ReadLine` of src/reactor/socket_io.cc, whatever the kernel replies.
use mathlib.Core.Path.{subst}
use serach_engine.Base.{
  ℕ, zero, suc, ◌+◌, ◌-◌, ◌≤◌, ◌<◌, ◌≡◌, refl, ap, ◌∙◌, Text, List, [], ◌∷◌, ◌++◌, none, some,
  length, take, drop, nat_beq, arith, Bool-cases, Option-cases, inl, inr, length-append,
  length-take,
}
use serach_engine.Reactor.SocketIo.{
  Reply, interrupted, failed, up_to, Transfer, amount, readn, readn_loop, line_end, read_line_loop,
  read_line,
}

-- What is in the buffer leaves room for the closing zero.
abbrev pub IsWithin : ℕ → Transfer → Type 0
IsWithin len none = Unit {0}
IsWithin len (some (r, (buf, rest))) = length buf < len

-- No more replies are left than there were.
abbrev IsUsed : List Reply → Transfer → Type 0
IsUsed rs none = Unit {0}
IsUsed rs (some (r, (buf, (incoming, rs')))) = length rs' ≤ length rs

IsUsed-more : (r : Reply) (rs : List Reply) (t : Transfer) → IsUsed rs t → IsUsed (r ∷ rs) t
IsUsed-more r rs none h = tt
IsUsed-more r rs (some (n, (buf, (incoming, rs')))) h = omega arith

readn_loop-IsUsed :
    (len left : ℕ) (buf incoming : Text) (rs : List Reply)
    → IsUsed rs (readn_loop len left buf incoming rs)
unfolding readn_loop
readn_loop-IsUsed len zero buf incoming rs = omega arith
readn_loop-IsUsed len (suc left) buf incoming [] = tt
readn_loop-IsUsed len (suc left) buf incoming (interrupted ∷ rs) =
    IsUsed-more interrupted rs _ (readn_loop-IsUsed len (suc left) buf incoming rs)
readn_loop-IsUsed len (suc left) buf incoming (failed ∷ rs) = omega arith
readn_loop-IsUsed len (suc left) buf incoming (up_to n ∷ rs) =
    elim (Bool-cases (nat_beq (amount n (suc left) incoming) 0)) [
      | inl end ↦ rw (end, readn_loop) (omega arith)
      | inr more ↦
          rw (more, readn_loop)
            (IsUsed-more (up_to n) rs _ (
              readn_loop-IsUsed len (suc left - amount n (suc left) incoming)
                (buf ++ take (amount n (suc left) incoming) incoming)
                (drop (amount n (suc left) incoming) incoming) rs))
    ]

readn-IsUsed : (n : ℕ) (incoming : Text) (rs : List Reply) → IsUsed rs (readn n incoming rs)
unfolding readn
readn-IsUsed n incoming rs = readn_loop-IsUsed n n [] incoming rs

line_end-length : (s : Text) (sz : ℕ) → line_end s ≡ some sz → sz ≤ length s
unfolding line_end
line_end-length [] sz h = cc
line_end-length (c ∷ s) sz h = elim (Bool-cases (nat_beq c 10)) [
  | inl e ↦ let one : some 1 ≡ some sz = rw (e, line_end) at h in ground arith
  | inr e ↦ elim (Option-cases (line_end s)) [
    | inl absent ↦ let n : none ≡ some sz = rw (e, absent, line_end) at h in cc
    | inr (k, found) ↦
        let n : some (suc k) ≡ some sz = rw (e, found, line_end) at h in
        ground (arith, line_end-length s k found)
  ]
]

-- One more round changes nothing once there are more rounds than replies.
read_line_loop-suc :
    (fuel len left total : ℕ) (buf incoming : Text) (rs : List Reply)
    → length rs < fuel
    → read_line_loop (suc fuel) len left total buf incoming rs
      ≡ read_line_loop fuel len left total buf incoming rs
unfolding read_line_loop
read_line_loop-suc zero len left total buf incoming rs h = absurd (omega arith)
read_line_loop-suc (suc fuel) len zero total buf incoming rs h = refl
read_line_loop-suc (suc fuel) len (suc left) total buf incoming [] h = refl
read_line_loop-suc (suc fuel) len (suc left) total buf incoming (interrupted ∷ rs) h =
    read_line_loop-suc fuel len (suc left) total buf incoming rs (omega arith)
read_line_loop-suc (suc fuel) len (suc left) total buf incoming (failed ∷ rs) h = refl
read_line_loop-suc (suc fuel) len (suc left) total buf incoming (up_to n ∷ rs) h =
    let ret = amount n (suc left) incoming in
    elim (Bool-cases (nat_beq ret 0)) [
      | inl end ↦ rw (end, read_line_loop) refl
      | inr more ↦ elim (Option-cases (line_end (take ret incoming))) [
        | inr (sz, found) ↦ rw (more, found, read_line_loop) refl
        | inl absent ↦ elim (Option-cases (readn ret incoming rs)) [
          | inl waits ↦ rw (more, absent, waits, read_line_loop) refl
          | inr (got, e) ↦
              let used : length got.1.1.1 ≤ length rs =
                subst (IsUsed rs) e (readn-IsUsed ret incoming rs) in
              rw (more, absent, e, read_line_loop)
                (read_line_loop-suc fuel len (suc left - ret) (total + ret)
                  (buf ++ take ret incoming) got.1.1.0 got.1.1.1 (omega arith))
        ]
      ]
    ]

-- The loop of ReadLine needs no more rounds than one more than the replies of the kernel: with any
-- number of further rounds the result is the same.
pub read_line-more_rounds :
    (k len : ℕ) (incoming : Text) (rs : List Reply)
    → read_line_loop (suc (length rs) + k) len (len - 1) 0 [] incoming rs
      ≡ read_line len incoming rs
unfolding read_line
read_line-more_rounds zero len incoming rs =
    let e : suc (length rs) + 0 ≡ suc (length rs) = omega arith in
    ap (λ fuel. read_line_loop fuel len (len - 1) 0 [] incoming rs) e
read_line-more_rounds (suc k) len incoming rs =
    let e : suc (length rs) + suc k ≡ suc (suc (length rs) + k) = omega arith in
    ap (λ fuel. read_line_loop fuel len (len - 1) 0 [] incoming rs) e
    ∙ read_line_loop-suc (suc (length rs) + k) len (len - 1) 0 [] incoming rs (omega arith)
    ∙ read_line-more_rounds k len incoming rs

read_line_loop-IsWithin :
    (fuel len left total : ℕ) (buf incoming : Text) (rs : List Reply)
    → length buf + left < len
    → IsWithin len (read_line_loop fuel len left total buf incoming rs)
unfolding read_line_loop
read_line_loop-IsWithin zero len left total buf incoming rs h = tt
read_line_loop-IsWithin (suc fuel) len zero total buf incoming rs h = omega arith
read_line_loop-IsWithin (suc fuel) len (suc left) total buf incoming [] h = tt
read_line_loop-IsWithin (suc fuel) len (suc left) total buf incoming (interrupted ∷ rs) h =
    read_line_loop-IsWithin fuel len (suc left) total buf incoming rs h
read_line_loop-IsWithin (suc fuel) len (suc left) total buf incoming (failed ∷ rs) h = omega arith
read_line_loop-IsWithin (suc fuel) len (suc left) total buf incoming (up_to n ∷ rs) h =
    let ret = amount n (suc left) incoming in
    elim (Bool-cases (nat_beq ret 0)) [
      | inl end ↦ rw (end, read_line_loop) (omega arith)
      | inr more ↦ elim (Option-cases (line_end (take ret incoming))) [
        | inr (sz, found) ↦ elim (Option-cases (readn sz incoming rs)) [
          | inl waits ↦ rw (more, found, waits, read_line_loop) tt
          | inr (got, e) ↦
              rw (more, found, e, read_line_loop)
                (omega (
                  arith,
                  length-append buf (take sz incoming),
                  length-take sz incoming,
                  length-take ret incoming,
                  line_end-length (take ret incoming) sz found,
                ))
        ]
        | inl absent ↦ elim (Option-cases (readn ret incoming rs)) [
          | inl waits ↦ rw (more, absent, waits, read_line_loop) tt
          | inr (got, e) ↦
              rw (more, absent, e, read_line_loop)
                (read_line_loop-IsWithin fuel len (suc left - ret) (total + ret)
                  (buf ++ take ret incoming) got.1.1.0 got.1.1.1
                  (omega (arith, length-append buf (take ret incoming), length-take ret incoming)))
        ]
      ]
    ]

-- For a buffer of one byte or more, whatever comes and whatever the kernel replies, a ReadLine
-- that returns has put fewer bytes into the buffer than it has, so the closing zero fits.
pub read_line-IsWithin :
    (len : ℕ) (incoming : Text) (rs : List Reply)
    → 0 < len
    → IsWithin len (read_line len incoming rs)
unfolding read_line
read_line-IsWithin len incoming rs h =
    read_line_loop-IsWithin (suc (length rs)) len (len - 1) 0 [] incoming rs (omega arith)
