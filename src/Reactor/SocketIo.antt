-- ===== src/Reactor/SocketIo.antt =====
-- `SocketIO` of src/reactor/socket_io.cc. What the peer sends and how the kernel cuts it up are
-- inputs: a list of replies, of which each system call takes one. A call that finds none waits,
-- and the function has no result yet.
pub mod Bounds
pub mod Lines
pub mod Transfers
mod Tests
use serach_engine.Base.{
  ℕ, zero, suc, ◌+◌, ◌-◌, min, Text, Bool, List, [], ◌∷◌, ◌++◌, Option, none, some, length, take,
  drop, if◌then◌else◌, nat_beq,
}
use serach_engine.Base.Int.{ℤ, pos, negsuc, sub_ℕ}

-- What a system call meets: `EINTR`, another error, or at most so many bytes at once.
pub data Reply : Type 0 where
  interrupted failed : Reply
  up_to : ℕ → Reply

-- The result, the bytes in the buffer, the bytes that are still to come, and the replies.
abbrev pub Transfer : Type 0
Transfer = Option (ℤ × (Text × (Text × List Reply)))

-- What `read` gives of the bytes to come: no more than the kernel offers and the caller asks.
abbrev pub amount : ℕ → ℕ → Text → ℕ
amount n left incoming = min n (min left (length incoming))

-- The loop of `SocketIO::Readn`, with `left` bytes of `len` still to read.
unfoldable pub readn_loop : ℕ → ℕ → Text → Text → List Reply → Transfer
readn_loop len zero buf incoming rs = some (pos len, (buf, (incoming, rs)))
readn_loop len (suc left) buf incoming [] = none
readn_loop len (suc left) buf incoming (interrupted ∷ rs) =
    readn_loop len (suc left) buf incoming rs
readn_loop len (suc left) buf incoming (failed ∷ rs) = some (negsuc 0, (buf, (incoming, rs)))
readn_loop len (suc left) buf incoming (up_to n ∷ rs) =
    let ret = amount n (suc left) incoming in
    let rest = readn_loop len (suc left - ret) (buf ++ take ret incoming) (drop ret incoming) rs in
    if nat_beq ret 0 then some (pos (len - suc left), (buf, (incoming, rs))) else rest

-- `SocketIO::Readn`.
unfoldable pub readn : ℕ → Text → List Reply → Transfer
unfolding readn_loop
readn len incoming rs = readn_loop len len [] incoming rs

-- The loop of `SocketIO::Writen`, with `text` still to write: the bytes that were sent.
unfoldable pub writen_loop : ℕ → Text → Text → List Reply → Option (ℤ × (Text × List Reply))
writen_loop len [] sent rs = some (pos len, (sent, rs))
writen_loop len (c ∷ text) sent [] = none
writen_loop len (c ∷ text) sent (interrupted ∷ rs) = writen_loop len (c ∷ text) sent rs
writen_loop len (c ∷ text) sent (failed ∷ rs) = some (pos (suc len), (sent, rs))
writen_loop len (c ∷ text) sent (up_to n ∷ rs) =
    let ret = min n (length (c ∷ text)) in
    let rest = writen_loop len (drop ret (c ∷ text)) (sent ++ take ret (c ∷ text)) rs in
    if nat_beq ret 0 then some (pos (len - length (c ∷ text)), (sent, rs)) else rest

-- `SocketIO::Writen`: an error is `len - ret` with `ret` at -1.
unfoldable pub writen : Text → List Reply → Option (ℤ × (Text × List Reply))
unfolding writen_loop
writen text rs = writen_loop (length text) text [] rs

-- The place behind the first line feed.
unfoldable pub line_end : Text → Option ℕ
line_end [] = none
line_end (c ∷ s) =
    if nat_beq c 10 then some 1 else elim (line_end s) [ none ↦ none | some n ↦ some (suc n) ]

-- The loop of `SocketIO::ReadLine`, on fuel; `MSG_PEEK` fills the buffer and leaves the bytes
-- where they are; the result of the inner `Readn` is not looked at.
unfoldable pub read_line_loop : ℕ → ℕ → ℕ → ℕ → Text → Text → List Reply → Transfer
unfolding readn line_end
read_line_loop zero len left total buf incoming rs = none
read_line_loop (suc fuel) len zero total buf incoming rs = some (pos total, (buf, (incoming, rs)))
read_line_loop (suc fuel) len (suc left) total buf incoming [] = none
read_line_loop (suc fuel) len (suc left) total buf incoming (interrupted ∷ rs) =
    read_line_loop fuel len (suc left) total buf incoming rs
read_line_loop (suc fuel) len (suc left) total buf incoming (failed ∷ rs) =
    some (pos (suc len), (buf, (incoming, rs)))
read_line_loop (suc fuel) len (suc left) total buf incoming (up_to n ∷ rs) =
    let ret = amount n (suc left) incoming in
    if nat_beq ret 0
    then some (sub_ℕ total (suc left), (buf, (incoming, rs)))
    else elim (line_end (take ret incoming)) [
      | some sz ↦ elim (readn sz incoming rs) [
        | none ↦ none
        | some (r, (line, (rest, rs'))) ↦
            some (pos (total + sz), (buf ++ take sz incoming, (rest, rs')))
      ]
      | none ↦ elim (readn ret incoming rs) [
        | none ↦ none
        | some (r, (part, (rest, rs'))) ↦
            read_line_loop fuel len (suc left - ret) (total + ret) (buf ++ take ret incoming) rest
              rs'
      ]
    ]

-- `SocketIO::ReadLine`: each round uses up a reply.
unfoldable pub read_line : ℕ → Text → List Reply → Transfer
unfolding read_line_loop
read_line len incoming rs = read_line_loop (suc (length rs)) len (len - 1) 0 [] incoming rs
