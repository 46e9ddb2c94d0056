-- ===== src/Reactor/SocketIo/Tests.antt =====
-- Transfers of src/reactor/socket_io.cc over a socket that gives two bytes at once.
use serach_engine.Base.{◌≡◌, refl, List, [], ◌∷◌, some, arith}
use serach_engine.Base.Int.{pos, negsuc}
use serach_engine.Reactor.SocketIo.Bounds.{IsWithin, read_line-IsWithin}
use serach_engine.Reactor.SocketIo.Transfers.{writen-IsPrompt}
use serach_engine.Reactor.SocketIo.{
  Reply, interrupted, failed, up_to, readn_loop, readn, writen_loop, writen, read_line_loop,
  read_line, line_end,
}

abbrev replies : List Reply
replies = up_to 2 ∷ interrupted ∷ up_to 2 ∷ up_to 2 ∷ []

writen-IsPrompt_example :
    (rs : List Reply) × (writen (97 ∷ 98 ∷ 99 ∷ []) replies ≡ some (pos 3, (97 ∷ 98 ∷ 99 ∷ [], rs)))
writen-IsPrompt_example = writen-IsPrompt (97 ∷ 98 ∷ 99 ∷ []) replies tt

-- A failed `write` gives one more than the length.
writen_failed : writen (97 ∷ 98 ∷ []) (failed ∷ []) ≡ some (pos 3, ([], []))
unfolding writen writen_loop
writen_failed = refl

-- A line that comes in two parts.
read_line_parts :
    read_line 10 (97 ∷ 98 ∷ 10 ∷ 99 ∷ []) (up_to 2 ∷ up_to 2 ∷ up_to 2 ∷ up_to 2 ∷ [])
    ≡ some (pos 3, (97 ∷ 98 ∷ 10 ∷ [], (99 ∷ [], [])))
unfolding read_line read_line_loop readn readn_loop line_end
read_line_parts = refl

-- The peer closes behind one byte: the result is negative.
read_line_closed :
    read_line 10 (97 ∷ []) (up_to 2 ∷ up_to 2 ∷ up_to 2 ∷ []) ≡ some (negsuc 6, (97 ∷ [], ([], [])))
unfolding read_line read_line_loop readn readn_loop line_end
read_line_closed = refl

read_line-IsWithin_example : IsWithin 3 (read_line 3 (97 ∷ 98 ∷ 10 ∷ []) replies)
read_line-IsWithin_example = read_line-IsWithin 3 (97 ∷ 98 ∷ 10 ∷ []) replies (omega arith)
