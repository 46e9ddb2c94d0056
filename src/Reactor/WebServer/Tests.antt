-- ===== src/Reactor/WebServer/Tests.antt =====
-- A request to the web server of src/include/reactor/web_server.h.
use serach_engine.Base.{ℕ, ◌≡◌, refl, Text, ok, List, [], ◌∷◌, some, text_eq, arith}
use serach_engine.Base.Int.{pos}
use serach_engine.Base.Maps.{find}
use serach_engine.Cache.Redis.Laws.{IsCoherent}
use serach_engine.Cache.Redis.Memory.{memory, memory-IsRedis}
use serach_engine.Reactor.SocketIo.{Reply, up_to, interrupted}
use serach_engine.Reactor.WebServer.Answers.{serve-answer}
use serach_engine.Reactor.WebServer.{serve}
use serach_engine.Web.Building.Sound.{fresh}
use serach_engine.Web.Counting.{counting}
use serach_engine.Web.Query.{no_answer}
use serach_engine.Web.Searcher.{do_query}
use serach_engine.Web.Query

abbrev cut : Text → List (Text × ℕ)
cut text = (text, 1) ∷ []

empty-IsCoherent : IsCoherent memory (do_query counting cut (fresh ℕ)) []
unfolding find
empty-IsCoherent k v h = cc

abbrev reads : List Reply
reads = up_to 1 ∷ interrupted ∷ up_to 9 ∷ up_to 9 ∷ up_to 9 ∷ []

abbrev writes : List Reply
writes =
    up_to 3
    ∷ up_to 3
    ∷ interrupted
    ∷ up_to 3
    ∷ up_to 3
    ∷ up_to 3
    ∷ up_to 3
    ∷ up_to 3
    ∷ up_to 3
    ∷ up_to 3
    ∷ up_to 3
    ∷ []

serve-answer_example :
    (t : List (Text × Text)) × (serve counting cut
        (fresh ℕ)
        memory
        (pos 60)
        (97 ∷ 10 ∷ [])
        reads
        writes
        []
      ≡ some (ok (no_answer, t)))
    × IsCoherent memory (do_query counting cut (fresh ℕ)) t
unfolding do_query Query.do_query Query.get_relative_pages Query.count_all find
serve-answer_example =
    serve-answer counting cut (fresh ℕ) memory 59 (97 ∷ []) [] no_answer reads writes []
      memory-IsRedis empty-IsCoherent (refl, refl, tt) (omega arith) tt refl tt
