-- ===== src/Reactor/KeyServer/Tests.antt =====
-- Requests to the servers of src/include/reactor/key_server.h and src/include/reactor/web_server.h.
use serach_engine.Base.{ok, List, [], ◌∷◌, ◌≡◌, refl, text_eq}
use serach_engine.Base.Int.{pos, int_beq}
use serach_engine.Base.Maps.{find, put, place}
use serach_engine.Base.Sets.{add, contains}
use serach_engine.Cache.Redis.Memory.{memory, memory-IsRedis}
use serach_engine.Cache.Redis.{do_query, add_data}
use serach_engine.Key.Dictionary.{char_len, first_byte}
use serach_engine.Key.Dictionary
use serach_engine.Key.Recommander.{
  KeyRecommander, query, query_en, get_string, drain, take_top, print_words,
}
use serach_engine.Reactor.KeyServer.Repeats.{process-again}
use serach_engine.Reactor.KeyServer.{render, process}
use serach_engine.Reactor.SocketIo.{Reply, up_to, interrupted}

abbrev replies : List Reply
replies = up_to 1 ∷ interrupted ∷ up_to 2 ∷ up_to 2 ∷ up_to 2 ∷ up_to 2 ∷ up_to 2 ∷ []

abbrev idle : KeyRecommander
idle = record {
  prique = [];
  dictionary = record { dict_en = []; dict_zh = []; index_en = []; index_zh = [] };
  sought = [];
  resultvec = [];
}

abbrev asked : KeyRecommander
asked = record idle {
  dictionary = (Dictionary.do_query idle.dictionary (97 ∷ [])).0;
  sought = 97 ∷ [];
}

asked-run : process memory (pos 1) (97 ∷ []) idle [] ≡ ok (asked, (97 ∷ [], render []) ∷ [])
unfolding process do_query add_data query query_en Dictionary.do_query Dictionary.count_lines
    Dictionary.count_char Dictionary.bump_all Dictionary.touch_key Dictionary.lines_of char_len
    first_byte int_beq find put place get_string Dictionary.chars_of add contains drain take_top
    print_words
asked-run = refl

process-again_example :
    (t : memory.Database) × (process memory (pos 1) (97 ∷ []) asked ((97 ∷ [], render []) ∷ [])
      ≡ ok (asked, t))
process-again_example =
    process-again memory memory-IsRedis 0 (97 ∷ []) idle asked [] ((97 ∷ [], render []) ∷ [])
      asked-run
