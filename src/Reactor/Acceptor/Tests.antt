-- ===== src/Reactor/Acceptor/Tests.antt =====
-- A port that is taken.
use serach_engine.Base.{◌≡◌, refl, ◌⊎◌, inl, inr, false}
use serach_engine.Base.Int.{pos, negsuc}
use serach_engine.Reactor.Acceptor.{Answers, init, ready}
use serach_engine.Reactor.Acceptor.Ready.{AreAnswers, HasError, all_set, ready-result}

abbrev port_taken : Answers
port_taken = record {
  to_reuse_addr = pos 0;
  to_reuse_port = pos 0;
  to_bind = negsuc 0;
  to_listen = pos 0;
}

port_taken-AreAnswers : AreAnswers port_taken
port_taken-AreAnswers = record {
  reuse_addr = inl refl;
  reuse_port = inl refl;
  bind = inr refl;
  listen = inl refl;
}

ready-result_example :
    (((ready port_taken init).0 ≡ pos 0) × ((ready port_taken init).1 ≡ all_set))
    ⊎ (((ready port_taken init).0 ≡ negsuc 0)
        × ((ready port_taken init).1.listening ≡ false)
        × HasError port_taken)
ready-result_example = ready-result port_taken init port_taken-AreAnswers refl
