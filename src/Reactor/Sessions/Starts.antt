-- ===== src/Reactor/Sessions/Starts.antt =====
-- A server of src/include/reactor/ that has just set its callbacks, and what its callbacks log.
use serach_engine.Base.{
  ◌≡◌, refl, Text, bytes, Outcome, ok, fault, List, [], Option, none, some, text_eq, same,
}
use serach_engine.Base.Int.{int_eq}
use serach_engine.Reactor.InetAddress.{Conversions}
use serach_engine.Reactor.Sessions.Servers.{
  print_line, add_message, web_on_connection, web_on_message, web_on_close, web_callbacks,
  key_on_connection, key_on_message, key_on_close, key_callbacks,
}
use serach_engine.Reactor.Sessions.{World, Callbacks, Sessions, call}
use serach_engine.Reactor.KeyServer as KeyServer
use serach_engine.Reactor.SocketIo.{Reply}
use serach_engine.Reactor.WebServer as WebServer
use serach_engine.Reactor.Sessions.Served.{OnReturn, IsLogging}

-- A server that has just started, before the first connection.
abbrev pub begun : Callbacks → Sessions
begun cbs = record {
  callbacks = cbs;
  conns = [];
  world = record { printed = []; logged = []; tasks = [] };
}

pub add_message-is_quiet :
    (o : Option (Outcome Text × (Text × List Reply))) (w : World)
    → OnReturn (λ t. t.logged ≡ w.logged) (add_message o w)
unfolding add_message print_line
add_message-is_quiet none w = tt
add_message-is_quiet (some (fault e, rest)) w = tt
add_message-is_quiet (some (ok msg, rest)) w = refl

pub web_callbacks-IsLogging :
    (c : Conversions)
    → IsLogging c (bytes "Connection message: {}") (bytes "Close message: {}") (web_callbacks c)
unfolding call web_callbacks web_on_connection web_on_message web_on_close same
web_callbacks-IsLogging c = record {
  differ = refl;
  differ_too = refl;
  opens = λ peer w. refl;
  closes = λ peer w. refl;
  is_quiet = λ peer w. add_message-is_quiet (WebServer.on_message peer.incoming peer.replies) w;
}

pub key_callbacks-IsLogging :
    (c : Conversions)
    → IsLogging c (bytes "connection message: {}") (bytes "close message: {}") (key_callbacks c)
unfolding call key_callbacks key_on_connection key_on_message key_on_close same
key_callbacks-IsLogging c = record {
  differ = refl;
  differ_too = refl;
  opens = λ peer w. refl;
  closes = λ peer w. refl;
  is_quiet = λ peer w. add_message-is_quiet (KeyServer.on_message peer.incoming peer.replies) w;
}
