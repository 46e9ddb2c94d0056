-- ===== src/Lib.antt =====
-- The search engine: keyword recommendation and web page search behind a reactor server.
--
-- The offline side builds data: `DictProducer` counts the words of the English text and of the
-- Chinese articles, makes an index from characters to lines and stores both; `PageLib` makes pages
-- of RSS items and stores them with their offsets; `PageLibPreprocessor` removes redundant pages
-- and counts words. The online side answers: `KeyRecommander` asks a `Dictionary`, loaded from the
-- stored files, for the lines that share characters with a key, and ranks them by edit distance;
-- `WebPageQuery` finds the pages that have every word of a query and ranks them by cosine. A
-- `TcpServer` accepts connections in its `EventLoop`, reads a line of each, and gives a task to the
-- `ThreadPool`, whose threads take tasks from a `TaskQueue`; a task looks in Redis first, and hands
-- its answer back to the loop as a functor. `LruCache` keeps recent answers.
--
-- Which file models which code:
--   Base, Base/*             lists, Boolean tests, `std::map`, `std::unordered_map` and `std::set`
--                            as lists, 32-bit integers, exceptions and undefined behaviour
--   Streams, Streams/*       `getline`, `>>` and `<<` of the standard streams
--   Cache/Lru                src/cache/lru_cache.cc
--   Cache/Redis              src/cache/redis.cc
--   Common/Configuration     src/common/configuration.cc, src/common/file.cc
--   Common/SplitTool         src/common/split_tool.cc
--   Common/DirScanner        src/common/dir_scanner.cc
--   Key/Dictionary           src/key/dictionary.cc
--   Key/DictProducer         src/key/dict_producer.cc
--   Key/MyTimer              src/key/mytimer.cc
--   Key/Recommander          src/key/key_recommander.cc, src/include/key/key_recommander.h
--   Reactor/Acceptor         src/reactor/acceptor.cc
--   Reactor/TcpServer        src/include/reactor/tcp_server.h
--   Reactor/EventLoop        src/reactor/event_loop.cc, the functors that threads hand over,
--                            and the two descriptors of the loop
--   Reactor/Connections      src/reactor/event_loop.cc, the map of connections and the epoll set
--   Reactor/TcpConnection    src/reactor/tcp_connection.cc
--   Reactor/Sessions         the callbacks of the servers: src/include/reactor/tcp_server.h,
--                            src/reactor/event_loop.cc, src/reactor/tcp_connection.cc
--   Reactor/InetAddress      src/reactor/inet_address.cc
--   Reactor/Socket           src/reactor/socket.cc
--   Reactor/MutexLock        src/reactor/mutex_lock.cc, src/reactor/condition.cc
--   Reactor/EchoServer       src/include/reactor/echo_server.h
--   Reactor/KeyServer        src/include/reactor/key_server.h
--   Reactor/WebServer        src/include/reactor/web_server.h
--   Reactor/Thread           src/reactor/thread.cc
--   Reactor/ThreadPool       src/reactor/thread_pool.cc
--   Reactor/TaskQueue        src/reactor/task_queue.cc
--   Reactor/SocketIo         src/reactor/socket_io.cc
--   Web/WebPage              src/web/web_page.cc
--   Web/RssParser            src/web/rss_parser.cc
--   Web/PageLib              src/web/page_lib.cc
--   Web/Preprocessor         src/web/page_lib_preprocessor.cc
--   Web/Building             src/web/page_lib_preprocessor.cc, Do
--   Web/InvertIndex          src/web/page_lib_preprocessor.cc, the inverted index
--   Web/Caculate, Web/Double src/web/caculate.cc, and the `double` that it is stated over
--   Web/Query                src/web/web_page_query.cc
--   Web/Searcher             src/web/web_page_searcher.cc
--   Web/Counting             the natural numbers as a `double`, for runs on examples
--
-- Functions keep their names in snake case (`AddRecord` is `add_record`), and a class is a record
-- of its members. A text is the list of its bytes. What an operation throws, or leaves undefined,
-- is a `fault` of its `Outcome`. A list iterator of `LruCache` is the address of its node. Threads
-- are a sequence of steps, each what one thread does while it has the mutex. The loop is modelled
-- twice: `EventLoop` interleaves it with the threads that hand functors over, `Connections` has
-- its batches of ready descriptors and who still holds a connection. `Sessions` has the callbacks
-- that the loop hands to its connections, and what they leave behind.
--
-- Loops over containers are recursion on the list, and loops over system calls recursion on the
-- replies that the kernel gives. Some loops run on fuel: the cut into characters and the letters
-- of a word have the length of the word, the removal of redundant pages the length of the page
-- list, and `ReadLine` one more than the replies; each round uses up at least one element. The
-- items of an RSS document are read on fuel, which has to be their number or more. The numbers
-- that are read from a file keep to the range of `int`; counters and sizes are natural numbers, as
-- 2 ^ 31 occurrences or 2 ^ 64 bytes do not come up.
--
-- A number that a page does not have yet is `none`, and to read it is undefined. A file that cannot
-- be opened gets nothing; a write to an open file is taken to succeed. What `epoll_ctl` refuses and
-- what a callback throws is in the events of the loop.
--
-- Not modelled: a hashed container is walked in the order of insertion, which the standard leaves
-- open; the segmenter, the keyword extractor, the similarity hash, the XML and the JSON library and
-- the Redis client are parameters, as the code of other projects, and so are the functions of pthread
-- and the conversions of addresses. `Start` of the echo server does not compile, and `GetPeerAddr` is
-- defined in no file: the address of the peer is an argument. The logger only hands its arguments
-- to its library; the servers' calls of it are kept as their format and argument.
pub mod Base
pub mod Cache
pub mod Common
pub mod Key
pub mod Reactor
pub mod Streams
pub mod Web
