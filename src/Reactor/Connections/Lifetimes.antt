-- ===== src/Reactor/Connections/Lifetimes.antt =====
-- What the tasks of src/reactor/tcp_connection.cc hand over to the loop of
-- src/reactor/event_loop.cc, as long as no client closes.
