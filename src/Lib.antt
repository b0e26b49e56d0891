-- ===== src/Lib.antt =====
-- The server of the C8005 assignment: an echo server with a part for `epoll`, one for `select` and one
-- for threads, and the modules that they share. Paths are those of the repository.
--
-- - src/common/protocol.c: Protocol, with `read_data` and `send_data` over a kernel that is a
--   parameter (Os). Os/Stream says what the theorems rely on of a TCP socket.
-- - src/util/vector.c, src/util/ring_buffer.c, src/util/log.c: Util/Vector, Util/RingBuffer and
--   Util/Log. A pointer into a vector is the index of an item. The ring is a step relation, with one
--   atomic access or one `memcpy` for each step; Util/RingBuffer/Queue has whole calls, one after
--   another, and the bounded queue.
-- - src/server/acceptor.c and the flags of src/server/server.c: Server/Acceptor and Server/Signals.
-- - the loop of `handle_request`, which src/server/epoll_server.c and src/server/select_server.c have
--   word for word: Server/Request, one function for each part of a round.
-- - src/server/epoll_server.c: Server/Epoll. The event loop calls `accept_client`, `add_client` and
--   `handle_request`, which calls the loop of Server/Request, `log_msg` and the kernel. Table, Accepting
--   and Loop carry the books and the table of descriptors over it, and Round is about one round with
--   several clients.
-- - src/server/select_server.c: Server/Select, on the same loop. `select` is asked about the slots
--   that hold a socket; each that is ready goes to `handle_request`. Table, Accepting and Loop are as
--   for Server/Epoll.
-- - src/server/thread_server.c: Server/Thread is what a worker does for one client, Server/Thread/Pool
--   the accepting thread with the list of workers, as if it ran alone, and Server/Thread/Handshake the
--   accesses of all threads to `busy`, `client` and `done`, one at a time and in any order. There the
--   acceptor that uses what a worker has freed is a fault; Server/Thread/Pool takes the addresses that
--   `malloc` gives to rise, and the workers not to have ended.
-- - src/server/server.c: Server/Serve, over a record of the operations of a `server_t`,
--   which the three servers fill in Server/Serve/Servers.
-- - Server/Descriptors: what the two loops rely on of the kernel's table of open descriptors. There no
--   write of the log fails, since the log would then close its descriptor and go on to use it.
-- - src/server/main.c: Server/Main, the options and what `main` does with them.
-- - src/client/main.c: Client, the parts of one connection and the string that it sends,
--   Client/Options, what `main` reads, and Client/Threads, the loop of a thread and `start_client`.
--
-- Code that fails gives `none`, `false` or -1 as a value; an access out of bounds is a `fault` and a
-- loop that runs out of fuel a `timeout` (Base/Outcome). Loops that the code bounds have the fuel
-- from the data: `read_data` and `send_data` make at most one round for each byte. The loop of
-- `handle_request` takes two rounds for each message and one more, the wait of the log one round more
-- than the kernel needs, and the event loop has no bound of its own.
--
-- Not modelled: what is printed, the formatting of a line of the log (a parameter), `free` of single
-- blocks, and the `sigaction` calls. A client's threads share only the file for the results and are
-- modelled one by one. A pthread function is a parameter that may give -1, which is what the server
-- tests for. The client's counts that are an `int` are 32-bit patterns, and a counter that would go
-- over `INT_MAX` is a fault.
pub mod Base
pub mod Os
pub mod Protocol
pub mod Util
pub mod Server
pub mod Client
mod Tests
