-- ===== src/Lib.antt =====
-- A multi-threaded key-value server with transactions: its messages, its tables, the rounds of a
-- client connection, the threads of the server and the three client programs.
--
-- How the parts interact. A client sends a line, which `MessageSerialization::decode` turns into a
-- `Message`. The loop of `ClientConnection::chat_with_client` gives it to a handler, which works on
-- the connection's `ValueStack` and on the `Table`s that `Server` finds by name, and writes one
-- response that `MessageSerialization::encode` makes. Outside a transaction a handler holds the
-- mutex of its table while it works. In a transaction it takes the mutex with `trylock`, and keeps
-- it in `locked_tables` until COMMIT, a failed `trylock` or the end of the connection.
--
-- The files.
--   Prelude, Text, Map: Booleans, lists, integers, texts as lists of bytes, and `std::map` as an
--     association list with the find and the assignment of the source.
--   Exceptions (exceptions.h): the exception classes, and results of code that may throw.
--   Message (message.h, message.cpp): `MessageType`, `Message`, its accessors and `is_valid`.
--   Serialization (message_serialization.cpp): `encode` and `decode`. Tokens holds the lemmas on
--     words, RoundTrip, Canonical and Throws the laws.
--   Number: `std::stoi` and `std::to_string`, as the arithmetic handlers use them.
--   Table (table.h, table.cpp): committed and pending entries, and the mutex with its owner.
--   ValueStack (value_stack.h, value_stack.cpp), Server (server.h, server.cpp): the stack and the
--     tables by name; Server/Tables holds the laws of `create_table` and `find_table`, Server/Lifetime
--     the constructor, `listen` and the destructors, Server/Deletion the laws of the latter.
--   Connection (client_connection.h, guard.h): the state of a connection, and the actions that the
--     handlers are built from; Connection/Handlers and Connection/Chat (client_connection.cpp) are
--     the handlers and the loop. The other files below Connection are proofs: Invariant, Primitives,
--     Locking, Transactions, Creation and Safety on what a round keeps, Waiting, Prompt and Progress
--     on when it waits, Rounds, Stops, Endings, Arithmetic, Autocommit, Losses and Buffer on what
--     single requests do, Speaking and Answers on what a round writes, Orders on the loops over `locked_tables`.
--     Definedness and Defined are on the rounds that are undefined. Upkeep is an interface: what predicates on values,
--     tables, connections and names need so that every action keeps them, with the rules in
--     Upkeep/Rules and the handlers in Kept. Tidy fills it for the keys of the maps, Values for the
--     values and the answers.
--   Client and the files below it (get_value.cpp, set_value.cpp, incr_value.cpp): the client
--     programs over a peer that is a parameter; Client/Responses runs them against peers of one kind.
--   System (server.cpp): `server_loop` and `client_worker` as a step relation over all connections;
--     Invariant, Isolation, Liveness, Kept, Tables, Values and Names below it are on the states that
--     can be reached. System/Visits and the files below it: the steps that visit one table of a loop
--     at a time. System/Guards and the files below it (guard.h): the steps into and out of the block of
--     a Guard; Keeping, Leaving, Effective and Invariant are proofs on what such a step keeps.
--   Program (server_main.cpp): `main` up to the loop of the server.
--   Service and the files below it: the server as the peer of the client programs. Lines and Bare are
--     on the lines that arrive, Rounds, Transactions and Requests on what is served, Programs,
--     Increment and Conflict on the programs.
--   Database and the files below it: the server as its users see it, without pointers, mutexes and
--     exceptions. Database has the tables by name, each with its committed and its pending entries
--     and its owner, the clients, and what each request does, as one function. Abstraction gives the
--     database that a server stands for. Rounds says what it means that a round does what a request
--     does; Stack, Arithmetic, Transactions, Tables, Acquisition, Reads and Writes are on the single
--     requests, Refinement on all lines. Users has the clients of a database as a step relation, and
--     Simulation compares the threads of the server with it.
--   Database/Journal and the files below it: the accesses that clients make to tables, in a history
--     of what is committed and in drafts of the transactions that run. Replay is on accesses made one
--     after the other, Serial on what ties a journal to a database, Changes, Endings, Quiet,
--     Requests and Answers on single requests, Serializable and Running on the server, Noted on what
--     a request is answered.
--   Scenarios, Examples: concrete runs, and the theorems applied to them.
--
-- How state is modelled. A handler is a function from a `World`, the shared server and its own
-- connection, to an outcome and a new `World`. The outcome says whether it returned, threw, waits for
-- a mutex or did what C++ leaves undefined. A `Table*` is an index into the server's tables. A mutex
-- is the thread that owns it, if any. The order in which `std::set` gives the pointers of
-- `locked_tables` is left open by C++; here it is the order of insertion. A text is a list of bytes,
-- as `std::string` is. Numbers are natural numbers and integers without bound, and `in_range` is the
-- range of a 32-bit `int`. `isspace`, `isalpha` and `isalnum` are undefined in C++ on bytes from 128 on
-- where `char` is signed; in the model such a byte is in none of the classes.
--
-- Recursion is structural throughout but for the decimal digits of a number, which recurse on the
-- accessibility of `<`. No definition runs on fuel: `chat_with_client` recurses on the lines that it
-- is given.
--
-- Interleaving. A step of the system is one round of one connection, a connection that is accepted,
-- or one that hangs up. `create_table` and `find_table` run under the server's own mutex. A handler
-- works on one table at a time and holds its mutex, but for COMMIT and rollback, which run over
-- several tables: System/Visits has a second step relation, in which these loops visit one table at a
-- time, in any order, and other threads make steps in between. System/Guards has a third one, in
-- which a GET or SET outside a transaction takes the mutex of its table in one step, and does the block
-- of its Guard, leaves it and answers in another. In between, a `trylock` by another thread fails, and
-- a `lock` waits. The two finer relations are not combined: the loops are one step in the third one.
-- The database and the journal are compared with the steps of whole rounds. Where another thread is
-- served between two visits of a COMMIT, it can read what is committed in one table and be refused the
-- other, which no order of whole requests gives.
--
-- Not modelled: csapp.c, which is the copy of a library, beyond the lines that it reads, the texts
-- that it is given to write, the descriptors that it returns and the `accept` that fails at once; the
-- sockets, and the SIGPIPE that a second write after the end of the other side raises; the tests.
pub mod Prelude
pub mod Text
pub mod Map
pub mod Exceptions
pub mod Number
pub mod Table
pub mod ValueStack
pub mod Server
pub mod Connection
pub mod Client
pub mod Database
pub mod System
pub mod Program
pub mod Service
mod Scenarios
mod Examples
pub mod Message
pub mod Serialization
