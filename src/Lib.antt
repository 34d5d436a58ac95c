-- ===== src/Lib.antt =====
-- The server of a chat client: a program on libevent that takes JSON commands in binary frames from
-- clients, hands them to worker threads by connection, checks a log-in against MySQL, encrypts with keys
-- that it exchanges, and starts shell clients for its users.
--
-- How the parts interact: the event loop (src/event) reads the sockets and gives the bytes to the server
-- (src/yymm_svr), which puts them into a worker's queue (include/util.h). The worker parses frames
-- (src/yymm_svr/jsonprotocol.h, include/yyssl.h), changes the account data in two maps
-- (include/event_hash.h) and answers through the queues of the event loop (src/event/lockqueuemap.h),
-- whose thread a socket pair wakes. Bytes travel in fastbuffers (include/fastbuffer.h).
--
-- The files: Prelude holds shared names, lists and keys. StateMap is include/event_hash.h, Queues the two
-- queues of src/event and the two worker classes of include/util.h, FastBuffer and MemStuff the headers of
-- these names, Yyssl include/yyssl.h with a module for each cipher over the block loops of Yyssl/Blocks,
-- Json the printers of include/yyjson.h and what json-c's accessors do, Protocol
-- src/yymm_svr/jsonprotocol.h, Event src/event/yylibevent.cpp and event_msgqueue.h, Server
-- src/yymm_svr/cmdproc.cpp and mmsexecmag.cpp, with the threads of src/yymm_svr/yymms_svr.cpp as a step
-- relation in Server/Boss, what a worker does with a buffer and what becomes of a connection that ends in
-- Server/Close, and the account data between buffers in Server/Accounts; Server/System puts the threads
-- and the account data together. Server/Process/Handshake is the exchange of keys at a log-in,
-- Server/Answers the way of what a handler sends through the event loop, Server/Startup
-- src/yymm_svr/main.cpp with MmsServer::init. Event/Run takes the handlers and the senders as actions, one
-- after the other, with what send answers for each message of the socket pair; Server/Boss/Asserts is
-- about the asserts of the workers. Logger is include/logger.h, Redis src/redis/yyredis.h, Mysql
-- src/mysql/yylibmysql.cpp, Mysqlpp src/mysql/yylibmysqlpp.cpp, Cfg src/yymm_svr/cfg.cpp. Operations keep
-- the names of the functions, in lower case, and take and return the object's state.
--
-- Bounds: size_t has 64 bits, its arithmetic wraps in FastBuffer and MemStuff; WORD is a signed 16-bit
-- number. The block loops run on fuel, one more than the length of the input, which is enough since every
-- block takes at least one byte. The loops of JsonProcess and of process_mms_exec_data run on fuel, and
-- JsonProcess also on fuel for the jumps to NextRun; out of fuel is a result of its own. For a connection
-- with account data the size of the buffer bounds both, since each wrapping makes the text shorter. The
-- loop of AsyncSendCommand runs on fuel, two more than the text has bytes. The number of worker threads is
-- positive. A worker's turn at a buffer is one step on the account data: buffers of one connection never
-- meet, and each of the two maps is locked by its operations.
--
-- Parameters: OpenSSL, json-c's parser, tinyxml2, realloc, and what libevent, hiredis, the MySQL clients
-- and the sockets answer. The laws that the theorems use of them are records or predicates: Realloc,
-- AesLaws, AesSizes, EvpLaws, Inverse, IsBounded, ParsesAs.
--
-- Not modelled: what the log messages say, include/yytickout.h, pthread_create and pthread_join, the
-- adapter between hiredis and libevent, the test client, the generated message numbers, and the copies of
-- other projects' libraries.
pub mod Prelude
pub mod StateMap
pub mod Queues
pub mod FastBuffer
pub mod MemStuff
pub mod Yyssl
pub mod Json
pub mod Logger
pub mod Protocol
pub mod Cfg
pub mod Event
pub mod Server
pub mod Redis
pub mod Mysql
pub mod Mysqlpp
mod Tests
