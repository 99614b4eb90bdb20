-- ===== src/Lib.antt =====
-- sails: a C++ base library for server-side development, with its network layer and servers built
-- on it. This library models the state of its components and what their operations do to it.
--
-- The parts and how they interact. A server thread (net/net_thread.h) runs an event loop
-- (base/event_loop.cc), which calls back when a descriptor is ready. The thread keeps its
-- connections (net/connector.cc) in a table by id (net/connector_list.cc), with a list of timeouts
-- that a timer checks. Other threads ask it for something by a command in its queue and a wake-up of
-- its event loop. The server (net/epoll_server.h) chooses the net thread and the handle thread
-- (net/handle_thread.h) of a connection by its descriptor. A connection has two buffers (base/buffer.h): what is read
-- from the descriptor, and what is still to be written. Between the threads, work goes through
-- bounded queues (base/thread_queue.h). The game server keeps its players in a table of pointers
-- by id (base/constant_ptr_list.h), and its rooms keep pointers to them
-- (example/gameserver/game_room.cc). The helpers on strings are in base/string.cc.
--
-- Files and code:
--   Base/PtrList        base/constant_ptr_list.h: ids, the free list, add, del, clear
--   Base/RwLocker       base/rw_locker.h: a lock for readers and writers
--   Base/ThreadQueue    base/thread_queue.h: waits, pops, pushes, swap
--   Base/Buffer         base/buffer.h: make_space, append, retrieve, words, strings, shrink
--   Base/EventLoop      base/event_loop.cc: the table of events by descriptor, and its growth
--   Base/Text           base/string.cc: bounded copies, searches, url_encode and url_decode
--   Net/Connector       net/connector.cc: one connection
--   Net/ConnectorList   net/connector_list.cc: the table of connections and the timeouts
--   Net/Commands        net/net_thread.h: the commands for a net thread and the texts in them
--   Net/NetThread       net/net_thread.h: requests, commands, joining, the start
--   Net/HandleThread    net/handle_thread.h: the threads that handle packets
--   Net/EpollServer     net/epoll_server.h: the choice of the threads, ParseImp
--   Net/Callbacks       net/net_thread.h: reading, the tick and accepting, through the server
--   Game/Room           example/gameserver/game_room.cc: joining, leaving, messages
--   Game/World          example/gameserver/game_world.cc: the rooms of a game, on Game/Maps
--   Game/Parse          example/gameserver/server.cc: Parse, the packets in the bytes
--   Game/Fields         example/gameserver/server.cc: the fields of a packet and their tests
--   Game/Addresses      example/gameserver/server.cc: mac and ip addresses as text
--   Game/Server         example/gameserver/server.cc: handle, what is done with a packet
--   Prelude             machine words, masks, lists, counting
-- Each of these files holds the definitions, one for each function of the source with the source's
-- name in lower case with underscores; the modules below it hold the theorems, and Tests runs.
--
-- How the code is read. State is a record, an operation is a function from the state to the state
-- and the result. `none` is a fault: a failed assert, an access outside an array or through a null
-- pointer. An operation that holds a mutex throughout is one step. A machine word is a natural
-- number with the wrap-around written out. What a system call, the allocator or the clock returns
-- is an argument; a pointer that the code only stores is a value of a type parameter. Container
-- iterators are identities of nodes, so that the use of one that is gone would show. Orders of
-- calls are step relations with their reachability.
--
-- Fuel and bounds. The growth loop of `array_needsize` runs on fuel, the count that is needed, which
-- is enough as each round adds 16 at least; the loop of `read_pipe_cb` on one round more than there
-- are commands; `ParseImp` on more rounds than there are unread bytes, as a packet takes one at
-- least. A request that waits is given the queues that it finds after each pause. The tables of ids are below 2 ^ 24 and 2 ^ 20
-- slots, which is what an id has room for; a buffer is below 2 ^ 62 bytes; flags of events are
-- below 2 ^ 31. The table of events is below 2 ^ 30 slots, where its `int` counts do not overflow, and
-- `grow` faults where they do. Where the code puts a length into an `int`, `int_prefix` and
-- `is_positive_int` (Prelude/Ints) write out the conversion.
--
-- A player is looked up by id in a map (Game/Room); the magic number and the missing bound of
-- `ConstantPtrList::get`, through which the code does that, are in Base/PtrList only.
--
-- Not modelled: what only makes system calls (connecting, the socket options, netbios, whois, the
-- readings of cpu and memory), the log, the timers, the copies of other projects (the JSON library,
-- the test framework, the HTTP parser, MD5), the loop of the event loop, the
-- starting and joining of threads, HTTP messages, the session check and the statistics of the game server. The kqueue variants
-- are not modelled.
pub mod Prelude
pub mod Base
pub mod Net
pub mod Game
