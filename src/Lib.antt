-- ===== src/Lib.antt =====
-- redis-cerberus, a proxy for a Redis cluster. Clients send requests to the proxy as if it were a
-- single server. The proxy splits what a client sent into commands, finds the slot of each
-- command's key, sends the command to the server that has the slot, splits what servers answer
-- into responses, and sends these back to the client in the order of the requests.
--
-- The files and the code they model:
--   SlotCalc, SlotCalc/Crc: core/slot_calc.hpp and core/slot_calc.cpp, `KeySlotCalc`. A state of
--     the calculator is a record, and the function that `_next_byte` holds is one of four names.
--   Message: core/message.hpp. Scan has the number and line readers, Splitter `parse`,
--     `MessageSplitterBase` and `split_by`, Outcome the exceptions. A buffer is a list of bytes
--     and an iterator a position in it. The overrides of a derived class are the record `Final`.
--     Reply has the messages as trees with the bytes they are written as. Format is
--     core/message.cpp.
--   Response: core/response.cpp, `ServerResponseSplitter` and `split_server_response`.
--   Command: core/command.hpp and core/command.cpp. Group has the groups of commands, Table the
--     tables of command names, Parser the special commands' parsers, Splitter the
--     `ClientCommandSplitter` and `split_client_command`. Request has what requests ask for, told
--     without positions.
--   Buffer: core/buffer.hpp and core/buffer.cpp, `BufferSet`. What the socket answers to each call
--     of `write` and `writev` is a parameter. Flush has `flush_mem` and `Buffer::read`.
--   State: the objects of one thread, core/command.hpp, core/client.hpp, core/server.hpp and
--     core/proxy.hpp. Objects that are pointed to are kept in stores by number. Queues has the
--     selection of servers from core/command.cpp.
--   Client: core/client.cpp. Responses has the way of an answer back to the client, from
--     core/command.cpp. Frame, Process, Order, Delivery, Progress, Calm, Grows, Gather,
--     Answers, Queued and Renames are proofs.
--   Server: core/server.cpp; Pairing, Waits, Pop, Destroy and Handler are proofs.
--   SlotMap: core/slot_map.hpp and core/slot_map.cpp, with the pool of servers; Nodes is
--     `parse_slot_map`.
--   Subscription: core/subscription.cpp, the long connections, each with its connection to a
--     server; Pop and Served are proofs.
--   Proxy: core/proxy.cpp, the retry queue and the update of the slot map. SlotsMapUpdater has the
--     updaters, and EventLoop `handle_events`, with the loop of core/acceptor.cpp; Update, Retry
--     and what is below these two are proofs.
--   Idle: proofs that every part of the thread keeps closed servers without commands.
--   Threads: core/globals.cpp and core/concurrence.cpp, the rounds of all threads. Statistics:
--     core/stats.cpp.
--   Configuration: main.cpp, the configuration file, the options and what `run` sets from them;
--     Lookup is a proof.
--   Text: utils/string.cpp, utils/address.hpp and utils/address.cpp (Address, HostPort).
--   Prelude: shared names and lemmas. Tests: runs at concrete inputs.
--
-- The recursion of `parse` goes down on a level for each nested array, and `split_by` on a round
-- for each message. The splitters give both the length of the buffer or one more, which is enough
-- since a message takes a byte at least, and a nested one takes one more than what is inside of
-- it. The loop of `BufferSet::writev` is given a round for each buffer, and each round writes at
-- least one. The loop of `split_str` is given a round for each byte and one more, since each round
-- but the last passes a delimiter. The handlers of connections have no fuel: their loops are over
-- lists. Exceptions are results: `message_interrupted` and `bad_redis_message`. A read outside of
-- the buffer, which is undefined in C++, is the result `fault`. The value of an `int` that was not
-- set, the random slot of PUBLISH and the text that PROXY answers with are parameters.
--
-- What a socket gives and takes during a handler, and whether a connection opens, are arguments.
-- Sets of pointers are in the order of insertion and not of the addresses.
--
-- A descriptor is a flag that tells whether it is open; a call on one that is not is an exception
-- that ends the program, which a flag of the thread tells. So do flags tell of a use of memory that
-- was freed, and of a loop that waits for a socket.
--
-- The rounds of several threads are run one after the other; whether the cluster is up, which they
-- share and only print, is kept with each.
--
-- What the model does not keep as it is in the source: `btou` counts in an integer without bounds,
-- so it is the source's only while the value stays in the 64 bits of an `rint`. Commands are copied
-- into a server's output as bytes, where the source appends the buffers that they share. On a bad
-- message `split_client_command` is an exception, and the effects of earlier requests of the same
-- bytes on the proxies are not kept. The map from slots to servers is a function of all numbers; a
-- slot beyond the 16384 is told by a flag. A server that is new in the pool is not reset.
--
-- Not modelled: the registration with epoll, clocks, rounds of threads that overlap, `getopt`,
-- the system calls, logging and the copies of other projects' libraries. The connection that a
-- long connection opens to its server is taken to open, and to take the command at once.
pub mod Prelude
pub mod SlotCalc
pub mod Message
pub mod Text
pub mod Response
pub mod Command
pub mod Buffer
pub mod State
pub mod SlotMap
pub mod Client
pub mod Server
pub mod Subscription
pub mod Idle
pub mod Proxy
pub mod Threads
pub mod Statistics
pub mod Configuration
pub mod Tests
