-- ===== src/Lib.antt =====
-- msgCourier: a server that passes messages between handlers, over TCP, UDP and HTTP.
--
-- The parts that are modelled, and how they work together. Messages (cMsg) live in a pool
-- (cMsgPool, msgpool.cpp), which hands out those that nobody uses. A message is filled,
-- dispatched, and then found by the loop of the queue (cMsgQueue, msgqueue.cpp), which puts it on
-- the priority queue, takes it off again and routes it: inbound messages by the rule sets
-- (cMsgRouterRulesEngine) to a handler of the factory (cCommandHandlerFactory), outbound ones to
-- the connection queue. Messages that fail are retried with a delay that doubles, and those done
-- with go back to the pool. A message's text is in buffers (cBuffer), which cBase64 encodes and
-- decodes. Connections are kept by the cache (cConnectionCache), which the connection queue
-- (cConnectionQueue) fills, empties and asks for those that have something to read.
--
--   * Memory: blocks of C memory, with the bounds of memcpy, memmove and strlen; Outcome has the
--     value of a call that returns, `throws` for THROW and MC_ASSERT, and `fault` for undefined
--     behaviour. malloc is a parameter, and Allocates says that it has memory left.
--   * Buffer: buffer.h and buffer.cpp. A function of cBuffer is the function of the same name in
--     the spelling of this library (SetBufferSize is set_buffer_size), from a buffer to an
--     outcome.
--   * Base64: base64.h and base64.cpp; `encoded` and `decoded` are the loops, encode and decode
--     the methods on their buffers, and Base64.Reference the standard's definition.
--   * Msg: imsg.h, msg.h and msg.cpp: the fields, the setters, ResetMsg and DispatchMsg; Msg.Parse
--     is the method of that name, with atoi of the C library in Msg.Atoi, and Msg.Copies has the
--     messages that the queue makes from others.
--   * HeaderExtract: headerextract.h and headerextract.cpp, the fields of a header.
--   * KeyValue: keyvalue.h and keyvalue.cpp, a map of buffers and the stream in which it is stored.
--   * Dict: std::map with strings for its keys, in their order.
--   * Url: url.h and url.cpp.
--   * IpAccess: ipaccess.h and ipaccess.cpp, the rules by which addresses are let in.
--   * PeerRoutingMap: peerroutingmap.h and peerroutingmap.cpp.
--   * MsgPool: msgpool.h and msgpool.cpp. A pointer is the number of a cell.
--   * MsgQueue: msgqueue.h and msgqueue.cpp, one child for each function of the loop in Run: Flush
--     for FlushMessages, Pending for ProcessPendingMessages and Route for ProcessPriorityQueue;
--     Round is a round of Run, with the order of msgprioritycomp.h, and Kept is about the queue
--     between the calls.
--   * Rules: msgrouterruleset.h, msgrouterruleset.cpp and msgrouterrulesengine.cpp; Rules.Contains
--     is TestContains.
--   * Factory: commandhandlerfactory.h and commandhandlerfactory.cpp.
--   * ConnectionCache: connectioncache.h, connectioncache.cpp and connectionrecord.h: the map of
--     records by socket and the list of those that are active, with Walk for the methods that go
--     along the list. Nodes have numbers, which an iterator may outlive. A pass lists the sockets
--     that it gives to FD_SET; one from FD_SETSIZE on is a fault of prepare_connections.
--   * ConnectionQueue: connectionqueue.h and connectionqueue.cpp, the client of the cache: its
--     inbound tasks, Round for the connections that wait to be added and for a round of Run, and
--     Outbound for SendMsg and ProcessOutboundTasks. The two handlers are parameters; that for
--     outbound messages may throw, and may change the message and the record.
--   * RoutingTag: routingtag.h and routingtag.cpp. An index of a text is a number, and the
--     difference of two keeps the 32 bits that the int of the source has.
--   * Timer: timer.h and timer.cpp.
--   * Levenshtein: levenshtein.cpp, the edit distance, with a recursion as its Reference; the
--     matrix is taken to be allocated.
--   * Crc32: crc32.h and crc32.cpp, with the division bit by bit in Crc32.Bits.
--   * UniqueIds: uniqueidprovider.h and uniqueidprovider.cpp; the ids themselves are made by the
--     system, and CreateNewID is a parameter.
--   * Examples: inputs at which the conditions of the theorems hold.
--
-- Bounds and fuel. A loop recurs on the list it walks over, and so needs no fuel; FindChar's and
-- BinaryFind's loops, and those of the edit distance, count their rounds. TimeoutConnections
-- starts again after each connection that it frees, and so runs on fuel: a run along the list for
-- each connection is enough, which `restarts` counts. ProcessInboundTasks needs a round for each
-- active connection and one more, and cKeyValue's Parse and ReplaceAll of a byte one for each byte
-- and one more. A byte is a number below 256 where a theorem asks for it, the bytes of Base64 and
-- the hash are cut to their width where the code's types cut them, and other ints are the numbers
-- that they hold while they neither overflow nor are negative. The time is an argument: a function
-- that asks for time(0) more than once sees one time.
--
-- Not modelled: threads and locks (a caller of the pool or of the queue holds its lock
-- throughout), the log, the profiler and the sysmetrics, sqlite, sockets and HTTP. Of entries with
-- one priority, the heap of the priority queue may give any; the model gives the one that was
-- pushed last. The handlers, Boost's regex_match, the tests of one rule in a search, and the
-- lookup of a remote service are parameters. The handlers of connections, select and FD_ISSET are
-- parameters too. The scripts, the web server, the servers and the databases are left out: they
-- read and write the network and files for the most part.
pub mod Base64
pub mod Buffer
pub mod ConnectionCache
pub mod ConnectionQueue
pub mod Crc32
pub mod Dict
pub mod Examples
pub mod Factory
pub mod HeaderExtract
pub mod IpAccess
pub mod KeyValue
pub mod Levenshtein
pub mod Memory
pub mod Msg
pub mod MsgPool
pub mod MsgQueue
pub mod PeerRoutingMap
pub mod Prelude
pub mod RoutingTag
pub mod Rules
pub mod Timer
pub mod UniqueIds
pub mod Url
