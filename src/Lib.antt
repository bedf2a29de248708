-- ===== src/Lib.antt =====
-- A model of the net disk's server side: a load balancer that keeps its servers in a heap, and
-- servers that exchange messages with their clients.
--
-- The load balancer (NetDisk-Server/LoadBalancing) registers servers, follows their numbers of
-- connections and gives a client the one with the fewest; a server (NetDisk-Server/Server) keeps
-- a timer per connection, reads and writes messages through a serializer whose buffers come from
-- a pool, and logs through a blocking queue.
--
-- Files, and the code that they are about:
-- Base: numbers, lists and tests that the other files share.
-- Wire: memory, byte order and cursors of NetDisk-Server/Server/code/tool/Serializer.h and .cpp.
--   A byte is a number below 256; `Put` writes into the buffer at `ptr`, `Get` reads from it, and
--   an access outside of an object is the value `overrun` or `none`. The host is little endian.
-- Protocol: the structures of NetDisk-Server/Server/code/protocol.h.
-- Serializer: the functions of NetDisk-Server/Server/code/tool/Serializer.cpp, a module for each
--   structure: serialize(const X&) is `serialize_x`, deserialize(..., X&) is `deserialize_x`. The
--   contents of the buffer that the pool hands out are an argument.
-- Heap: the loops that ServerHeap and Timer share, over any node with a key and an id.
-- ServerHeap: NetDisk-Server/LoadBalancing/code/serverheap/ServerHeap.cpp.
-- Timer: NetDisk-Server/Server/code/timer/Timer.cpp. Readings of the clock are arguments.
-- Buffer: NetDisk-Server/Server/code/buffer/Buffer.cpp. What readv and write return is an argument.
-- BlockDeque: NetDisk-Server/Server/code/log/BlockDeque.h, each operation as a step under its mutex.
-- BufferPool: NetDisk-Server/Server/code/bufferpool/BufferPool.cpp.
-- WorkQue: NetDisk-Server/Server/code/pool/WorkQue.h and .cpp, each step as what a thread does
--   under the mutex.
-- UpDownCon: NetDisk-Server/Server/code/pool/UpDownCon.cpp, and the checks of PutsDataTool in
--   NetDisk-Server/Server/code/tool/LongTaskTool.cpp that guard its handled size.
-- Equalizer: NetDisk-Server/LoadBalancing/code/equalizer/Equalizer.cpp, over ServerHeap and
--   Serializer: the state that a server sends, up to the heap. Register is recvServerInfo and
--   sendServerInfoToClient, with Server::connectEqualizer of NetDisk-Server/Server/code/server/Server.cpp
--   on the other side.
-- EventLoop: NetDisk-Server/Server/code/server/EventLoop.cpp: what it does with the bytes of a client,
--   over Buffer and Serializer. Read is sslReadAll, Client is handleClientData from its loop on,
--   Dispatch is handleClientTask and getTool; Meant lists the tool of each operation code, Messages
--   says what the messages of a stream are, and EndToEnd and Client/Laws join the parts.
-- SrTool: NetDisk-Server/Server/code/tool/SRTool.cpp over Serializer; what SSL_write returns is a script.
-- LongTask: NetDisk-Server/Server/code/tool/LongTaskTool.cpp and AbstractTool.cpp over UpDownCon, a
--   module for each tool. What the database and the file system answer is an argument. WholeUpload
--   joins the first message of an upload and its data.
-- ShortTask: NetDisk-Server/Server/code/tool/ShortTaskTool.cpp and
--   NetDisk-Server/Server/code/pool/ClientCon.cpp; what is asked of the database is an act, too.
-- MyDb: NetDisk-Server/Server/code/sql/MyDB.cpp: two tables as lists of rows, and its statements.
--
-- Numbers are natural; where the width matters (`size_t` positions of Buffer, fields on the wire,
-- the result of getNextTick, the counts of SRTool, sslReadAll and sendFileData) the wrap-around is
-- written out. The loops of the heap run on fuel, one more than the distance that the index can move,
-- and `tick` on one more than the number of timers. The inner loop of handleClientData runs on one more
-- than the bytes that the buffer holds, and sendFileData on the number of chunks.
--
-- How the parts interact: SrTool puts the bytes that Serializer makes on the network, EventLoop finds
-- the messages in what comes and chooses a tool, the tools of LongTask and ShortTask change the
-- connection of UpDownCon or ClientCon and ask MyDb, whose answers are arguments of the tools. A server
-- registers at the Equalizer and reports its state to it, and a client asks it for a server.
--
-- Not modelled: sockets, epoll, threads, OpenSSL, the calls of the MySQL library, the file system and
-- the windows of the client, which are input and output; the callbacks of timers; the memory behind
-- pointers; the recursive deletion of a directory; and the rest of Server.cpp, which has a copy of the
-- functions of EventLoop.cpp.
pub mod Base
pub mod Wire
pub mod Protocol
pub mod Serializer
pub mod Heap
pub mod ServerHeap
pub mod Timer
pub mod Buffer
pub mod BlockDeque
pub mod BufferPool
pub mod WorkQue
pub mod UpDownCon
pub mod Equalizer
pub mod EventLoop
pub mod SrTool
pub mod LongTask
pub mod ShortTask
pub mod MyDb
