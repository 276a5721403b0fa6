-- ===== src/Lib.antt =====
-- A model of ProjectNight, a chat server and its client in C++, and what makes them correct.
--
-- The parts and how they interact. The server's loop (NightServer/NightServer.cpp) asks the network
-- system for events, lets the game logic handle them, and gives what the game logic queued back to
-- the network system. The game logic keeps its sessions and rooms in the room system. Below, the
-- transport (NightNetwork/) carries payloads in frames: a header of eight bytes, then up to 2048
-- bytes. The client (NightClient/) sends requests and shows what the server sends.
--
-- Which file models what, with paths from the root of the repository:
--   Prelude   tests, lists, bits, tables and sets that the others share: std::unordered_map is a
--             list of keys and values, std::unordered_set a list of numbers, and bytes are numbers.
--   Wire      NightNetwork/src/Protocol.h, and the header codec of NightNetwork/src/TransportDetail.h:
--             write_header, decode_header.
--   Pool      NightNetwork/src/BufferPool.h: acquire and release of one thread's pool.
--   Frame     the rest of TransportDetail.h: build_data_frame, build_keepalive_frame, clone_frame,
--             enqueue_frame.
--   Session   NightNetwork/src/Session.cpp: the handlers that run on a session's strand, as functions
--             on its state; Step says which of them may run, and when.
--   Server    NightNetwork/src/Server.cpp: opening the port, accepting, the packet queue, what is posted
--             where, and the shutdown; Step says what its threads may do, and when.
--   Rooms     NightServer/RoomSystem.cpp and ServerTypes.h: every operation keeps its name.
--   Message   NightCommon/NightProtocol/messages_generated.h and ProtocolUtil.h: tables are records of
--             what their accessors return.
--   Logic     NightServer/GameLogicSystem.cpp: `queue_…` for `Queue…`, `handle_…` for `Handle…`, and
--             `update` for `Update`. A handler returns none where the code would dereference null.
--   Network   NightServer/NetworkSystem.cpp, and the loop of NightServer/NightServer.cpp.
--   Reader    what the two sides of the transport share when they read, as an interface.
--   NetworkClient  NightNetwork/src/Client.cpp: the handlers of its I/O thread, and what the thread of
--             the game calls, as functions on one state; Step says what may run, and when.
--   Client    NightClient/ChatProtocolClient.cpp.
--   Window    NightClient/ChatClientFrame.cpp: `on_…` for `On…`; a control is what it shows.
--   Exchange  the two programs together: requests and answers, the bytes between a session and a
--             client, and what the window shows of what the server sends.
--   Tests     a small lobby, a plain codec, and the theorems at concrete inputs.
--
-- What is a parameter: how FlatBuffers makes bytes of a message and back (`Codec`), the wall clock
-- (`Env`), and how wxWidgets converts and trims texts and finds them in a list (`Wx`). Theorems that
-- need a message to read back, or its bytes to be few enough, say so of that message.
--
-- Bounds and fuel. Identifiers and sizes are natural numbers; the 32-bit steps that can wrap
-- (request ids, the size in a header, a room's user count) are written out, and so are the 64 bits of
-- a timestamp. The only fuel is the
-- number of reads in Reader, where two for each frame are enough.
--
-- Not modelled: sockets, strands and threads, which are asio's; the layout of the client's window
-- and the wxApp of NightClient/NightClient.cpp; console output; the order in which unordered
-- containers are traversed, which is that of the lists here.
pub mod Prelude
pub mod Wire
pub mod Pool
pub mod Frame
pub mod Session
pub mod Rooms
pub mod Message
pub mod Logic
pub mod Network
pub mod NetworkClient
pub mod Client
pub mod Window
pub mod Exchange
pub mod Server
pub mod Reader
pub mod Tests
