-- ===== src/Lib.antt =====
-- WarheadDiscord: the server behind a game's chat bridge. Clients connect over TCP, log in, and
-- send packets that the server posts to Discord. Modelled is the core of the server that handles
-- what comes from the network, src/server/Server over src/shared and src/common/Utilities.
--
-- The parts, and the file that models each:
--
-- - MessageBuffer: src/common/Utilities/MessageBuffer.h, the byte buffer between a socket and its
--   parser. Positions are `size_t`, with their wrap-around written out; an access outside of the
--   storage is a `fault`. `normalize`, `write`, `read_completed` and the others keep the source's
--   names.
-- - ByteBuffer: src/server/Server/Packets/ByteBuffer.h and ByteBuffer.cpp, the body of a packet. A
--   failed ASSERT is `aborted`, an exception `position` or `invalid_value`.
-- - PacketHeader: src/shared/DiscordPacketHeader.h, the header in front of each packet, with the
--   byte order of a little-endian host.
-- - Opcodes: src/shared/DiscordSharedDefines.h and src/server/Server/Protocol/Opcodes.cpp.
-- - DiscordSocket: src/server/Server/DiscordSocket.cpp over src/shared/Network/Socket.h. A
--   `Connection` is the socket with the three buffers of its reading side; its `Peer` is the rest.
--   Handlers has `ReadDataHandler`, `HandlePing` and `HandleAuthSession`; Reading has `ReadHandler`,
--   `ReadHeaderHandler` and the reads of Socket.h; Sending has `Update`, which packs packets for the
--   write queue into buffers of `_sendBufferSize` bytes, and WriteQueue the write queue of Socket.h.
-- - Srp6 and DiscordSocket/Login: src/common/Cryptography/Authentication/SRP6.cpp, and the callbacks
--   of the database and of the bot that end a connect or a login: `check_ip_callback`, and `log_in`
--   of the three callbacks behind HandleAuthSession, each with its answer as an argument.
-- - Packets: src/server/Server/Packet.cpp and Packets/PacketsImpl, the typed packets of the clients.
-- - DiscordSession: src/server/Server/DiscordSession.cpp with src/server/Handlers. A
--   `DiscordSession` is the session with its socket; `update` handles what the socket queued, and
--   asks the bot for posts: the BotCalls, with the calls of dpp::embed that build an embed.
-- - Discord: src/server/Discord/Discord.cpp, the map of the sessions, the game time and the shutdown.
-- - Accounts: src/server/Account/AccountMgr.cpp, with `StringEqualI` and `urand` of
--   src/common/Utilities.
-- - Bans: src/server/Account/BanMgr.cpp, the bans of addresses, and of accounts (Bans/Accounts).
-- - TaskScheduler: src/common/Utilities/TaskScheduler.h and TaskScheduler.cpp. Context has what a
--   running task may ask for, and Dispatch the update; Periods has the two tasks that
--   src/server/Discord/Discord.cpp schedules.
-- - NetworkThread and SocketMgr: src/shared/Network/NetworkThread.h, SocketMgr.h and AsyncAcceptor.h
--   with src/server/Server/DiscordSocketMgr.cpp, over any type of sockets.
-- - UpdateTime: src/server/Time/UpdateTime.cpp, the average time of a round.
-- - HexStr: the hexadecimal texts of src/common/Utilities/Util.cpp.
-- - Tokenize: src/common/Utilities/Tokenize.cpp.
-- - Examples: concrete runs.
--
-- How they interact: a read writes into the read buffer of the Connection; `read_loop` collects a
-- header and a payload out of it; `handle_packet` answers the packet, queues it for the session or
-- refuses it; the loop goes on, closes the socket or waits for the lookup of an account. What is
-- sent waits in `buffer_queue` until an update packs it. The session of a login goes into the map
-- of Discord, whose rounds update every session and drop those whose socket is closed. The socket
-- and the server's map share a session; the model has it in the `Peer` for what the socket does,
-- and in a `DiscordSession` for what the server does, and DiscordSession/FromWire hands the one to
-- the other; Discord/Joining puts the two ends of a login together. New connections reach a socket
-- through SocketMgr and NetworkThread, and the rounds of the server update its scheduler.
--
-- Specifications: Reading/Machine is a machine that takes one byte at a time and has no buffers.
-- Reading/Refine shows that the loop over the three buffers does what the machine does, and
-- Reading/Chunks the same for any sequence of reads. Sending/Wire has `sent`, the bytes that an
-- update adds. Packets/Bodies has the bytes that a client writes, and DiscordSession/Posting what
-- the bot is asked for them. Discord/Sound is the invariant of the server. TaskScheduler/Order has
-- the order of the queue and, in Runs, the dispatching as a relation; NetworkThread/Steps the life
-- of a thread as one.
--
-- Fuel: `read_loop` has one round for each unread byte and one to spare, since each round reads a
-- byte at least; `cstring_loop` one for each byte of the storage; `pack_loop` eight, the bytes of
-- the value; `handle_all` one for each buffer of the write queue, since a round that goes on has
-- taken a buffer off it; `embed_loop` one more than the body has bytes, since a field takes a byte
-- at least; `process_asyncs` and `run_tasks` one for each callable and task that they invoke, for
-- which TaskScheduler/Ending has a bound; `tokenize_loop` one more than the text has characters.
-- The results on reading, strings, packets and tokens hold without a condition on the fuel.
--
-- Parameters: `is_valid` is utf8::is_valid of the utf8cpp library; `clock` gives the readings of
-- steady_clock::now() in nanoseconds. Nothing is assumed of either. `os` is `write_some` of a
-- socket, `crypto` has SHA-1 and the modular power of OpenSSL and Utf8ToUpperOnlyLatin,
-- `utf8length` is utf8cpp's, `calls` is what the callables of a scheduler do, `operations` those of
-- the sockets of a thread, `send_buffer_size` is Network.OutUBuff, and `pick`, `rand` and `shuffle`
-- are the random numbers; what is assumed of these stands at each result.
--
-- Not modelled: the console; the bot, and what it and the dpp library make of what they are asked;
-- the steps of Discord::Update between the game time and the sessions; the database layer, whose
-- answers are arguments; logging; the printing of durations; threads, whose locks the source holds
-- around each access to a session, so that handlers are single steps here, between which a socket
-- is closed; packed times and floating point numbers.
pub mod Prelude
pub mod HexStr
pub mod MessageBuffer
pub mod ByteBuffer
pub mod PacketHeader
pub mod NetworkThread
pub mod Opcodes
pub mod SocketMgr
pub mod Srp6
pub mod Packets
pub mod DiscordSession
pub mod Discord
pub mod Accounts
pub mod TaskScheduler
pub mod Tokenize
pub mod UpdateTime
pub mod Bans
pub mod DiscordSocket
pub mod Examples
