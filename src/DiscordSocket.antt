-- ===== src/DiscordSocket.antt =====
-- src/server/Server/DiscordSocket.cpp over src/shared/Network/Socket.h: one client's connection. This
-- module has the state, and what every part of the connection does with it. The children model
-- the handlers of one packet (Handlers) and the reassembly of packets (Reading).
pub mod Handlers
pub mod Reading
pub mod Sending
pub mod WriteQueue
pub mod Login
use warhead_discord.Prelude.{
  ℕ, Bool, true, false, not, ◌&&◌, List, [], ◌∷◌, ◌++◌, Option, none, some, if◌then◌else◌, ok,
  Result, ◌>>=◌,
}
use warhead_discord.MessageBuffer.{
  MessageBuffer, normalize, ensure_free_space, sized, resize_buffer, read_block_size,
}
use warhead_discord.PacketHeader.{header_length}

-- A DiscordPacket: its opcode and the bytes of its storage.
pub record Packet : Type 0 where
  pub opcode : ℕ
  pub payload : List ℕ

-- What the socket does with its DiscordSession: the identity, the latency that a ping reports, and
-- the queue of received packets.
pub record Session : Type 0 where
  pub account_id : ℕ
  pub guild_id : ℕ
  pub account_name : List ℕ
  pub channels : List ℕ
  pub latency : ℕ
  pub recv_queue : List Packet

-- The body of a CLIENT_AUTH_SESSION packet.
pub record AuthSession : Type 0 where
  pub account : List ℕ
  pub key : List ℕ
  pub core_name : List ℕ
  pub core_version : List ℕ
  pub module_version : ℕ

-- The socket without its buffers. A time is a number of nanoseconds, and 0 is `TimePoint()`, that
-- no ping was seen; `clock_reads` counts the calls of `steady_clock::now()`. `queries` are the
-- account lookups whose callback is still to come.
pub record Peer : Type 0 where
  pub closed : Bool
  pub closing : Bool
  pub authed : Bool
  pub session : Option Session
  pub last_ping_time : ℕ
  pub over_speed_pings : ℕ
  pub clock_reads : ℕ
  pub buffer_queue : List Packet
  pub queries : List AuthSession

-- A connection: the peer and the three buffers of its reading side.
pub record Connection : Type 0 where
  pub peer : Peer
  pub read_buffer : MessageBuffer
  pub header_buffer : MessageBuffer
  pub packet_buffer : MessageBuffer

-- The peer and the buffers as the constructors of Socket and DiscordSocket leave them.
abbrev pub new_peer : Peer
new_peer = record {
  closed = false;
  closing = false;
  authed = false;
  session = none;
  last_ping_time = 0;
  over_speed_pings = 0;
  clock_reads = 0;
  buffer_queue = [];
  queries = [];
}

unfoldable pub new_connection : Peer → Connection
new_connection p = record {
  peer = p;
  read_buffer = resize_buffer (sized read_block_size) read_block_size;
  header_buffer = resize_buffer (sized read_block_size) header_length;
  packet_buffer = sized read_block_size;
}

unfoldable pub is_open : Peer → Bool
is_open p = not p.closed && not p.closing

-- `OnClose`, which the first CloseSocket calls.
unfoldable pub on_close : Peer → Peer
on_close p = record p { session = none }

unfoldable pub close_socket : Peer → Peer
unfolding on_close
close_socket p = if p.closed then p else on_close (record p { closed = true })

unfoldable pub delayed_close_socket : Peer → Peer
delayed_close_socket p = record p { closing = true }

unfoldable pub send_packet : Peer → Packet → Peer
unfolding is_open
send_packet p packet =
    if is_open p then record p { buffer_queue = p.buffer_queue ++ packet ∷ [] } else p

-- Makes room in the read buffer and starts a read into it, unless the socket is closing. The
-- answer says whether a read is under way.
unfoldable pub async_read : Connection → Result (Bool × Connection)
unfolding is_open
async_read c =
    if is_open c.peer
    then (do
      front ← normalize c.read_buffer
      ok (true, record c { read_buffer = ensure_free_space front }))
    else ok (false, c)
