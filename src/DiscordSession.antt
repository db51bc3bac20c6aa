-- ===== src/DiscordSession.antt =====
-- src/server/Server/DiscordSession.cpp with src/server/Handlers and the PacketHandlers of
-- src/server/Server/Protocol/Opcodes.cpp: a client's session behind the queue of its packets. What
-- it asks of the bot are BotCalls. The queries of a session are the database layer's, and logging
-- shows in no result.
pub mod Serving
pub mod Draining
pub mod Posting
pub mod FromWire
pub mod Closing
use warhead_discord.Prelude.{
  ℕ, zero, suc, ◌+◌, Bool, true, false, not, ◌&&◌, ◌||◌, List, [], ◌∷◌, ◌++◌, Option, none, some,
  ok, err, Result, position, invalid_value, aborted, fault, ◌>>=◌, ltb, leb, ◌==◌, if◌then◌else◌,
  length,
}
use warhead_discord.Opcodes.{
  Handler, handle_hello, handle_send_message, handle_send_message_embed, handle_early_process,
  handle_server_side, handler_at, opcode_table, null_discord_code,
}
use warhead_discord.DiscordSocket.{Packet, Session, Peer, is_open, close_socket, send_packet}
use warhead_discord.DiscordSocket.Login.{default_channels_count}
use warhead_discord.Packets.{
  SendDiscordMessage, SendDiscordEmbedMessage, EmbedField, hello_client, send_discord_message,
  send_discord_embed_message,
}

-- The session with its socket; `state` is the part that the socket's handlers see too.
pub record DiscordSession : Type 0 where
  pub state : Session
  pub socket : Option Peer
  pub kicked : Bool

-- A call of the library's `dpp::embed`. What the embed makes of it (it shortens texts, drops fields
-- and masks the color) is the library's.
pub data EmbedCall : Type 0 where
  set_color set_timestamp : ℕ → EmbedCall
  set_title set_description : List ℕ → EmbedCall
  add_field : List ℕ → List ℕ → Bool → EmbedCall

-- `sDiscordBot->SendDefaultMessage`, and `SendEmbedMessage` of a new embed after these calls of it.
pub data BotCall : Type 0 where
  send_default_message : ℕ → List ℕ → BotCall
  send_embed_message : ℕ → List EmbedCall → BotCall

-- `std::array::at`; its std::out_of_range is caught nowhere and would end the process.
unfoldable pub channel_at : List ℕ → ℕ → Result ℕ
channel_at [] i = err aborted
channel_at (c ∷ channels) zero = ok c
channel_at (c ∷ channels) (suc i) = channel_at channels i

unfoldable pub get_channel_id : Session → ℕ → Result ℕ
unfolding channel_at
get_channel_id s channel_type =
    if length s.channels == 0 || leb default_channels_count channel_type
    then ok 0
    else channel_at s.channels channel_type

unfoldable pub handle_send_discord_message : Session → SendDiscordMessage → Result (List BotCall)
unfolding get_channel_id
handle_send_discord_message s packet = do
  channel_id ← get_channel_id s packet.channel_type
  ok (if channel_id == 0 then [] else send_default_message channel_id packet.context ∷ [])

-- The loop over the fields. A name or a value that is too long is only logged.
unfoldable pub add_fields : List EmbedCall → List EmbedField → List EmbedCall
add_fields embed [] = embed
add_fields embed (field ∷ fields) =
    add_fields (embed ++ add_field field.name field.value field.is_inline ∷ []) fields

unfoldable pub handle_send_discord_embed_message :
    Session → SendDiscordEmbedMessage → Result (List BotCall)
unfolding get_channel_id add_fields
handle_send_discord_embed_message s packet = do
  channel_id ← get_channel_id s packet.channel_type
  let e1 = set_color packet.color ∷ []
  let e2 = e1 ++ set_title packet.title ∷ []
  let e3 = e2 ++ set_description packet.description ∷ []
  let e4 = add_fields e3 packet.embed_fields
  let e5 = e4 ++ set_timestamp packet.timestamp ∷ []
  ok (if channel_id == 0 then [] else send_embed_message channel_id e5 ∷ [])

unfoldable pub set_latency : DiscordSession → ℕ → DiscordSession
set_latency d latency = record d { state = record d.state { latency = latency } }

-- `QueuePacket`, PacketQueue's `AddPacket`.
unfoldable pub add_packet : DiscordSession → Packet → DiscordSession
add_packet d packet = record d {
  state = record d.state { recv_queue = d.state.recv_queue ++ packet ∷ [] };
}

unfoldable pub is_socket_closed : DiscordSession → Bool
unfolding is_open
is_socket_closed d = elim d.socket [ none ↦ true | some p ↦ not (is_open p) ]

-- `stopped` is `Discord::IsStopped()`.
unfoldable pub handle_socket_closed : Bool → DiscordSession → Bool × DiscordSession
unfolding is_open
handle_socket_closed stopped d = elim d.socket [
  | none ↦ (false, d)
  | some p ↦
      if not (is_open p) && not stopped then (true, record d { socket = none }) else (false, d)
]

unfoldable pub kick_session : Bool → DiscordSession → DiscordSession
unfolding close_socket
kick_session set_kicked d =
    let told : DiscordSession = elim d.socket [
      | none ↦ d
      | some p ↦ record d { socket = some (close_socket p) }
    ] in
    if set_kicked then record told { kicked = true } else told

-- The destructor closes the socket and leaves it to its other owners.
unfoldable pub destroy : DiscordSession → Option Peer
unfolding close_socket
destroy d = elim d.socket [ none ↦ none | some p ↦ some (close_socket p) ]

unfoldable pub send : DiscordSession → Packet → DiscordSession
unfolding send_packet
send d packet =
    if packet.opcode == null_discord_code
    then d
    else elim d.socket [ none ↦ d | some p ↦ record d { socket = some (send_packet p packet) } ]

-- `MAX_PROCESSED_PACKETS_IN_SAME_WORLDSESSION_UPDATE`.
abbrev pub max_processed_packets : ℕ
max_processed_packets = 100

-- ByteBufferException is caught in the loop of `Update`, and skips the packet. (Nothing that is
-- modelled throws a PacketArrayMaxCapacityException.)
unfoldable pub catch_exception : Result (List BotCall) → Result (List BotCall)
catch_exception (ok calls) = ok calls
catch_exception (err position) = ok []
catch_exception (err invalid_value) = ok []
catch_exception (err aborted) = err aborted
catch_exception (err fault) = err fault

-- The end of `Update`: a socket that is not open any more is let go, and the session with it.
unfoldable pub let_go : DiscordSession → Bool × DiscordSession
unfolding is_open
let_go d = elim d.socket [
  | none ↦ (false, d)
  | some p ↦ if is_open p then (true, d) else (false, record d { socket = none })
]

-- `utf8::is_valid` is the utf8cpp library's.
module _ (is_valid : List ℕ → Bool) where
  -- `Call` of the PacketHandler: the typed packet is built and read, and handed to the handler.
  unfoldable pub call : Handler → Session → Packet → Result (List BotCall)
  unfolding hello_client send_discord_message send_discord_embed_message handle_send_discord_message
      handle_send_discord_embed_message
  call handle_hello s packet = hello_client is_valid packet >>= λ hello. ok []
  call handle_send_message s packet =
      send_discord_message is_valid packet >>= handle_send_discord_message s
  call handle_send_message_embed s packet =
      send_discord_embed_message is_valid packet >>= handle_send_discord_embed_message s
  call handle_early_process s packet = ok []
  call handle_server_side s packet = ok []

  -- The handler of the opcode; without one the source calls through a null pointer.
  unfoldable pub call_handler : Session → Packet → Result (List BotCall)
  unfolding call
  call_handler s packet = elim (handler_at opcode_table packet.opcode) [
    | none ↦ err fault
    | some handler ↦ call handler s packet
  ]

  -- The loop of `Update` over the queue, with the packets processed so far: what it asks of the
  -- bot, and what stays in the queue.
  unfoldable pub update_loop : Session → List Packet → ℕ → Result (List BotCall × List Packet)
  unfolding call_handler catch_exception
  update_loop s [] processed = ok ([], [])
  update_loop s (packet ∷ queue) processed = catch_exception (call_handler s packet) >>= λ calls.
      elim (ltb max_processed_packets (processed + 1)) [
        | true ↦ ok (calls, queue)
        | false ↦ update_loop s queue (processed + 1) >>= λ (more, left). ok (calls ++ more, left)
      ]

  unfoldable pub update : DiscordSession → Result (Bool × List BotCall × DiscordSession)
  unfolding update_loop let_go
  update d = do
    (calls, left) ← elim d.socket [
      | none ↦ ok ([], d.state.recv_queue)
      | some p ↦ update_loop d.state d.state.recv_queue 0
    ]
    let (alive, d') = let_go (record d { state = record d.state { recv_queue = left } })
    ok (alive, calls, d')
