-- ===== src/DiscordSocket/Sending.antt =====
-- `DiscordSocket::Update`: the packets that wait to be sent are put into buffers of
-- `_sendBufferSize` bytes, and the buffers into the write queue. The size is an argument:
-- `SocketAdded` sets it to Network.OutUBuff, 65536 by default.
-- `DiscordSocket::SendAuthResponseError`.
pub mod Wire
pub mod Flush
use warhead_discord.Prelude.{
  ℕ, ◌+◌, ◌%◌, ◌^◌, Bool, true, false, List, [], ◌∷◌, ◌++◌, ok, Result, ◌>>=◌, ltb, leb,
  if◌then◌else◌, length, ◌==◌,
}
use warhead_discord.MessageBuffer.{
  MessageBuffer, sized, write, remaining_space, resize_buffer, has_active_size,
}
use warhead_discord.PacketHeader.{server_header, header_length}
use warhead_discord.ByteBuffer.{new_buffer, append_value}
use warhead_discord.Opcodes.{AuthResponseCode, code_value, server_send_auth_response}
use warhead_discord.DiscordSocket.{Packet, Peer, send_packet}

-- The header that goes in front of a packet; its size is a uint32.
abbrev pub header_of : Packet → List ℕ
header_of packet = server_header ((length packet.payload + 2) % 2 ^ 32) packet.opcode

-- The two writes of a packet into a buffer.
unfoldable pub write_packet : MessageBuffer → Packet → Result MessageBuffer
write_packet buffer packet = do
  headed ← write buffer (header_of packet)
  if length packet.payload == 0 then ok headed else write headed packet.payload

-- The write queue, oldest buffer first, and the buffer that is filled now.
unfoldable pub pack_packet :
    ℕ → List MessageBuffer × MessageBuffer → Packet → Result (List MessageBuffer × MessageBuffer)
unfolding write_packet
pack_packet send_buffer_size (queue, buffer) packet = do
  let need = length packet.payload + header_length
  let (queue', buffer') =
      if ltb (remaining_space buffer) need
      then (queue ++ buffer ∷ [], resize_buffer buffer send_buffer_size)
      else (queue, buffer)
  if leb need (remaining_space buffer')
      then (do filled ← write_packet buffer' packet; ok (queue', filled))
      else do filled ← write_packet (sized need) packet; ok (queue' ++ filled ∷ [], buffer')

unfoldable pub pack_all :
    ℕ
    → List Packet
    → List MessageBuffer × MessageBuffer
    → Result (List MessageBuffer × MessageBuffer)
unfolding pack_packet
pack_all send_buffer_size [] state = ok state
pack_all send_buffer_size (packet ∷ packets) state =
    pack_packet send_buffer_size state packet >>= pack_all send_buffer_size packets

-- What follows the loop.
abbrev pub flush : List MessageBuffer × MessageBuffer → List MessageBuffer
flush (queue, buffer) = if has_active_size buffer then queue ++ buffer ∷ [] else queue

-- The write queue after an update, and the peer, whose packets are all taken.
unfoldable pub update_queue : ℕ → Peer → List MessageBuffer → Result (Peer × List MessageBuffer)
unfolding pack_all
update_queue send_buffer_size p queue = do
  state ← pack_all send_buffer_size p.buffer_queue (queue, sized send_buffer_size)
  ok (record p { buffer_queue = [] }, flush state)

unfoldable pub send_auth_response_error : Peer → AuthResponseCode → Result Peer
send_auth_response_error p code = do
  body ← append_value 1 new_buffer (code_value code)
  ok (send_packet p (record { opcode = server_send_auth_response; payload = body.storage }))
