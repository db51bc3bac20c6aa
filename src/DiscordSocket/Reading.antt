-- ===== src/DiscordSocket/Reading.antt =====
-- `ReadHandler` and `ReadHeaderHandler`: the bytes that a read brought become packets. Header and
-- payload are collected in buffers of their own, since either may come in several pieces.
pub mod Machine
pub mod Collect
pub mod Headers
pub mod Payloads
pub mod Refine
pub mod Opened
pub mod OneRead
pub mod Chunks
pub mod Frames
pub mod Delivery
pub mod Safety
use warhead_discord.Prelude.{
  ℕ, zero, suc, ◌-◌, ◌<◌, min, Bool, true, false, not, ◌&&◌, List, [], ◌∷◌, ok, err, Result,
  aborted, fault, require, ◌>>=◌, ◌>>◌, ltb, ◌==◌, if◌then◌else◌, take, drop, slice, blit, to_le,
  of_le,
}
use warhead_discord.MessageBuffer.{
  MessageBuffer, active_size, remaining_space, has_active_size, has_remaining_space, read_pointer,
  read_completed, write, write_completed, reset, resize_buffer, move,
}
use warhead_discord.PacketHeader.{
  ClientHeader, client_header, is_valid_size, is_valid_opcode, header_length,
}
use warhead_discord.DiscordSocket.{Packet, Peer, Connection, close_socket, async_read, is_open}
use warhead_discord.DiscordSocket.Handlers.{
  ReadDataResult, handled, refused, waiting_for_query, handle_packet,
}

-- How the loop was left: with nothing left to read, by a `return` after CloseSocket, or by one
-- that waits for a query. The last is no end of the source's loop.
pub data LoopEnd : Type 0 where
  drained closed_by_error waits out_of_fuel : LoopEnd

-- Moves as many bytes from `packet` to `buffer` as both allow: the new `packet` and `buffer`.
unfoldable pub collect : MessageBuffer → MessageBuffer → Result (MessageBuffer × MessageBuffer)
collect packet buffer = do
  let n = min (active_size packet) (remaining_space buffer)
  bytes ← read_pointer packet n
  filled ← write buffer bytes
  ok (read_completed packet n, filled)

-- `ReadHeaderHandler`. The header in the buffer is changed in place: its size is turned to the
-- host's byte order, and made the payload's. (A refused header is read no more, so the change of
-- its bytes is left out.)
unfoldable pub read_header_handler : Connection → Result (Bool × Connection)
read_header_handler c = do
  require (active_size c.header_buffer == header_length) aborted
  bytes ← read_pointer c.header_buffer header_length
  let header = client_header bytes
  if is_valid_size header && is_valid_opcode header
      then ok (
        true,
        record c {
          header_buffer = record c.header_buffer {
            storage = blit c.header_buffer.storage c.header_buffer.rpos (to_le 4 (header.size - 2));
          };
          packet_buffer = resize_buffer c.packet_buffer (header.size - 2);
        },
      )
      else ok (false, c)

-- What the first half of a round ends in: a whole header, a `break` or a CloseSocket.
pub data HeaderState : Type 0 where
  whole partial malformed : HeaderState

unfoldable pub receive_header : Connection → Result (HeaderState × Connection)
receive_header c =
    if has_remaining_space c.header_buffer
    then (do
      (packet, header) ← collect c.read_buffer c.header_buffer
      let c' = record c { read_buffer = packet; header_buffer = header }
      if has_remaining_space header
          then (do require (not (has_active_size packet)) aborted; ok (partial, c'))
          else do
            (accepted, c'') ← read_header_handler c'
            ok (if accepted then whole else malformed, c''))
    else ok (whole, c)

-- The second half: whether the payload is complete.
unfoldable pub receive_payload : Connection → Result (Bool × Connection)
receive_payload c =
    if has_remaining_space c.packet_buffer
    then (do
      (packet, payload) ← collect c.read_buffer c.packet_buffer
      let c' = record c { read_buffer = packet; packet_buffer = payload }
      if has_remaining_space payload
          then (do require (not (has_active_size packet)) aborted; ok (false, c'))
          else ok (true, c'))
    else ok (true, c)

-- The opcode in the header buffer, which ReadDataHandler reads through its pointer.
unfoldable pub header_cmd : Connection → Result ℕ
header_cmd c = do bytes ← read_pointer c.header_buffer header_length; ok (of_le (slice 4 2 bytes))

module _ (is_valid : List ℕ → Bool) (clock : ℕ → ℕ) where
  -- `ReadDataHandler` takes the storage of the packet buffer away; the header is reset behind it.
  unfoldable pub dispatch : Connection → Result (ReadDataResult × Connection)
  dispatch c = do
    cmd ← header_cmd c
    let (payload, emptied) = move c.packet_buffer
    (result, peer) ←
        handle_packet is_valid clock c.peer (record { opcode = cmd; payload = payload })
    ok (
      result,
      record c { peer = peer; packet_buffer = emptied; header_buffer = reset c.header_buffer },
    )

  abbrev pub closing_end : Connection → Result (LoopEnd × Connection)
  closing_end c = ok (closed_by_error, record c { peer = close_socket c.peer })

  -- The end of a round. `next` is the loop's next round.
  finish_round :
      (Connection → Result (LoopEnd × Connection))
      → ReadDataResult × Connection
      → Result (LoopEnd × Connection)
  finish_round next (handled, c) = next c
  finish_round next (refused, c) = closing_end c
  finish_round next (waiting_for_query, c) = ok (waits, c)

  payload_round :
      (Connection → Result (LoopEnd × Connection))
      → Bool × Connection
      → Result (LoopEnd × Connection)
  unfolding finish_round
  payload_round next (false, c) = ok (drained, c)
  payload_round next (true, c) = dispatch c >>= finish_round next

  header_round :
      (Connection → Result (LoopEnd × Connection))
      → HeaderState × Connection
      → Result (LoopEnd × Connection)
  unfolding payload_round
  header_round next (partial, c) = ok (drained, c)
  header_round next (malformed, c) = closing_end c
  header_round next (whole, c) = receive_payload c >>= payload_round next

  -- The `while` loop of ReadHandler. A round reads a byte at least.
  unfoldable pub read_loop : ℕ → Connection → Result (LoopEnd × Connection)
  unfolding header_round
  read_loop zero c = ok (out_of_fuel, c)
  read_loop (suc fuel) c = elim (has_active_size c.read_buffer) [
    | false ↦ ok (drained, c)
    | true ↦ receive_header c >>= header_round (read_loop fuel)
  ]

  -- What follows the loop: the next read, unless the loop was left by a `return`.
  unfoldable pub after_loop : LoopEnd × Connection → Result (Bool × Connection)
  after_loop (drained, c) = async_read c
  after_loop (closed_by_error, c) = ok (false, c)
  after_loop (waits, c) = ok (false, c)
  after_loop (out_of_fuel, c) = err fault

  unfoldable pub read_handler : Connection → Result (Bool × Connection)
  unfolding after_loop
  read_handler c =
      if is_open c.peer
      then read_loop (suc (active_size c.read_buffer)) c >>= after_loop
      else ok (false, c)

  -- `ReadHandlerInternal`: the read that was under way failed, or brought `bytes` to the write
  -- pointer.
  unfoldable pub read_handler_internal : Bool → List ℕ → Connection → Result (Bool × Connection)
  unfolding read_handler
  read_handler_internal error bytes c =
      if error then ok (false, record c { peer = close_socket c.peer }) else do
        received ← write c.read_buffer bytes
        read_handler (record c { read_buffer = received })

  -- The reads that finish one after the other, as long as one is under way.
  unfoldable pub receive_all : List (List ℕ) → Bool × Connection → Result (Bool × Connection)
  unfolding read_handler_internal
  receive_all [] (reading, c) = ok (reading, c)
  receive_all (chunk ∷ chunks) (false, c) = ok (false, c)
  receive_all (chunk ∷ chunks) (true, c) =
      read_handler_internal false chunk c >>= receive_all chunks
