-- ===== src/DiscordSocket/Reading/Frames.antt =====
-- Whole packets on the wire. A client that sends packets has exactly these handled, in this order,
-- whatever pieces their bytes arrive in.
use warhead_discord.Prelude.{
  ℕ, zero, suc, ◌+◌, ◌-◌, ◌<◌, ◌≡◌, refl, ap, ◌∙◌, Bool, true, false, ◌&&◌, List, [], ◌∷◌, ◌++◌, ok,
  err, Result, arith, length, leb, subst,
}
use warhead_discord.PacketHeader.{
  server_header, client_header-server_header, is_valid_size, is_valid_opcode, header_length,
}
use warhead_discord.DiscordSocket.{Packet, Peer, Connection, close_socket}
use warhead_discord.DiscordSocket.Handlers.{
  ReadDataResult, handled, refused, waiting_for_query, handle_packet,
}
use warhead_discord.DiscordSocket.Reading.{receive_all}
use warhead_discord.DiscordSocket.Reading.Machine.{
  in_header, Run, running, closed_run, waiting, crashed, after_packet, deliver, in_body, begin,
  consume, consume-append, consume_closed, consume_crashed, consume_waiting, consume_header,
  consume_payload,
}
use warhead_discord.DiscordSocket.Reading.Chunks.{joined, FitBlocks, receive_all-Outcome}
use warhead_discord.DiscordSocket.Reading.OneRead.{IsReady, Outcome}

-- A packet that the protocol allows, and its bytes on the wire.
abbrev pub IsFrame : Packet → Type 0
IsFrame packet = (length packet.payload + 2 < 10000) × (packet.opcode < 8)

abbrev pub frame : Packet → List ℕ
frame packet = server_header (length packet.payload + 2) packet.opcode ++ packet.payload

abbrev pub frames : List Packet → List ℕ
frames [] = []
frames (packet ∷ packets) = frame packet ++ frames packets

abbrev pub AreFrames : List Packet → Type 0
AreFrames [] = Unit {0}
AreFrames (packet ∷ packets) = IsFrame packet × AreFrames packets

module _ (is_valid : List ℕ → Bool) (clock : ℕ → ℕ) where
  abbrev pub after_frame : (Peer → Run) → List ℕ → Result (ReadDataResult × Peer) → Run
  after_frame next rest (ok (handled, p)) = next p
  after_frame next rest (ok (refused, p)) = closed_run (close_socket p)
  after_frame next rest (ok (waiting_for_query, p)) = waiting p rest
  after_frame next rest (err e) = crashed e

  -- The packets handled one after the other, up to the first that is refused or has to wait.
  unfoldable pub deliver_all : Peer → List Packet → Run
  deliver_all p [] = running (in_header []) p
  deliver_all p (packet ∷ packets) =
      after_frame (λ q. deliver_all q packets) (frames packets)
        (handle_packet is_valid clock p packet)

  length-server_header : (size cmd : ℕ) → length (server_header size cmd) ≡ header_length
  unfolding server_header
  length-server_header size cmd = refl

  valid_header :
      (packet : Packet)
      → IsFrame packet
      → is_valid_size (record { size = length packet.payload + 2; cmd = packet.opcode })
          && is_valid_opcode (record { size = length packet.payload + 2; cmd = packet.opcode })
        ≡ true
  unfolding is_valid_size is_valid_opcode
  valid_header packet f = ground arith

  payload_frame :
      (p : Peer) (cmd need : ℕ) (payload : List ℕ)
      → length payload ≡ need
      → consume is_valid clock (in_body is_valid clock p cmd need []) payload
        ≡ deliver is_valid clock p cmd payload
  unfolding consume
  payload_frame p cmd zero [] e = refl
  payload_frame p cmd zero (b ∷ payload) e = absurd (omega arith)
  payload_frame p cmd (suc need) [] e = absurd (omega arith)
  payload_frame p cmd (suc need) (b ∷ payload) e =
      let more : leb (suc need) (length {A = ℕ} []) ≡ false = ground arith in
      rw more (
        consume_payload is_valid clock p cmd (suc need) [] (b ∷ payload) (omega arith)
          (omega arith))

  consume-frame :
      (p : Peer) (packet : Packet)
      → IsFrame packet
      → consume is_valid clock (running (in_header []) p) (frame packet)
        ≡ after_packet is_valid clock (handle_packet is_valid clock p packet)
  consume-frame p packet f =
      let n = length packet.payload in
      let need : n + 2 - 2 ≡ n = omega arith in
      consume-append is_valid clock (running (in_header []) p) (server_header (n + 2) packet.opcode)
        packet.payload
      ∙ ap (λ r. consume is_valid clock r packet.payload)
          (consume_header is_valid clock p [] (server_header (n + 2) packet.opcode) (omega arith)
              (omega (arith, length-server_header (n + 2) packet.opcode))
            ∙ ap (begin is_valid clock p)
                (client_header-server_header (n + 2) packet.opcode (omega arith) (omega arith))
            ∙ rw (valid_header packet f))
      ∙ ap
          (λ k. consume is_valid clock (in_body is_valid clock p packet.opcode k []) packet.payload)
          need
      ∙ payload_frame p packet.opcode n packet.payload refl

  after_frame-consume :
      (next : Peer → Run) (rest : List ℕ) (r : Result (ReadDataResult × Peer))
      → ((q : Peer) → consume is_valid clock (running (in_header []) q) rest ≡ next q)
      → consume is_valid clock (after_packet is_valid clock r) rest ≡ after_frame next rest r
  after_frame-consume next rest (ok (handled, p)) h = h p
  after_frame-consume next rest (ok (refused, p)) h =
      consume_closed is_valid clock (close_socket p) rest
  after_frame-consume next rest (ok (waiting_for_query, p)) h =
      consume_waiting is_valid clock p [] rest
  after_frame-consume next rest (err e) h = consume_crashed is_valid clock e rest

  consume-frames :
      (p : Peer) (packets : List Packet)
      → AreFrames packets
      → consume is_valid clock (running (in_header []) p) (frames packets) ≡ deliver_all p packets
  unfolding consume deliver_all
  consume-frames p [] f = refl
  consume-frames p (packet ∷ packets) (f, fs) =
      consume-append is_valid clock (running (in_header []) p) (frame packet) (frames packets)
      ∙ ap (λ r. consume is_valid clock r (frames packets)) (consume-frame p packet f)
      ∙ after_frame-consume (λ q. deliver_all q packets) (frames packets)
          (handle_packet is_valid clock p packet) (λ q. consume-frames q packets fs)

  -- Reassembly: on a connection that is ready for a header, reads of a block at most that
  -- together bring the bytes of some well-formed packets end as handling these packets one after
  -- the other does, in whatever pieces the bytes came.
  pub receive_all-deliver_all :
      (packets : List Packet) (chunks : List (List ℕ)) (c : Connection)
      → AreFrames packets
      → joined chunks ≡ frames packets
      → FitBlocks chunks
      → IsReady (in_header []) c
      → Outcome (deliver_all c.peer packets) (receive_all is_valid clock chunks (true, c))
  receive_all-deliver_all packets chunks c f e fits ready =
      subst (λ r. Outcome r (receive_all is_valid clock chunks (true, c)))
        (ap (consume is_valid clock (running (in_header []) c.peer)) e
          ∙ consume-frames c.peer packets f)
        (receive_all-Outcome is_valid clock chunks (in_header []) c ready fits)
