-- ===== src/DiscordSocket/Reading/Delivery.antt =====
-- A logged-in client: its packets reach the queue of its session.
use warhead_discord.Prelude.{
  ℕ, ◌<◌, ◌≡◌, ◌≢◌, refl, ap, ◌∙◌, Bool, true, false, List, [], ◌∷◌, ◌++◌, ok, none, some,
  Option-cases, arith, append_assoc, append-nil, ◌==◌, subst, inl, inr,
}
use warhead_discord.Opcodes.{
  handler_at, opcode_table, client_send_ping, client_auth_session, initialize,
}
use warhead_discord.DiscordSocket.{Packet, Session, Peer, Connection}
use warhead_discord.DiscordSocket.Handlers.{handled, handle_packet, queue_packet}
use warhead_discord.DiscordSocket.Reading.{receive_all}
use warhead_discord.DiscordSocket.Reading.Machine.{in_header, running}
use warhead_discord.DiscordSocket.Reading.Chunks.{joined, FitBlocks}
use warhead_discord.DiscordSocket.Reading.OneRead.{IsReady, Outcome}
use warhead_discord.DiscordSocket.Reading.Frames.{
  IsFrame, AreFrames, frames, deliver_all, after_frame, receive_all-deliver_all,
}

-- A packet for the session: not one that the socket answers itself, and with a handler.
abbrev pub IsForSession : Packet → Type 0
IsForSession packet =
    (packet.opcode ≢ client_send_ping)
    × (packet.opcode ≢ client_auth_session)
    × (0 < packet.opcode)
    × IsFrame packet

abbrev pub AreForSession : List Packet → Type 0
AreForSession [] = Unit {0}
AreForSession (packet ∷ packets) = IsForSession packet × AreForSession packets

pub AreForSession-frames : (packets : List Packet) → AreForSession packets → AreFrames packets
AreForSession-frames [] f = tt
AreForSession-frames (packet ∷ packets) (f, fs) = (f.3, AreForSession-frames packets fs)

handler_exists : (opcode : ℕ) → 0 < opcode → opcode < 8 → handler_at opcode_table opcode ≢ none
unfolding handler_at initialize
handler_exists opcode l h = ground arith

abbrev pub queued : Peer → Session → List Packet → Peer
queued p s packets = record p { session = some (record s { recv_queue = s.recv_queue ++ packets }) }

queue_packet_lem :
    (p : Peer) (s : Session) (packet : Packet)
    → p.session ≡ some s
    → IsForSession packet
    → queue_packet p packet ≡ (handled, queued p s (packet ∷ []))
unfolding queue_packet
queue_packet_lem p s packet e f = elim (Option-cases (handler_at opcode_table packet.opcode)) [
  | inl missing ↦ absurd (handler_exists packet.opcode f.2 f.3.1 missing)
  | inr (handler, found) ↦ ground (arith, e, found)
]

module _ (is_valid : List ℕ → Bool) (clock : ℕ → ℕ) where
  handle_packet-session :
      (p : Peer) (s : Session) (packet : Packet)
      → p.session ≡ some s
      → IsForSession packet
      → handle_packet is_valid clock p packet ≡ ok (handled, queued p s (packet ∷ []))
  unfolding handle_packet
  handle_packet-session p s packet e f =
      let not_ping : (packet.opcode == client_send_ping) ≡ false = ground arith in
      let not_auth : (packet.opcode == client_auth_session) ≡ false = ground arith in
      rw (not_ping, not_auth) (ap ok (queue_packet_lem p s packet e f))

  queue_all :
      (p : Peer) (s : Session) (packets : List Packet)
      → p.session ≡ some s
      → AreForSession packets
      → deliver_all is_valid clock p packets ≡ running (in_header []) (queued p s packets)
  unfolding deliver_all
  queue_all p s [] e f = ground (arith, append-nil s.recv_queue)
  queue_all p s (packet ∷ packets) e (f, fs) =
      ap (after_frame is_valid clock (λ q. deliver_all is_valid clock q packets) (frames packets))
        (handle_packet-session p s packet e f)
      ∙ queue_all (queued p s (packet ∷ [])) (record s { recv_queue = s.recv_queue ++ packet ∷ [] })
          packets refl fs
      ∙ ap
          (λ ps.
            running (in_header []) (record p { session = some (record s { recv_queue = ps }) }))
          (append_assoc s.recv_queue (packet ∷ []) packets)

  -- On an open connection that is ready for a header and has a session: if the reads, each of a
  -- block at most, bring the bytes of some well-formed packets for the session (neither pings nor
  -- logins), then these packets are all queued there, whole and in the order of sending, in
  -- whatever pieces their bytes arrive; the socket then waits for more bytes, and nothing else of
  -- the connection's peer has changed.
  pub receive_all-session :
      (packets : List Packet) (chunks : List (List ℕ)) (c : Connection) (s : Session)
      → AreForSession packets
      → joined chunks ≡ frames packets
      → FitBlocks chunks
      → IsReady (in_header []) c
      → c.peer.session ≡ some s
      → (c' : Connection) × (receive_all is_valid clock chunks (true, c) ≡ ok (true, c'))
        × IsReady (in_header []) c'
        × (c'.peer ≡ queued c.peer s packets)
  receive_all-session packets chunks c s f e fits ready login =
      subst (λ r. Outcome r (receive_all is_valid clock chunks (true, c)))
        (queue_all c.peer s packets login f)
        (receive_all-deliver_all is_valid clock packets chunks c (AreForSession-frames packets f) e
          fits ready)
