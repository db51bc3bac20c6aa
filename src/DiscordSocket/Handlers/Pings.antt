-- ===== src/DiscordSocket/Handlers/Pings.antt =====
-- Pings: the limit on fast ones, the answer, and what a malformed one does.
use warhead_discord.Prelude.{
  ℕ, ◌+◌, ◌-◌, ◌^◌, ◌≤◌, ◌<◌, ◌≡◌, ◌≢◌, ◌↔◌, refl, ap, ◌∙◌, Bool, true, false, List, [], ◌∷◌, ◌++◌,
  none, some, ok, err, position, Result, arith, length, length-append, ltb, if◌then◌else◌, to_le,
  length-to_le, Bool-cases, inl, inr, length-drop, Option-cases,
}
use warhead_discord.ByteBuffer.{ByteBuffer, of_storage, new_buffer}
use warhead_discord.ByteBuffer.Reads.{
  Holds, read_value-to_le, read_value_short, read_value_lem, advance-Holds,
}
use warhead_discord.ByteBuffer.Writes.{append_value_lem}
use warhead_discord.Opcodes.{client_send_ping, server_send_pong}
use warhead_discord.DiscordSocket.{Session, Peer, send_packet, is_open}
use warhead_discord.DiscordSocket.Handlers.{
  handled, refused, handle_packet, handle_ping, check_ping_speed, answer_ping,
  catch_buffer_exception,
}

-- As long as the counter of fast pings does not wrap around: a ping kicks the client exactly when
-- it has a session, was seen before, comes less than ten seconds after the last ping, and at
-- least five such fast pings went before it.
pub check_ping_speed-kicks :
    (now : ℕ) (p : Peer)
    → p.over_speed_pings < 2 ^ 32 - 1
    → ((check_ping_speed now p).0 ≡ true) ↔ (
        (p.session ≢ none)
        × (p.last_ping_time ≢ 0)
        × (now - p.last_ping_time < 10000000000)
        × (5 ≤ p.over_speed_pings))
unfolding check_ping_speed
check_ping_speed-kicks now p small = elim (Option-cases p.session) [
  | inl nobody ↦ (λ h. ground (arith, nobody), λ h. absurd (h.0 nobody))
  | inr (s, somebody) ↦ (
    λ h. (
      λ e. cc (e, somebody),
      λ e. ground (arith, somebody),
      ground (arith, somebody),
      ground (arith, somebody),
    ),
    λ h. ground (arith, somebody, h.1),
  )
]

pub of_storage-Holds : (xs : List ℕ) → length xs < 2 ^ 63 → Holds (of_storage xs) xs
of_storage-Holds xs h = record { inside = omega arith; small = h; holds = refl }

module _ (is_valid : List ℕ → Bool) (clock : ℕ → ℕ) where
  -- The peer when its clock has been read, and the verdict on the speed of the ping.
  abbrev pub timed : Peer → Peer
  timed p = record p { clock_reads = p.clock_reads + 1 }

  abbrev pub after_check : ℕ → ℕ → Bool × Peer → Result (Bool × Peer)
  after_check time latency (kicked, p) =
      if kicked then ok (false, p) else answer_ping time latency p

  handle_ping_lem :
      (p : Peer) {b : ByteBuffer} (time latency : ℕ) (rest : List ℕ)
      → time < 2 ^ 64
      → latency < 2 ^ 64
      → Holds b (to_le 8 time ++ (to_le 8 latency ++ rest))
      → handle_ping clock p b
        ≡ after_check time latency (check_ping_speed (clock p.clock_reads) (timed p))
  unfolding handle_ping
  handle_ping_lem p {b} time latency rest ht hl h =
      let (first, left) = read_value-to_le 8 time (to_le 8 latency ++ rest) ht h in
      let (second, _) = read_value-to_le 8 latency rest hl left in rw (first, second)

  handle_ping-short :
      (p : Peer) {b : ByteBuffer} {xs : List ℕ}
      → Holds b xs
      → length xs < 16
      → handle_ping clock p b ≡ err position
  unfolding handle_ping
  handle_ping-short p {b} {xs} h short = elim (Bool-cases (ltb (length xs) 8)) [
    | inl none_whole ↦ rw (read_value_short h 8 (omega arith) (ground arith))
    | inr one_whole ↦
        let left = advance-Holds h 8 (ground arith) in
        rw (
          read_value_lem h 8 (ground arith),
          read_value_short left 8 (omega arith) (ground (arith, length-drop 8 xs)),
        )
  ]

  -- A ping of fewer than sixteen bytes is refused, and changes nothing.
  pub short_ping :
      (p : Peer) (payload : List ℕ)
      → length payload < 16
      → handle_packet is_valid clock p (record { opcode = client_send_ping; payload = payload })
        ≡ ok (refused, p)
  unfolding handle_packet catch_buffer_exception
  short_ping p payload short =
      rw (handle_ping-short p (of_storage-Holds payload (omega arith)) short)

-- The pong carries the time of the ping.
pub answer_ping_lem :
    (time latency : ℕ) (p : Peer) (s : Session)
    → p.session ≡ some s
    → is_open p ≡ true
    → answer_ping time latency p
      ≡ ok (
        true,
        record p {
          session = some (record s { latency = latency });
          buffer_queue =
              p.buffer_queue ++ record { opcode = server_send_pong; payload = to_le 8 time } ∷ [];
        },
      )
unfolding answer_ping send_packet is_open
answer_ping_lem time latency p s e o =
    let pong =
      append_value_lem {b = new_buffer} 7 time (record { at_end = refl; open_for = omega arith })
        (omega arith) in
    ground (arith, e, pong)

module _ (is_valid : List ℕ → Bool) (clock : ℕ → ℕ) where
  checked-session :
      (p : Peer)
      → ((check_ping_speed (clock p.clock_reads) (timed is_valid clock p)).1.session ≡ p.session)
        × ((check_ping_speed (clock p.clock_reads) (timed is_valid clock p)).1.buffer_queue
            ≡ p.buffer_queue)
        × (is_open (check_ping_speed (clock p.clock_reads) (timed is_valid clock p)).1 ≡ is_open p)
  unfolding check_ping_speed is_open
  checked-session p = ground arith

  -- A ping of two 64-bit values, with less than 2^32 bytes behind them, of a client with a
  -- session, on an open socket and not too fast, is handled: it sets the session's latency and
  -- queues one pong with the ping's time.
  pub ping_answered :
      (p : Peer) (s : Session) (time latency : ℕ) (rest : List ℕ)
      → p.session ≡ some s
      → is_open p ≡ true
      → time < 2 ^ 64
      → latency < 2 ^ 64
      → length rest < 2 ^ 32
      → (check_ping_speed (clock p.clock_reads) (timed is_valid clock p)).0 ≡ false
      → (q : Peer) × (handle_packet is_valid clock p (record {
        opcode = client_send_ping;
        payload = to_le 8 time ++ (to_le 8 latency ++ rest);
      })
          ≡ ok (handled, q))
        × (q.session ≡ some (record s { latency = latency }))
        × (q.buffer_queue
            ≡ p.buffer_queue ++ record { opcode = server_send_pong; payload = to_le 8 time } ∷ [])
  unfolding handle_packet catch_buffer_exception
  ping_answered p s time latency rest login opened ht hl hr slow =
      let checked = check_ping_speed (clock p.clock_reads) (timed is_valid clock p) in
      let (same_session, same_queue, same_open) = checked-session p in
      let payload = to_le 8 time ++ (to_le 8 latency ++ rest) in
      let size : length payload < 2 ^ 63 = omega (
        arith,
        length-append (to_le 8 time) (to_le 8 latency ++ rest),
        length-append (to_le 8 latency) rest,
        length-to_le 8 time,
        length-to_le 8 latency,
      ) in
      let handles =
        handle_ping_lem is_valid clock p time latency rest ht hl (of_storage-Holds payload size) in
      let answers =
        answer_ping_lem time latency checked.1 s (same_session ∙ login) (same_open ∙ opened) in
      (
        record checked.1 {
          session = some (record s { latency = latency });
          buffer_queue =
              checked.1.buffer_queue
              ++ record { opcode = server_send_pong; payload = to_le 8 time } ∷ [];
        },
        rw (handles, slow, answers),
        refl,
        ap (λ ps. ps ++ record { opcode = server_send_pong; payload = to_le 8 time } ∷ [])
            same_queue,
      )
