-- ===== src/DiscordSession/Draining.antt =====
-- Updates of a session, one after the other, while its socket stays open.
use warhead_discord.Prelude.{
  ℕ, zero, suc, ◌+◌, ◌*◌, ◌≤◌, ◌≡◌, Bool, refl, ap, ap₂, ◌∙◌, true, inl, inr, Option-cases, List,
  [], ◌∷◌, ◌++◌, some, ok, Result, ◌>>=◌, arith, length, take, drop, drop-drop, take_add, take_all,
  drop_all,
}
use warhead_discord.Opcodes.{
  Handler, handle_hello, handle_send_message, handle_send_message_embed, handle_early_process,
  handle_server_side, handler_at, opcode_table,
}
use warhead_discord.DiscordSocket.{Packet, Session, Peer, is_open}
use warhead_discord.DiscordSession.{
  DiscordSession, BotCall, update, call_handler, call, handle_send_discord_message,
  handle_send_discord_embed_message, get_channel_id,
}
use warhead_discord.DiscordSession.Serving.{
  HasChannels, AreServed, asked_by, asked_by-append, calls_of, update_lem,
}

pub AreServed-drop : (n : ℕ) (queue : List Packet) → AreServed queue → AreServed (drop n queue)
AreServed-drop zero queue served = served
AreServed-drop (suc n) [] served = tt
AreServed-drop (suc n) (packet ∷ queue) (now, later) = AreServed-drop n queue later

module _ (is_valid : List ℕ → Bool) where
  -- The rounds of the server's loop that reach the session.
  unfoldable pub update_many : ℕ → DiscordSession → Result (List BotCall × DiscordSession)
  unfolding update
  update_many zero d = ok ([], d)
  update_many (suc rounds) d = do
    (alive, calls, d1) ← update is_valid d
    (more, d2) ← update_many rounds d1
    ok (calls ++ more, d2)

  abbrev pub with_queue : DiscordSession → List Packet → DiscordSession
  with_queue d queue = record d { state = record d.state { recv_queue = queue } }

  -- What a packet asks for does not depend on the others in the queue.
  call-with_queue :
      (handler : Handler) (s : Session) (left : List Packet) (packet : Packet)
      → call is_valid handler (record s { recv_queue = left }) packet
        ≡ call is_valid handler s packet
  unfolding call handle_send_discord_message handle_send_discord_embed_message get_channel_id
  call-with_queue handle_hello s left packet = refl
  call-with_queue handle_send_message s left packet = refl
  call-with_queue handle_send_message_embed s left packet = refl
  call-with_queue handle_early_process s left packet = refl
  call-with_queue handle_server_side s left packet = refl

  call_handler-with_queue :
      (s : Session) (left : List Packet) (packet : Packet)
      → call_handler is_valid (record s { recv_queue = left }) packet
        ≡ call_handler is_valid s packet
  unfolding call_handler
  call_handler-with_queue s left packet =
      elim (Option-cases (handler_at opcode_table packet.opcode)) [
        | inl none_there ↦ rw (call_handler, none_there) refl
        | inr (handler, there) ↦ rw (call_handler, there) (call-with_queue handler s left packet)
      ]

  asked_by-with_queue :
      (s : Session) (left queue : List Packet)
      → asked_by is_valid (record s { recv_queue = left }) queue ≡ asked_by is_valid s queue
  unfolding asked_by
  asked_by-with_queue s left [] = refl
  asked_by-with_queue s left (packet ∷ queue) =
      ap₂ (λ calls r. calls_of calls ++ r) (call_handler-with_queue s left packet)
        (asked_by-with_queue s left queue)

  update_open :
      (d : DiscordSession) (p : Peer)
      → d.socket ≡ some p
      → is_open p ≡ true
      → HasChannels d.state
      → AreServed d.state.recv_queue
      → update is_valid d
        ≡ ok (
          true,
          asked_by is_valid d.state (take 101 d.state.recv_queue),
          with_queue d (drop 101 d.state.recv_queue),
        )
  update_open d p there is_up channels served =
      rw (update_lem is_valid d p there channels served, is_up, there) refl

  update_many_lem :
      (rounds : ℕ) (d : DiscordSession) (p : Peer)
      → d.socket ≡ some p
      → is_open p ≡ true
      → HasChannels d.state
      → AreServed d.state.recv_queue
      → update_many rounds d
        ≡ ok (
          asked_by is_valid d.state (take (rounds * 101) d.state.recv_queue),
          with_queue d (drop (rounds * 101) d.state.recv_queue),
        )
  unfolding update_many asked_by
  update_many_lem zero d p there is_up channels served = refl
  update_many_lem (suc rounds) d p there is_up channels served =
      let q = d.state.recv_queue in
      let first = update_open d p there is_up channels served in
      let later =
        update_many_lem rounds (with_queue d (drop 101 q)) p there is_up channels
          (AreServed-drop 101 q served) in
      let n : suc rounds * 101 ≡ 101 + rounds * 101 = omega arith in
      let asked =
        ap (asked_by is_valid d.state) (take_add 101 (rounds * 101) q)
        ∙ asked_by-append is_valid d.state (take 101 q) (take (rounds * 101) (drop 101 q)) in
      rw (first, later, n, asked, asked_by-with_queue d.state (drop 101 q), drop-drop) refl

  -- While its socket stays open, enough updates of a session handle every packet of its queue,
  -- each exactly once and in the order of the queue, and leave the queue empty; 101 packets go
  -- into an update. The packets are those that the socket queues, of less than 2^63 bytes.
  pub update_many-drains :
      (rounds : ℕ) (d : DiscordSession) (p : Peer)
      → d.socket ≡ some p
      → is_open p ≡ true
      → HasChannels d.state
      → AreServed d.state.recv_queue
      → length d.state.recv_queue ≤ rounds * 101
      → update_many rounds d ≡ ok (asked_by is_valid d.state d.state.recv_queue, with_queue d [])
  update_many-drains rounds d p there is_up channels served enough =
      let q = d.state.recv_queue in
      rw
        (
          update_many_lem rounds d p there is_up channels served,
          take_all (rounds * 101) q enough,
          drop_all (rounds * 101) q enough,
        )
        refl
