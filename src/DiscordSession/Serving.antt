-- ===== src/DiscordSession/Serving.antt =====
-- `DiscordSession::Update`: which packets it handles, and that it always returns.
use warhead_discord.Prelude.{
  ℕ, zero, suc, ◌+◌, ◌^◌, ◌<◌, ◌≡◌, ◌≢◌, refl, sym, ap, ◌∙◌, Bool, true, false, inl, inr,
  Bool-cases, List, [], ◌∷◌, ◌++◌, none, some, ok, err, Result, arith, ltb, leb, ◌==◌,
  if◌then◌else◌, length, take, drop, append_assoc, append-nil,
}
use warhead_discord.ByteBuffer.Caught.{IsCaught, returns, out_of_bytes, not_valid, IsCaught-bind}
use warhead_discord.Opcodes.{handler_at, set_handler, validate_and_set, initialize, opcode_table}
use warhead_discord.DiscordSocket.{Packet, Session, Peer, is_open}
use warhead_discord.DiscordSocket.Login.{default_channels_count}
use warhead_discord.Packets.Total.{typed_packets-IsCaught}
use warhead_discord.DiscordSession.{
  DiscordSession, BotCall, channel_at, get_channel_id, handle_send_discord_message,
  handle_send_discord_embed_message, call, call_handler, catch_exception, update_loop, let_go,
  update, max_processed_packets,
}

channel_at-returns :
    (channels : List ℕ) (i : ℕ) → i < length channels → (c : ℕ) × (channel_at channels i ≡ ok c)
unfolding channel_at
channel_at-returns [] i h = absurd (omega arith)
channel_at-returns (c ∷ channels) zero h = (c, refl)
channel_at-returns (c ∷ channels) (suc i) h = channel_at-returns channels i (omega arith)

-- A session has the seven channels of its guild.
abbrev pub HasChannels : Session → Type 0
HasChannels s = length s.channels ≡ default_channels_count

pub get_channel_id-returns :
    (s : Session) (t : ℕ) → HasChannels s → (c : ℕ) × (get_channel_id s t ≡ ok c)
unfolding get_channel_id
get_channel_id-returns s t h =
    let some_channels : (length s.channels == 0) ≡ false = ground (arith, h) in
    elim (Bool-cases (leb default_channels_count t)) [
      | inl unknown ↦ (0, rw (some_channels, unknown) refl)
      | inr known ↦
          let (c, e) = channel_at-returns s.channels t (ground (arith, h)) in
          (c, rw (some_channels, known) e)
    ]

-- A packet as the socket queues it: with a handler for its opcode, and of less than 2^63 bytes.
pub record IsServed (packet : Packet) : Type 0 where
  pub has_handler : handler_at opcode_table packet.opcode ≢ none
  pub small : length packet.payload < 2 ^ 63

module _ (is_valid : List ℕ → Bool) (s : Session) (channels : HasChannels s) where
  handle_send_discord_message-IsCaught : (m : _) → IsCaught (handle_send_discord_message s m)
  unfolding handle_send_discord_message
  handle_send_discord_message-IsCaught m =
      let (c, e) = get_channel_id-returns s m.channel_type channels in rw e (returns _)

  handle_send_discord_embed_message-IsCaught :
      (m : _) → IsCaught (handle_send_discord_embed_message s m)
  unfolding handle_send_discord_embed_message
  handle_send_discord_embed_message-IsCaught m =
      let (c, e) = get_channel_id-returns s m.channel_type channels in rw e (returns _)

  call_handler-opcode :
      (opcode : ℕ) (payload : List ℕ)
      → handler_at opcode_table opcode ≢ none
      → length payload < 2 ^ 63
      → IsCaught (call_handler is_valid s (record { opcode = opcode; payload = payload }))
  unfolding call_handler call handler_at set_handler validate_and_set initialize
  call_handler-opcode zero payload h small = absurd (h refl)
  call_handler-opcode (suc zero) payload h small =
      IsCaught-bind _ (λ hello. ok [])
        ((typed_packets-IsCaught is_valid (record { opcode = 1; payload = payload }) small).0 refl)
        λ hello. returns []
  call_handler-opcode (suc (suc zero)) payload h small = returns []
  call_handler-opcode (suc (suc (suc zero))) payload h small =
      IsCaught-bind _ (handle_send_discord_message s)
        ((typed_packets-IsCaught is_valid (record { opcode = 3; payload = payload }) small).1 refl)
        handle_send_discord_message-IsCaught
  call_handler-opcode (suc (suc (suc (suc zero)))) payload h small =
      IsCaught-bind _ (handle_send_discord_embed_message s)
        ((typed_packets-IsCaught is_valid (record { opcode = 4; payload = payload }) small).2 refl)
        handle_send_discord_embed_message-IsCaught
  call_handler-opcode (suc (suc (suc (suc (suc zero))))) payload h small = returns []
  call_handler-opcode (suc (suc (suc (suc (suc (suc zero)))))) payload h small = returns []
  call_handler-opcode (suc (suc (suc (suc (suc (suc (suc zero))))))) payload h small = returns []
  call_handler-opcode (suc (suc (suc (suc (suc (suc (suc (suc n)))))))) payload h small =
      absurd (h refl)

  -- The handler of a packet that the socket queues, of less than 2^63 bytes, returns, or throws an
  -- exception that the update catches: there is a handler, no ASSERT fails, no access is outside of
  -- the body, no channel outside of the list, and the loop over the fields of an embed ends,
  -- whatever number of fields the packet announces. The session has its seven channels.
  pub call_handler-IsCaught :
      (packet : Packet) → IsServed packet → IsCaught (call_handler is_valid s packet)
  call_handler-IsCaught packet served =
      call_handler-opcode packet.opcode packet.payload served.has_handler served.small

-- What a handler asks of the bot; one that throws asks for nothing.
unfoldable pub calls_of : Result (List BotCall) → List BotCall
calls_of (ok calls) = calls
calls_of (err e) = []

catch_exception-IsCaught :
    (m : Result (List BotCall)) → IsCaught m → catch_exception m ≡ ok (calls_of m)
unfolding catch_exception calls_of
catch_exception-IsCaught m (returns a) = refl
catch_exception-IsCaught m out_of_bytes = refl
catch_exception-IsCaught m not_valid = refl

abbrev pub AreServed : List Packet → Type 0
AreServed [] = Unit {0}
AreServed (packet ∷ queue) = IsServed packet × AreServed queue

module _ (is_valid : List ℕ → Bool) where
  -- What the packets ask of the bot, in their order.
  unfoldable pub asked_by : Session → List Packet → List BotCall
  unfolding calls_of
  asked_by s [] = []
  asked_by s (packet ∷ queue) = calls_of (call_handler is_valid s packet) ++ asked_by s queue

  pub asked_by-append :
      (s : Session) (xs ys : List Packet) → asked_by s (xs ++ ys) ≡ asked_by s xs ++ asked_by s ys
  unfolding asked_by
  asked_by-append s [] ys = refl
  asked_by-append s (x ∷ xs) ys =
      ap (λ r. calls_of (call_handler is_valid s x) ++ r) (asked_by-append s xs ys)
      ∙ sym (append_assoc (calls_of (call_handler is_valid s x)) (asked_by s xs) (asked_by s ys))

  -- With `n` packets processed the loop takes 101 - n more, if there are so many.
  update_loop_lem :
      (s : Session) (queue : List Packet) (n room : ℕ)
      → HasChannels s
      → AreServed queue
      → n + room ≡ max_processed_packets
      → update_loop is_valid s queue n
        ≡ ok (asked_by s (take (suc room) queue), drop (suc room) queue)
  unfolding update_loop asked_by
  update_loop_lem s [] n room channels served e = refl
  update_loop_lem s (packet ∷ queue) n zero channels (now, later) e =
      let full : ltb max_processed_packets (n + 1) ≡ true = ground arith in
      let caught =
        catch_exception-IsCaught _ (call_handler-IsCaught is_valid s channels packet now) in
      rw (caught, full)
        (ap (λ r. ok (r, queue)) (sym (append-nil (calls_of (call_handler is_valid s packet)))))
  update_loop_lem s (packet ∷ queue) n (suc room) channels (now, later) e =
      let more : ltb max_processed_packets (n + 1) ≡ false = ground arith in
      let caught =
        catch_exception-IsCaught _ (call_handler-IsCaught is_valid s channels packet now) in
      let deeper = update_loop_lem s queue (n + 1) room channels later (omega arith) in
      rw (caught, more, deeper) refl

  -- The session behind an update: without its first 101 packets, and without a socket that is not
  -- open any more.
  abbrev pub updated : DiscordSession → Peer → DiscordSession
  updated d p = record d {
    state = record d.state { recv_queue = drop 101 d.state.recv_queue };
    socket = if is_open p then some p else none;
  }

  -- An update of a session always returns: it handles the first 101 packets of the queue, in their
  -- order, leaves the others as they were, and keeps the session if and only if its socket is open.
  -- The packets are those that the socket queues, of less than 2^63 bytes.
  pub update_lem :
      (d : DiscordSession) (p : Peer)
      → d.socket ≡ some p
      → HasChannels d.state
      → AreServed d.state.recv_queue
      → update is_valid d
        ≡ ok (is_open p, asked_by d.state (take 101 d.state.recv_queue), updated d p)
  unfolding update let_go
  update_lem d p there channels served =
      let loop = update_loop_lem d.state d.state.recv_queue 0 100 channels served (omega arith) in
      rw (there, loop)
        (elim (Bool-cases (is_open p)) [
          | inl e ↦ rw (let_go, e) refl
          | inr e ↦ rw (let_go, e) refl
        ])

  -- Without a socket no packet is handled, and the session is given up.
  pub update_alone : (d : DiscordSession) → d.socket ≡ none → update is_valid d ≡ ok (false, [], d)
  unfolding update let_go
  update_alone d gone = rw gone refl
