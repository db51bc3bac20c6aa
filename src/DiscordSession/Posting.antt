-- ===== src/DiscordSession/Posting.antt =====
-- From the body that a client writes to what is asked of the bot.
use warhead_discord.Prelude.{
  ℕ, zero, suc, ◌*◌, ◌^◌, ◌≤◌, ◌<◌, ◌≡◌, refl, sym, ap, ◌∙◌, Bool, true, false, inl, inr,
  Bool-cases, List, [], ◌∷◌, ◌++◌, some, ok, arith, length, leb, ◌==◌, if◌then◌else◌, map, subst,
  length-map, append-nil, append_assoc,
}
use warhead_discord.Opcodes.{
  client_send_message, client_send_message_embed, handler_at, set_handler, validate_and_set,
  initialize,
}
use warhead_discord.DiscordSocket.{Packet, Session, Peer, is_open}
use warhead_discord.DiscordSocket.Login.{default_channels_count}
use warhead_discord.Packets.{SendDiscordMessage, SendDiscordEmbedMessage, EmbedField}
use warhead_discord.Packets.Bodies.{
  message_body, embed_body, IsText, AreTexts, send_discord_message-message_body,
  send_discord_embed_message-embed_body,
}
use warhead_discord.DiscordSession.{
  DiscordSession, BotCall, EmbedCall, set_color, set_title, set_description, add_field,
  set_timestamp, add_fields, send_default_message, send_embed_message, channel_at, get_channel_id,
  handle_send_discord_message, handle_send_discord_embed_message, call, call_handler,
}
use warhead_discord.DiscordSession.Serving.{HasChannels, AreServed, asked_by, calls_of}
use warhead_discord.DiscordSession.Draining.{update_many, with_queue, update_many-drains}

-- The channel of a kind: 0 for a kind that there is not.
unfoldable pub channel_of : List ℕ → ℕ → ℕ
channel_of [] t = 0
channel_of (c ∷ channels) zero = c
channel_of (c ∷ channels) (suc t) = channel_of channels t

channel_of-outside : (channels : List ℕ) (t : ℕ) → length channels ≤ t → channel_of channels t ≡ 0
unfolding channel_of
channel_of-outside [] t h = refl
channel_of-outside (c ∷ channels) zero h = absurd (omega arith)
channel_of-outside (c ∷ channels) (suc t) h = channel_of-outside channels t (omega arith)

channel_at-channel_of :
    (channels : List ℕ) (t : ℕ)
    → t < length channels
    → channel_at channels t ≡ ok (channel_of channels t)
unfolding channel_of channel_at
channel_at-channel_of [] t h = absurd (omega arith)
channel_at-channel_of (c ∷ channels) zero h = refl
channel_at-channel_of (c ∷ channels) (suc t) h = channel_at-channel_of channels t (omega arith)

get_channel_id_lem :
    (s : Session) (t : ℕ) → HasChannels s → get_channel_id s t ≡ ok (channel_of s.channels t)
unfolding get_channel_id
get_channel_id_lem s t h =
    let some_channels : (length s.channels == 0) ≡ false = ground (arith, h) in
    elim (Bool-cases (leb default_channels_count t)) [
      | inl unknown ↦
          rw (some_channels, unknown, channel_of-outside s.channels t (ground (arith, h))) refl
      | inr known ↦
          rw (some_channels, known) (channel_at-channel_of s.channels t (ground (arith, h)))
    ]

-- What a client sends, written into packets.
pub data Sent : Type 0 where
  plain : SendDiscordMessage → Sent
  embed : SendDiscordEmbedMessage → Sent

abbrev pub packet_of : Sent → Packet
packet_of (plain m) = record { opcode = client_send_message; payload = message_body m }
packet_of (embed m) = record { opcode = client_send_message_embed; payload = embed_body m }

-- The embed is built of the client's color, texts, fields and time, in this order.
abbrev pub embed_calls : SendDiscordEmbedMessage → List EmbedCall
embed_calls m =
    set_color m.color
    ∷ set_title m.title
    ∷ set_description m.description
    ∷ (map (λ f. add_field f.name f.value f.is_inline) m.embed_fields
        ++ set_timestamp m.timestamp ∷ [])

add_fields-append :
    (calls : List EmbedCall) (fields : List EmbedField)
    → add_fields calls fields ≡ calls ++ map (λ f. add_field f.name f.value f.is_inline) fields
unfolding add_fields
add_fields-append calls [] = sym (append-nil calls)
add_fields-append calls (f ∷ fields) =
    add_fields-append (calls ++ add_field f.name f.value f.is_inline ∷ []) fields
    ∙ append_assoc calls (add_field f.name f.value f.is_inline ∷ [])
        (map (λ g. add_field g.name g.value g.is_inline) fields)

-- The bot is asked for one post in the channel of the kind, and for none where there is no channel.
abbrev pub post : List ℕ → Sent → List BotCall
post channels (plain m) =
    if channel_of channels m.channel_type == 0
    then []
    else send_default_message (channel_of channels m.channel_type) m.context ∷ []
post channels (embed m) =
    if channel_of channels m.channel_type == 0
    then []
    else send_embed_message (channel_of channels m.channel_type) (embed_calls m) ∷ []

abbrev pub post_all : List ℕ → List Sent → List BotCall
post_all channels [] = []
post_all channels (x ∷ xs) = post channels x ++ post_all channels xs

module _ (is_valid : List ℕ → Bool) where
  -- Within the ranges of the fields, with texts that are valid and have no zero byte.
  abbrev pub IsSendable : Sent → Type 0
  IsSendable (plain m) =
      (m.channel_type < 256) × IsText is_valid m.context × (length (message_body m) < 2 ^ 63)
  IsSendable (embed m) =
      (m.channel_type < 256)
      × (m.color < 2 ^ 32)
      × (m.timestamp < 2 ^ 64)
      × (m.embed_fields_size ≡ length m.embed_fields)
      × IsText is_valid m.title
      × IsText is_valid m.description
      × AreTexts is_valid m.embed_fields
      × (length (embed_body m) < 2 ^ 63)

  abbrev pub AreSendable : List Sent → Type 0
  AreSendable [] = Unit {0}
  AreSendable (x ∷ xs) = IsSendable x × AreSendable xs

  call_handler-post :
      (s : Session) (x : Sent)
      → HasChannels s
      → IsSendable x
      → call_handler is_valid s (packet_of x) ≡ ok (post s.channels x)
  unfolding call_handler call handler_at set_handler validate_and_set initialize
      handle_send_discord_message handle_send_discord_embed_message
  call_handler-post s (plain m) channels (t, text, small) =
      rw
        (
          send_discord_message-message_body is_valid m t text small,
          get_channel_id_lem s m.channel_type channels,
        )
        refl
  call_handler-post s (embed m) channels (ty, co, ti, size, title, desc, fields, small) =
      rw
        (
          send_discord_embed_message-embed_body is_valid m ty co ti size title desc fields small,
          get_channel_id_lem s m.channel_type channels,
          add_fields-append
              (set_color m.color ∷ set_title m.title ∷ set_description m.description ∷ [])
              m.embed_fields,
        )
        refl

  posts-AreServed : (xs : List Sent) → AreSendable xs → AreServed (map packet_of xs)
  unfolding handler_at set_handler validate_and_set initialize
  posts-AreServed [] tt = tt
  posts-AreServed (plain m ∷ xs) (one, more) =
      (record { has_handler = λ e. cc; small = one.2 }, posts-AreServed xs more)
  posts-AreServed (embed m ∷ xs) (one, more) =
      (record { has_handler = λ e. cc; small = one.7 }, posts-AreServed xs more)

  asked_by-post_all :
      (s : Session) (xs : List Sent)
      → HasChannels s
      → AreSendable xs
      → asked_by is_valid s (map packet_of xs) ≡ post_all s.channels xs
  unfolding asked_by calls_of
  asked_by-post_all s [] channels tt = refl
  asked_by-post_all s (x ∷ xs) channels (one, more) =
      rw (call_handler-post s x channels one, asked_by-post_all s xs channels more) refl

  -- For messages and embeds in the queue of a session, each within the ranges of its fields, enough
  -- updates ask the bot for one post each, in the order of the queue, for the channel of its kind,
  -- and hand over the text that the client wrote; one for a kind without a channel is dropped. The socket
  -- stays open, and 101 packets go into an update.
  pub update_many-posts :
      (rounds : ℕ) (d : DiscordSession) (p : Peer) (xs : List Sent)
      → d.socket ≡ some p
      → is_open p ≡ true
      → HasChannels d.state
      → AreSendable xs
      → d.state.recv_queue ≡ map packet_of xs
      → length xs ≤ rounds * 101
      → update_many is_valid rounds d ≡ ok (post_all d.state.channels xs, with_queue is_valid d [])
  update_many-posts rounds d p xs there is_up channels sendable queued enough =
      let served : AreServed d.state.recv_queue =
        subst AreServed (sym queued) (posts-AreServed xs sendable) in
      let size : length d.state.recv_queue ≡ length xs =
        ap length queued ∙ length-map packet_of xs in
      update_many-drains is_valid rounds d p there is_up channels served (omega (arith, size))
      ∙ ap (λ calls. ok (calls, with_queue is_valid d []))
          (ap (asked_by is_valid d.state) queued ∙ asked_by-post_all d.state xs channels sendable)
