-- ===== src/Packets.antt =====
-- src/server/Server/Packets: the typed packets that a session reads out of the packets of its
-- queue. `is_valid` is `utf8::is_valid`.
pub mod Bodies
pub mod Total
use warhead_discord.Prelude.{
  ℕ, zero, suc, ◌+◌, Bool, true, false, List, [], ◌∷◌, ◌++◌, ok, err, Result, aborted, fault,
  require, ◌>>=◌, ◌>>◌, ltb, leb, ◌==◌, length,
}
use warhead_discord.ByteBuffer.{ByteBuffer, of_storage, read_value, read_string, read_bool}
use warhead_discord.Opcodes.{client_send_hello, client_send_message, client_send_message_embed}
use warhead_discord.DiscordSocket.{Packet}

pub record EmbedField : Type 0 where
  pub name : List ℕ
  pub value : List ℕ
  pub is_inline : Bool

pub record HelloClient : Type 0 where
  pub message : List ℕ

pub record SendDiscordMessage : Type 0 where
  pub channel_type : ℕ
  pub context : List ℕ

pub record SendDiscordEmbedMessage : Type 0 where
  pub channel_type : ℕ
  pub color : ℕ
  pub title : List ℕ
  pub description : List ℕ
  pub embed_fields_size : ℕ
  pub timestamp : ℕ
  pub embed_fields : List EmbedField

-- The constructor of a ClientPacket, which takes over the body of a packet of the expected opcode.
unfoldable pub client_packet : ℕ → Packet → Result ByteBuffer
client_packet expected_opcode packet = do
  require (packet.opcode == expected_opcode) aborted
  ok (of_storage packet.payload)

module _ (is_valid : List ℕ → Bool) where
  unfoldable pub read_hello : ByteBuffer → Result HelloClient
  unfolding read_string
  read_hello b = do (message, rest) ← read_string is_valid b; ok (record { message = message })

  unfoldable pub read_send_message : ByteBuffer → Result SendDiscordMessage
  unfolding read_value read_string
  read_send_message b = do
    (channel_type, b1) ← read_value 1 b
    (context, b2) ← read_string is_valid b1
    ok (record { channel_type = channel_type; context = context })

  -- A round of the loop.
  unfoldable pub read_embed_field : ByteBuffer → Result (EmbedField × ByteBuffer)
  unfolding read_string read_bool
  read_embed_field b = do
    (name, b1) ← read_string is_valid b
    (value, b2) ← read_string is_valid b1
    (is_inline, b3) ← read_bool b2
    ok (record { name = name; value = value; is_inline = is_inline }, b3)

  -- The loop over the fields. A round takes a byte at least, so fuel above the number of unread
  -- bytes is enough; running out of it would be a `fault`.
  unfoldable pub embed_loop :
      ℕ → ℕ → ℕ → List EmbedField → ByteBuffer → Result (List EmbedField × ByteBuffer)
  unfolding read_embed_field
  embed_loop zero i size fields b = err fault
  embed_loop (suc fuel) i size fields b = elim (ltb i size) [
    | false ↦ ok (fields, b)
    | true ↦ read_embed_field b >>= λ (field, rest).
        embed_loop fuel (i + 1) size (fields ++ field ∷ []) rest
  ]

  unfoldable pub read_send_embed_message : ByteBuffer → Result SendDiscordEmbedMessage
  unfolding read_value read_string embed_loop
  read_send_embed_message b = do
    (channel_type, b1) ← read_value 1 b
    (color, b2) ← read_value 4 b1
    (title, b3) ← read_string is_valid b2
    (description, b4) ← read_string is_valid b3
    (size, b5) ← read_value 8 b4
    (fields, b6) ← embed_loop (suc (length b.storage)) 0 size [] b5
    (timestamp, b7) ← read_value 8 b6
    ok (record {
      channel_type = channel_type;
      color = color;
      title = title;
      description = description;
      embed_fields_size = size;
      timestamp = timestamp;
      embed_fields = fields;
    })

  -- The three packets of the table's PacketHandlers: the constructor and `Read`.
  unfoldable pub hello_client : Packet → Result HelloClient
  unfolding client_packet read_hello
  hello_client packet = client_packet client_send_hello packet >>= read_hello

  unfoldable pub send_discord_message : Packet → Result SendDiscordMessage
  unfolding client_packet read_send_message
  send_discord_message packet = client_packet client_send_message packet >>= read_send_message

  unfoldable pub send_discord_embed_message : Packet → Result SendDiscordEmbedMessage
  unfolding client_packet read_send_embed_message
  send_discord_embed_message packet =
      client_packet client_send_message_embed packet >>= read_send_embed_message
