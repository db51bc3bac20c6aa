-- ===== src/Examples/Packets.antt =====
-- Runs of the typed packets of src/server/Server/Packets.
use warhead_discord.Prelude.{ℕ, ◌≡◌, refl, true, false, List, [], ◌∷◌, ok, arith, to_le}
use warhead_discord.Opcodes.{client_send_message_embed}
use warhead_discord.Packets.{SendDiscordEmbedMessage, send_discord_embed_message}
use warhead_discord.Packets.Bodies.{
  embed_body, fields_then, IsText, send_discord_embed_message-embed_body,
}
use warhead_discord.Examples.Shared.{any_string}

abbrev pub hi : List ℕ
hi = 72 ∷ 105 ∷ []

pub hi-IsText : IsText any_string hi
hi-IsText = (ground arith, refl)

abbrev pub two_fields : SendDiscordEmbedMessage
two_fields = record {
  channel_type = 2;
  color = 255;
  title = hi;
  description = hi;
  embed_fields_size = 2;
  timestamp = 1700000000;
  embed_fields =
      record { name = hi; value = hi; is_inline = true }
      ∷ record { name = hi; value = hi; is_inline = false }
      ∷ [];
}

send_discord_embed_message-embed_body_example :
    send_discord_embed_message any_string
      (record { opcode = client_send_message_embed; payload = embed_body two_fields })
    ≡ ok two_fields
unfolding embed_body fields_then to_le
send_discord_embed_message-embed_body_example =
    send_discord_embed_message-embed_body any_string two_fields (omega arith) (omega arith)
      (omega arith) refl hi-IsText hi-IsText (hi-IsText, hi-IsText, (hi-IsText, hi-IsText, tt))
      (omega arith)
