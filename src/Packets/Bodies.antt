-- ===== src/Packets/Bodies.antt =====
-- The typed packets read back what a client writes into their bodies.
use warhead_discord.Prelude.{
  ℕ, zero, suc, ◌+◌, ◌^◌, ◌≤◌, ◌<◌, ◌≡◌, refl, Bool, true, false, List, [], ◌∷◌, ◌++◌, ok, arith,
  length, ltb, to_le, length-append, append_assoc, append-nil, if◌then◌else◌,
}
use warhead_discord.ByteBuffer.{ByteBuffer, read_bool}
use warhead_discord.ByteBuffer.Reads.{Holds, advance, read_value-to_le, length-holds}
use warhead_discord.ByteBuffer.Strings.{HasNoZero, read_string-append, next_byte}
use warhead_discord.Opcodes.{client_send_message, client_send_message_embed}
use warhead_discord.DiscordSocket.Handlers.Pings.{of_storage-Holds}
use warhead_discord.Packets.{
  EmbedField, SendDiscordMessage, SendDiscordEmbedMessage, client_packet, read_send_message,
  read_embed_field, embed_loop, read_send_embed_message, send_discord_message,
  send_discord_embed_message,
}

-- The bytes of the fields, with `rest` behind them.
unfoldable pub fields_then : List EmbedField → List ℕ → List ℕ
fields_then [] rest = rest
fields_then (e ∷ es) rest =
    e.name ++ 0 ∷ (e.value ++ 0 ∷ (if e.is_inline then 1 else 0) ∷ fields_then es rest)

abbrev pub message_body : SendDiscordMessage → List ℕ
message_body m = to_le 1 m.channel_type ++ (m.context ++ 0 ∷ [])

unfoldable pub embed_body : SendDiscordEmbedMessage → List ℕ
unfolding fields_then
embed_body m =
    to_le 1 m.channel_type
    ++ (to_le 4 m.color
        ++ (m.title
            ++ 0
              ∷ (m.description
                  ++ 0
                    ∷ (to_le 8 (length m.embed_fields)
                        ++ fields_then m.embed_fields (to_le 8 m.timestamp ++ [])))))

read_bool-flag :
    {b : ByteBuffer} (flag : Bool) (rest : List ℕ)
    → Holds b ((if flag then 1 else 0) ∷ rest)
    → (read_bool b ≡ ok (flag, advance 1 b)) × Holds (advance 1 b) rest
unfolding read_bool
read_bool-flag true rest h = let (e, k) = next_byte 1 rest h in (rw e refl, k)
read_bool-flag false rest h = let (e, k) = next_byte 0 rest h in (rw e refl, k)

module _ (is_valid : List ℕ → Bool) where
  -- A text that a client can send in a packet.
  abbrev pub IsText : List ℕ → Type 0
  IsText s = HasNoZero s × (is_valid s ≡ true)

  abbrev pub AreTexts : List EmbedField → Type 0
  AreTexts [] = Unit {0}
  AreTexts (e ∷ es) = IsText e.name × IsText e.value × AreTexts es

  -- A message within the ranges of its fields is read back as it was written.
  pub send_discord_message-message_body :
      (m : SendDiscordMessage)
      → m.channel_type < 256
      → IsText m.context
      → length (message_body m) < 2 ^ 63
      → send_discord_message is_valid
          (record { opcode = client_send_message; payload = message_body m })
        ≡ ok m
  unfolding send_discord_message client_packet read_send_message
  send_discord_message-message_body m t (nz, valid) small =
      let h = of_storage-Holds (message_body m) small in
      let (e1, h1) = read_value-to_le 1 m.channel_type (m.context ++ 0 ∷ []) t h in
      let (e2, h2) = read_string-append is_valid m.context [] nz valid h1 in rw (e1, e2) refl

  read_embed_field-fields_then :
      (e : EmbedField) (es : List EmbedField) (rest : List ℕ) {b : ByteBuffer}
      → IsText e.name
      → IsText e.value
      → Holds b (fields_then (e ∷ es) rest)
      → (c : ByteBuffer) × (read_embed_field is_valid b ≡ ok (e, c)) × Holds c (fields_then es rest)
  unfolding fields_then read_embed_field
  read_embed_field-fields_then e es rest (nz1, v1) (nz2, v2) h =
      let (e1, h1) = read_string-append is_valid e.name _ nz1 v1 h in
      let (e2, h2) = read_string-append is_valid e.value _ nz2 v2 h1 in
      let (e3, h3) = read_bool-flag e.is_inline (fields_then es rest) h2 in
      (_, rw (e1, e2, e3) refl, h3)

  embed_loop-fields_then :
      (fuel i size : ℕ) (fields es : List EmbedField) (rest : List ℕ) {b : ByteBuffer}
      → AreTexts es
      → i + length es ≡ size
      → length es < fuel
      → Holds b (fields_then es rest)
      → (c : ByteBuffer) × (embed_loop is_valid fuel i size fields b ≡ ok (fields ++ es, c))
        × Holds c rest
  unfolding embed_loop fields_then
  embed_loop-fields_then zero i size fields es rest texts e k h = absurd (omega arith)
  embed_loop-fields_then (suc fuel) i size fields [] rest {b} texts e k h =
      let done : ltb i size ≡ false = ground arith in (b, rw (embed_loop, done, append-nil) refl, h)
  embed_loop-fields_then (suc fuel) i size fields (x ∷ es) rest {b} (t1, t2, texts) e k h =
      let more : ltb i size ≡ true = ground arith in
      let (c, read, h1) = read_embed_field-fields_then x es rest t1 t2 h in
      let (d, deeper, h2) =
        embed_loop-fields_then fuel (i + 1) size (fields ++ x ∷ []) es rest texts (omega arith)
          (omega arith) h1 in
      (d, rw (embed_loop, more, read, deeper, append_assoc fields (x ∷ []) es) refl, h2)

  length-fields_then :
      (es : List EmbedField) (rest : List ℕ) → length es ≤ length (fields_then es rest)
  unfolding fields_then
  length-fields_then [] rest = omega arith
  length-fields_then (e ∷ es) rest = omega (
    arith,
    length-fields_then es rest,
    length-append e.name
        (0 ∷ (e.value ++ 0 ∷ (if e.is_inline then 1 else 0) ∷ fields_then es rest)),
    length-append e.value (0 ∷ (if e.is_inline then 1 else 0) ∷ fields_then es rest),
  )

  -- An embed within the ranges of its fields is read back as it was written, with all its fields
  -- in their order, however many they are.
  pub send_discord_embed_message-embed_body :
      (m : SendDiscordEmbedMessage)
      → m.channel_type < 256
      → m.color < 2 ^ 32
      → m.timestamp < 2 ^ 64
      → m.embed_fields_size ≡ length m.embed_fields
      → IsText m.title
      → IsText m.description
      → AreTexts m.embed_fields
      → length (embed_body m) < 2 ^ 63
      → send_discord_embed_message is_valid
          (record { opcode = client_send_message_embed; payload = embed_body m })
        ≡ ok m
  unfolding send_discord_embed_message client_packet read_send_embed_message embed_body
  send_discord_embed_message-embed_body m ty co ti size (tz, tv) (dz, dv) texts small =
      let h = of_storage-Holds (embed_body m) small in
      let (e1, h1) = read_value-to_le 1 m.channel_type _ ty h in
      let (e2, h2) = read_value-to_le 4 m.color _ co h1 in
      let (e3, h3) = read_string-append is_valid m.title _ tz tv h2 in
      let (e4, h4) = read_string-append is_valid m.description _ dz dv h3 in
      let behind = fields_then m.embed_fields (to_le 8 m.timestamp ++ []) in
      let room : length m.embed_fields ≤ length (embed_body m) = omega (
        arith,
        length-holds h4,
        length-append (to_le 8 (length m.embed_fields)) behind,
        length-fields_then m.embed_fields (to_le 8 m.timestamp ++ []),
      ) in
      let (e5, h5) = read_value-to_le 8 (length m.embed_fields) _ (omega (arith, small)) h4 in
      let (c, e6, h6) =
        embed_loop-fields_then (suc (length (embed_body m))) 0 (length m.embed_fields) []
          m.embed_fields (to_le 8 m.timestamp ++ []) texts (omega arith) (omega (arith, room)) h5 in
      let (e7, h7) = read_value-to_le 8 m.timestamp [] ti h6 in
      rw (e1, e2, e3, e4, e5, e6, e7, size) refl
