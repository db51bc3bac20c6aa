-- ===== src/Packets/Total.antt =====
-- The reads of the typed packets return or throw an exception that is caught, on every body.
use warhead_discord.Prelude.{
  ℕ, zero, suc, ◌+◌, ◌^◌, ◌≤◌, ◌<◌, ◌≡◌, List, [], ◌∷◌, ◌++◌, Bool, Bool-cases, inl, inr, ok,
  Result, ◌>>=◌, arith, length, ltb,
}
use warhead_discord.ByteBuffer.{ByteBuffer, read_string, read_bool}
use warhead_discord.ByteBuffer.Reads.{Holds, length-holds}
use warhead_discord.ByteBuffer.Caught.{
  IsCaught, returns, IsCaught-assoc, IsCaught-read_value, IsCaught-read_string, IsCaught-read_bool,
}
use warhead_discord.Opcodes.{client_send_hello, client_send_message, client_send_message_embed}
use warhead_discord.DiscordSocket.{Packet}
use warhead_discord.DiscordSocket.Handlers.Pings.{of_storage-Holds}
use warhead_discord.Packets.{
  EmbedField, client_packet, read_hello, read_send_message, read_embed_field, embed_loop,
  read_send_embed_message, hello_client, send_discord_message, send_discord_embed_message,
}

module _ (is_valid : List ℕ → Bool) where
  read_hello-IsCaught :
      {b : ByteBuffer} {xs : List ℕ} → Holds b xs → IsCaught (read_hello is_valid b)
  unfolding read_hello
  read_hello-IsCaught h = IsCaught-read_string is_valid _ h λ s c ys k _. returns _

  read_send_message-IsCaught :
      {b : ByteBuffer} {xs : List ℕ} → Holds b xs → IsCaught (read_send_message is_valid b)
  unfolding read_send_message
  read_send_message-IsCaught h =
      IsCaught-read_value 1 _ h (omega arith)
        λ t c ys k _. IsCaught-read_string is_valid _ k λ s d zs j _. returns _

  -- A round takes a byte at least.
  read_embed_field-IsCaught :
      {A : Type 0} {b : ByteBuffer} {xs : List ℕ} (f : EmbedField × ByteBuffer → Result A)
      → Holds b xs
      → ((e : EmbedField) (c : ByteBuffer) (ys : List ℕ)
          → Holds c ys
          → length ys + 1 ≤ length xs
          → IsCaught (f (e, c)))
      → IsCaught (read_embed_field is_valid b >>= f)
  unfolding read_embed_field
  read_embed_field-IsCaught {b = b} f h rest =
      IsCaught-assoc (read_string is_valid b)
        (λ (n, c1). read_string is_valid c1 >>= λ (v, c2).
          read_bool c2 >>= λ (i, c3). ok (record { name = n; value = v; is_inline = i }, c3))
        f
        (IsCaught-read_string is_valid _ h λ n c1 ys1 h1 le1.
          IsCaught-assoc (read_string is_valid c1)
            (λ (v, c2).
              read_bool c2 >>= λ (i, c3). ok (record { name = n; value = v; is_inline = i }, c3))
            f
            (IsCaught-read_string is_valid _ h1 λ v c2 ys2 h2 le2.
              IsCaught-assoc (read_bool c2)
                (λ (i, c3). ok (record { name = n; value = v; is_inline = i }, c3)) f
                (IsCaught-read_bool _ h2 λ i c3 ys3 h3 le3.
                  rest (record { name = n; value = v; is_inline = i }) c3 ys3 h3 (omega arith))))

  -- With fuel above the number of unread bytes the loop does not run out of it.
  embed_loop-IsCaught :
      {A : Type 0} (fuel i size : ℕ) (fields : List EmbedField) {b : ByteBuffer} {xs : List ℕ}
      (f : List EmbedField × ByteBuffer → Result A)
      → Holds b xs
      → length xs < fuel
      → ((es : List EmbedField) (c : ByteBuffer) (ys : List ℕ) → Holds c ys → IsCaught (f (es, c)))
      → IsCaught (embed_loop is_valid fuel i size fields b >>= f)
  unfolding embed_loop
  embed_loop-IsCaught zero i size fields f h k rest = absurd (omega arith)
  embed_loop-IsCaught (suc fuel) i size fields {b} {xs} f h k rest =
      elim (Bool-cases (ltb i size)) [
        | inr done ↦ rw (embed_loop, done) (rest fields b xs h)
        | inl more ↦
            rw (embed_loop, more)
              (IsCaught-assoc (read_embed_field is_valid b)
                (λ (field, c). embed_loop is_valid fuel (i + 1) size (fields ++ field ∷ []) c) f
                (read_embed_field-IsCaught _ h λ e c ys j le.
                  embed_loop-IsCaught fuel (i + 1) size (fields ++ e ∷ []) f j (omega arith) rest))
      ]

  read_send_embed_message-IsCaught :
      {b : ByteBuffer} {xs : List ℕ} → Holds b xs → IsCaught (read_send_embed_message is_valid b)
  unfolding read_send_embed_message
  read_send_embed_message-IsCaught {b} {xs} h =
      let all : length xs ≤ length b.storage = omega (arith, length-holds h) in
      IsCaught-read_value 1 _ h (omega arith) λ t c1 ys1 h1 l1.
        IsCaught-read_value 4 _ h1 (omega arith) λ c c2 ys2 h2 l2.
          IsCaught-read_string is_valid _ h2 λ title c3 ys3 h3 l3.
            IsCaught-read_string is_valid _ h3 λ d c4 ys4 h4 l4.
              IsCaught-read_value 8 _ h4 (omega arith) λ size c5 ys5 h5 l5.
                embed_loop-IsCaught (suc (length b.storage)) 0 size [] _ h5 (omega arith)
                  λ es c6 ys6 h6.
                    IsCaught-read_value 8 _ h6 (omega arith) λ v c7 ys7 h7 l7. returns _

  -- A packet of less than 2^63 bytes and of the opcode that the class expects is read, or its
  -- bytes are too few or no valid text, which throws an exception that is caught: no ASSERT fails
  -- and the loop over the fields ends, whatever number of fields the packet announces.
  pub typed_packets-IsCaught :
      (packet : Packet)
      → length packet.payload < 2 ^ 63
      → (packet.opcode ≡ client_send_hello → IsCaught (hello_client is_valid packet))
        × (packet.opcode ≡ client_send_message → IsCaught (send_discord_message is_valid packet))
        × (packet.opcode ≡ client_send_message_embed
            → IsCaught (send_discord_embed_message is_valid packet))
  unfolding hello_client send_discord_message send_discord_embed_message client_packet
  typed_packets-IsCaught packet small =
      let h = of_storage-Holds packet.payload small in
      (
        λ e. rw e (read_hello-IsCaught h),
        λ e. rw e (read_send_message-IsCaught h),
        λ e. rw e (read_send_embed_message-IsCaught h),
      )
