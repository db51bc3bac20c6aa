-- ===== src/Examples/Bodies.antt =====
-- Runs of the buffers, packet bodies and headers of src/server/Server.
use warhead_discord.Prelude.{ℕ, length-replicate, ◌≤◌, ◌≡◌, refl, [], ◌∷◌, ok, arith, length}
use warhead_discord.MessageBuffer.{MessageBuffer, sized, read_block_size}
use warhead_discord.ByteBuffer.{
  ByteBuffer, new_buffer, of_storage, append_string, read_string, append_pack_guid, read_pack_guid,
}
use warhead_discord.ByteBuffer.Reads.{Holds, advance}
use warhead_discord.ByteBuffer.RoundTrip.{
  IsDrained, read_string-append_string, read_pack_guid-append_pack_guid,
}
use warhead_discord.MessageBuffer.Laws.{IsValid}
use warhead_discord.DiscordSocket.Sending.Wire.{sized-Fills}
use warhead_discord.Examples.Shared.{any_string}

abbrev a_block : MessageBuffer
a_block = sized read_block_size

a_block-size : length a_block.storage ≡ read_block_size
a_block-size = length-replicate {A = ℕ} read_block_size 0

a_block-IsValid : IsValid a_block
a_block-IsValid = (sized-Fills read_block_size (omega arith)).valid

a_text-Holds : Holds (of_storage (72 ∷ 0 ∷ 5 ∷ [])) (72 ∷ 0 ∷ 5 ∷ [])
a_text-Holds = record { inside = omega arith; small = omega arith; holds = refl }

new_buffer-IsDrained : IsDrained new_buffer
new_buffer-IsDrained = record {
  writes = record { at_end = refl; open_for = omega arith };
  reads = refl;
}

read_string-append_string_example :
    (written : ByteBuffer) × (append_string new_buffer (72 ∷ 105 ∷ []) ≡ ok written)
    × (read_string any_string written ≡ ok (72 ∷ 105 ∷ [], advance 3 written))
read_string-append_string_example =
    read_string-append_string any_string (72 ∷ 105 ∷ []) (ground arith) refl (omega arith)
      new_buffer-IsDrained

read_pack_guid-append_pack_guid_example :
    (written after : ByteBuffer) × (append_pack_guid new_buffer 70000 ≡ ok written)
    × (read_pack_guid written ≡ ok (70000, after))
    × (length written.storage ≤ 9)
    × Holds after []
read_pack_guid-append_pack_guid_example =
    read_pack_guid-append_pack_guid 70000 (omega arith) new_buffer-IsDrained
