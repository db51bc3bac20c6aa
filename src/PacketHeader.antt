-- ===== src/PacketHeader.antt =====
-- src/shared/DiscordPacketHeader.h, and the byte order that src/common/Utilities/ByteConverter.h gives it:
-- the size goes over the wire most significant byte first, the opcode the other way round.
use warhead_discord.Prelude.{
  ℕ, ◌/◌, ◌%◌, ◌^◌, ◌<◌, ◌≡◌, ap₂, Bool, ◌&&◌, List, [], ◌∷◌, ◌++◌, arith, leb, ltb, slice, of_le,
}

-- `ByteConverter::convert` swaps the bytes of a value end for end.
unfoldable pub convert : List ℕ → List ℕ
convert [] = []
convert (b ∷ bs) = convert bs ++ b ∷ []

-- The six bytes that DiscordServerPktHeader's constructor writes.
unfoldable pub server_header : ℕ → ℕ → List ℕ
server_header size cmd =
    (size / 2 ^ 24 % 256)
    ∷ (size / 2 ^ 16 % 256)
    ∷ (size / 2 ^ 8 % 256)
    ∷ (size % 256)
    ∷ (cmd % 256)
    ∷ (cmd / 2 ^ 8 % 256)
    ∷ []

abbrev pub header_length : ℕ
header_length = 6

pub record ClientHeader : Type 0 where
  pub size : ℕ
  pub cmd : ℕ

-- The packed struct on a little-endian host: a uint32 and a uint16 behind it, after
-- `EndianConvertReverse(size)`.
unfoldable pub client_header : List ℕ → ClientHeader
unfolding convert
client_header bytes = record {
  size = of_le (convert (slice 0 4 bytes));
  cmd = of_le (slice 4 2 bytes);
}

abbrev pub num_discord_code_handlers : ℕ
num_discord_code_handlers = 8

unfoldable pub is_valid_size : ClientHeader → Bool
is_valid_size h = leb 2 h.size && ltb h.size 10000

unfoldable pub is_valid_opcode : ClientHeader → Bool
is_valid_opcode h = ltb h.cmd num_discord_code_handlers

-- The two ends agree on the header: the client's struct reads every 32-bit size and 16-bit opcode
-- that the server's struct writes.
pub client_header-server_header :
    (size cmd : ℕ)
    → size < 2 ^ 32
    → cmd < 2 ^ 16
    → client_header (server_header size cmd) ≡ record { size = size; cmd = cmd }
unfolding client_header server_header of_le
client_header-server_header size cmd hs hc =
    ap₂ (λ s c. record { size = s; cmd = c }) (omega arith) (omega arith)
