-- ===== src/ByteBuffer.antt =====
-- src/server/Server/Packets/ByteBuffer.h and ByteBuffer.cpp: the body of a packet. Values are stored
-- least significant byte first, so a little-endian host is modelled, where EndianConvert does
-- nothing. A signed value is its bit pattern. The capacity of the storage shows in no result and
-- is left out. An access outside of the storage, which the source leaves undefined, is a `fault`.
pub mod Reads
pub mod Writes
pub mod Strings
pub mod PackGuid
pub mod RoundTrip
pub mod Caught
use warhead_discord.Prelude.{
  ℕ, zero, suc, ◌+◌, ◌*◌, ◌/◌, ◌%◌, ◌^◌, ◌≡◌, Bool, true, false, not, ◌&&◌, List, [], ◌∷◌, ◌++◌, ok,
  err, Result, position, invalid_value, aborted, fault, require, ◌>>=◌, ◌>>◌, ltb, leb, ◌==◌,
  if◌then◌else◌, length, slice, blit, resize, add_size, to_le, of_le, ◌||◌,
}

pub record ByteBuffer : Type 0 where
  pub rpos : ℕ
  pub wpos : ℕ
  pub storage : List ℕ

-- The default constructor, and the one with a capacity.
abbrev pub new_buffer : ByteBuffer
new_buffer = record { rpos = 0; wpos = 0; storage = [] }

-- The constructor from a MessageBuffer, which takes over its whole storage.
abbrev pub of_storage : List ℕ → ByteBuffer
of_storage bytes = record { rpos = 0; wpos = 0; storage = bytes }

unfoldable pub size : ByteBuffer → ℕ
size b = length b.storage

unfoldable pub clear : ByteBuffer → ByteBuffer
clear b = record { rpos = 0; wpos = 0; storage = [] }

-- `append(uint8 const*, size_t)`: the three ASSERTs, the growth and the memcpy.
unfoldable pub append : ByteBuffer → List ℕ → Result ByteBuffer
append b src = do
  require (ltb 0 (length src)) aborted
  require (ltb (length b.storage) 10000000) aborted
  let new_size = add_size b.wpos (length src)
  let grown = if ltb (length b.storage) new_size then resize b.storage new_size 0 else b.storage
  require (leb (b.wpos + length src) (length grown)) fault
  ok (record b { wpos = new_size; storage = blit grown b.wpos src })

unfoldable pub put : ByteBuffer → ℕ → List ℕ → Result ByteBuffer
put b pos src = do
  require (leb (add_size pos (length src)) (length b.storage)) aborted
  require (ltb 0 (length src)) aborted
  require (leb (pos + length src) (length b.storage)) fault
  ok (record b { storage = blit b.storage pos src })

-- `append<T>` and `operator<<` of a T of `n` bytes.
unfoldable pub append_value : ℕ → ByteBuffer → ℕ → Result ByteBuffer
unfolding append
append_value n b value = append b (to_le n value)

unfoldable pub put_value : ℕ → ByteBuffer → ℕ → ℕ → Result ByteBuffer
unfolding put
put_value n b pos value = put b pos (to_le n value)

unfoldable pub append_bool : ByteBuffer → Bool → Result ByteBuffer
unfolding append_value
append_bool b value = append_value 1 b (if value then 1 else 0)

-- `operator<<(std::string_view)`.
unfoldable pub append_string : ByteBuffer → List ℕ → Result ByteBuffer
unfolding append_value
append_string b value = do
  written ← if length value == 0 then ok b else append b value
  append_value 1 written 0

-- `append(ByteBuffer const&)`; `contents()` throws on an empty storage.
unfoldable pub append_buffer : ByteBuffer → ByteBuffer → Result ByteBuffer
unfolding append
append_buffer b other = if other.wpos == 0 then ok b else do
  require (ltb 0 (length other.storage)) position
  require (leb other.wpos (length other.storage)) fault
  append b (slice 0 other.wpos other.storage)

-- The bytes that a checked read of `n` bytes at `pos` finds.
unfoldable pub bytes_at : ℕ → ℕ → ByteBuffer → Result (List ℕ)
bytes_at n pos b = do
  require (leb (add_size pos n) (length b.storage)) position
  require (leb (pos + n) (length b.storage)) fault
  ok (slice pos n b.storage)

-- `read<T>(size_t) const` for a T of `n` bytes.
unfoldable pub read_at : ℕ → ℕ → ByteBuffer → Result ℕ
unfolding bytes_at
read_at n pos b = do bytes ← bytes_at n pos b; ok (of_le bytes)

-- `read<T>()`, `operator>>`.
unfoldable pub read_value : ℕ → ByteBuffer → Result (ℕ × ByteBuffer)
unfolding read_at
read_value n b = do value ← read_at n b.rpos b; ok (value, record b { rpos = add_size b.rpos n })

-- `operator>>(bool&)` reads a `char`, which is signed on the hosts that are modelled.
unfoldable pub read_bool : ByteBuffer → Result (Bool × ByteBuffer)
unfolding read_value
read_bool b = do (value, rest) ← read_value 1 b; ok (ltb 0 value && ltb value 128, rest)

-- `read(uint8*, size_t)`.
unfoldable pub read_bytes : ℕ → ByteBuffer → Result (List ℕ × ByteBuffer)
unfolding bytes_at
read_bytes n b = do bytes ← bytes_at n b.rpos b; ok (bytes, record b { rpos = add_size b.rpos n })

unfoldable pub read_skip : ℕ → ByteBuffer → Result ByteBuffer
read_skip n b = do
  require (leb (add_size b.rpos n) (length b.storage)) position
  ok (record b { rpos = add_size b.rpos n })

-- The loop of `ReadCString`; a round reads one byte. The fuel is the number of unread bytes.
unfoldable pub cstring_loop : ℕ → ByteBuffer → List ℕ → Result (List ℕ × ByteBuffer)
unfolding read_value
cstring_loop zero b value = ok (value, b)
cstring_loop (suc fuel) b value = elim (ltb b.rpos (length b.storage)) [
  | false ↦ ok (value, b)
  | true ↦ read_value 1 b >>= λ (c, rest). elim (c == 0) [
    | true ↦ ok (value, rest)
    | false ↦ cstring_loop fuel rest (value ++ c ∷ [])
  ]
]

-- `utf8::is_valid` is the utf8cpp library's.
module _ (is_valid : List ℕ → Bool) where
  unfoldable pub read_cstring : Bool → ByteBuffer → Result (List ℕ × ByteBuffer)
  unfolding cstring_loop
  read_cstring require_valid_utf8 b = do
    (value, rest) ← cstring_loop (length b.storage) b []
    require (not require_valid_utf8 || is_valid value) invalid_value
    ok (value, rest)

  -- `operator>>(std::string&)`.
  unfoldable pub read_string : ByteBuffer → Result (List ℕ × ByteBuffer)
  unfolding read_cstring
  read_string b = read_cstring true b

-- The loop of `appendPackGUID`: the mask so far, and the bytes behind it. Eight rounds shift a
-- 64-bit value to 0. Bit `i` is not yet in the mask, so `|=` adds it.
unfoldable pub pack_loop : ℕ → ℕ → ℕ → ℕ → List ℕ → ℕ × List ℕ
pack_loop zero i guid mask bytes = (mask, bytes)
pack_loop (suc fuel) i guid mask bytes =
    let low = guid % 256 in
    let rest =
      pack_loop fuel (i + 1) (guid / 256) (if low == 0 then mask else mask + 2 ^ i)
        (if low == 0 then bytes else bytes ++ low ∷ []) in
    if guid == 0 then (mask, bytes) else rest

unfoldable pub append_pack_guid : ByteBuffer → ℕ → Result ByteBuffer
unfolding pack_loop append
append_pack_guid b guid = let (mask, bytes) = pack_loop 8 0 guid 0 [] in append b (mask ∷ bytes)

-- The loop of `readPackGUID`. Byte `i` of the value is still 0, so `|=` adds it.
unfoldable pub unpack_loop : ℕ → ℕ → ℕ → ℕ → ByteBuffer → Result (ℕ × ByteBuffer)
unfolding read_value
unpack_loop zero i mask guid b = ok (guid, b)
unpack_loop (suc rounds) i mask guid b = elim (mask / 2 ^ i % 2 == 0) [
  | true ↦ unpack_loop rounds (i + 1) mask guid b
  | false ↦
      require (leb (add_size b.rpos 1) (length b.storage)) position
      >> read_value 1 b
      >>= λ (bit, rest). unpack_loop rounds (i + 1) mask (guid + bit * 256 ^ i) rest
]

unfoldable pub read_pack_guid : ByteBuffer → Result (ℕ × ByteBuffer)
unfolding read_value unpack_loop
read_pack_guid b = do
  require (leb (add_size b.rpos 1) (length b.storage)) position
  (mask, rest) ← read_value 1 b
  unpack_loop 8 0 mask 0 rest
