-- ===== src/MessageBuffer.antt =====
-- src/common/Utilities/MessageBuffer.h: the byte buffer between a socket and its parser. The storage
-- is a list of bytes, and the positions are `size_t`. A memcpy or memmove that would leave the
-- storage, which the source does not define, ends in `fault`.
pub mod Laws
use warhead_discord.Prelude.{
  ℕ, ◌*◌, ◌/◌, ◌%◌, ◌≡◌, Bool, true, false, not, List, [], ok, err, Result, fault, require, ◌>>=◌,
  ◌>>◌, ltb, leb, ◌==◌, if◌then◌else◌, length, replicate, slice, blit, resize, add_size, sub_size,
  size_mod,
}

pub record MessageBuffer : Type 0 where
  pub wpos : ℕ
  pub rpos : ℕ
  pub storage : List ℕ

-- READ_BLOCK_SIZE of src/common/Define.h.
abbrev pub read_block_size : ℕ
read_block_size = 4096

abbrev pub sized : ℕ → MessageBuffer
sized initial_size = record { wpos = 0; rpos = 0; storage = replicate initial_size 0 }

unfoldable pub reset : MessageBuffer → MessageBuffer
reset b = record b { wpos = 0; rpos = 0 }

unfoldable pub resize_buffer : MessageBuffer → ℕ → MessageBuffer
resize_buffer b bytes = record b { storage = resize b.storage bytes 0 }

unfoldable pub read_completed : MessageBuffer → ℕ → MessageBuffer
read_completed b bytes = record b { rpos = add_size b.rpos bytes }

unfoldable pub write_completed : MessageBuffer → ℕ → MessageBuffer
write_completed b bytes = record b { wpos = add_size b.wpos bytes }

unfoldable pub active_size : MessageBuffer → ℕ
active_size b = sub_size b.wpos b.rpos

unfoldable pub remaining_space : MessageBuffer → ℕ
remaining_space b = sub_size (length b.storage) b.wpos

unfoldable pub has_active_size : MessageBuffer → Bool
unfolding active_size
has_active_size b = ltb 0 (active_size b)

unfoldable pub has_remaining_space : MessageBuffer → Bool
unfolding remaining_space
has_remaining_space b = ltb 0 (remaining_space b)

-- The bytes that a memcpy of `n` bytes from the read pointer reads.
unfoldable pub read_pointer : MessageBuffer → ℕ → Result (List ℕ)
read_pointer b n = do
  require (leb (add_size b.rpos n) (length b.storage)) fault
  ok (slice b.rpos n b.storage)

-- The storage after the unread bytes have been moved to its front.
unfoldable pub moved_to_front : MessageBuffer → Result (List ℕ)
unfolding active_size read_pointer
moved_to_front b = do unread ← read_pointer b (active_size b); ok (blit b.storage 0 unread)

-- Discards the inactive bytes.
unfoldable pub normalize : MessageBuffer → Result MessageBuffer
unfolding moved_to_front
normalize b = if b.rpos == 0 then ok b else do
  storage ← if b.rpos == b.wpos then ok b.storage else moved_to_front b
  ok (record { wpos = sub_size b.wpos b.rpos; rpos = 0; storage = storage })

unfoldable pub ensure_free_space : MessageBuffer → MessageBuffer
unfolding remaining_space resize_buffer
ensure_free_space b =
    if remaining_space b == 0 then resize_buffer b (length b.storage * 3 % size_mod / 2) else b

-- `Write` of the bytes `xs`.
unfoldable pub write : MessageBuffer → List ℕ → Result MessageBuffer
unfolding write_completed
write b xs = if length xs == 0 then ok b else do
  require (leb (add_size b.wpos (length xs)) (length b.storage)) fault
  ok (write_completed (record b { storage = blit b.storage b.wpos xs }) (length xs))

-- `Move`: the storage, and the buffer that is left behind.
unfoldable pub move : MessageBuffer → List ℕ × MessageBuffer
move b = (b.storage, record { wpos = 0; rpos = 0; storage = [] })
