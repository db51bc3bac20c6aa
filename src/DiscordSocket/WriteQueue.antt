-- ===== src/DiscordSocket/WriteQueue.antt =====
-- src/shared/Network/Socket.h: the write queue, as it is built where WH_SOCKET_USE_IOCP is not set.
-- `os` stands for `write_some`: by the number of the call and the number of bytes that are offered,
-- what came of it. `wire_bytes` are the bytes that the operating system took, in their order.
pub mod Conservation
pub mod Drain
use warhead_discord.Prelude.{
  ℕ, zero, suc, ◌+◌, Bool, true, false, not, ◌&&◌, ◌||◌, List, [], ◌∷◌, ◌++◌, ltb, ◌==◌,
  if◌then◌else◌, length, slice,
}
use warhead_discord.MessageBuffer.{MessageBuffer, active_size, read_completed}
use warhead_discord.DiscordSocket.{Peer, close_socket}

-- An error that says to try again, any other error, or the number of bytes that were taken.
pub data WriteResult : Type 0 where
  would_block failed : WriteResult
  wrote : ℕ → WriteResult

pub record Outgoing : Type 0 where
  pub peer : Peer
  pub is_writing_async : Bool
  pub write_queue : List MessageBuffer
  pub write_calls : ℕ
  pub wire_bytes : List ℕ

unfoldable pub is_empty : List MessageBuffer → Bool
is_empty [] = true
is_empty (b ∷ queue) = false

unfoldable pub queue_buffer : Outgoing → MessageBuffer → Outgoing
queue_buffer o buffer = record o { write_queue = o.write_queue ++ buffer ∷ [] }

unfoldable pub async_process_queue : Outgoing → Bool × Outgoing
async_process_queue o =
    if o.is_writing_async then (false, o) else (false, record o { is_writing_async = true })

-- `_writeQueue.pop()` and the close behind it; `rest` is what the pop leaves.
unfoldable pub pop_front : Outgoing → List MessageBuffer → Outgoing
unfolding is_empty
pop_front o rest =
    if o.peer.closing && is_empty rest
    then record o { write_queue = rest; peer = close_socket o.peer }
    else record o { write_queue = rest }

-- The operating system takes the first `n` bytes of a buffer.
abbrev pub taken_bytes : Outgoing → MessageBuffer → ℕ → Outgoing
taken_bytes o front n = record o { wire_bytes = o.wire_bytes ++ slice front.rpos n front.storage }

-- What HandleQueue does about the result of its write.
unfoldable pub after_write :
    Outgoing → MessageBuffer → List MessageBuffer → WriteResult → Bool × Outgoing
unfolding async_process_queue pop_front
after_write o front rest would_block = async_process_queue o
after_write o front rest failed = (false, pop_front o rest)
after_write o front rest (wrote n) =
    let o' = taken_bytes o front n in
    if n == 0
    then (false, pop_front o rest)
    else if ltb n (active_size front)
    then async_process_queue (record o' { write_queue = read_completed front n ∷ rest })
    else (not (is_empty rest), pop_front o' rest)

module _ (os : ℕ → ℕ → WriteResult) where
  unfoldable pub handle_queue : Outgoing → Bool × Outgoing
  unfolding after_write
  handle_queue o = elim o.write_queue [
    | [] ↦ (false, o)
    | front ∷ rest ↦
        after_write (record o { write_calls = o.write_calls + 1 }) front rest
          (os o.write_calls (active_size front))
  ]

  -- `for (; HandleQueue();)`. A round that goes on has taken a buffer off the queue.
  unfoldable pub handle_all : ℕ → Outgoing → Outgoing
  unfolding handle_queue
  handle_all zero o = o
  handle_all (suc fuel) o =
      let (more, o') = handle_queue o in let rest = handle_all fuel o' in if more then rest else o'

  -- `Socket::Update`.
  unfoldable pub socket_update : Outgoing → Bool × Outgoing
  unfolding handle_all
  socket_update o =
      if o.peer.closed
      then (false, o)
      else if o.is_writing_async || (is_empty o.write_queue && not o.peer.closing)
      then (true, o)
      else (true, handle_all (length o.write_queue) o)

  unfoldable pub write_handler_wrapper : Outgoing → Outgoing
  unfolding handle_queue
  write_handler_wrapper o = (handle_queue (record o { is_writing_async = false })).1
