-- ===== src/DiscordSocket/WriteQueue/Drain.antt =====
-- An operating system that takes whatever it is offered.
use warhead_discord.Prelude.{
  ℕ, suc, ◌+◌, ◌<◌, ◌≡◌, refl, sym, ap, ◌∙◌, true, false, List, [], ◌∷◌, ◌++◌, arith, ltb, ◌==◌,
  if◌then◌else◌, length, append-nil, not,
}
use warhead_discord.MessageBuffer.{MessageBuffer, active_size}
use warhead_discord.DiscordSocket.{Peer, close_socket}
use warhead_discord.DiscordSocket.Sending.Wire.{wire}
use warhead_discord.DiscordSocket.WriteQueue.{
  WriteResult, wrote, Outgoing, is_empty, pop_front, taken_bytes, after_write, handle_all,
  socket_update,
}
use warhead_discord.DiscordSocket.WriteQueue.Conservation.{
  AreValid, handle_queue-eq, socket_update-Conserves, IsStream,
}

abbrev pub take_all_bytes : ℕ → ℕ → WriteResult
take_all_bytes call size = wrote size

-- No buffer is empty.
abbrev pub AreFull : List MessageBuffer → Type 0
AreFull [] = Unit {0}
AreFull (b ∷ queue) = (0 < active_size b) × AreFull queue

abbrev pub closed_if_closing : Peer → Peer
closed_if_closing p = if p.closing then close_socket p else p

-- The queue is empty, and a closing socket is closed.
abbrev IsDrained : Peer → Outgoing → Type 0
IsDrained p o = (o.write_queue ≡ []) × (o.peer ≡ closed_if_closing p)

all_taken-IsStream : IsStream take_all_bytes
all_taken-IsStream call size = (omega arith, λ e. e)

after_write-whole :
    (o : Outgoing) (front : MessageBuffer) (rest : List MessageBuffer)
    → 0 < active_size front
    → after_write o front rest (wrote (active_size front))
      ≡ (not (is_empty rest), pop_front (taken_bytes o front (active_size front)) rest)
unfolding after_write
after_write-whole o front rest some_bytes =
    let asked : (active_size front == 0) ≡ false = ground arith in
    let whole : ltb (active_size front) (active_size front) ≡ false = ground arith in
    rw (asked, whole)

pop_last : (o : Outgoing) → IsDrained o.peer (pop_front o [])
unfolding pop_front is_empty
pop_last o = ground arith

pop_more :
    (o : Outgoing) (b : MessageBuffer) (rest : List MessageBuffer)
    → pop_front o (b ∷ rest) ≡ record o { write_queue = b ∷ rest }
unfolding pop_front is_empty
pop_more o b rest = ground arith

handle_all-IsDrained :
    (front : MessageBuffer) (rest : List MessageBuffer) (o : Outgoing)
    → o.write_queue ≡ front ∷ rest
    → AreFull (front ∷ rest)
    → IsDrained o.peer (handle_all take_all_bytes (suc (length rest)) o)
unfolding handle_all is_empty
handle_all-IsDrained front [] o e (full, fulls) =
    rw
      (
        handle_queue-eq take_all_bytes all_taken-IsStream o front [] e,
        after_write-whole (record o { write_calls = o.write_calls + 1 }) front [] full,
      )
      (pop_last
        (taken_bytes (record o { write_calls = o.write_calls + 1 }) front (active_size front)))
handle_all-IsDrained front (b ∷ rest) o e (full, fulls) =
    let o' = taken_bytes (record o { write_calls = o.write_calls + 1 }) front (active_size front) in
    rw
      (
        handle_queue-eq take_all_bytes all_taken-IsStream o front (b ∷ rest) e,
        after_write-whole (record o { write_calls = o.write_calls + 1 }) front (b ∷ rest) full,
        pop_more o' b rest,
      )
      (handle_all-IsDrained b rest (record o' { write_queue = b ∷ rest }) refl fulls)

handle_queued :
    (queue : List MessageBuffer) (o : Outgoing)
    → o.write_queue ≡ queue
    → 0 < length queue
    → AreFull queue
    → IsDrained o.peer (handle_all take_all_bytes (length queue) o)
handle_queued [] o e some_left full = absurd (omega arith)
handle_queued (front ∷ rest) o e some_left full = handle_all-IsDrained front rest o e full

socket_update-eq :
    (o : Outgoing)
    → o.peer.closed ≡ false
    → o.is_writing_async ≡ false
    → is_empty o.write_queue ≡ false
    → socket_update take_all_bytes o ≡ (true, handle_all take_all_bytes (length o.write_queue) o)
unfolding socket_update
socket_update-eq o opened idle some_left = rw (opened, idle, some_left)

is_empty-length : (queue : List MessageBuffer) → 0 < length queue → is_empty queue ≡ false
unfolding is_empty
is_empty-length [] h = absurd (omega arith)
is_empty-length (b ∷ queue) h = refl

-- If the operating system takes what it is offered, an update of an open socket with no write under
-- way and with valid buffers in its write queue, one at least and none of them empty, puts all of the write queue on the wire, in its order, leaves the
-- queue empty, and closes the socket if that waited for the queue.
pub socket_update-drains :
    (o : Outgoing)
    → o.peer.closed ≡ false
    → o.is_writing_async ≡ false
    → 0 < length o.write_queue
    → AreFull o.write_queue
    → AreValid o.write_queue
    → (o' : Outgoing) × (socket_update take_all_bytes o ≡ (true, o'))
      × (o'.write_queue ≡ [])
      × (o'.wire_bytes ≡ o.wire_bytes ++ wire o.write_queue)
      × (o'.peer ≡ closed_if_closing o.peer)
socket_update-drains o opened idle some_left full valid =
    let o' = handle_all take_all_bytes (length o.write_queue) o in
    let updates = socket_update-eq o opened idle (is_empty-length o.write_queue some_left) in
    let (empty, peer) = handle_queued o.write_queue o refl some_left full in
    let (same, _) = socket_update-Conserves take_all_bytes all_taken-IsStream o valid in
    let moved : o'.wire_bytes ++ wire o'.write_queue ≡ o.wire_bytes ++ wire o.write_queue =
      ap (λ r. r.1.wire_bytes ++ wire r.1.write_queue) (sym updates) ∙ same in
    (
      o',
      updates,
      empty,
      sym (append-nil o'.wire_bytes) ∙ ap (λ q. o'.wire_bytes ++ wire q) (sym empty) ∙ moved,
      peer,
    )
