-- ===== src/DiscordSocket/Reading/OneRead.antt =====
-- One read: its bytes go into the read buffer and through the loop, and the next read starts.
use warhead_discord.Prelude.{
  replicate, length-resize, ℕ, suc, ◌≤◌, ◌≡◌, refl, sym, ap, ◌∙◌, Bool, true, false, List, [], ◌++◌,
  ok, err, Result, ◌>>=◌, arith, length, append-nil, subst,
}
use warhead_discord.MessageBuffer.{
  resize_buffer, MessageBuffer, read_block_size, write, normalize, ensure_free_space, active_size,
}
use warhead_discord.MessageBuffer.Laws.{
  write_lem, normalize_lem, active_size_lem, remaining_space_lem, length-contents,
}
use warhead_discord.PacketHeader.{header_length}
use warhead_discord.DiscordSocket.{new_connection, Peer, Connection, is_open, async_read}
use warhead_discord.DiscordSocket.Reading.{
  LoopEnd, read_loop, after_loop, read_handler, read_handler_internal,
}
use warhead_discord.DiscordSocket.Reading.Machine.{
  Phase, in_header, in_payload, Run, running, closed_run, waiting, crashed, consume,
}
use warhead_discord.DiscordSocket.Reading.Collect.{Stores, active_size-Stores}
use warhead_discord.DiscordSocket.Reading.Headers.{InHeader}
use warhead_discord.DiscordSocket.Reading.Refine.{Tracks, Matches, read_loop-Matches}
use warhead_discord.DiscordSocket.Reading.Opened.{IsOpenRun, consume-IsOpenRun}

-- Between two reads of an open socket: nothing is unread, and the whole read buffer is free.
pub record IsReady (phase : Phase) (c : Connection) : Type 0 where
  pub tracks : Tracks phase c []
  pub free : c.read_buffer.wpos ≡ 0
  pub open_socket : is_open c.peer ≡ true

-- How a connection stands when the machine stands so. While it waits for its login, part of the
-- machine's unread bytes may still be outside of the read buffer.
abbrev pub Outcome : Run → Result (Bool × Connection) → Type 0
Outcome (running phase p) r = (c : Connection) × (r ≡ ok (true, c)) × IsReady phase c × (c.peer ≡ p)
Outcome (closed_run p) r = (c : Connection) × (r ≡ ok (false, c)) × (c.peer ≡ p)
Outcome (waiting p rest) r =
    (c : Connection) × (kept later : List ℕ) × (r ≡ ok (false, c))
    × InHeader c [] kept
    × (c.peer ≡ p)
    × (rest ≡ kept ++ later)
Outcome (crashed e) r = r ≡ err e

pub Outcome-along :
    {r r' : Run} {x x' : Result (Bool × Connection)} → r' ≡ r → x' ≡ x → Outcome r x → Outcome r' x'
Outcome-along {r} {r'} {x} {x'} p q m =
    subst (λ y. Outcome r' y) (sym q) (subst (λ s. Outcome s x) (sym p) m)

-- The phase does not depend on the read buffer.
refilled :
    (phase : Phase) (c : Connection) (xs : List ℕ) {ys : List ℕ} {b : MessageBuffer}
    → Tracks phase c xs
    → Stores b read_block_size ys
    → Tracks phase (record c { read_buffer = b }) ys
refilled (in_header h) c xs t s = record {
  header = t.header;
  short = t.short;
  packet_start = t.packet_start;
  input = s;
}
refilled (in_payload cmd need got) c xs (i, lt) s = (
  record {
    header_size = i.header_size;
    header_full = i.header_full;
    command = i.command;
    payload = i.payload;
    input = s;
  },
  lt,
)

input-Tracks :
    (phase : Phase) (c : Connection) (xs : List ℕ)
    → Tracks phase c xs
    → Stores c.read_buffer read_block_size xs
input-Tracks (in_header h) c xs t = t.input
input-Tracks (in_payload cmd need got) c xs t = t.0.input

-- A new connection of an open peer waits for the first byte of a header.
pub new_connection-IsReady :
    (p : Peer) → is_open p ≡ true → IsReady (in_header []) (new_connection p)
unfolding new_connection resize_buffer
new_connection-IsReady p o =
    let block = length-resize {A = ℕ} (replicate read_block_size 0) read_block_size 0 in
    let front = length-resize {A = ℕ} (replicate read_block_size 0) header_length 0 in
    record {
      tracks = record {
        header = record {
          stores = record {
            valid = record {
              ordered = omega arith;
              inside = omega arith;
              fits = omega (arith, front);
            };
            capacity = front;
            stored = refl;
          };
          unread_from = refl;
        };
        short = omega arith;
        packet_start = (refl, refl);
        input = record {
          valid = record {
            ordered = omega arith;
            inside = omega arith;
            fits = omega (arith, block);
          };
          capacity = block;
          stored = refl;
        };
      };
      free = refl;
      open_socket = o;
    }

async_read-eq :
    (c : Connection) (b : MessageBuffer)
    → is_open c.peer ≡ true
    → normalize c.read_buffer ≡ ok b
    → ensure_free_space b ≡ b
    → async_read c ≡ ok (true, record c { read_buffer = b })
unfolding async_read
async_read-eq c b opened front room = rw (opened, front, room)

-- When all bytes are read, the next read finds the whole block free, and the buffer never grows.
async_read-IsReady :
    (phase : Phase) (c : Connection)
    → Tracks phase c []
    → is_open c.peer ≡ true
    → (c' : Connection) × (async_read c ≡ ok (true, c')) × IsReady phase c' × (c'.peer ≡ c.peer)
async_read-IsReady phase c t opened =
    let s = input-Tracks phase c [] t in
    let (b, front, valid, same, size, start) = normalize_lem s.valid in
    let nothing : b.wpos ≡ 0 = omega (
      arith,
      length-contents valid,
      active_size_lem valid,
      ap length (same ∙ s.stored),
      valid.ordered,
      start,
    ) in
    let space = remaining_space_lem valid in
    let room : ensure_free_space b ≡ b =
      unfold ensure_free_space in ground (arith, space, nothing, size, s.capacity) in
    (
      record c { read_buffer = b },
      async_read-eq c b opened front room,
      record {
        tracks =
            refilled phase c [] t
              (record { valid = valid; capacity = size ∙ s.capacity; stored = same ∙ s.stored });
        free = nothing;
        open_socket = opened;
      },
      refl,
    )

module _ (is_valid : List ℕ → Bool) (clock : ℕ → ℕ) where
  -- The end of the loop, and the next read behind it.
  loop_end :
      (r : Run) (x : Result (LoopEnd × Connection))
      → IsOpenRun r
      → Matches r x
      → Outcome r (x >>= after_loop is_valid clock)
  unfolding after_loop
  loop_end (running phase p) x o (c, e, t, same) =
      let (c', reads, ready, kept) = async_read-IsReady phase c t (ap is_open same ∙ o) in
      Outcome-along {r = running phase p} refl (ap (λ y. y >>= after_loop is_valid clock) e)
        (c', reads, ready, kept ∙ same)
  loop_end (closed_run p) x o (c, e, same) =
      Outcome-along {r = closed_run p} refl (ap (λ y. y >>= after_loop is_valid clock) e)
        (c, refl, same)
  loop_end (waiting p rest) x o (c, e, i, same) =
      Outcome-along {r = waiting p rest} refl (ap (λ y. y >>= after_loop is_valid clock) e)
        (c, rest, [], refl, i, same, sym (append-nil rest))
  loop_end (crashed e') x o e =
      Outcome-along {r = crashed e'} refl (ap (λ y. y >>= after_loop is_valid clock) e) refl

  read_handler-eq :
      (c : Connection)
      → is_open c.peer ≡ true
      → read_handler is_valid clock c ≡ (
          read_loop is_valid clock (suc (active_size c.read_buffer)) c
          >>= after_loop is_valid clock)
  unfolding read_handler
  read_handler-eq c opened = rw opened

  read_handler_internal-eq :
      (c : Connection) (chunk : List ℕ) (b : MessageBuffer)
      → write c.read_buffer chunk ≡ ok b
      → is_open c.peer ≡ true
      → read_handler_internal is_valid clock false chunk c ≡ (
          read_loop is_valid clock (suc (active_size b)) (record c { read_buffer = b })
          >>= after_loop is_valid clock)
  unfolding read_handler_internal
  read_handler_internal-eq c chunk b writes opened =
      rw writes (read_handler-eq (record c { read_buffer = b }) opened)

  -- One read of an open socket.
  pub read_handler_internal-Outcome :
      (phase : Phase) (c : Connection) (chunk : List ℕ)
      → IsReady phase c
      → length chunk ≤ read_block_size
      → Outcome
          (consume is_valid clock (running phase c.peer) chunk)
          (read_handler_internal is_valid clock false chunk c)
  read_handler_internal-Outcome phase c chunk i fits =
      let s = input-Tracks phase c [] i.tracks in
      let space = remaining_space_lem s.valid in
      let (b, writes, valid, holds, size, _, _) =
        write_lem s.valid chunk (omega (arith, space, i.free, s.capacity)) in
      let s' : Stores b read_block_size chunk = record {
        valid = valid;
        capacity = size ∙ s.capacity;
        stored = holds ∙ ap (λ ys. ys ++ chunk) s.stored;
      } in
      Outcome-along refl (read_handler_internal-eq c chunk b writes i.open_socket) (
        loop_end _ _ (consume-IsOpenRun is_valid clock (running phase c.peer) chunk i.open_socket) (
          read_loop-Matches is_valid clock (suc (active_size b)) phase
            (record c { read_buffer = b }) chunk (refilled phase c [] i.tracks s')
            (omega (arith, active_size-Stores s'))))
