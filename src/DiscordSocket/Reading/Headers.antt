-- ===== src/DiscordSocket/Reading/Headers.antt =====
-- The two states of a connection between the rounds of its loop, and what each half of a round
-- does to them.
use warhead_discord.Prelude.{
  ℕ, ◌+◌, ◌-◌, ◌≤◌, ◌<◌, ◌≡◌, refl, ap, ap₂, ◌∙◌, min, Bool, true, false, ◌&&◌, List, [], ◌++◌, ok,
  arith, length, take, drop, take_all, drop_all, length-take, ◌==◌, size_mod, slice, blit, resize,
  to_le, of_le, length-to_le, length-resize, length-blit, length-append, drop-append_right,
  if◌then◌else◌,
}
use warhead_discord.MessageBuffer.{
  MessageBuffer, active_size, has_active_size, has_remaining_space, resize_buffer, read_pointer,
  read_block_size,
}
use warhead_discord.MessageBuffer.Laws.{read_pointer_lem}
use warhead_discord.PacketHeader.{
  ClientHeader, client_header, is_valid_size, is_valid_opcode, header_length,
}
use warhead_discord.DiscordSocket.{Connection}
use warhead_discord.DiscordSocket.Reading.{
  collect, read_header_handler, receive_header, whole, partial, malformed,
}
use warhead_discord.DiscordSocket.Reading.Collect.{
  Stores, Gathers, active_size-Stores, has_active_size-Stores, has_remaining_space-Gathers,
  storage-Gathers, wpos-Gathers, collect_lem,
}

-- Part of a header has come, and the bytes `xs` are unread.
pub record InHeader (c : Connection) (h xs : List ℕ) : Type 0 where
  pub header : Gathers c.header_buffer header_length h
  pub short : length h < header_length
  pub packet_start : (c.packet_buffer.wpos ≡ 0) × (c.packet_buffer.rpos ≡ 0)
  pub input : Stores c.read_buffer read_block_size xs

-- A header has come whose opcode is `cmd`, and `got` of a payload of `need` bytes.
pub record InPayload (c : Connection) (cmd need : ℕ) (got xs : List ℕ) : Type 0 where
  pub header_size : length c.header_buffer.storage ≡ header_length
  pub header_full : (c.header_buffer.wpos ≡ header_length) × (c.header_buffer.rpos ≡ 0)
  pub command : of_le (slice 4 2 c.header_buffer.storage) ≡ cmd
  pub payload : Gathers c.packet_buffer need got
  pub input : Stores c.read_buffer read_block_size xs

pub receive_header_part :
    {c : Connection} {h xs : List ℕ}
    → InHeader c h xs
    → length h + length xs < header_length
    → (c' : Connection) × (receive_header c ≡ ok (partial, c'))
      × InHeader c' (h ++ xs) []
      × (c'.peer ≡ c.peer)
unfolding receive_header
receive_header_part {c} {h} {xs} i k =
    let (r', b', moves, s, g) = collect_lem i.input i.header in
    let all : take (min (length xs) (header_length - length h)) xs ≡ xs =
      take_all _ xs (omega arith) in
    let none_left : drop (min (length xs) (header_length - length h)) xs ≡ [] =
      drop_all _ xs (omega arith) in
    let s' : Stores r' read_block_size [] = rw none_left at s in
    let g' : Gathers b' header_length (h ++ xs) = rw all at g in
    let size = length-append h xs in
    let room : has_remaining_space c.header_buffer ≡ true =
      has_remaining_space-Gathers i.header ∙ ground arith in
    let room' : has_remaining_space b' ≡ true =
      has_remaining_space-Gathers g' ∙ ground (arith, size) in
    let empty : has_active_size r' ≡ false = has_active_size-Stores s' ∙ ground arith in
    (
      record c { read_buffer = r'; header_buffer = b' },
      ground (arith, room, moves, room', empty),
      record {
        header = g';
        short = omega (arith, size);
        packet_start = i.packet_start;
        input = s';
      },
      refl,
    )

-- The connection after an accepted header.
abbrev accepted : Connection → ClientHeader → Connection
accepted c head = record c {
  header_buffer = record c.header_buffer {
    storage = blit c.header_buffer.storage c.header_buffer.rpos (to_le 4 (head.size - 2));
  };
  packet_buffer = resize_buffer c.packet_buffer (head.size - 2);
}

read_header_accepts :
    (c : Connection) (bytes : List ℕ)
    → (active_size c.header_buffer == header_length) ≡ true
    → read_pointer c.header_buffer header_length ≡ ok bytes
    → is_valid_size (client_header bytes) && is_valid_opcode (client_header bytes) ≡ true
    → read_header_handler c ≡ ok (true, accepted c (client_header bytes))
unfolding read_header_handler
read_header_accepts c bytes full reads v = rw (full, reads, v)

read_header_refuses :
    (c : Connection) (bytes : List ℕ)
    → (active_size c.header_buffer == header_length) ≡ true
    → read_pointer c.header_buffer header_length ≡ ok bytes
    → is_valid_size (client_header bytes) && is_valid_opcode (client_header bytes) ≡ false
    → read_header_handler c ≡ ok (false, c)
unfolding read_header_handler
read_header_refuses c bytes full reads v = rw (full, reads, v)

read_pointer_full :
    {b : MessageBuffer} {hs : List ℕ}
    → Gathers b header_length hs
    → length hs ≡ header_length
    → ((active_size b == header_length) ≡ true) × (read_pointer b header_length ≡ ok hs)
read_pointer_full {b} {hs} g full =
    let act = active_size-Stores g.stores in
    (
      ground (arith, act),
      read_pointer_lem g.stores.valid header_length (omega (arith, act))
          ∙ ap (λ ys. ok (take header_length ys)) g.stores.stored
          ∙ ap ok (take_all header_length hs (omega arith)),
    )

resized-Gathers :
    (b : MessageBuffer) (n : ℕ)
    → (b.wpos ≡ 0) × (b.rpos ≡ 0)
    → n < size_mod
    → Gathers (resize_buffer b n) n []
unfolding resize_buffer
resized-Gathers b n (w, r) small =
    let size = length-resize b.storage n 0 in
    record {
      stores = record {
        valid = record {
          ordered = omega (arith, w, r);
          inside = omega (arith, w, size);
          fits = omega (arith, size);
        };
        capacity = size;
        stored = ap₂ (λ i j. drop i (take j (resize b.storage n 0))) r w;
      };
      unread_from = r;
    }

size-lt : (h : ClientHeader) → is_valid_size h && is_valid_opcode h ≡ true → h.size < 10000
unfolding is_valid_size
size-lt h v = ground arith

-- The opcode stands behind the size, and its bytes are not changed.
command-accepted :
    (st : List ℕ) (r n : ℕ) → r ≡ 0 → slice 4 2 (blit st r (to_le 4 n)) ≡ slice 4 2 st
command-accepted st r n e =
    let size = length-to_le 4 n in
    let front : 4 - length (to_le 4 n) ≡ 0 = omega arith in
    let back : 0 + length (to_le 4 n) ≡ 4 = omega arith in
    ap (λ k. slice 4 2 (blit st k (to_le 4 n))) e
    ∙ ap (take 2) (
        drop-append_right 4 (to_le 4 n) (drop (0 + length (to_le 4 n)) st) (omega arith)
        ∙ ap₂ (λ i j. drop i (drop j st)) front back)

accepted-InPayload :
    (c : Connection) {hs xs : List ℕ}
    → Gathers c.header_buffer header_length hs
    → length hs ≡ header_length
    → (c.packet_buffer.wpos ≡ 0) × (c.packet_buffer.rpos ≡ 0)
    → Stores c.read_buffer read_block_size xs
    → is_valid_size (client_header hs) && is_valid_opcode (client_header hs) ≡ true
    → InPayload
        (accepted c (client_header hs))
        (client_header hs).cmd
        ((client_header hs).size - 2)
        []
        xs
unfolding client_header
accepted-InPayload c {hs} g full start s v =
    let n = (client_header hs).size - 2 in
    let st = c.header_buffer.storage in
    let size = length-to_le 4 n in
    record {
      header_size =
          length-blit st c.header_buffer.rpos (to_le 4 n)
            (omega (arith, g.stores.capacity, g.unread_from, size))
          ∙ g.stores.capacity;
      header_full = (wpos-Gathers g ∙ full, g.unread_from);
      command = ap of_le (
          command-accepted st c.header_buffer.rpos n g.unread_from
          ∙ ap (slice 4 2) (storage-Gathers g full));
      payload =
          resized-Gathers c.packet_buffer n start (omega (arith, size-lt (client_header hs) v));
      input = s;
    }

-- The connection after the header's bytes have been collected.
abbrev filled : Connection → MessageBuffer → MessageBuffer → Connection
filled c r b = record c { read_buffer = r; header_buffer = b }

receive_header-eq :
    (c c' : Connection) (r b : MessageBuffer) (good : Bool)
    → has_remaining_space c.header_buffer ≡ true
    → collect c.read_buffer c.header_buffer ≡ ok (r, b)
    → has_remaining_space b ≡ false
    → read_header_handler (filled c r b) ≡ ok (good, c')
    → receive_header c ≡ ok (if good then whole else malformed, c')
unfolding receive_header
receive_header-eq c c' r b good room moves full reads = rw (room, moves, full, reads)

module _ {c : Connection} {h xs : List ℕ} (i : InHeader c h xs)
    (enough : header_length ≤ length h + length xs) where
  -- The header's missing bytes, and what is behind them.
  abbrev pub missing : ℕ
  missing = min (length xs) (header_length - length h)

  abbrev pub header_bytes : List ℕ
  header_bytes = h ++ take missing xs

  length-header_bytes : length header_bytes ≡ header_length
  length-header_bytes =
      omega (arith, i.short, length-append h (take missing xs), length-take missing xs)

  room_before : has_remaining_space c.header_buffer ≡ true
  room_before = has_remaining_space-Gathers i.header ∙ ground (arith, i.short)

  pub receive_header_accepts :
      is_valid_size (client_header header_bytes) && is_valid_opcode (client_header header_bytes)
        ≡ true
      → (c' : Connection) × (receive_header c ≡ ok (whole, c'))
        × InPayload c'
            (client_header header_bytes).cmd
            ((client_header header_bytes).size - 2)
            []
            (drop missing xs)
        × (c'.peer ≡ c.peer)
  receive_header_accepts v =
      let (r, b, moves, s, g) = collect_lem i.input i.header in
      let full = has_remaining_space-Gathers g ∙ ground (arith, length-header_bytes) in
      let (ready, reads) = read_pointer_full g length-header_bytes in
      (
        accepted (filled c r b) (client_header header_bytes),
        receive_header-eq c _ r b true room_before moves full
            (read_header_accepts (filled c r b) header_bytes ready reads v),
        accepted-InPayload (filled c r b) g length-header_bytes i.packet_start s v,
        refl,
      )

  pub receive_header_refuses :
      is_valid_size (client_header header_bytes) && is_valid_opcode (client_header header_bytes)
        ≡ false
      → (c' : Connection) × (receive_header c ≡ ok (malformed, c')) × (c'.peer ≡ c.peer)
  receive_header_refuses v =
      let (r, b, moves, s, g) = collect_lem i.input i.header in
      let full = has_remaining_space-Gathers g ∙ ground (arith, length-header_bytes) in
      let (ready, reads) = read_pointer_full g length-header_bytes in
      (
        filled c r b,
        receive_header-eq c _ r b false room_before moves full
            (read_header_refuses (filled c r b) header_bytes ready reads v),
        refl,
      )
