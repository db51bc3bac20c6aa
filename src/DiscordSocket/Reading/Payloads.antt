-- ===== src/DiscordSocket/Reading/Payloads.antt =====
-- The second half of a round: the payload behind a header, and its delivery.
use warhead_discord.Prelude.{
  ℕ, ◌+◌, ◌-◌, ◌≤◌, ◌<◌, ◌≡◌, refl, ap, ◌∙◌, min, Bool, true, false, List, [], ◌++◌, ok, err, Error,
  arith, length, take, drop, take_all, drop_all, slice, length-append, length-take, of_le,
  Bool-cases, inl, inr, append-nil, leb, add_size,
}
use warhead_discord.MessageBuffer.{
  MessageBuffer, has_active_size, has_remaining_space, remaining_space, read_block_size,
  read_pointer, reset, move,
}
use warhead_discord.PacketHeader.{header_length}
use warhead_discord.DiscordSocket.{Peer, Connection}
use warhead_discord.DiscordSocket.Handlers.{ReadDataResult, handle_packet}
use warhead_discord.DiscordSocket.Reading.{
  collect, receive_header, receive_payload, header_cmd, dispatch, whole,
}
use warhead_discord.DiscordSocket.Reading.Collect.{
  Stores, Gathers, has_active_size-Stores, has_remaining_space-Gathers, storage-Gathers,
  collect_lem,
}
use warhead_discord.DiscordSocket.Reading.Headers.{InHeader, InPayload}

-- A header that is already there is not read again.
pub receive_header_ready :
    {c : Connection} {cmd need : ℕ} {got xs : List ℕ}
    → InPayload c cmd need got xs
    → receive_header c ≡ ok (whole, c)
unfolding receive_header has_remaining_space remaining_space
receive_header_ready {c} i =
    let full : has_remaining_space c.header_buffer ≡ false =
      ground (arith, i.header_size, i.header_full.0) in
    rw full

abbrev paid : Connection → MessageBuffer → MessageBuffer → Connection
paid c r b = record c { read_buffer = r; packet_buffer = b }

paid-InPayload :
    {c : Connection} {cmd need : ℕ} {got xs got' xs' : List ℕ} {r b : MessageBuffer}
    → InPayload c cmd need got xs
    → Stores r read_block_size xs'
    → Gathers b need got'
    → InPayload (paid c r b) cmd need got' xs'
paid-InPayload i s g = record {
  header_size = i.header_size;
  header_full = i.header_full;
  command = i.command;
  payload = g;
  input = s;
}

receive_payload-eq_part :
    (c : Connection) (r b : MessageBuffer)
    → has_remaining_space c.packet_buffer ≡ true
    → collect c.read_buffer c.packet_buffer ≡ ok (r, b)
    → has_remaining_space b ≡ true
    → has_active_size r ≡ false
    → receive_payload c ≡ ok (false, paid c r b)
unfolding receive_payload
receive_payload-eq_part c r b room moves more empty = rw (room, moves, more, empty)

receive_payload-eq_whole :
    (c : Connection) (r b : MessageBuffer)
    → has_remaining_space c.packet_buffer ≡ true
    → collect c.read_buffer c.packet_buffer ≡ ok (r, b)
    → has_remaining_space b ≡ false
    → receive_payload c ≡ ok (true, paid c r b)
unfolding receive_payload
receive_payload-eq_whole c r b room moves full = rw (room, moves, full)

receive_payload-eq_ready :
    (c : Connection)
    → has_remaining_space c.packet_buffer ≡ false
    → receive_payload c ≡ ok (true, c)
unfolding receive_payload
receive_payload-eq_ready c full = rw full

module _ {c : Connection} {cmd need : ℕ} {got xs : List ℕ} (i : InPayload c cmd need got xs) where
  -- The bytes are too few: all are taken, and the payload stays incomplete.
  pub receive_payload_part :
      length got + length xs < need
      → (c' : Connection) × (receive_payload c ≡ ok (false, c'))
        × InPayload c' cmd need (got ++ xs) []
        × (c'.peer ≡ c.peer)
  receive_payload_part k =
      let (r, b, moves, s, g) = collect_lem i.input i.payload in
      let all : take (min (length xs) (need - length got)) xs ≡ xs = take_all _ xs (omega arith) in
      let none_left : drop (min (length xs) (need - length got)) xs ≡ [] =
        drop_all _ xs (omega arith) in
      let s' : Stores r read_block_size [] = rw none_left at s in
      let g' : Gathers b need (got ++ xs) = rw all at g in
      let room = has_remaining_space-Gathers i.payload ∙ ground arith in
      let more = has_remaining_space-Gathers g' ∙ ground (arith, length-append got xs) in
      let empty = has_active_size-Stores s' ∙ ground arith in
      (
        paid c r b,
        receive_payload-eq_part c r b room moves more empty,
        paid-InPayload i s' g',
        refl,
      )

  -- Otherwise the payload is completed, and what is behind it stays unread.
  pub receive_payload_whole :
      need ≤ length got + length xs
      → (c' : Connection) × (receive_payload c ≡ ok (true, c'))
        × InPayload c' cmd need (got ++ take (need - length got) xs) (drop (need - length got) xs)
        × (c'.peer ≡ c.peer)
  receive_payload_whole k = elim (Bool-cases (leb need (length got))) [
    | inl done ↦
        let none_missing : need - length got ≡ 0 = ground arith in
        let full = has_remaining_space-Gathers i.payload ∙ ground arith in
        (c, receive_payload-eq_ready c full, rw (none_missing, append-nil) i, refl)
    | inr more ↦
        let (r, b, moves, s, g) = collect_lem i.input i.payload in
        let n : min (length xs) (need - length got) ≡ need - length got = omega arith in
        let s' : Stores r read_block_size (drop (need - length got) xs) = rw n at s in
        let g' : Gathers b need (got ++ take (need - length got) xs) = rw n at g in
        let room = has_remaining_space-Gathers i.payload ∙ ground arith in
        let full =
          has_remaining_space-Gathers g'
          ∙ ground (
            arith,
            length-append got (take (need - length got) xs),
            length-take (need - length got) xs,
          ) in
        (paid c r b, receive_payload-eq_whole c r b room moves full, paid-InPayload i s' g', refl)
  ]

  header_cmd-InPayload : header_cmd c ≡ ok cmd
  unfolding header_cmd read_pointer
  header_cmd-InPayload =
      let st = c.header_buffer.storage in
      let fits : leb (add_size c.header_buffer.rpos header_length) (length st) ≡ true =
        ground (arith, i.header_size, i.header_full.1) in
      let all : slice c.header_buffer.rpos header_length st ≡ st =
        ap (λ k. slice k header_length st) i.header_full.1
        ∙ take_all header_length st (omega (arith, i.header_size)) in
      rw fits (ap (λ bytes. ok (of_le (slice 4 2 bytes))) all ∙ ap ok i.command)

-- The connection after a packet was handed out.
abbrev dispatched : Connection → Peer → Connection
dispatched c p = record c {
  peer = p;
  packet_buffer = record { wpos = 0; rpos = 0; storage = [] };
  header_buffer = record c.header_buffer { wpos = 0; rpos = 0 };
}

module _ (is_valid : List ℕ → Bool) (clock : ℕ → ℕ) where
  dispatch-eq :
      (c : Connection) (cmd : ℕ) (payload : List ℕ) (result : ReadDataResult) (p : Peer)
      → header_cmd c ≡ ok cmd
      → c.packet_buffer.storage ≡ payload
      → handle_packet is_valid clock c.peer (record { opcode = cmd; payload = payload })
        ≡ ok (result, p)
      → dispatch is_valid clock c ≡ ok (result, dispatched c p)
  unfolding dispatch move reset
  dispatch-eq c cmd payload result p reads same handles = rw (reads, same, handles)

  dispatch-eq_err :
      (c : Connection) (cmd : ℕ) (payload : List ℕ) (e : Error)
      → header_cmd c ≡ ok cmd
      → c.packet_buffer.storage ≡ payload
      → handle_packet is_valid clock c.peer (record { opcode = cmd; payload = payload }) ≡ err e
      → dispatch is_valid clock c ≡ err e
  unfolding dispatch move reset
  dispatch-eq_err c cmd payload e reads same handles = rw (reads, same, handles)

  module _ {c : Connection} {cmd need : ℕ} {got xs : List ℕ} (i : InPayload c cmd need got xs)
      (complete : length got ≡ need) where
    pub dispatch_lem :
        (result : ReadDataResult) (p : Peer)
        → handle_packet is_valid clock c.peer (record { opcode = cmd; payload = got })
          ≡ ok (result, p)
        → (c' : Connection) × (dispatch is_valid clock c ≡ ok (result, c'))
          × InHeader c' [] xs
          × (c'.peer ≡ p)
    dispatch_lem result p handles = (
      dispatched c p,
      dispatch-eq c cmd got result p (header_cmd-InPayload i) (storage-Gathers i.payload complete)
          handles,
      record {
        header = record {
          stores = record {
            valid = omega (arith, i.header_size);
            capacity = i.header_size;
            stored = refl;
          };
          unread_from = refl;
        };
        short = omega arith;
        packet_start = (refl, refl);
        input = i.input;
      },
      refl,
    )

    pub dispatch_crash :
        (e : Error)
        → handle_packet is_valid clock c.peer (record { opcode = cmd; payload = got }) ≡ err e
        → dispatch is_valid clock c ≡ err e
    dispatch_crash e handles =
        dispatch-eq_err c cmd got e (header_cmd-InPayload i) (storage-Gathers i.payload complete)
          handles
