-- ===== src/DiscordSocket/Sending/Wire.antt =====
-- What an update puts on the wire.
use warhead_discord.Prelude.{
  ℕ, ◌+◌, ◌-◌, ◌≤◌, ◌<◌, ◌≡◌, refl, sym, ap, ◌∙◌, true, false, List, [], ◌∷◌, ◌++◌, ok, ◌>>=◌,
  arith, ltb, leb, ◌==◌, if◌then◌else◌, length, length-append, length-replicate, append_assoc,
  append-nil, Bool-cases, inl, inr, take_all, size_mod, subst,
}
use warhead_discord.MessageBuffer.{MessageBuffer, sized, write, remaining_space, resize_buffer}
use warhead_discord.MessageBuffer.Laws.{
  IsValid, contents, write_lem, active_size_lem, remaining_space_lem, length-contents,
}
use warhead_discord.PacketHeader.{server_header, header_length}
use warhead_discord.DiscordSocket.{Packet}
use warhead_discord.DiscordSocket.Sending.{header_of, write_packet, pack_packet}

-- All bytes of a write queue, in the order of sending.
abbrev pub wire : List MessageBuffer → List ℕ
wire [] = []
wire (b ∷ queue) = contents b ++ wire queue

abbrev pub wire_frame : Packet → List ℕ
wire_frame packet = header_of packet ++ packet.payload

abbrev pub wire_frames : List Packet → List ℕ
wire_frames [] = []
wire_frames (packet ∷ packets) = wire_frame packet ++ wire_frames packets

-- The bytes that follow `kept`, which lie in the buffer. A packet that does not fit any more is
-- sent at once, and the buffer with it; but the buffer is not emptied.
unfoldable pub sent : ℕ → List ℕ → List Packet → List ℕ
sent send_buffer_size kept [] = kept
sent send_buffer_size kept (packet ∷ packets) =
    let joined = sent send_buffer_size (kept ++ wire_frame packet) packets in
    let apart = sent send_buffer_size kept packets in
    if leb (length kept + length (wire_frame packet)) send_buffer_size
    then joined
    else kept ++ (wire_frame packet ++ apart)

-- A buffer to send: filled from its front.
pub record Fills (b : MessageBuffer) (xs : List ℕ) : Type 0 where
  pub valid : IsValid b
  pub front : b.rpos ≡ 0
  pub filled : contents b ≡ xs

pub length-wire_frame :
    (packet : Packet) → length (wire_frame packet) ≡ length packet.payload + header_length
unfolding server_header
length-wire_frame packet = ground (arith, length-append (header_of packet) packet.payload)

length-header_of : (packet : Packet) → length (header_of packet) ≡ header_length
unfolding server_header
length-header_of packet = refl

pub remaining_space-Fills :
    {b : MessageBuffer} {xs : List ℕ}
    → Fills b xs
    → remaining_space b ≡ length b.storage - length xs
remaining_space-Fills {b} {xs} f = omega (
  arith,
  remaining_space_lem f.valid,
  length-contents f.valid,
  active_size_lem f.valid,
  ap length f.filled,
  f.front,
  f.valid.inside,
)

write-Fills :
    {b : MessageBuffer} {xs : List ℕ} (ys : List ℕ)
    → Fills b xs
    → length ys ≤ remaining_space b
    → (c : MessageBuffer) × (write b ys ≡ ok c)
      × Fills c (xs ++ ys)
      × (length c.storage ≡ length b.storage)
write-Fills {b} {xs} ys f room =
    let (c, writes, valid, holds, size, start, _) = write_lem f.valid ys room in
    (
      c,
      writes,
      record {
        valid = valid;
        front = start ∙ f.front;
        filled = holds ∙ ap (λ zs. zs ++ ys) f.filled;
      },
      size,
    )

write_packet-eq :
    (b : MessageBuffer) (packet : Packet)
    → write_packet b packet ≡ (write b (header_of packet) >>= λ h. write h packet.payload)
unfolding write_packet write
write_packet-eq b packet = elim (Bool-cases (length packet.payload == 0)) [
  | inl none_left ↦ rw none_left
  | inr some_left ↦ rw some_left
]

write_packet_lem :
    {b : MessageBuffer} {xs : List ℕ} (packet : Packet)
    → Fills b xs
    → length packet.payload + header_length ≤ remaining_space b
    → (c : MessageBuffer) × (write_packet b packet ≡ ok c)
      × Fills c (xs ++ wire_frame packet)
      × (length c.storage ≡ length b.storage)
write_packet_lem {b} {xs} packet f room =
    let size = length-header_of packet in
    let (h, heads, hf, hs) = write-Fills (header_of packet) f (omega arith) in
    let fits : length packet.payload ≤ remaining_space h = omega (
      arith,
      remaining_space-Fills f,
      remaining_space-Fills hf,
      length-append xs (header_of packet),
      hs,
    ) in
    let (c, fills, cf, cs) = write-Fills packet.payload hf fits in
    (
      c,
      write_packet-eq b packet ∙ ap (λ r. r >>= λ h'. write h' packet.payload) heads ∙ fills,
      subst (Fills c) (append_assoc xs (header_of packet) packet.payload) cf,
      cs ∙ hs,
    )

-- A buffer of the size asked for, with nothing in it.
pub sized-Fills : (n : ℕ) → n < size_mod → Fills (sized n) []
sized-Fills n small =
    let size = length-replicate {A = ℕ} n 0 in
    record {
      valid = record { ordered = omega arith; inside = omega arith; fits = omega (arith, size) };
      front = refl;
      filled = refl;
    }

-- Resizing to the size that the buffer has changes nothing.
resize_buffer-same : (b : MessageBuffer) → resize_buffer b (length b.storage) ≡ b
unfolding resize_buffer
resize_buffer-same b =
    let none_more : length b.storage - length b.storage ≡ 0 = omega arith in
    let all = take_all (length b.storage) b.storage (omega arith) in
    rw (none_more, all, append-nil b.storage)

pub wire-append : (q r : List MessageBuffer) → wire (q ++ r) ≡ wire q ++ wire r
wire-append [] r = refl
wire-append (b ∷ q) r =
    ap (λ ys. contents b ++ ys) (wire-append q r)
    ∙ sym (append_assoc (contents b) (wire q) (wire r))

pub pack_packet-fits :
    (send_buffer_size : ℕ) (queue : List MessageBuffer) {b : MessageBuffer} {xs : List ℕ}
    (packet : Packet)
    → Fills b xs
    → length packet.payload + header_length ≤ remaining_space b
    → (c : MessageBuffer) × (pack_packet send_buffer_size (queue, b) packet ≡ ok (queue, c))
      × Fills c (xs ++ wire_frame packet)
      × (length c.storage ≡ length b.storage)
unfolding pack_packet
pack_packet-fits send_buffer_size queue {b} packet f room =
    let (c, writes, cf, cs) = write_packet_lem packet f room in
    let no_flush : ltb (remaining_space b) (length packet.payload + header_length) ≡ false =
      ground arith in
    let fits : leb (length packet.payload + header_length) (remaining_space b) ≡ true =
      ground arith in
    (c, rw (no_flush, fits, writes), cf, cs)

pub pack_packet-overflows :
    (send_buffer_size : ℕ) (queue : List MessageBuffer) {b : MessageBuffer} {xs : List ℕ}
    (packet : Packet)
    → Fills b xs
    → length b.storage ≡ send_buffer_size
    → remaining_space b < length packet.payload + header_length
    → length packet.payload + header_length < size_mod
    → (c : MessageBuffer) × (pack_packet send_buffer_size (queue, b) packet
        ≡ ok ((queue ++ b ∷ []) ++ c ∷ [], b))
      × Fills c (wire_frame packet)
unfolding pack_packet
pack_packet-overflows send_buffer_size queue {b} packet f size full small =
    let room = remaining_space-Fills (sized-Fills (length packet.payload + header_length) small) in
    let all = length-replicate {A = ℕ} (length packet.payload + header_length) 0 in
    let (c, writes, cf, _) =
      write_packet_lem packet (sized-Fills (length packet.payload + header_length) small)
        (omega (arith, room, all)) in
    let flushes : ltb (remaining_space b) (length packet.payload + header_length) ≡ true =
      ground arith in
    let still : leb (length packet.payload + header_length) (remaining_space b) ≡ false =
      ground arith in
    let same : resize_buffer b send_buffer_size ≡ b =
      ap (resize_buffer b) (sym size) ∙ resize_buffer-same b in
    (c, rw (flushes, same, still, writes), cf)
