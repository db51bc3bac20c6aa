-- ===== src/DiscordSocket/Sending/Flush.antt =====
-- An update as a whole: the bytes that it adds to the write queue.
use warhead_discord.Prelude.{
  ℕ, ◌+◌, ◌≤◌, ◌<◌, ◌≡◌, refl, sym, ap, ◌∙◌, true, false, List, [], ◌∷◌, ◌++◌, ok, Result, ◌>>=◌,
  arith, leb, ltb, length, length-append, length-replicate, append_assoc, append-nil, Bool-cases,
  inl, inr, size_mod,
}
use warhead_discord.MessageBuffer.{MessageBuffer, has_active_size}
use warhead_discord.MessageBuffer.Laws.{length-contents}
use warhead_discord.PacketHeader.{header_length}
use warhead_discord.DiscordSocket.{Packet, Peer}
use warhead_discord.DiscordSocket.Sending.{pack_all, flush, update_queue}
use warhead_discord.DiscordSocket.Sending.Wire.{
  wire, wire_frame, wire_frames, sent, Fills, sized-Fills, wire-append, pack_packet-fits,
  pack_packet-overflows, remaining_space-Fills, length-wire_frame,
}

-- Packets whose size in a buffer is a `size_t`.
abbrev pub AreShort : List Packet → Type 0
AreShort [] = Unit {0}
AreShort (packet ∷ packets) = (length packet.payload + header_length < size_mod) × AreShort packets

-- A state that stands for the bytes `xs`: those of the queue, and those of the buffer behind them.
abbrev Packed : Result (List MessageBuffer × MessageBuffer) → List ℕ → Type 0
Packed r xs =
    (queue : List MessageBuffer) × (b : MessageBuffer) × (ys : List ℕ) × (r ≡ ok (queue, b))
    × Fills b ys
    × (wire queue ++ ys ≡ xs)

sent-joined :
    (send_buffer_size : ℕ) (xs : List ℕ) (packet : Packet) (packets : List Packet)
    → leb (length xs + length (wire_frame packet)) send_buffer_size ≡ true
    → sent send_buffer_size xs (packet ∷ packets)
      ≡ sent send_buffer_size (xs ++ wire_frame packet) packets
unfolding sent
sent-joined send_buffer_size xs packet packets e = rw e

sent-apart :
    (send_buffer_size : ℕ) (xs : List ℕ) (packet : Packet) (packets : List Packet)
    → leb (length xs + length (wire_frame packet)) send_buffer_size ≡ false
    → sent send_buffer_size xs (packet ∷ packets)
      ≡ xs ++ (wire_frame packet ++ sent send_buffer_size xs packets)
unfolding sent
sent-apart send_buffer_size xs packet packets e = rw e

wire_two :
    (queue : List MessageBuffer) {b c : MessageBuffer} {xs ys : List ℕ} (zs : List ℕ)
    → Fills b xs
    → Fills c ys
    → wire ((queue ++ b ∷ []) ++ c ∷ []) ++ zs ≡ wire queue ++ (xs ++ (ys ++ zs))
wire_two queue {b} {c} {xs} {ys} zs f g =
    simp (wire-append, f.filled, g.filled, append-nil, append_assoc)

pack_all_lem :
    (send_buffer_size : ℕ) (packets : List Packet) (queue : List MessageBuffer) {b : MessageBuffer}
    {xs : List ℕ}
    → Fills b xs
    → length b.storage ≡ send_buffer_size
    → AreShort packets
    → Packed
        (pack_all send_buffer_size packets (queue, b))
        (wire queue ++ sent send_buffer_size xs packets)
unfolding pack_all sent
pack_all_lem send_buffer_size [] queue {b} {xs} f size short = (queue, b, xs, refl, f, refl)
pack_all_lem send_buffer_size (packet ∷ packets) queue {b} {xs} f size (short, shorts) =
    let room = remaining_space-Fills f in
    let frame_size = length-wire_frame packet in
    elim (Bool-cases (leb (length xs + length (wire_frame packet)) send_buffer_size)) [
      | inl fits ↦
          let (c, packs, cf, cs) =
            pack_packet-fits send_buffer_size queue packet f (ground (arith, fits)) in
          let (q, d, ys, all, df, e) =
            pack_all_lem send_buffer_size packets queue cf (cs ∙ size) shorts in
          (
            q,
            d,
            ys,
            ap (λ r. r >>= pack_all send_buffer_size packets) packs ∙ all,
            df,
            e
                ∙ ap (λ zs. wire queue ++ zs)
                    (sym (sent-joined send_buffer_size xs packet packets fits)),
          )
      | inr full ↦
          let (c, packs, cf) =
            pack_packet-overflows send_buffer_size queue packet f size (ground (arith, full))
              short in
          let (q, d, ys, all, df, e) =
            pack_all_lem send_buffer_size packets ((queue ++ b ∷ []) ++ c ∷ []) f size shorts in
          (
            q,
            d,
            ys,
            ap (λ r. r >>= pack_all send_buffer_size packets) packs ∙ all,
            df,
            e
                ∙ wire_two queue (sent send_buffer_size xs packets) f cf
                ∙ ap (λ zs. wire queue ++ zs)
                    (sym (sent-apart send_buffer_size xs packet packets full)),
          )
    ]

has_active_size-Fills :
    {b : MessageBuffer} {ys : List ℕ} → Fills b ys → has_active_size b ≡ ltb 0 (length ys)
unfolding has_active_size
has_active_size-Fills {b} {ys} f = ap (ltb 0) (sym (length-contents f.valid) ∙ ap length f.filled)

wire-flush :
    (queue : List MessageBuffer) {b : MessageBuffer} (ys : List ℕ)
    → Fills b ys
    → wire (flush (queue, b)) ≡ wire queue ++ ys
wire-flush queue {b} [] f =
    let idle : has_active_size b ≡ false = has_active_size-Fills f ∙ ground arith in
    rw (idle, append-nil (wire queue))
wire-flush queue {b} (y ∷ ys) f =
    let some_left : has_active_size b ≡ true = has_active_size-Fills f ∙ ground arith in
    rw (some_left, wire-append, f.filled, append-nil)

-- If the size of the send buffer and those of the waiting packets with their headers are size_t,
-- an update succeeds, takes all waiting packets, and adds to the bytes of the write queue exactly
-- those that `sent` lists for that size of the send buffer.
pub update_queue_lem :
    (send_buffer_size : ℕ) (p : Peer) (queue : List MessageBuffer)
    → send_buffer_size < size_mod
    → AreShort p.buffer_queue
    → (after : List MessageBuffer) × (update_queue send_buffer_size p queue
        ≡ ok (record p { buffer_queue = [] }, after))
      × (wire after ≡ wire queue ++ sent send_buffer_size [] p.buffer_queue)
unfolding update_queue
update_queue_lem send_buffer_size p queue small short =
    let block = length-replicate {A = ℕ} send_buffer_size 0 in
    let (q, b, ys, packs, f, e) =
      pack_all_lem send_buffer_size p.buffer_queue queue (sized-Fills send_buffer_size small) block
        short in
    (flush (q, b), rw packs, wire-flush q ys f ∙ e)

sent-fits :
    (send_buffer_size : ℕ) (kept : List ℕ) (packets : List Packet)
    → length kept + length (wire_frames packets) ≤ send_buffer_size
    → sent send_buffer_size kept packets ≡ kept ++ wire_frames packets
unfolding sent
sent-fits send_buffer_size kept [] h = sym (append-nil kept)
sent-fits send_buffer_size kept (packet ∷ packets) h =
    let size = length-append (wire_frame packet) (wire_frames packets) in
    let fits : leb (length kept + length (wire_frame packet)) send_buffer_size ≡ true =
      ground (arith, size) in
    let rest =
      sent-fits send_buffer_size (kept ++ wire_frame packet) packets
        (omega (arith, size, length-append kept (wire_frame packet))) in
    sent-joined send_buffer_size kept packet packets fits
    ∙ rest
    ∙ append_assoc kept (wire_frame packet) (wire_frames packets)

-- Waiting packets whose frames fit into one send buffer together are sent once each, in the order of
-- sending, behind what the write queue held.
pub update_queue-fits :
    (send_buffer_size : ℕ) (p : Peer) (queue : List MessageBuffer)
    → length (wire_frames p.buffer_queue) ≤ send_buffer_size
    → send_buffer_size < size_mod
    → AreShort p.buffer_queue
    → (after : List MessageBuffer) × (update_queue send_buffer_size p queue
        ≡ ok (record p { buffer_queue = [] }, after))
      × (wire after ≡ wire queue ++ wire_frames p.buffer_queue)
update_queue-fits send_buffer_size p queue fits small short =
    let (after, updates, e) = update_queue_lem send_buffer_size p queue small short in
    (
      after,
      updates,
      e ∙ ap (λ xs. wire queue ++ xs) (sent-fits send_buffer_size [] p.buffer_queue (omega arith)),
    )

sent-twice :
    (send_buffer_size : ℕ) (first second : Packet)
    → length (wire_frame first) ≤ send_buffer_size
    → send_buffer_size < length (wire_frame first) + length (wire_frame second)
    → sent send_buffer_size [] (first ∷ second ∷ [])
      ≡ wire_frame first ++ (wire_frame second ++ wire_frame first)
unfolding sent
sent-twice send_buffer_size first second fits overflows =
    sent-joined send_buffer_size [] first (second ∷ []) (ground arith)
    ∙ sent-apart send_buffer_size (wire_frame first) second [] (ground arith)

-- For every size of the send buffer that is a size_t: of two waiting packets whose sizes with their
-- headers are size_t, which do not fit into one send buffer together, but the first of which does
-- so alone, the first is sent again behind the second, since the buffer is not emptied when it is
-- sent.
pub update_queue-repeats :
    (send_buffer_size : ℕ) (p : Peer) (queue : List MessageBuffer) (first second : Packet)
    → p.buffer_queue ≡ first ∷ second ∷ []
    → send_buffer_size < size_mod
    → AreShort (first ∷ second ∷ [])
    → length (wire_frame first) ≤ send_buffer_size
    → send_buffer_size < length (wire_frame first) + length (wire_frame second)
    → (after : List MessageBuffer) × (update_queue send_buffer_size p queue
        ≡ ok (record p { buffer_queue = [] }, after))
      × (wire after ≡ wire queue ++ (wire_frame first ++ (wire_frame second ++ wire_frame first)))
update_queue-repeats send_buffer_size p queue first second e small short fits overflows =
    let (after, updates, sends) = update_queue_lem send_buffer_size p queue small (rw e short) in
    (
      after,
      updates,
      sends
          ∙ ap (λ ps. wire queue ++ sent send_buffer_size [] ps) e
          ∙ ap (λ xs. wire queue ++ xs) (sent-twice send_buffer_size first second fits overflows),
    )
