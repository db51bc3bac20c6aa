-- ===== src/ByteBuffer/RoundTrip.antt =====
-- What a ByteBuffer writes at its end, it reads back from there.
use warhead_discord.Prelude.{
  ℕ, suc, ◌+◌, ◌^◌, ◌≤◌, ◌<◌, ◌≡◌, ap, ◌∙◌, Bool, true, List, [], ◌∷◌, ◌++◌, ok, arith, length,
  drop, length-append, drop-append_left, drop_all, append-nil, to_le, length-to_le,
}
use warhead_discord.ByteBuffer.{
  ByteBuffer, append_value, read_value, append_string, read_string, append_pack_guid,
  read_pack_guid,
}
use warhead_discord.ByteBuffer.Reads.{Holds, advance, read_value-to_le}
use warhead_discord.ByteBuffer.Writes.{IsAtEnd, extended, append_value_lem, append_string_lem}
use warhead_discord.ByteBuffer.Strings.{HasNoZero, read_string-append}
use warhead_discord.ByteBuffer.PackGuid.{
  mask_of, bytes_of, length-bytes_of, read_pack_guid-append, append_pack_guid_lem,
}

-- Written at its end, and read up to what was written before.
pub record IsDrained (b : ByteBuffer) : Type 0 where
  pub writes : IsAtEnd b
  pub reads : b.rpos ≡ length b.storage

extended-Holds :
    {b : ByteBuffer} (xs : List ℕ) → IsDrained b → length xs ≤ 10000000 → Holds (extended b xs) xs
extended-Holds {b} xs d k = record {
  inside = omega (arith, d.reads, length-append b.storage xs);
  small = omega (arith, d.writes.open_for, length-append b.storage xs);
  holds =
      ap (λ n. drop n (b.storage ++ xs)) d.reads
      ∙ drop-append_left (length b.storage) b.storage xs (omega arith)
      ∙ ap (λ ys. ys ++ xs) (drop_all (length b.storage) b.storage (omega arith));
}

-- A value of one to eight bytes, written to a buffer that is read up to its end, is read back as
-- it was written.
pub read_value-append_value :
    (n v : ℕ) {b : ByteBuffer}
    → n < 8
    → v < 256 ^ (suc n)
    → IsDrained b
    → (written : ByteBuffer) × (append_value (suc n) b v ≡ ok written)
      × (read_value (suc n) written ≡ ok (v, advance (suc n) written))
read_value-append_value n v {b} small fits d =
    let size = length-to_le (suc n) v in
    let h : Holds (extended b (to_le (suc n) v)) (to_le (suc n) v ++ []) =
      rw append-nil (extended-Holds (to_le (suc n) v) d (omega arith)) in
    (
      extended b (to_le (suc n) v),
      append_value_lem n v d.writes (omega arith),
      (read_value-to_le (suc n) v [] fits h).0,
    )

-- A valid string without a zero byte, the empty one too, written to a buffer that is read up to
-- its end and stays below ten million bytes, is read back as it was written.
pub read_string-append_string :
    (is_valid : List ℕ → Bool) (s : List ℕ) {b : ByteBuffer}
    → HasNoZero s
    → is_valid s ≡ true
    → length b.storage + length s < 10000000
    → IsDrained b
    → (written : ByteBuffer) × (append_string b s ≡ ok written)
      × (read_string is_valid written ≡ ok (s, advance (length s + 1) written))
read_string-append_string is_valid s {b} nz valid room d = (
  extended b (s ++ 0 ∷ []),
  append_string_lem s d.writes room,
  (read_string-append is_valid s [] nz valid
      (extended-Holds (s ++ 0 ∷ []) d (omega (arith, length-append s (0 ∷ []))))).0,
)

-- Every 64-bit identifier, written in packed form to a buffer that is read up to its end, takes
-- nine bytes at most and is read back as it was, with nothing left behind it.
pub read_pack_guid-append_pack_guid :
    (guid : ℕ) {b : ByteBuffer}
    → guid < 2 ^ 64
    → IsDrained b
    → (written after : ByteBuffer) × (append_pack_guid b guid ≡ ok written)
      × (read_pack_guid written ≡ ok (guid, after))
      × (length written.storage ≤ length b.storage + 9)
      × Holds after []
read_pack_guid-append_pack_guid guid {b} small d =
    let size = length-bytes_of 8 guid in
    let h : Holds (extended b (mask_of 8 guid ∷ bytes_of 8 guid))
        (mask_of 8 guid ∷ (bytes_of 8 guid ++ [])) =
      rw append-nil (extended-Holds (mask_of 8 guid ∷ bytes_of 8 guid) d (omega arith)) in
    let (after, reads, left) = read_pack_guid-append guid [] small h in
    (
      extended b (mask_of 8 guid ∷ bytes_of 8 guid),
      after,
      append_pack_guid_lem guid d.writes,
      reads,
      omega (arith, length-append b.storage (mask_of 8 guid ∷ bytes_of 8 guid)),
      left,
    )
