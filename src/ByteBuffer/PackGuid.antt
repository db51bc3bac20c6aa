-- ===== src/ByteBuffer/PackGuid.antt =====
-- The packed form of a 64-bit value: a mask of its nonzero bytes, and those bytes.
use native.Mathlib.Nat.{pow-suc, div-div-eq-div-mul}
use native.Mathlib.Numerals.{add-one}
use warhead_discord.Prelude.{
  ℕ, zero, suc, ◌+◌, ◌*◌, ◌/◌, ◌%◌, ◌^◌, ◌≤◌, ◌<◌, ◌≡◌, refl, sym, ap, ◌∙◌, true, false, List, [],
  ◌∷◌, ◌++◌, ok, arith, leb, ◌==◌, if◌then◌else◌, length, append_assoc, append-nil, add_size,
  Bool-cases, inl, inr,
}
use warhead_discord.ByteBuffer.{
  ByteBuffer, append, append_pack_guid, pack_loop, unpack_loop, read_pack_guid,
}
use warhead_discord.ByteBuffer.Reads.{Holds, length-holds}
use warhead_discord.ByteBuffer.Strings.{next_byte}
use warhead_discord.ByteBuffer.Writes.{IsAtEnd, extended, append_lem}

-- The mask of the low `n` bytes of `g`, and the nonzero ones among them.
pub mask_of : ℕ → ℕ → ℕ
mask_of zero g = 0
mask_of (suc n) g = (if g % 256 == 0 then 0 else 1) + 2 * mask_of n (g / 256)

pub bytes_of : ℕ → ℕ → List ℕ
bytes_of zero g = []
bytes_of (suc n) g =
    let rest = bytes_of n (g / 256) in if g % 256 == 0 then rest else (g % 256) ∷ rest

mask_of-zero : (n : ℕ) → mask_of n 0 ≡ 0
unfolding mask_of
mask_of-zero zero = refl
mask_of-zero (suc n) = ground (arith, mask_of-zero n)

bytes_of-zero : (n : ℕ) → bytes_of n 0 ≡ []
unfolding bytes_of
bytes_of-zero zero = refl
bytes_of-zero (suc n) = ground (arith, bytes_of-zero n)

mask_of-lt : (n g : ℕ) → mask_of n g < 2 ^ n
unfolding mask_of
mask_of-lt zero g = omega arith
mask_of-lt (suc n) g = ground (arith, mask_of-lt n (g / 256), pow-suc 2 n)

pub length-bytes_of : (n g : ℕ) → length (bytes_of n g) ≤ n
unfolding bytes_of
length-bytes_of zero g = omega arith
length-bytes_of (suc n) g = ground (arith, length-bytes_of n (g / 256))

two_pow_next : (i : ℕ) → 2 ^ (i + 1) ≡ 2 * 2 ^ i
two_pow_next i = rw add-one (omega (arith, pow-suc 2 i))

pack_loop_lem :
    (n i g mask : ℕ) (bytes : List ℕ)
    → pack_loop n i g mask bytes ≡ (mask + 2 ^ i * mask_of n g, bytes ++ bytes_of n g)
unfolding pack_loop mask_of bytes_of
pack_loop_lem zero i g mask bytes = ground (arith, append-nil bytes)
pack_loop_lem (suc n) i g mask bytes =
    let low = g % 256 in
    let next_mask = if low == 0 then mask else mask + 2 ^ i in
    let next_bytes = if low == 0 then bytes else bytes ++ low ∷ [] in
    let deeper = pack_loop_lem n (i + 1) (g / 256) next_mask next_bytes in
    ground (
      arith,
      deeper,
      two_pow_next i,
      ap (λ (p : ℕ). p * mask_of n (g / 256)) (two_pow_next i),
      mask_of-zero n,
      bytes_of-zero n,
      append-nil bytes,
      append_assoc bytes (low ∷ []) (bytes_of n (g / 256)),
    )

-- The value of the bytes from position `i` on, and the next byte's part of it.
split_low : (i g guid : ℕ) → guid + g % 256 * 256 ^ i + g / 256 * 256 ^ (i + 1) ≡ guid + g * 256 ^ i
split_low i g guid =
    let next : 256 ^ (i + 1) ≡ 256 * 256 ^ i = rw add-one (omega (arith, pow-suc 256 i)) in
    let parts : g ≡ g % 256 + 256 * (g / 256) = omega arith in
    omega (arith, ap (λ (p : ℕ). g / 256 * p) next, ap (λ (k : ℕ). k * 256 ^ i) parts)

next_mask :
    (i mask g n : ℕ) → mask / 2 ^ i ≡ mask_of (suc n) g → mask / 2 ^ (i + 1) ≡ mask_of n (g / 256)
unfolding mask_of
next_mask i mask g n m =
    let e : mask / 2 ^ (i + 1) ≡ mask / 2 ^ i / 2 =
      rw add-one (ap (λ p. mask / p) (pow-suc 2 i) ∙ sym (div-div-eq-div-mul mask (2 ^ i) 2)) in
    e ∙ rw m (ground arith)

-- The loop reads back what the packing wrote for the bytes from position `i` on.
unpack_loop_lem :
    (n i mask guid g : ℕ) {b : ByteBuffer} (rest : List ℕ)
    → mask / 2 ^ i ≡ mask_of n g
    → g < 256 ^ n
    → Holds b (bytes_of n g ++ rest)
    → (c : ByteBuffer) × (unpack_loop n i mask guid b ≡ ok (guid + g * 256 ^ i, c)) × Holds c rest
unfolding unpack_loop bytes_of
unpack_loop_lem zero i mask guid g {b} rest m s h = (b, ap (λ k. ok (k, b)) (ground arith), h)
unpack_loop_lem (suc n) i mask guid g {b} rest m s h = elim (Bool-cases (g % 256 == 0)) [
  | inl low ↦
      let bit : (mask / 2 ^ i % 2 == 0) ≡ true = unfold mask_of in ground arith in
      let (c, reads, left) =
        unpack_loop_lem n (i + 1) mask guid (g / 256) rest (next_mask i mask g n m)
          (omega (arith, pow-suc 256 n)) (rw low at h) in
      (
        c,
        rw (bit, unpack_loop) (reads ∙ ap (λ k. ok (k, c)) (ground (arith, split_low i g guid))),
        left,
      )
  | inr low ↦
      let bit : (mask / 2 ^ i % 2 == 0) ≡ false = unfold mask_of in ground arith in
      let h' : Holds b ((g % 256) ∷ (bytes_of n (g / 256) ++ rest)) = rw low at h in
      let (reads, left) = next_byte (g % 256) (bytes_of n (g / 256) ++ rest) h' in
      let checked : leb (add_size b.rpos 1) (length b.storage) ≡ true =
        ground (arith, length-holds h') in
      let (c, reads_rest, left_rest) =
        unpack_loop_lem n (i + 1) mask (guid + g % 256 * 256 ^ i) (g / 256) rest
          (next_mask i mask g n m) (omega (arith, pow-suc 256 n)) left in
      (c, ground (arith, bit, checked, reads, reads_rest, split_low i g guid), left_rest)
]

-- Every 64-bit value is read back from its packed form, which takes nine bytes at most.
pub read_pack_guid-append :
    (guid : ℕ) {b : ByteBuffer} (rest : List ℕ)
    → guid < 2 ^ 64
    → Holds b (mask_of 8 guid ∷ (bytes_of 8 guid ++ rest))
    → (c : ByteBuffer) × (read_pack_guid b ≡ ok (guid, c)) × Holds c rest
unfolding read_pack_guid
read_pack_guid-append guid {b} rest s h =
    let (reads, left) = next_byte (mask_of 8 guid) (bytes_of 8 guid ++ rest) h in
    let checked : leb (add_size b.rpos 1) (length b.storage) ≡ true =
      ground (arith, length-holds h) in
    let (c, reads_rest, left_rest) =
      unpack_loop_lem 8 0 (mask_of 8 guid) 0 guid rest (omega arith) s left in
    (c, ground (arith, checked, reads, reads_rest), left_rest)

pub append_pack_guid_lem :
    (guid : ℕ) {b : ByteBuffer}
    → IsAtEnd b
    → append_pack_guid b guid ≡ ok (extended b (mask_of 8 guid ∷ bytes_of 8 guid))
unfolding append_pack_guid
append_pack_guid_lem guid {b} h = rw (pack_loop_lem 8 0 guid 0 []) (
    ap (λ m. append b (m ∷ bytes_of 8 guid)) (omega arith)
    ∙ append_lem (mask_of 8 guid) (bytes_of 8 guid) h (omega (arith, length-bytes_of 8 guid)))
