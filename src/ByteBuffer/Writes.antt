-- ===== src/ByteBuffer/Writes.antt =====
-- Writes of a ByteBuffer at its end: they append to the storage, up to the size limit, past which
-- the ASSERT ends the process.
use warhead_discord.Prelude.{
  ℕ, ◌+◌, ◌^◌, ◌≤◌, ◌<◌, ◌≡◌, refl, sym, ap, ◌∙◌, true, false, List, [], ◌∷◌, ◌++◌, ok, err,
  aborted, arith, leb, ltb, length, take, drop, blit, resize, length-resize, length-append,
  length-to_le, take-resize, take_all, drop_all, add_size, append-nil, to_le, append_assoc, suc,
  ◌==◌, ◌%◌, ◌/◌,
}
use warhead_discord.ByteBuffer.{ByteBuffer, append, append_value, append_string}

-- The write position is the end of the storage, as after any number of appends.
pub record IsAtEnd (b : ByteBuffer) : Type 0 where
  pub at_end : b.wpos ≡ length b.storage
  pub open_for : length b.storage < 10000000

abbrev pub extended : ByteBuffer → List ℕ → ByteBuffer
extended b xs = record b { wpos = length b.storage + length xs; storage = b.storage ++ xs }

blit_at_end :
    (xs ys : List ℕ) (n : ℕ)
    → n ≡ length xs + length ys
    → blit (resize xs n 0) (length xs) ys ≡ xs ++ ys
blit_at_end xs ys n e =
    let front : take (length xs) (resize xs n 0) ≡ xs =
      take-resize (length xs) xs n 0 (omega arith) (omega arith)
      ∙ take_all (length xs) xs (omega arith) in
    let back : drop (length xs + length ys) (resize xs n 0) ≡ [] =
      drop_all (length xs + length ys) (resize xs n 0) (omega (arith, length-resize xs n 0)) in
    rw (front, back, append-nil)

-- A short append succeeds and appends, an empty one and one to a full buffer abort.
pub append_lem :
    {b : ByteBuffer} (x : ℕ) (xs : List ℕ)
    → IsAtEnd b
    → length xs < 2 ^ 32
    → append b (x ∷ xs) ≡ ok (extended b (x ∷ xs))
unfolding append
append_lem {b} x xs h s =
    let room : ltb (length b.storage) 10000000 ≡ true = ground (arith, h.open_for) in
    let some_bytes : ltb 0 (length (x ∷ xs)) ≡ true = ground arith in
    let end : add_size b.wpos (length (x ∷ xs)) ≡ length b.storage + length (x ∷ xs) =
      omega (arith, h.at_end, h.open_for) in
    let grows : ltb (length b.storage) (length b.storage + length (x ∷ xs)) ≡ true = ground arith in
    let n = length b.storage + length (x ∷ xs) in
    let inside : leb (length b.storage + length (x ∷ xs)) (length (resize b.storage n 0)) ≡ true =
      ground (arith, length-resize b.storage n 0) in
    rw (some_bytes, room, end, grows, h.at_end, inside)
      (ap (λ ys. ok (record b { wpos = n; storage = ys })) (blit_at_end b.storage (x ∷ xs) n refl))

pub extended-IsAtEnd :
    (b : ByteBuffer) (xs : List ℕ)
    → length b.storage + length xs < 10000000
    → IsAtEnd (extended b xs)
extended-IsAtEnd b xs s = record {
  at_end = sym (length-append b.storage xs);
  open_for = omega (arith, length-append b.storage xs);
}

pub extended-extended :
    (b : ByteBuffer) (xs ys : List ℕ) → extended (extended b xs) ys ≡ extended b (xs ++ ys)
extended-extended b xs ys =
    let e : length (b.storage ++ xs) + length ys ≡ length b.storage + length (xs ++ ys) =
      omega (arith, length-append b.storage xs, length-append xs ys) in
    rw (e, append_assoc b.storage xs ys)

-- A T of `suc n` bytes is appended as its bytes.
pub append_value_lem :
    {b : ByteBuffer} (n v : ℕ)
    → IsAtEnd b
    → n < 2 ^ 32
    → append_value (suc n) b v ≡ ok (extended b (to_le (suc n) v))
unfolding append_value to_le
append_value_lem n v h s =
    append_lem (v % 256) (to_le n (v / 256)) h (omega (arith, length-to_le n (v / 256)))

-- A string is appended with a zero byte behind it, the empty one too.
pub append_string_lem :
    {b : ByteBuffer} (s : List ℕ)
    → IsAtEnd b
    → length b.storage + length s < 10000000
    → append_string b s ≡ ok (extended b (s ++ 0 ∷ []))
unfolding append_string append_value to_le
append_string_lem [] h k = append_lem 0 [] h (omega arith)
append_string_lem {b} (c ∷ s) h k =
    let some_bytes : (length (c ∷ s) == 0) ≡ false = ground arith in
    rw (some_bytes, append_lem c s h (omega arith))
      (append_lem 0 [] (extended-IsAtEnd b (c ∷ s) k) (omega arith)
        ∙ ap ok (extended-extended b (c ∷ s) (0 ∷ [])))

-- A full buffer takes no more: the ASSERT on its size fails.
pub append_full :
    (b : ByteBuffer) (src : List ℕ) → 10000000 ≤ length b.storage → append b src ≡ err aborted
unfolding append
append_full b src h = ground arith
