-- ===== src/ByteBuffer/Reads.antt =====
-- Reads of a ByteBuffer, told by the bytes that are still unread. A read takes them from the
-- front, or throws and changes nothing.
use warhead_discord.Prelude.{
  ℕ, ◌+◌, ◌-◌, ◌^◌, ◌≤◌, ◌<◌, ◌≡◌, sym, ap, ◌∙◌, true, false, List, ◌++◌, ok, err, position, arith,
  leb, length, take, drop, length-drop, length-append, drop-drop, take-append_left,
  drop-append_left, take_all, drop_all, to_le, of_le, of_le-to_le, length-to_le, add_size, subst,
}
use warhead_discord.ByteBuffer.{ByteBuffer, bytes_at, read_at, read_value, read_bytes, read_skip}

abbrev pub unread : ByteBuffer → List ℕ
unread b = drop b.rpos b.storage

-- The buffer still has to give exactly the bytes `xs`, and is of a size that a vector can have.
pub record Holds (b : ByteBuffer) (xs : List ℕ) : Type 0 where
  pub inside : b.rpos ≤ length b.storage
  pub small : length b.storage < 2 ^ 63
  pub holds : unread b ≡ xs

abbrev pub advance : ℕ → ByteBuffer → ByteBuffer
advance n b = record b { rpos = b.rpos + n }

module _ {b : ByteBuffer} {xs : List ℕ} (h : Holds b xs) where
  pub length-holds : length xs ≡ length b.storage - b.rpos
  length-holds = omega (arith, ap length h.holds, length-drop b.rpos b.storage)

  pub bytes_at_lem : (n : ℕ) → n ≤ length xs → bytes_at n b.rpos b ≡ ok (take n xs)
  unfolding bytes_at
  bytes_at_lem n k =
      let checked : leb (add_size b.rpos n) (length b.storage) ≡ true =
        ground (arith, length-holds) in
      let within : leb (b.rpos + n) (length b.storage) ≡ true = ground (arith, length-holds) in
      rw (checked, within) (ap (λ ys. ok (take n ys)) h.holds)

  pub bytes_at_short : (n : ℕ) → n < 2 ^ 63 → length xs < n → bytes_at n b.rpos b ≡ err position
  unfolding bytes_at
  bytes_at_short n s k =
      let checked : leb (add_size b.rpos n) (length b.storage) ≡ false =
        ground (arith, length-holds) in
      rw checked

  pub advance-Holds : (n : ℕ) → n ≤ length xs → Holds (advance n b) (drop n xs)
  advance-Holds n k = record {
    inside = omega (arith, length-holds);
    small = h.small;
    holds = sym (drop-drop n b.rpos b.storage) ∙ ap (drop n) h.holds;
  }

  end_of_read : (n : ℕ) → n ≤ length xs → add_size b.rpos n ≡ b.rpos + n
  end_of_read n k = omega (arith, length-holds)

  -- A read of `n` bytes that are there gives their number and moves behind them.
  pub read_value_lem :
      (n : ℕ) → n ≤ length xs → read_value n b ≡ ok (of_le (take n xs), advance n b)
  unfolding read_value read_at
  read_value_lem n k = rw (bytes_at_lem n k, end_of_read n k)

  pub read_value_short : (n : ℕ) → n < 2 ^ 63 → length xs < n → read_value n b ≡ err position
  unfolding read_value read_at
  read_value_short n s k = rw (bytes_at_short n s k)

  pub read_bytes_lem : (n : ℕ) → n ≤ length xs → read_bytes n b ≡ ok (take n xs, advance n b)
  unfolding read_bytes
  read_bytes_lem n k = rw (bytes_at_lem n k, end_of_read n k)

  pub read_skip_lem : (n : ℕ) → n ≤ length xs → read_skip n b ≡ ok (advance n b)
  unfolding read_skip
  read_skip_lem n k =
      let checked : leb (add_size b.rpos n) (length b.storage) ≡ true =
        ground (arith, length-holds) in
      rw (checked, end_of_read n k)

-- The rest of the bytes, after those that a read took.
pub advance-Holds_append :
    {b : ByteBuffer} (xs ys : List ℕ) → Holds b (xs ++ ys) → Holds (advance (length xs) b) ys
advance-Holds_append {b} xs ys h =
    let fits : length xs ≤ length (xs ++ ys) = omega (arith, length-append xs ys) in
    let behind : drop (length xs) (xs ++ ys) ≡ ys =
      drop-append_left (length xs) xs ys (omega arith)
      ∙ ap (λ zs. zs ++ ys) (drop_all (length xs) xs (omega arith)) in
    let r = advance-Holds h (length xs) fits in
    record { inside = r.inside; small = r.small; holds = r.holds ∙ behind }

-- A value that was written is read back, whatever follows it.
pub read_value-to_le :
    {b : ByteBuffer} (n v : ℕ) (rest : List ℕ)
    → v < 256 ^ n
    → Holds b (to_le n v ++ rest)
    → (read_value n b ≡ ok (v, advance n b)) × Holds (advance n b) rest
read_value-to_le {b} n v rest fits h =
    let size = length-to_le n v in
    let front : take n (to_le n v ++ rest) ≡ to_le n v =
      take-append_left n (to_le n v) rest (omega arith) ∙ take_all n (to_le n v) (omega arith) in
    (
      read_value_lem h n (omega (arith, length-append (to_le n v) rest))
          ∙ ap (λ ys. ok (of_le ys, advance n b)) front
          ∙ ap (λ w. ok (w, advance n b)) (of_le-to_le n v fits),
      subst (λ k. Holds (advance k b) rest) size (advance-Holds_append (to_le n v) rest h),
    )
