-- ===== src/DiscordSocket/Reading/Collect.antt =====
-- Moving bytes from the read buffer into the header or the payload buffer.
use warhead_discord.Prelude.{
  ℕ, ◌-◌, ◌≤◌, ◌≡◌, sym, ap, ap₂, ◌∙◌, min, List, ◌++◌, ok, arith, length, take, drop, take_all,
  length-take, ltb,
}
use warhead_discord.MessageBuffer.{
  MessageBuffer, active_size, remaining_space, has_active_size, has_remaining_space,
}
use warhead_discord.MessageBuffer.Laws.{
  IsValid, contents, active_size_lem, remaining_space_lem, length-contents, read_pointer_lem,
  read_completed-IsValid, contents-read_completed, write_lem,
}
use warhead_discord.DiscordSocket.Reading.{collect}
use warhead_discord.MessageBuffer.{read_completed, read_pointer, write}

-- A valid buffer that holds the bytes `xs` in a storage of `cap` bytes.
pub record Stores (b : MessageBuffer) (cap : ℕ) (xs : List ℕ) : Type 0 where
  pub valid : IsValid b
  pub capacity : length b.storage ≡ cap
  pub stored : contents b ≡ xs

-- The same with nothing read yet: all bytes lie at the front.
pub record Gathers (b : MessageBuffer) (cap : ℕ) (xs : List ℕ) : Type 0 where
  pub stores : Stores b cap xs
  pub unread_from : b.rpos ≡ 0

module _ {b : MessageBuffer} {cap : ℕ} {xs : List ℕ} (s : Stores b cap xs) where
  pub active_size-Stores : active_size b ≡ length xs
  active_size-Stores = sym (length-contents s.valid) ∙ ap length s.stored

  pub has_active_size-Stores : has_active_size b ≡ ltb 0 (length xs)
  unfolding has_active_size
  has_active_size-Stores = ap (ltb 0) active_size-Stores

module _ {b : MessageBuffer} {cap : ℕ} {xs : List ℕ} (g : Gathers b cap xs) where
  pub wpos-Gathers : b.wpos ≡ length xs
  wpos-Gathers = omega (
    arith,
    active_size-Stores g.stores,
    active_size_lem g.stores.valid,
    g.unread_from,
    g.stores.valid.ordered,
  )

  pub remaining_space-Gathers : remaining_space b ≡ cap - length xs
  remaining_space-Gathers =
      omega (arith, wpos-Gathers, remaining_space_lem g.stores.valid, g.stores.capacity)

  pub has_remaining_space-Gathers : has_remaining_space b ≡ ltb 0 (cap - length xs)
  unfolding has_remaining_space
  has_remaining_space-Gathers = ap (ltb 0) remaining_space-Gathers

  pub length-Gathers : length xs ≤ cap
  length-Gathers = omega (arith, wpos-Gathers, g.stores.valid.inside, g.stores.capacity)

-- A full buffer's storage is what it holds.
pub storage-Gathers :
    {b : MessageBuffer} {cap : ℕ} {xs : List ℕ}
    → Gathers b cap xs
    → length xs ≡ cap
    → b.storage ≡ xs
storage-Gathers {b} g full =
    sym (take_all b.wpos b.storage (omega (arith, wpos-Gathers g, g.stores.capacity)))
    ∙ ap (λ k. drop k (take b.wpos b.storage)) (sym g.unread_from)
    ∙ g.stores.stored

collect-eq :
    (r b c : MessageBuffer) (n : ℕ) (bytes : List ℕ)
    → min (active_size r) (remaining_space b) ≡ n
    → read_pointer r n ≡ ok bytes
    → write b bytes ≡ ok c
    → collect r b ≡ ok (read_completed r n, c)
unfolding collect
collect-eq r b c n bytes size reads writes = rw (size, reads, writes)

module _ {r b : MessageBuffer} {rcap cap : ℕ} {xs ys : List ℕ} (s : Stores r rcap xs)
    (g : Gathers b cap ys) where
  -- How many bytes move.
  abbrev pub moved : ℕ
  moved = min (length xs) (cap - length ys)

  -- They go from the front of the one to the end of the other, and never past its storage.
  pub collect_lem :
      (r' b' : MessageBuffer) × (collect r b ≡ ok (r', b'))
      × Stores r' rcap (drop moved xs)
      × Gathers b' cap (ys ++ take moved xs)
  collect_lem =
      let act = active_size-Stores s in
      let rem = remaining_space-Gathers g in
      let le : moved ≤ active_size r = omega (arith, act) in
      let front = read_pointer_lem s.valid moved le in
      let size : length (take moved (contents r)) ≡ moved =
        omega (arith, length-take moved (contents r), ap length s.stored) in
      let (c, writes, valid, stored, same, unread, _) =
        write_lem g.stores.valid (take moved (contents r)) (omega (arith, size, rem)) in
      (
        read_completed r moved,
        c,
        collect-eq r b c moved (take moved (contents r)) (omega (arith, act, rem)) front writes,
        record {
          valid = read_completed-IsValid s.valid moved le;
          capacity = unfold read_completed in s.capacity;
          stored = contents-read_completed s.valid moved le ∙ ap (drop moved) s.stored;
        },
        record {
          stores = record {
            valid = valid;
            capacity = same ∙ g.stores.capacity;
            stored = stored ∙ ap₂ (λ u v. u ++ take moved v) g.stores.stored s.stored;
          };
          unread_from = unread ∙ g.unread_from;
        },
      )
