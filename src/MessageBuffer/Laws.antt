-- ===== src/MessageBuffer/Laws.antt =====
-- A valid MessageBuffer is a queue of bytes: writes append to it, and reads drop from its front.
use warhead_discord.Prelude.{
  ℕ, ◌+◌, ◌-◌, ◌*◌, ◌/◌, ◌≤◌, ◌<◌, ◌≡◌, refl, ap, sym, ◌∙◌, List, [], ◌++◌, ok, arith, true, false,
  Bool-cases, inl, inr, leb, ◌==◌, add_size, sub_size, ◌%◌, length, take, drop, slice, blit,
  length-take, length-drop, length-blit, length-resize, take-blit, take-resize, take-take, drop_all,
  length-slice, ◌∷◌, drop-take, drop-drop, drop-append_left, append-nil, size_mod,
}
use warhead_discord.MessageBuffer.{
  MessageBuffer, resize_buffer, read_completed, active_size, remaining_space, read_pointer,
  moved_to_front, normalize, ensure_free_space, write,
}

pub record IsValid (b : MessageBuffer) : Type 0 where
  pub ordered : b.rpos ≤ b.wpos
  pub inside : b.wpos ≤ length b.storage
  pub fits : length b.storage < size_mod

-- The unread bytes, oldest first.
abbrev pub contents : MessageBuffer → List ℕ
contents b = drop b.rpos (take b.wpos b.storage)

module _ {b : MessageBuffer} (v : IsValid b) where
  pub active_size_lem : active_size b ≡ b.wpos - b.rpos
  unfolding active_size
  active_size_lem = omega arith

  pub remaining_space_lem : remaining_space b ≡ length b.storage - b.wpos
  unfolding remaining_space
  remaining_space_lem = omega arith

  pub length-contents : length (contents b) ≡ active_size b
  length-contents = omega (
    arith,
    active_size_lem,
    length-drop b.rpos (take b.wpos b.storage),
    length-take b.wpos b.storage,
  )

  pub slice-contents : (n : ℕ) → n ≤ active_size b → slice b.rpos n b.storage ≡ take n (contents b)
  slice-contents n h = sym (
      ap (take n) (drop-take b.rpos b.wpos b.storage)
      ∙ take-take n (b.wpos - b.rpos) (drop b.rpos b.storage) (omega (arith, active_size_lem)))

  -- What a read of `n` active bytes finds.
  pub read_pointer_lem : (n : ℕ) → n ≤ active_size b → read_pointer b n ≡ ok (take n (contents b))
  unfolding read_pointer
  read_pointer_lem n h =
      let fits : leb (add_size b.rpos n) (length b.storage) ≡ true =
        ground (arith, active_size_lem) in
      rw fits (ap ok (slice-contents n h))

  pub read_completed-IsValid : (n : ℕ) → n ≤ active_size b → IsValid (read_completed b n)
  unfolding read_completed
  read_completed-IsValid n h = omega (arith, active_size_lem)

  pub contents-read_completed :
      (n : ℕ) → n ≤ active_size b → contents (read_completed b n) ≡ drop n (contents b)
  unfolding read_completed
  contents-read_completed n h =
      let e : add_size b.rpos n ≡ b.rpos + n = omega (arith, active_size_lem) in
      rw e (sym (drop-drop n b.rpos (take b.wpos b.storage)))

  abbrev appended : List ℕ → MessageBuffer
  appended xs = record b { wpos = b.wpos + length xs; storage = blit b.storage b.wpos xs }

  contents-appended :
      (xs : List ℕ) → length xs ≤ remaining_space b → contents (appended xs) ≡ contents b ++ xs
  contents-appended xs h =
      ap (drop b.rpos) (take-blit b.storage b.wpos xs v.inside)
      ∙ drop-append_left b.rpos (take b.wpos b.storage) xs
          (omega (arith, length-take b.wpos b.storage))

  -- A write into a well-formed message buffer that fits succeeds, appends its bytes to the unread
  -- ones, and leaves the buffer well-formed, its size and read position the same.
  pub write_lem :
      (xs : List ℕ)
      → length xs ≤ remaining_space b
      → (c : MessageBuffer) × (write b xs ≡ ok c)
        × IsValid c
        × (contents c ≡ contents b ++ xs)
        × (length c.storage ≡ length b.storage)
        × (c.rpos ≡ b.rpos)
        × (c.wpos ≡ b.wpos + length xs)
  unfolding write
  write_lem [] h = (b, refl, v, sym (append-nil (contents b)), refl, refl, omega arith)
  write_lem (x ∷ xs) h =
      let same = length-blit b.storage b.wpos (x ∷ xs) (omega (arith, remaining_space_lem)) in
      let fits : leb (add_size b.wpos (length (x ∷ xs))) (length b.storage) ≡ true =
        ground (arith, remaining_space_lem) in
      let some_left : (length (x ∷ xs) == 0) ≡ false = ground arith in
      let end : add_size b.wpos (length (x ∷ xs)) ≡ b.wpos + length (x ∷ xs) =
        omega (arith, remaining_space_lem) in
      (
        appended (x ∷ xs),
        rw (some_left, fits, end),
        omega (arith, same, remaining_space_lem),
        contents-appended (x ∷ xs) h,
        same,
        refl,
        refl,
      )

  unread_size : length (slice b.rpos (b.wpos - b.rpos) b.storage) ≡ b.wpos - b.rpos
  unread_size = length-slice b.rpos (b.wpos - b.rpos) b.storage (omega arith)

  moved_to_front_lem :
      moved_to_front b ≡ ok (blit b.storage 0 (slice b.rpos (b.wpos - b.rpos) b.storage))
  unfolding moved_to_front
  moved_to_front_lem =
      let fits : leb (add_size b.rpos (b.wpos - b.rpos)) (length b.storage) ≡ true = ground arith in
      rw (active_size_lem, fits)

  contents-moved :
      drop 0 (take (b.wpos - b.rpos) (blit b.storage 0 (slice b.rpos (b.wpos - b.rpos) b.storage)))
      ≡ contents b
  contents-moved =
      let e : 0 + length (slice b.rpos (b.wpos - b.rpos) b.storage) ≡ b.wpos - b.rpos =
        omega (arith, unread_size) in
      ap (λ k. take k (blit b.storage 0 (slice b.rpos (b.wpos - b.rpos) b.storage))) (sym e)
      ∙ take-blit b.storage 0 (slice b.rpos (b.wpos - b.rpos) b.storage) (omega arith)
      ∙ sym (drop-take b.rpos b.wpos b.storage)

  abbrev emptied : List ℕ → MessageBuffer
  emptied storage = record { wpos = b.wpos - b.rpos; rpos = 0; storage = storage }

  -- Discarding the read bytes keeps the unread ones, and gives their space back.
  pub normalize_lem :
      (c : MessageBuffer) × (normalize b ≡ ok c)
      × IsValid c
      × (contents c ≡ contents b)
      × (length c.storage ≡ length b.storage)
      × (c.rpos ≡ 0)
  unfolding normalize
  normalize_lem = elim (Bool-cases (b.rpos == 0)) [
    | inl front ↦ (b, rw front, v, refl, refl, ground arith)
    | inr later ↦ elim (Bool-cases (b.rpos == b.wpos)) [
      | inl drained ↦
          let none_left : b.wpos - b.rpos ≡ 0 = ground arith in
          let end : sub_size b.wpos b.rpos ≡ b.wpos - b.rpos = omega arith in
          (
            emptied b.storage,
            rw (later, drained, end),
            omega arith,
            rw none_left (
                sym (
                  drop_all b.rpos (take b.wpos b.storage)
                    (ground (arith, length-take b.wpos b.storage)))),
            refl,
            refl,
          )
      | inr unread ↦
          let moved = slice b.rpos (b.wpos - b.rpos) b.storage in
          let same = length-blit b.storage 0 moved (omega (arith, unread_size)) in
          let end : sub_size b.wpos b.rpos ≡ b.wpos - b.rpos = omega arith in
          (
            emptied (blit b.storage 0 moved),
            rw (later, unread, moved_to_front_lem, end),
            omega (arith, same),
            contents-moved,
            same,
            refl,
          )
    ]
  ]

  pub ensure_free_space-IsValid : length b.storage * 3 < size_mod → IsValid (ensure_free_space b)
  unfolding ensure_free_space resize_buffer remaining_space
  ensure_free_space-IsValid h =
      ground (
        arith,
        remaining_space_lem,
        length-resize b.storage (length b.storage * 3 % size_mod / 2) 0,
      )

  pub ensure_free_space-room :
      2 ≤ length b.storage
      → length b.storage * 3 < size_mod
      → 0 < remaining_space (ensure_free_space b)
  unfolding ensure_free_space resize_buffer remaining_space
  ensure_free_space-room two h = ground (
    arith,
    remaining_space_lem,
    v.ordered,
    v.inside,
    length-resize b.storage (length b.storage * 3 % size_mod / 2) 0,
  )

  -- A full buffer grows, and what it holds stays.
  pub contents-ensure_free_space :
      length b.storage * 3 < size_mod → contents (ensure_free_space b) ≡ contents b
  unfolding ensure_free_space resize_buffer remaining_space
  contents-ensure_free_space h = ground (
    arith,
    remaining_space_lem,
    take-resize b.wpos b.storage (length b.storage * 3 % size_mod / 2) 0,
  )

-- What AsyncRead does to a well-formed message buffer before a read loses nothing unread; and if
-- the buffer has two bytes or more, and three times its size is a size_t, it has room for at
-- least one byte then.
pub make_room :
    {b : MessageBuffer}
    → IsValid b
    → 2 ≤ length b.storage
    → length b.storage * 3 < size_mod
    → (c : MessageBuffer) × (normalize b ≡ ok c)
      × IsValid (ensure_free_space c)
      × (contents (ensure_free_space c) ≡ contents b)
      × (0 < remaining_space (ensure_free_space c))
make_room {b} v two small =
    let (c, front, valid, same, size, start) = normalize_lem v in
    let bound : length c.storage * 3 < size_mod = omega (arith, size, small) in
    let grown = ensure_free_space-IsValid valid bound in
    (
      c,
      front,
      grown,
      contents-ensure_free_space valid bound ∙ same,
      ensure_free_space-room valid (omega arith) bound,
    )
