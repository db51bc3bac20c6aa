-- ===== src/DiscordSocket/WriteQueue/Conservation.antt =====
-- No byte of the write queue is lost, sent twice or sent out of turn.
use warhead_discord.Prelude.{
  ℕ, zero, suc, ◌+◌, ◌≤◌, ◌≡◌, refl, sym, ap, ◌∙◌, false, List, [], ◌∷◌, ◌++◌, arith, ltb, ◌==◌,
  length, take, drop, take-append-drop, take_all, slice, append_assoc, Bool-cases, inl, inr, subst,
}
use warhead_discord.MessageBuffer.{MessageBuffer, active_size, read_completed}
use warhead_discord.MessageBuffer.Laws.{
  IsValid, contents, length-contents, slice-contents, contents-read_completed,
  read_completed-IsValid,
}
use warhead_discord.DiscordSocket.Sending.Wire.{wire}
use warhead_discord.DiscordSocket.WriteQueue.{
  WriteResult, would_block, failed, wrote, Outgoing, async_process_queue, pop_front, taken_bytes,
  after_write, handle_queue, handle_all, socket_update,
}

abbrev pub AreValid : List MessageBuffer → Type 0
AreValid [] = Unit {0}
AreValid (b ∷ queue) = IsValid b × AreValid queue

-- A write that succeeds or has to wait. It takes no more bytes than it is offered, and takes some
-- if there are any.
abbrev pub IsProgress : ℕ → WriteResult → Type 0
IsProgress size would_block = Unit {0}
IsProgress size failed = ⊥
IsProgress size (wrote n) = (n ≤ size) × (n ≡ 0 → size ≡ 0)

-- The bytes that were sent, and behind them those that wait.
abbrev pub all_bytes : Outgoing → List ℕ
all_bytes o = o.wire_bytes ++ wire o.write_queue

-- Nothing but the boundary between the two has moved.
abbrev pub Conserves : Outgoing → Outgoing → Type 0
Conserves o o' = (all_bytes o' ≡ all_bytes o) × AreValid o'.write_queue

pop_front-bytes :
    (o : Outgoing) (rest : List MessageBuffer)
    → ((pop_front o rest).wire_bytes ≡ o.wire_bytes) × ((pop_front o rest).write_queue ≡ rest)
unfolding pop_front
pop_front-bytes o rest = ground arith

async_process_queue-bytes :
    (o : Outgoing)
    → ((async_process_queue o).1.wire_bytes ≡ o.wire_bytes)
      × ((async_process_queue o).1.write_queue ≡ o.write_queue)
unfolding async_process_queue
async_process_queue-bytes o = ground arith

-- The taken bytes and the others are the buffer's.
taken-rest :
    {front : MessageBuffer} (v : IsValid front) (n : ℕ) (sent ys : List ℕ)
    → n ≤ active_size front
    → (sent ++ slice front.rpos n front.storage) ++ (contents (read_completed front n) ++ ys)
      ≡ sent ++ (contents front ++ ys)
taken-rest {front} v n sent ys h =
    let moved = contents-read_completed v n h in
    let joined = take-append-drop n (contents front) in
    ap (λ zs. (sent ++ zs) ++ (contents (read_completed front n) ++ ys)) (slice-contents v n h)
    ∙ ap (λ zs. (sent ++ take n (contents front)) ++ (zs ++ ys)) moved
    ∙ append_assoc sent (take n (contents front)) (drop n (contents front) ++ ys)
    ∙ ap (λ zs. sent ++ zs)
        (sym (append_assoc (take n (contents front)) (drop n (contents front)) ys)
          ∙ ap (λ zs. zs ++ ys) joined)

taken-all :
    {front : MessageBuffer} (v : IsValid front) (n : ℕ) (sent ys : List ℕ)
    → n ≡ active_size front
    → (sent ++ slice front.rpos n front.storage) ++ ys ≡ sent ++ (contents front ++ ys)
taken-all {front} v n sent ys e =
    let whole : slice front.rpos n front.storage ≡ contents front =
      slice-contents v n (omega arith)
      ∙ take_all n (contents front) (omega (arith, length-contents v)) in
    ap (λ zs. (sent ++ zs) ++ ys) whole ∙ append_assoc sent (contents front) ys

empty-contents : {b : MessageBuffer} → IsValid b → active_size b ≡ 0 → contents b ≡ []
empty-contents {b} v e = sym (take_all 0 (contents b) (omega (arith, length-contents v)))

conserved :
    (o o' : Outgoing) {xs : List ℕ} {queue : List MessageBuffer}
    → o'.wire_bytes ≡ xs
    → o'.write_queue ≡ queue
    → xs ++ wire queue ≡ all_bytes o
    → AreValid queue
    → Conserves o o'
conserved o o' {xs} {queue} e f same v = (
  ap (λ ys. ys ++ wire o'.write_queue) e ∙ ap (λ q. xs ++ wire q) f ∙ same,
  subst AreValid (sym f) v,
)

after_write-Conserves :
    (o : Outgoing) (front : MessageBuffer) (rest : List MessageBuffer) (r : WriteResult)
    → o.write_queue ≡ front ∷ rest
    → IsValid front
    → AreValid rest
    → IsProgress (active_size front) r
    → Conserves o (after_write o front rest r).1
unfolding after_write
after_write-Conserves o front rest would_block e v vs k =
    let (bytes, queue) = async_process_queue-bytes o in
    conserved o (async_process_queue o).1 bytes (queue ∙ e)
      (ap (λ q. o.wire_bytes ++ wire q) (sym e)) (v, vs)
after_write-Conserves o front rest failed e v vs k = absurd k
after_write-Conserves o front rest (wrote n) e v vs (le, progress) = elim (Bool-cases (n == 0)) [
  | inl nothing ↦
      let (bytes, queue) = pop_front-bytes o rest in
      let none_left : active_size front ≡ 0 = progress (ground (arith, nothing)) in
      let same : o.wire_bytes ++ wire rest ≡ all_bytes o =
        ap (λ ys. o.wire_bytes ++ (ys ++ wire rest)) (sym (empty-contents v none_left))
        ∙ ap (λ q. o.wire_bytes ++ wire q) (sym e) in
      rw nothing (conserved o (pop_front o rest) bytes queue same vs)
  | inr some_bytes ↦ elim (Bool-cases (ltb n (active_size front))) [
    | inl part ↦
        let o' = record (taken_bytes o front n) { write_queue = read_completed front n ∷ rest } in
        let (bytes, queue) = async_process_queue-bytes o' in
        rw (some_bytes, part)
          (conserved o (async_process_queue o').1 bytes queue
            (taken-rest v n o.wire_bytes (wire rest) le ∙ ap (λ q. o.wire_bytes ++ wire q) (sym e))
            (read_completed-IsValid v n le, vs))
    | inr whole ↦
        let all : n ≡ active_size front = ground (arith, whole, le) in
        let (bytes, queue) = pop_front-bytes (taken_bytes o front n) rest in
        rw (some_bytes, whole)
          (conserved o (pop_front (taken_bytes o front n) rest) bytes queue
            (taken-all v n o.wire_bytes (wire rest) all ∙ ap (λ q. o.wire_bytes ++ wire q) (sym e))
            vs)
  ]
]

-- The operating system: no write fails, and each takes some of the bytes that it is offered.
abbrev pub IsStream : (ℕ → ℕ → WriteResult) → Type 0
IsStream os = (call size : ℕ) → IsProgress size (os call size)

module _ (os : ℕ → ℕ → WriteResult) (stream : IsStream os) where
  pub handle_queue-eq :
      (o : Outgoing) (front : MessageBuffer) (rest : List MessageBuffer)
      → o.write_queue ≡ front ∷ rest
      → handle_queue os o
        ≡ after_write
            (record o { write_calls = o.write_calls + 1 })
            front
            rest
            (os o.write_calls (active_size front))
  unfolding handle_queue
  handle_queue-eq o front rest e = rw e

  handle_queue-idle : (o : Outgoing) → o.write_queue ≡ [] → handle_queue os o ≡ (false, o)
  unfolding handle_queue
  handle_queue-idle o e = rw e

  handle_queue-on :
      (queue : List MessageBuffer) (o : Outgoing)
      → o.write_queue ≡ queue
      → AreValid queue
      → Conserves o (handle_queue os o).1
  handle_queue-on [] o e v = rw (handle_queue-idle o e) (refl, subst AreValid (sym e) v)
  handle_queue-on (front ∷ rest) o e (v, vs) = rw (handle_queue-eq o front rest e) (
      after_write-Conserves (record o { write_calls = o.write_calls + 1 }) front rest _ e v vs
        (stream o.write_calls (active_size front)))

  -- Whatever part of the offered bytes each write takes, one call of HandleQueue only moves bytes
  -- from the front of the write queue to the wire.
  pub handle_queue-Conserves :
      (o : Outgoing) → AreValid o.write_queue → Conserves o (handle_queue os o).1
  handle_queue-Conserves o v = handle_queue-on o.write_queue o refl v

  handle_all-Conserves :
      (fuel : ℕ) (o : Outgoing) → AreValid o.write_queue → Conserves o (handle_all os fuel o)
  unfolding handle_all
  handle_all-Conserves zero o v = (refl, v)
  handle_all-Conserves (suc fuel) o v =
      let (same, valid) = handle_queue-Conserves o v in
      let (same', valid') = handle_all-Conserves fuel (handle_queue os o).1 valid in
      elim (Bool-cases (handle_queue os o).0) [
        | inl more ↦ rw more (same' ∙ same, valid')
        | inr done ↦ rw done (same, valid)
      ]

  -- If no write fails, and each takes some but no more of the bytes that it is offered, an update
  -- of the socket loses, repeats and reorders no byte: what was sent, with what the (well-formed)
  -- buffers of the write queue hold behind it, are the same bytes before and after.
  pub socket_update-Conserves :
      (o : Outgoing) → AreValid o.write_queue → Conserves o (socket_update os o).1
  unfolding socket_update
  socket_update-Conserves o v =
      let (same, valid) = handle_all-Conserves (length o.write_queue) o v in
      ground (arith, same, valid, v)
