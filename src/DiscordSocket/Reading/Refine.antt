-- ===== src/DiscordSocket/Reading/Refine.antt =====
-- The loop of `ReadHandler` does what the byte machine does, on every state that a connection can
-- be in between two reads.
use warhead_discord.Prelude.{
  ℕ, zero, suc, ◌+◌, ◌-◌, ◌≤◌, ◌<◌, ◌≡◌, refl, sym, ap, ◌∙◌, Bool, true, false, ◌&&◌, List, [], ◌∷◌,
  ◌++◌, ok, err, Result, ◌>>=◌, arith, length, take, drop, leb, ltb, Bool-cases, inl, inr,
  take-append-drop, length-drop, length-take, length-append, append-nil, subst,
}
use warhead_discord.MessageBuffer.{has_active_size}
use warhead_discord.PacketHeader.{client_header, is_valid_size, is_valid_opcode, header_length}
use warhead_discord.DiscordSocket.{Peer, Connection, close_socket}
use warhead_discord.DiscordSocket.Handlers.{
  ReadDataResult, handled, refused, waiting_for_query, handle_packet,
}
use warhead_discord.DiscordSocket.Reading.{
  LoopEnd, drained, closed_by_error, waits, read_loop, dispatch, receive_header, receive_payload,
  finish_round, payload_round, header_round,
}
use warhead_discord.DiscordSocket.Reading.Machine.{
  Phase, in_header, in_payload, Run, running, closed_run, waiting, crashed, after_packet, deliver,
  in_body, consume, consume-append, consume_closed, consume_crashed, consume_waiting,
  consume_header_part, consume_header, consume_payload_part, consume_payload,
}
use warhead_discord.DiscordSocket.Reading.Collect.{has_active_size-Stores}
use warhead_discord.DiscordSocket.Reading.Headers.{
  InHeader, InPayload, receive_header_part, receive_header_accepts, receive_header_refuses, missing,
  header_bytes,
}
use warhead_discord.DiscordSocket.Reading.Payloads.{
  receive_header_ready, receive_payload_part, receive_payload_whole, dispatch_lem, dispatch_crash,
}

-- The connection is in the machine's phase, with the bytes `xs` unread.
abbrev pub Tracks : Phase → Connection → List ℕ → Type 0
Tracks (in_header h) c xs = InHeader c h xs
Tracks (in_payload cmd need got) c xs = InPayload c cmd need got xs × (length got < need)

-- How the loop ends when the machine ends so.
abbrev pub Matches : Run → Result (LoopEnd × Connection) → Type 0
Matches (running phase p) r =
    (c : Connection) × (r ≡ ok (drained, c)) × Tracks phase c [] × (c.peer ≡ p)
Matches (closed_run p) r = (c : Connection) × (r ≡ ok (closed_by_error, c)) × (c.peer ≡ p)
Matches (waiting p rest) r =
    (c : Connection) × (r ≡ ok (waits, c)) × InHeader c [] rest × (c.peer ≡ p)
Matches (crashed e) r = r ≡ err e

Matches-along :
    {r r' : Run} {x x' : Result (LoopEnd × Connection)}
    → r' ≡ r
    → x' ≡ x
    → Matches r x
    → Matches r' x'
Matches-along {r} {r'} {x} {x'} p q m =
    subst (λ y. Matches r' y) (sym q) (subst (λ s. Matches s x) (sym p) m)

module _ (is_valid : List ℕ → Bool) (clock : ℕ → ℕ) where
  -- What the induction knows of the next rounds.
  abbrev GoesOn : (Connection → Result (LoopEnd × Connection)) → ℕ → Type 0
  GoesOn next bound =
      (c : Connection) (xs : List ℕ)
      → InHeader c [] xs
      → length xs < bound
      → Matches (consume is_valid clock (running (in_header []) c.peer) xs) (next c)

  module _ (next : Connection → Result (LoopEnd × Connection)) (bound : ℕ)
      (ih : GoesOn next bound) where
    delivered :
        {c : Connection} {cmd need : ℕ} {got xs : List ℕ}
        → InPayload c cmd need got xs
        → length got ≡ need
        → length xs < bound
        → (r : Result (ReadDataResult × Peer))
        → handle_packet is_valid clock c.peer (record { opcode = cmd; payload = got }) ≡ r
        → Matches
            (consume is_valid clock (after_packet is_valid clock r) xs)
            (dispatch is_valid clock c >>= finish_round is_valid clock next)
    unfolding finish_round
    delivered {c} {xs = xs} i full k (ok (handled, p)) e =
        let (c', runs, s, same) = dispatch_lem is_valid clock i full handled p e in
        Matches-along (ap (λ q. consume is_valid clock (running (in_header []) q) xs) (sym same))
          (ap (λ x. x >>= finish_round is_valid clock next) runs) (ih c' xs s k)
    delivered {c} {xs = xs} i full k (ok (refused, p)) e =
        let (c', runs, s, same) = dispatch_lem is_valid clock i full refused p e in
        Matches-along (consume_closed is_valid clock (close_socket p) xs)
          (ap (λ x. x >>= finish_round is_valid clock next) runs)
          (record c' { peer = close_socket c'.peer }, refl, ap close_socket same)
    delivered {c} {xs = xs} i full k (ok (waiting_for_query, p)) e =
        let (c', runs, s, same) = dispatch_lem is_valid clock i full waiting_for_query p e in
        Matches-along (consume_waiting is_valid clock p [] xs)
          (ap (λ x. x >>= finish_round is_valid clock next) runs) (c', refl, s, same)
    delivered {c} {xs = xs} i full k (err e') e =
        Matches-along (consume_crashed is_valid clock e' xs)
          (ap (λ x. x >>= finish_round is_valid clock next)
            (dispatch_crash is_valid clock i full e' e))
          refl

    -- The machine over a payload that is completed.
    whole_payload :
        (p : Peer) (cmd need : ℕ) (got xs : List ℕ)
        → length got ≤ need
        → need ≤ length got + length xs
        → consume is_valid clock (in_body is_valid clock p cmd need got) xs
          ≡ consume is_valid clock
              (deliver is_valid clock p cmd (got ++ take (need - length got) xs))
              (drop (need - length got) xs)
    whole_payload p cmd need got xs le enough = elim (Bool-cases (leb need (length got))) [
      | inl done ↦
          let none_missing : need - length got ≡ 0 = ground arith in
          rw (done, none_missing, append-nil)
      | inr more ↦
          let n = need - length got in
          let size : length (take n xs) ≡ n = omega (arith, length-take n xs) in
          let lt : length got < need = ground arith in
          rw more (
            ap (consume is_valid clock (running (in_payload cmd need got) p))
              (sym (take-append-drop n xs))
            ∙ consume-append is_valid clock (running (in_payload cmd need got) p) (take n xs)
                (drop n xs)
            ∙ ap (λ r. consume is_valid clock r (drop n xs))
                (consume_payload is_valid clock p cmd need got (take n xs) lt (omega arith)))
    ]

    -- The second half of a round, from a header that is there.
    payload-Matches :
        {c : Connection} {cmd need : ℕ} {got xs : List ℕ}
        → InPayload c cmd need got xs
        → length got ≤ need
        → length xs - (need - length got) < bound
        → Matches
            (consume is_valid clock (in_body is_valid clock c.peer cmd need got) xs)
            (receive_payload c >>= payload_round is_valid clock next)
    unfolding payload_round
    payload-Matches {c} {cmd} {need} {got} {xs} i le k =
        elim (Bool-cases (ltb (length got + length xs) need)) [
          | inl short ↦
              let (c', runs, s, same) = receive_payload_part i (ground arith) in
              let open_body : leb need (length got) ≡ false = ground arith in
              Matches-along
                (ap (λ r. consume is_valid clock r xs) (rw open_body)
                  ∙ consume_payload_part is_valid clock c.peer cmd need got xs (ground arith))
                (ap (λ x. x >>= payload_round is_valid clock next) runs)
                (c', refl, (s, ground (arith, length-append got xs)), same)
          | inr enough ↦
              let m = need - length got in
              let (c', runs, s, same) = receive_payload_whole i (ground arith) in
              let full : length (got ++ take m xs) ≡ need =
                ground (arith, length-append got (take m xs), length-take m xs) in
              Matches-along
                (whole_payload c.peer cmd need got xs le (ground arith)
                  ∙ ap
                      (λ p.
                        consume is_valid clock (deliver is_valid clock p cmd (got ++ take m xs))
                          (drop m xs))
                      (sym same))
                (ap (λ x. x >>= payload_round is_valid clock next) runs)
                (delivered s full (omega (arith, length-drop m xs)) _ refl)
        ]

    -- A whole round in a header.
    header-Matches :
        {c : Connection} {h xs : List ℕ}
        → InHeader c h xs
        → length xs ≤ bound
        → 0 < length xs
        → Matches
            (consume is_valid clock (running (in_header h) c.peer) xs)
            (receive_header c >>= header_round is_valid clock next)
    unfolding header_round
    header-Matches {c} {h} {xs} i k some_bytes =
        elim (Bool-cases (ltb (length h + length xs) header_length)) [
          | inl short ↦
              let (c', runs, s, same) = receive_header_part i (ground arith) in
              Matches-along (consume_header_part is_valid clock c.peer h xs (ground arith))
                (ap (λ x. x >>= header_round is_valid clock next) runs) (c', refl, s, same)
          | inr more ↦
              let enough : header_length ≤ length h + length xs = ground arith in
              let n = missing i enough in
              let bytes = header_bytes i enough in
              let size : length (take n xs) ≡ n = omega (arith, length-take n xs) in
              let shorter : length (drop n xs) < length xs =
                omega (arith, length-drop n xs, i.short) in
              let machine =
                ap (consume is_valid clock (running (in_header h) c.peer))
                  (sym (take-append-drop n xs))
                ∙ consume-append is_valid clock (running (in_header h) c.peer) (take n xs)
                    (drop n xs)
                ∙ ap (λ r. consume is_valid clock r (drop n xs))
                    (consume_header is_valid clock c.peer h (take n xs) i.short
                      (omega (arith, i.short))) in
              elim (Bool-cases
                (is_valid_size (client_header bytes) && is_valid_opcode (client_header bytes))) [
                  | inl good ↦
                      let (c', runs, s, same) = receive_header_accepts i enough good in
                      let head = client_header bytes in
                      Matches-along
                        (machine
                          ∙ ap (λ r. consume is_valid clock r (drop n xs)) (rw good)
                          ∙ ap
                              (λ p.
                                consume is_valid clock
                                  (in_body is_valid clock p head.cmd (head.size - 2) [])
                                  (drop n xs))
                              (sym same))
                        (ap (λ x. x >>= header_round is_valid clock next) runs)
                        (payload-Matches s (omega arith) (omega arith))
                  | inr bad ↦
                      let (c', runs, same) = receive_header_refuses i enough bad in
                      Matches-along
                        (machine
                          ∙ ap (λ r. consume is_valid clock r (drop n xs)) (rw bad)
                          ∙ consume_closed is_valid clock (close_socket c.peer) (drop n xs))
                        (ap (λ x. x >>= header_round is_valid clock next) runs)
                        (record c' { peer = close_socket c'.peer }, refl, ap close_socket same)
                ]
        ]

  read_loop-idle :
      (fuel : ℕ) (c : Connection)
      → has_active_size c.read_buffer ≡ false
      → read_loop is_valid clock (suc fuel) c ≡ ok (drained, c)
  unfolding read_loop
  read_loop-idle fuel c idle = rw (idle, read_loop)

  read_loop-busy :
      (fuel : ℕ) (c : Connection)
      → has_active_size c.read_buffer ≡ true
      → read_loop is_valid clock (suc fuel) c
        ≡ (receive_header c >>= header_round is_valid clock (read_loop is_valid clock fuel))
  unfolding read_loop
  read_loop-busy fuel c busy = rw (busy, read_loop)

  -- With fuel for every unread byte, and one to spare, the loop ends as the machine does.
  pub read_loop-Matches :
      (fuel : ℕ) (phase : Phase) (c : Connection) (xs : List ℕ)
      → Tracks phase c xs
      → length xs < fuel
      → Matches (consume is_valid clock (running phase c.peer) xs) (read_loop is_valid clock fuel c)
  unfolding consume header_round
  read_loop-Matches zero phase c xs t k = absurd (omega arith)
  read_loop-Matches (suc fuel) (in_header h) c [] t k =
      let idle : has_active_size c.read_buffer ≡ false =
        has_active_size-Stores t.input ∙ ground arith in
      Matches-along {r = running (in_header h) c.peer} refl (read_loop-idle fuel c idle)
        (c, refl, t, refl)
  read_loop-Matches (suc fuel) (in_payload cmd need got) c [] t k =
      let idle : has_active_size c.read_buffer ≡ false =
        has_active_size-Stores t.0.input ∙ ground arith in
      Matches-along {r = running (in_payload cmd need got) c.peer} refl (read_loop-idle fuel c idle)
        (c, refl, t, refl)
  read_loop-Matches (suc fuel) (in_header h) c (x ∷ xs) t k =
      let busy : has_active_size c.read_buffer ≡ true =
        has_active_size-Stores t.input ∙ ground arith in
      let next = read_loop is_valid clock fuel in
      Matches-along {r = consume is_valid clock (running (in_header h) c.peer) (x ∷ xs)} refl
        (read_loop-busy fuel c busy)
        (header-Matches next fuel (λ c' ys s l. read_loop-Matches fuel (in_header []) c' ys s l) t
          (omega arith) (omega arith))
  read_loop-Matches (suc fuel) (in_payload cmd need got) c (x ∷ xs) (i, lt) k =
      let busy : has_active_size c.read_buffer ≡ true =
        has_active_size-Stores i.input ∙ ground arith in
      let next = read_loop is_valid clock fuel in
      let open_body : leb need (length got) ≡ false = ground arith in
      Matches-along
        {r = consume is_valid clock (in_body is_valid clock c.peer cmd need got) (x ∷ xs)}
        (ap (λ r. consume is_valid clock r (x ∷ xs)) (rw open_body))
        (read_loop-busy fuel c busy
          ∙ ap (λ r. r >>= header_round is_valid clock next) (receive_header_ready i))
        (payload-Matches next fuel (λ c' ys s l. read_loop-Matches fuel (in_header []) c' ys s l) i
          (omega arith) (omega arith))
