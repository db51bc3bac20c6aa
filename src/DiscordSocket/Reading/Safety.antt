-- ===== src/DiscordSocket/Reading/Safety.antt =====
-- What no byte stream can do: bring the server down, or get past the login.
use warhead_discord.Prelude.{
  ℕ, ◌-◌, ◌^◌, ◌≤◌, ◌<◌, ◌≡◌, ◌≢◌, refl, ap, ◌∙◌, Bool, true, false, ◌&&◌, List, [], ◌∷◌, ◌++◌,
  none, ok, err, Result, arith, length, length-append, leb, ltb, Bool-cases, inl, inr, subst,
}
use warhead_discord.PacketHeader.{
  ClientHeader, client_header, is_valid_size, is_valid_opcode, header_length,
}
use warhead_discord.DiscordSocket.{Packet, Peer, Connection, close_socket}
use warhead_discord.DiscordSocket.Handlers.{
  ReadDataResult, handled, refused, waiting_for_query, handle_packet,
}
use warhead_discord.DiscordSocket.Handlers.Access.{handle_packet-SameFlags, handle_packet-StaysOut}
use warhead_discord.DiscordSocket.Handlers.Total.{handle_packet-returns}
use warhead_discord.DiscordSocket.Reading.{receive_all}
use warhead_discord.DiscordSocket.Reading.Machine.{
  Phase, in_header, in_payload, Run, running, closed_run, waiting, crashed, after_packet, in_body,
  begin, step, advance, consume,
}
use warhead_discord.DiscordSocket.Reading.Chunks.{joined, FitBlocks, receive_all-Outcome}
use warhead_discord.DiscordSocket.Reading.OneRead.{IsReady, Outcome}

-- The machine has not crashed, its payload is bounded by the header's check, and nobody has logged
-- in.
abbrev IsSound : Run → Type 0
IsSound (running (in_header h) p) = (length h < header_length) × (p.authed ≡ false)
IsSound (running (in_payload cmd need got) p) =
    (length got < need) × (need < 10000) × (p.authed ≡ false)
IsSound (closed_run p) = Unit {0}
IsSound (waiting p rest) = Unit {0}
IsSound (crashed e) = ⊥

-- The peer of a run, while nobody is logged in: no session, and `queue` to send.
abbrev IsOutside : List Packet → Run → Type 0
IsOutside queue (running phase p) = (p.session ≡ none) × (p.buffer_queue ≡ queue)
IsOutside queue (closed_run p) = (p.session ≡ none) × (p.buffer_queue ≡ queue)
IsOutside queue (waiting p rest) = (p.session ≡ none) × (p.buffer_queue ≡ queue)
IsOutside queue (crashed e) = Unit {0}

close_socket-out :
    (p : Peer)
    → p.session ≡ none
    → ((close_socket p).session ≡ none) × ((close_socket p).buffer_queue ≡ p.buffer_queue)
unfolding close_socket
close_socket-out p e = ground arith

module _ (is_valid : List ℕ → Bool) (clock : ℕ → ℕ) where
  after_packet-IsSound :
      (p : Peer) (packet : Packet) (r : Result (ReadDataResult × Peer))
      → handle_packet is_valid clock p packet ≡ r
      → p.authed ≡ false
      → length packet.payload < 2 ^ 63
      → IsSound (after_packet is_valid clock r)
  after_packet-IsSound p packet (ok (handled, q)) e new k =
      let (_, _, same) = handle_packet-SameFlags is_valid clock p packet handled q e in
      (omega arith, same ∙ new)
  after_packet-IsSound p packet (ok (refused, q)) e new k = tt
  after_packet-IsSound p packet (ok (waiting_for_query, q)) e new k = tt
  after_packet-IsSound p packet (err x) e new k =
      let kept : p.authed ≡ true → p.session ≢ none = λ old. cc in
      let (r, returns) = handle_packet-returns is_valid clock p packet kept k in cc

  in_body-IsSound :
      (p : Peer) (cmd need : ℕ) (got : List ℕ)
      → length got ≤ need
      → need < 10000
      → p.authed ≡ false
      → IsSound (in_body is_valid clock p cmd need got)
  in_body-IsSound p cmd need got le small new = elim (Bool-cases (leb need (length got))) [
    | inl done ↦ rw done (after_packet-IsSound p _ _ refl new (omega arith))
    | inr more ↦ rw more (ground arith, small, new)
  ]

  begin-IsSound :
      (p : Peer) (h : ClientHeader) → p.authed ≡ false → IsSound (begin is_valid clock p h)
  begin-IsSound p h new = elim (Bool-cases (is_valid_size h && is_valid_opcode h)) [
    | inl good ↦ rw good (
        in_body-IsSound p h.cmd (h.size - 2) [] (omega arith) (unfold is_valid_size in ground arith)
          new)
    | inr bad ↦ rw bad tt
  ]

  advance-IsSound : (r : Run) (b : ℕ) → IsSound r → IsSound (advance is_valid clock r b)
  unfolding advance step
  advance-IsSound (running (in_header h) p) b (s, new) =
      elim (Bool-cases (ltb (length (h ++ b ∷ [])) header_length)) [
        | inl more ↦ rw more (ground arith, new)
        | inr full ↦ rw full (begin-IsSound p (client_header (h ++ b ∷ [])) new)
      ]
  advance-IsSound (running (in_payload cmd need got) p) b (lt, small, new) =
      in_body-IsSound p cmd need (got ++ b ∷ []) (omega (arith, length-append got (b ∷ []))) small
        new
  advance-IsSound (closed_run p) b s = tt
  advance-IsSound (waiting p rest) b s = tt
  advance-IsSound (crashed e) b s = s

  consume-IsSound : (r : Run) (xs : List ℕ) → IsSound r → IsSound (consume is_valid clock r xs)
  unfolding consume
  consume-IsSound r [] s = s
  consume-IsSound r (b ∷ xs) s =
      consume-IsSound (advance is_valid clock r b) xs (advance-IsSound r b s)

  after_packet-IsOutside :
      (p : Peer) (packet : Packet) (r : Result (ReadDataResult × Peer))
      → handle_packet is_valid clock p packet ≡ r
      → p.session ≡ none
      → IsOutside p.buffer_queue (after_packet is_valid clock r)
  after_packet-IsOutside p packet (ok (handled, q)) e out =
      let (never, _, _) = handle_packet-StaysOut is_valid clock p packet handled q out e in
      absurd (never refl)
  after_packet-IsOutside p packet (ok (refused, q)) e out =
      let (_, still, same) = handle_packet-StaysOut is_valid clock p packet refused q out e in
      let (gone, kept) = close_socket-out q still in (gone, kept ∙ same)
  after_packet-IsOutside p packet (ok (waiting_for_query, q)) e out =
      let (_, still, same) =
        handle_packet-StaysOut is_valid clock p packet waiting_for_query q out e in
      (still, same)
  after_packet-IsOutside p packet (err x) e out = tt

  in_body-IsOutside :
      (p : Peer) (cmd need : ℕ) (got : List ℕ)
      → p.session ≡ none
      → IsOutside p.buffer_queue (in_body is_valid clock p cmd need got)
  in_body-IsOutside p cmd need got out = elim (Bool-cases (leb need (length got))) [
    | inl done ↦ rw done (after_packet-IsOutside p _ _ refl out)
    | inr more ↦ rw more (out, refl)
  ]

  begin-IsOutside :
      (p : Peer) (h : ClientHeader)
      → p.session ≡ none
      → IsOutside p.buffer_queue (begin is_valid clock p h)
  begin-IsOutside p h out = elim (Bool-cases (is_valid_size h && is_valid_opcode h)) [
    | inl good ↦ rw good (in_body-IsOutside p h.cmd (h.size - 2) [] out)
    | inr bad ↦ rw bad (close_socket-out p out)
  ]

  step-IsOutside :
      (phase : Phase) (p : Peer) (b : ℕ)
      → p.session ≡ none
      → IsOutside p.buffer_queue (step is_valid clock phase p b)
  unfolding step
  step-IsOutside (in_header h) p b out =
      elim (Bool-cases (ltb (length (h ++ b ∷ [])) header_length)) [
        | inl more ↦ rw more (out, refl)
        | inr full ↦ rw full (begin-IsOutside p (client_header (h ++ b ∷ [])) out)
      ]
  step-IsOutside (in_payload cmd need got) p b out =
      in_body-IsOutside p cmd need (got ++ b ∷ []) out

  advance-IsOutside :
      (queue : List Packet) (r : Run) (b : ℕ)
      → IsOutside queue r
      → IsOutside queue (advance is_valid clock r b)
  unfolding advance
  advance-IsOutside queue (running phase p) b (out, same) =
      subst (λ q. IsOutside q (step is_valid clock phase p b)) same (step-IsOutside phase p b out)
  advance-IsOutside queue (closed_run p) b o = o
  advance-IsOutside queue (waiting p rest) b o = o
  advance-IsOutside queue (crashed e) b o = o

  consume-IsOutside :
      (queue : List Packet) (r : Run) (xs : List ℕ)
      → IsOutside queue r
      → IsOutside queue (consume is_valid clock r xs)
  unfolding consume
  consume-IsOutside queue r [] o = o
  consume-IsOutside queue r (b ∷ xs) o =
      consume-IsOutside queue (advance is_valid clock r b) xs (advance-IsOutside queue r b o)

  ends :
      (queue : List Packet) (r : Run) (x : Result (Bool × Connection))
      → Outcome r x
      → IsSound r
      → IsOutside queue r
      → (reading : Bool) × (c : Connection) × (x ≡ ok (reading, c))
        × (c.peer.session ≡ none)
        × (c.peer.buffer_queue ≡ queue)
  ends queue (running phase p) x (c, e, ready, same) s (out, kept) =
      (true, c, e, ap (λ q. q.session) same ∙ out, ap (λ q. q.buffer_queue) same ∙ kept)
  ends queue (closed_run p) x (c, e, same) s (out, kept) =
      (false, c, e, ap (λ q. q.session) same ∙ out, ap (λ q. q.buffer_queue) same ∙ kept)
  ends queue (waiting p rest) x (c, k, l, e, i, same, split) s (out, kept) =
      (false, c, e, ap (λ q. q.session) same ∙ out, ap (λ q. q.buffer_queue) same ∙ kept)
  ends queue (crashed e) x o s out = absurd s

  -- Whatever bytes arrive on a connection that is ready for its first header, on which nobody has
  -- logged in and which has no session, in reads of a block at most: the server does not crash on them, no session begins, and
  -- nothing is put into the send queue.
  pub receive_all-stays_out :
      (chunks : List (List ℕ)) (c : Connection)
      → IsReady (in_header []) c
      → FitBlocks chunks
      → c.peer.session ≡ none
      → c.peer.authed ≡ false
      → (reading : Bool) × (c' : Connection) × (receive_all is_valid clock chunks (true, c)
          ≡ ok (reading, c'))
        × (c'.peer.session ≡ none)
        × (c'.peer.buffer_queue ≡ c.peer.buffer_queue)
  receive_all-stays_out chunks c ready fits out new =
      ends _ _ _ (receive_all-Outcome is_valid clock chunks (in_header []) c ready fits)
        (consume-IsSound _ (joined chunks) (omega arith, new))
        (consume-IsOutside _ _ (joined chunks) (out, refl))
