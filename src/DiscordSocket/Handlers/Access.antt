-- ===== src/DiscordSocket/Handlers/Access.antt =====
-- What a packet can do to the state of a connection.
use warhead_discord.Prelude.{
  ℕ, ◌+◌, ◌≡◌, ◌≢◌, Bool, false, List, none, ok, err, Result, position, invalid_value, aborted,
  fault, ◌>>=◌, >>=-eq-ok, arith, ◌==◌, Bool-cases, inl, inr, ◌⊎◌, ◌∙◌,
}
use warhead_discord.ByteBuffer.{ByteBuffer, of_storage, read_value}
use warhead_discord.Opcodes.{client_send_ping, client_auth_session}
use warhead_discord.DiscordSocket.{Packet, Peer, send_packet}
use warhead_discord.DiscordSocket.Handlers.{
  ReadDataResult, auth_result, handled, refused, refuse_duplicate, handle_packet, handle_ping,
  ping_result, handle_auth_session, read_auth_session, check_ping_speed, answer_ping, queue_packet,
  catch_buffer_exception,
}

-- The flags of the socket, which only the closing of it and a login change.
abbrev pub SameFlags : Peer → Peer → Type 0
SameFlags p q = (q.closed ≡ p.closed) × (q.closing ≡ p.closing) × (q.authed ≡ p.authed)

check_ping_speed-SameFlags : (now : ℕ) (p : Peer) → SameFlags p (check_ping_speed now p).1
unfolding check_ping_speed
check_ping_speed-SameFlags now p = ground arith

answer_ping-SameFlags :
    (t l : ℕ) (p : Peer) (r : Bool) (q : Peer) → answer_ping t l p ≡ ok (r, q) → SameFlags p q
unfolding answer_ping send_packet
answer_ping-SameFlags t l p r q h = ground arith

queue_packet-SameFlags : (p : Peer) (packet : Packet) → SameFlags p (queue_packet p packet).1
unfolding queue_packet
queue_packet-SameFlags p packet = ground arith

caught :
    (p : Peer) (m : Result (ReadDataResult × Peer)) (r : ReadDataResult) (q : Peer)
    → catch_buffer_exception p m ≡ ok (r, q)
    → (m ≡ ok (r, q)) ⊎ (q ≡ p)
unfolding catch_buffer_exception
caught p (ok m) r q h = inl h
caught p (err position) r q h = inr (ground arith)
caught p (err invalid_value) r q h = inr (ground arith)
caught p (err aborted) r q h = cc
caught p (err fault) r q h = cc

module _ (is_valid : List ℕ → Bool) (clock : ℕ → ℕ) where
  handle_ping-SameFlags :
      (p : Peer) (b : ByteBuffer) (r : Bool) (q : Peer)
      → handle_ping clock p b ≡ ok (r, q)
      → SameFlags p q
  unfolding handle_ping
  handle_ping-SameFlags p b r q h =
      let ((t, rest), _, h1) = >>=-eq-ok (read_value 8 b) _ h in
      let ((l, tail), _, h2) = >>=-eq-ok (read_value 8 rest) _ h1 in
      let p' = record p { clock_reads = p.clock_reads + 1 } in
      let now = clock p.clock_reads in
      ground (
        arith,
        check_ping_speed-SameFlags now p',
        answer_ping-SameFlags t l (check_ping_speed now p').1 r q,
      )

  handle_auth_session-SameFlags :
      (p : Peer) (b : ByteBuffer) (q : Peer)
      → handle_auth_session is_valid p b ≡ ok q
      → SameFlags p q
  unfolding handle_auth_session
  handle_auth_session-SameFlags p b q h =
      let (auth, _, h1) = >>=-eq-ok (read_auth_session is_valid b) _ h in ground arith

  ping_packet-SameFlags :
      (p : Peer) (b : ByteBuffer) (r : ReadDataResult) (q : Peer)
      → (handle_ping clock p b >>= λ a. ok (ping_result a)) ≡ ok (r, q)
      → SameFlags p q
  ping_packet-SameFlags p b r q h =
      let ((kept, p'), e, h1) = >>=-eq-ok (handle_ping clock p b) _ h in
      ground (arith, handle_ping-SameFlags p b kept p' e)

  auth_packet-SameFlags :
      (p : Peer) (b : ByteBuffer) (r : ReadDataResult) (q : Peer)
      → (handle_auth_session is_valid p b >>= λ a. ok (auth_result a)) ≡ ok (r, q)
      → SameFlags p q
  auth_packet-SameFlags p b r q h =
      let (p', e, h1) = >>=-eq-ok (handle_auth_session is_valid p b) _ h in
      ground (arith, handle_auth_session-SameFlags p b p' e)

  -- No packet opens or closes the socket, or logs the client in by itself.
  pub handle_packet-SameFlags :
      (p : Peer) (packet : Packet) (r : ReadDataResult) (q : Peer)
      → handle_packet is_valid clock p packet ≡ ok (r, q)
      → SameFlags p q
  unfolding handle_packet refuse_duplicate
  handle_packet-SameFlags p packet r q h = ground (
    arith,
    queue_packet-SameFlags p packet,
    caught p (handle_ping clock p (of_storage packet.payload) >>= λ a. ok (ping_result a)) r q,
    caught p
        (handle_auth_session is_valid p (of_storage packet.payload) >>= λ a. ok (auth_result a)) r
        q,
    ping_packet-SameFlags p (of_storage packet.payload) r q,
    auth_packet-SameFlags p (of_storage packet.payload) r q,
  )

refuse_duplicate-out : (p : Peer) → p.session ≡ none → refuse_duplicate p ≡ err fault
unfolding refuse_duplicate
refuse_duplicate-out p e = rw e

-- The peer before and after a packet, when no client is logged in: no session, and nothing to send.
abbrev pub StaysOut : Peer → ReadDataResult × Peer → Type 0
StaysOut p (r, q) = (r ≢ handled) × (q.session ≡ none) × (q.buffer_queue ≡ p.buffer_queue)

answer_ping-out : (t l : ℕ) (p : Peer) → p.session ≡ none → answer_ping t l p ≡ ok (false, p)
unfolding answer_ping
answer_ping-out t l p e = rw e

check_ping_speed-out :
    (now : ℕ) (p : Peer)
    → ((check_ping_speed now p).1.session ≡ p.session)
      × ((check_ping_speed now p).1.buffer_queue ≡ p.buffer_queue)
unfolding check_ping_speed
check_ping_speed-out now p = ground arith

queue_packet-out :
    (p : Peer) (packet : Packet) → p.session ≡ none → queue_packet p packet ≡ (refused, p)
unfolding queue_packet
queue_packet-out p packet e = rw e

module _ (is_valid : List ℕ → Bool) (clock : ℕ → ℕ) where
  handle_ping-out :
      (p : Peer) (b : ByteBuffer) (r : Bool) (q : Peer)
      → p.session ≡ none
      → handle_ping clock p b ≡ ok (r, q)
      → (r ≡ false) × (q.session ≡ none) × (q.buffer_queue ≡ p.buffer_queue)
  unfolding handle_ping
  handle_ping-out p b r q e h =
      let ((t, rest), _, h1) = >>=-eq-ok (read_value 8 b) _ h in
      let ((l, tail), _, h2) = >>=-eq-ok (read_value 8 rest) _ h1 in
      let p' = record p { clock_reads = p.clock_reads + 1 } in
      let checked = (check_ping_speed (clock p.clock_reads) p').1 in
      let (same, kept) = check_ping_speed-out (clock p.clock_reads) p' in
      ground (arith, same, kept, answer_ping-out t l checked (same ∙ e))

  ping_packet-out :
      (p : Peer) (b : ByteBuffer) (r : ReadDataResult) (q : Peer)
      → p.session ≡ none
      → (handle_ping clock p b >>= λ a. ok (ping_result a)) ≡ ok (r, q)
      → StaysOut p (r, q)
  ping_packet-out p b r q out h =
      let ((kept, p'), e, h1) = >>=-eq-ok (handle_ping clock p b) _ h in
      let (unhandled, none_still, same) = handle_ping-out p b kept p' out e in ground arith

  auth_packet-out :
      (p : Peer) (b : ByteBuffer) (r : ReadDataResult) (q : Peer)
      → p.session ≡ none
      → (handle_auth_session is_valid p b >>= λ a. ok (auth_result a)) ≡ ok (r, q)
      → StaysOut p (r, q)
  unfolding handle_auth_session
  auth_packet-out p b r q out h =
      let (p', e, h1) = >>=-eq-ok (handle_auth_session is_valid p b) _ h in
      let (auth, _, h2) = >>=-eq-ok (read_auth_session is_valid b) _ e in ground arith

  caught-out :
      (p : Peer) (m : Result (ReadDataResult × Peer)) (r : ReadDataResult) (q : Peer)
      → p.session ≡ none
      → (m ≡ ok (r, q) → StaysOut p (r, q))
      → catch_buffer_exception p m ≡ ok (r, q)
      → StaysOut p (r, q)
  unfolding catch_buffer_exception
  caught-out p (ok m) r q out f h = f h
  caught-out p (err position) r q out f h = ground arith
  caught-out p (err invalid_value) r q out f h = ground arith
  caught-out p (err aborted) r q out f h = cc
  caught-out p (err fault) r q out f h = cc

  -- Whatever a packet of a client without a session is answered with, it is not handled: no
  -- session begins and nothing is queued to be sent; the socket is to close, or waits for the
  -- account lookup of a login packet.
  pub handle_packet-StaysOut :
      (p : Peer) (packet : Packet) (r : ReadDataResult) (q : Peer)
      → p.session ≡ none
      → handle_packet is_valid clock p packet ≡ ok (r, q)
      → StaysOut p (r, q)
  unfolding handle_packet
  handle_packet-StaysOut p packet r q out h =
      elim (Bool-cases (packet.opcode == client_send_ping)) [
        | inl ping ↦
            caught-out p _ r q out (ping_packet-out p (of_storage packet.payload) r q out)
              (rw ping at h)
        | inr other ↦ elim (Bool-cases (packet.opcode == client_auth_session)) [
          | inl auth ↦ elim (Bool-cases p.authed) [
            | inl twice ↦
                let fails : ◌≡◌ {A = Result (ReadDataResult × Peer)} (err fault) (ok (r, q)) =
                  simp (other, auth, twice, refuse_duplicate-out p out) at h in
                ground arith
            | inr first ↦
                caught-out p _ r q out (auth_packet-out p (of_storage packet.payload) r q out)
                  (simp (other, auth, first) at h)
          ]
          | inr any ↦
              let queues : ok (queue_packet p packet) ≡ ok (r, q) = simp (other, any) at h in
              ground (arith, queue_packet-out p packet)
        ]
      ]
