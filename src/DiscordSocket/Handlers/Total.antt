-- ===== src/DiscordSocket/Handlers/Total.antt =====
-- No packet makes a handler fail other than by the exceptions that are caught: no ASSERT fails, and
-- nothing outside of a buffer is read.
use warhead_discord.Prelude.{
  ℕ, ◌+◌, ◌^◌, ◌<◌, ◌≡◌, ◌≢◌, refl, Bool, true, false, inl, inr, List, none, some, Option-cases,
  Bool-cases, ok, Result, arith, length, ◌==◌, if◌then◌else◌, to_le,
}
use warhead_discord.ByteBuffer.{ByteBuffer, new_buffer}
use warhead_discord.ByteBuffer.Reads.{Holds}
use warhead_discord.ByteBuffer.Caught.{
  IsCaught, returns, out_of_bytes, not_valid, IsCaught-along, IsCaught-map, IsCaught-read_value,
  IsCaught-read_string,
}
use warhead_discord.ByteBuffer.Writes.{append_value_lem, extended}
use warhead_discord.Opcodes.{server_send_pong, client_send_ping, client_auth_session}
use warhead_discord.DiscordSocket.{Packet, Peer, Session, send_packet}
use warhead_discord.DiscordSocket.Handlers.{
  ReadDataResult, refused, handle_packet, handle_ping, handle_auth_session, read_auth_session,
  refuse_duplicate, check_ping_speed, answer_ping, queue_packet, catch_buffer_exception,
  ping_result, auth_result,
}
use warhead_discord.DiscordSocket.Handlers.Pings.{of_storage-Holds}

answer_ping-returns : (t l : ℕ) (p : Peer) → (r : Bool × Peer) × (answer_ping t l p ≡ ok r)
unfolding answer_ping
answer_ping-returns t l p = elim (Option-cases p.session) [
  | inl nobody ↦ ((false, p), rw nobody)
  | inr (s, somebody) ↦
      let pong =
        append_value_lem {b = new_buffer} 7 t (record { at_end = refl; open_for = omega arith })
          (omega arith) in
      (
        (
          true,
          send_packet (record p { session = some (record s { latency = l }) })
              (record {
                opcode = server_send_pong;
                payload = (extended new_buffer (to_le 8 t)).storage;
              }),
        ),
        rw (somebody, pong),
      )
]

after_check-IsCaught :
    (t l : ℕ) (kicked : Bool) (p : Peer)
    → IsCaught (if kicked then ok (false, p) else answer_ping t l p)
after_check-IsCaught t l true p = returns (false, p)
after_check-IsCaught t l false p =
    let (r, e) = answer_ping-returns t l p in IsCaught-along e (returns r)

refuse_duplicate-known :
    (p : Peer) (s : Session) → p.session ≡ some s → refuse_duplicate p ≡ ok (refused, p)
unfolding refuse_duplicate
refuse_duplicate-known p s e = rw e

module _ (is_valid : List ℕ → Bool) (clock : ℕ → ℕ) where
  handle_ping-IsCaught :
      (p : Peer) {b : ByteBuffer} {xs : List ℕ} → Holds b xs → IsCaught (handle_ping clock p b)
  unfolding handle_ping
  handle_ping-IsCaught p h = IsCaught-read_value 8 _ h (omega arith) λ t c ys k _.
      IsCaught-read_value 8 _ k (omega arith) λ l d zs j _.
        after_check-IsCaught t l
          (check_ping_speed (clock p.clock_reads) (record p { clock_reads = p.clock_reads + 1 })).0
          (check_ping_speed (clock p.clock_reads) (record p { clock_reads = p.clock_reads + 1 })).1

  read_auth_session-IsCaught :
      {b : ByteBuffer} {xs : List ℕ} → Holds b xs → IsCaught (read_auth_session is_valid b)
  unfolding read_auth_session
  read_auth_session-IsCaught h = IsCaught-read_string is_valid _ h λ a c1 _ h1 _.
      IsCaught-read_string is_valid _ h1 λ k c2 _ h2 _.
        IsCaught-read_string is_valid _ h2 λ n c3 _ h3 _.
          IsCaught-read_string is_valid _ h3
            λ v c4 _ h4 _. IsCaught-read_value 4 _ h4 (omega arith) λ m c5 _ h5 _. returns _

  handle_auth_session-IsCaught :
      (p : Peer) {b : ByteBuffer} {xs : List ℕ}
      → Holds b xs
      → IsCaught (handle_auth_session is_valid p b)
  unfolding handle_auth_session
  handle_auth_session-IsCaught p {b} h =
      IsCaught-map (read_auth_session is_valid b) _ (read_auth_session-IsCaught h)

  catch-returns :
      (p : Peer) (m : Result (ReadDataResult × Peer))
      → IsCaught m
      → (r : ReadDataResult × Peer) × (catch_buffer_exception p m ≡ ok r)
  unfolding catch_buffer_exception
  catch-returns p m (returns a) = (a, refl)
  catch-returns p m out_of_bytes = ((refused, p), refl)
  catch-returns p m not_valid = ((refused, p), refl)

  -- If a client that is logged in has a session, every packet of less than 2^63 bytes is handled,
  -- refused or waits for a query: its handler returns, with no failed ASSERT, no access outside of
  -- a storage or through a null session, and no exception left.
  pub handle_packet-returns :
      (p : Peer) (packet : Packet)
      → (p.authed ≡ true → p.session ≢ none)
      → length packet.payload < 2 ^ 63
      → (r : ReadDataResult × Peer) × (handle_packet is_valid clock p packet ≡ ok r)
  unfolding handle_packet
  handle_packet-returns p packet kept small =
      let h = of_storage-Holds packet.payload small in
      elim (Bool-cases (packet.opcode == client_send_ping)) [
        | inl ping ↦
            let (r, e) =
              catch-returns p _ (IsCaught-map _ ping_result (handle_ping-IsCaught p h)) in
            (r, simp ping e)
        | inr other ↦ elim (Bool-cases (packet.opcode == client_auth_session)) [
          | inl auth ↦ elim (Bool-cases p.authed) [
            | inl twice ↦ elim (Option-cases p.session) [
              | inl nobody ↦ absurd (kept twice nobody)
              | inr (s, somebody) ↦
                  ((refused, p), simp (other, auth, twice, refuse_duplicate-known p s somebody))
            ]
            | inr first ↦
                let (r, e) =
                  catch-returns p _
                    (IsCaught-map _ auth_result (handle_auth_session-IsCaught p h)) in
                (r, simp (other, auth, first) e)
          ]
          | inr any ↦ (queue_packet p packet, simp (other, any))
        ]
      ]
