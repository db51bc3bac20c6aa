-- ===== src/DiscordSocket/Reading/Opened.antt =====
-- No byte closes a socket in a way the machine does not see.
use warhead_discord.Prelude.{
  ℕ, ◌-◌, ◌≡◌, refl, Bool, true, ◌&&◌, List, [], ◌∷◌, ◌++◌, ok, err, Result, arith, length, leb,
  ltb, Bool-cases, inl, inr,
}
use warhead_discord.PacketHeader.{
  ClientHeader, client_header, is_valid_size, is_valid_opcode, header_length,
}
use warhead_discord.DiscordSocket.{Packet, Peer, is_open}
use warhead_discord.DiscordSocket.Handlers.{
  ReadDataResult, handled, refused, waiting_for_query, handle_packet,
}
use warhead_discord.DiscordSocket.Handlers.Access.{handle_packet-SameFlags}
use warhead_discord.DiscordSocket.Reading.Machine.{
  in_header, in_payload, Run, running, closed_run, waiting, crashed, after_packet, in_body, begin,
  step, advance, consume,
}

-- The socket is open while the machine runs.
abbrev pub IsOpenRun : Run → Type 0
IsOpenRun (running phase p) = is_open p ≡ true
IsOpenRun r = Unit {0}

module _ (is_valid : List ℕ → Bool) (clock : ℕ → ℕ) where
  after_packet-IsOpenRun :
      (p : Peer) (packet : Packet) (r : Result (ReadDataResult × Peer))
      → handle_packet is_valid clock p packet ≡ r
      → is_open p ≡ true
      → IsOpenRun (after_packet is_valid clock r)
  unfolding is_open
  after_packet-IsOpenRun p packet (ok (handled, q)) e o =
      ground (arith, handle_packet-SameFlags is_valid clock p packet handled q e)
  after_packet-IsOpenRun p packet (ok (refused, q)) e o = tt
  after_packet-IsOpenRun p packet (ok (waiting_for_query, q)) e o = tt
  after_packet-IsOpenRun p packet (err e') e o = tt

  in_body-IsOpenRun :
      (p : Peer) (cmd need : ℕ) (got : List ℕ)
      → is_open p ≡ true
      → IsOpenRun (in_body is_valid clock p cmd need got)
  in_body-IsOpenRun p cmd need got o = elim (Bool-cases (leb need (length got))) [
    | inl done ↦ rw done (after_packet-IsOpenRun p _ _ refl o)
    | inr more ↦ rw more o
  ]

  begin-IsOpenRun :
      (p : Peer) (h : ClientHeader) → is_open p ≡ true → IsOpenRun (begin is_valid clock p h)
  begin-IsOpenRun p h o = elim (Bool-cases (is_valid_size h && is_valid_opcode h)) [
    | inl good ↦ rw good (in_body-IsOpenRun p h.cmd (h.size - 2) [] o)
    | inr bad ↦ rw bad tt
  ]

  advance-IsOpenRun : (r : Run) (b : ℕ) → IsOpenRun r → IsOpenRun (advance is_valid clock r b)
  unfolding advance step
  advance-IsOpenRun (running (in_header h) p) b o =
      elim (Bool-cases (ltb (length (h ++ b ∷ [])) header_length)) [
        | inl more ↦ rw more o
        | inr full ↦ rw full (begin-IsOpenRun p (client_header (h ++ b ∷ [])) o)
      ]
  advance-IsOpenRun (running (in_payload cmd need got) p) b o =
      in_body-IsOpenRun p cmd need (got ++ b ∷ []) o
  advance-IsOpenRun (closed_run p) b o = tt
  advance-IsOpenRun (waiting p rest) b o = tt
  advance-IsOpenRun (crashed e) b o = tt

  pub consume-IsOpenRun :
      (r : Run) (xs : List ℕ) → IsOpenRun r → IsOpenRun (consume is_valid clock r xs)
  unfolding consume
  consume-IsOpenRun r [] o = o
  consume-IsOpenRun r (b ∷ xs) o =
      consume-IsOpenRun (advance is_valid clock r b) xs (advance-IsOpenRun r b o)
