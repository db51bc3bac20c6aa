-- ===== src/DiscordSocket/Reading/Machine.antt =====
-- What the reading side means: a machine that takes one byte at a time. It has no buffers, and so
-- does not know in which pieces the bytes came.
use warhead_discord.Prelude.{
  ℕ, ◌+◌, ◌-◌, ◌<◌, ◌≡◌, refl, sym, ap, ◌∙◌, Bool, true, false, ◌&&◌, List, [], ◌∷◌, ◌++◌, ok, err,
  Result, Error, arith, ltb, leb, if◌then◌else◌, length, length-append, append_assoc, append-nil,
}
use warhead_discord.PacketHeader.{
  ClientHeader, client_header, is_valid_size, is_valid_opcode, header_length,
}
use warhead_discord.DiscordSocket.{Peer, close_socket}
use warhead_discord.DiscordSocket.Handlers.{
  ReadDataResult, handled, refused, waiting_for_query, handle_packet,
}

-- The bytes of the header so far, or a header's opcode and size with the payload so far.
pub data Phase : Type 0 where
  in_header : List ℕ → Phase
  in_payload : ℕ → ℕ → List ℕ → Phase

-- The machine goes on, has closed the socket, waits for the login with the bytes behind the login
-- packet unread, or has crashed on a failed ASSERT.
pub data Run : Type 0 where
  running : Phase → Peer → Run
  closed_run : Peer → Run
  waiting : Peer → List ℕ → Run
  crashed : Error → Run

module _ (is_valid : List ℕ → Bool) (clock : ℕ → ℕ) where
  abbrev pub after_packet : Result (ReadDataResult × Peer) → Run
  after_packet (ok (handled, p)) = running (in_header []) p
  after_packet (ok (refused, p)) = closed_run (close_socket p)
  after_packet (ok (waiting_for_query, p)) = waiting p []
  after_packet (err e) = crashed e

  abbrev pub deliver : Peer → ℕ → List ℕ → Run
  deliver p cmd payload =
      after_packet (handle_packet is_valid clock p (record { opcode = cmd; payload = payload }))

  abbrev pub in_body : Peer → ℕ → ℕ → List ℕ → Run
  in_body p cmd need got =
      if leb need (length got) then deliver p cmd got else running (in_payload cmd need got) p

  abbrev pub begin : Peer → ClientHeader → Run
  begin p header =
      if is_valid_size header && is_valid_opcode header
      then in_body p header.cmd (header.size - 2) []
      else closed_run (close_socket p)

  unfoldable pub step : Phase → Peer → ℕ → Run
  step (in_header bytes) p b =
      if ltb (length (bytes ++ b ∷ [])) header_length
      then running (in_header (bytes ++ b ∷ [])) p
      else begin p (client_header (bytes ++ b ∷ []))
  step (in_payload cmd need got) p b = in_body p cmd need (got ++ b ∷ [])

  -- One more byte. Behind a login packet the bytes stay unread, and a closed socket drops them.
  unfoldable pub advance : Run → ℕ → Run
  unfolding step
  advance (running phase p) b = step phase p b
  advance (closed_run p) b = closed_run p
  advance (waiting p rest) b = waiting p (rest ++ b ∷ [])
  advance (crashed e) b = crashed e

  unfoldable pub consume : Run → List ℕ → Run
  consume r [] = r
  consume r (b ∷ bytes) = consume (advance r b) bytes

  pub consume-append : (r : Run) (xs ys : List ℕ) → consume r (xs ++ ys) ≡ consume (consume r xs) ys
  unfolding consume
  consume-append r [] ys = refl
  consume-append r (b ∷ xs) ys = consume-append (advance r b) xs ys

  pub consume_closed : (p : Peer) (xs : List ℕ) → consume (closed_run p) xs ≡ closed_run p
  unfolding consume advance
  consume_closed p [] = refl
  consume_closed p (b ∷ xs) = consume_closed p xs

  pub consume_crashed : (e : Error) (xs : List ℕ) → consume (crashed e) xs ≡ crashed e
  unfolding consume advance
  consume_crashed e [] = refl
  consume_crashed e (b ∷ xs) = consume_crashed e xs

  pub consume_waiting :
      (p : Peer) (rest xs : List ℕ) → consume (waiting p rest) xs ≡ waiting p (rest ++ xs)
  unfolding consume advance
  consume_waiting p rest [] = ap (waiting p) (sym (append-nil rest))
  consume_waiting p rest (b ∷ xs) =
      consume_waiting p (rest ++ b ∷ []) xs ∙ ap (waiting p) (append_assoc rest (b ∷ []) xs)

  -- Bytes that do not complete a header are kept.
  pub consume_header_part :
      (p : Peer) (h xs : List ℕ)
      → length h + length xs < header_length
      → consume (running (in_header h) p) xs ≡ running (in_header (h ++ xs)) p
  unfolding consume advance
  consume_header_part p h [] k = ap (λ hs. running (in_header hs) p) (sym (append-nil h))
  consume_header_part p h (b ∷ xs) k =
      let one = length-append h (b ∷ []) in
      let more : ltb (length (h ++ b ∷ [])) header_length ≡ true = ground (arith, one) in
      rw more (
        consume_header_part p (h ++ b ∷ []) xs (omega (arith, one))
        ∙ ap (λ hs. running (in_header hs) p) (append_assoc h (b ∷ []) xs))

  -- The sixth byte completes it.
  pub consume_header :
      (p : Peer) (h xs : List ℕ)
      → length h < header_length
      → length h + length xs ≡ header_length
      → consume (running (in_header h) p) xs ≡ begin p (client_header (h ++ xs))
  unfolding consume advance
  consume_header p h [] k e = absurd (omega arith)
  consume_header p h (b ∷ []) k e =
      let more : ltb (length (h ++ b ∷ [])) header_length ≡ false =
        ground (arith, length-append h (b ∷ [])) in
      rw more
  consume_header p h (b ∷ c ∷ xs) k e =
      let one = length-append h (b ∷ []) in
      let more : ltb (length (h ++ b ∷ [])) header_length ≡ true = ground (arith, one) in
      rw more (
        consume_header p (h ++ b ∷ []) (c ∷ xs) (omega (arith, one)) (omega (arith, one))
        ∙ ap (λ hs. begin p (client_header hs)) (append_assoc h (b ∷ []) (c ∷ xs)))

  pub consume_payload_part :
      (p : Peer) (cmd need : ℕ) (got xs : List ℕ)
      → length got + length xs < need
      → consume (running (in_payload cmd need got) p) xs
        ≡ running (in_payload cmd need (got ++ xs)) p
  unfolding consume advance
  consume_payload_part p cmd need got [] k =
      ap (λ g. running (in_payload cmd need g) p) (sym (append-nil got))
  consume_payload_part p cmd need got (b ∷ xs) k =
      let one = length-append got (b ∷ []) in
      let more : leb need (length (got ++ b ∷ [])) ≡ false = ground (arith, one) in
      rw more (
        consume_payload_part p cmd need (got ++ b ∷ []) xs (omega (arith, one))
        ∙ ap (λ g. running (in_payload cmd need g) p) (append_assoc got (b ∷ []) xs))

  pub consume_payload :
      (p : Peer) (cmd need : ℕ) (got xs : List ℕ)
      → length got < need
      → length got + length xs ≡ need
      → consume (running (in_payload cmd need got) p) xs ≡ deliver p cmd (got ++ xs)
  unfolding consume advance
  consume_payload p cmd need got [] k e = absurd (omega arith)
  consume_payload p cmd need got (b ∷ []) k e =
      let more : leb need (length (got ++ b ∷ [])) ≡ true =
        ground (arith, length-append got (b ∷ [])) in
      rw more
  consume_payload p cmd need got (b ∷ c ∷ xs) k e =
      let one = length-append got (b ∷ []) in
      let more : leb need (length (got ++ b ∷ [])) ≡ false = ground (arith, one) in
      rw more (
        consume_payload p cmd need (got ++ b ∷ []) (c ∷ xs) (omega (arith, one))
          (omega (arith, one))
        ∙ ap (deliver p cmd) (append_assoc got (b ∷ []) (c ∷ xs)))
