-- ===== src/DiscordSession/Closing.antt =====
-- The end of a session: kicks, closed sockets and the destructor.
use warhead_discord.Prelude.{
  ℕ, ◌≡◌, inl, inr, refl, sym, ap, ap₂, subst, ◌∙◌, Bool, true, false, Bool-cases, List, none, some,
  ok, arith, take, drop,
}
use warhead_discord.DiscordSocket.{Peer, is_open, on_close, close_socket}
use warhead_discord.DiscordSession.{
  DiscordSession, kick_session, update, is_socket_closed, handle_socket_closed,
}
use warhead_discord.DiscordSession.Serving.{HasChannels, AreServed, asked_by, updated, update_lem}

pub close_socket-is_open : (p : Peer) → is_open (close_socket p) ≡ false
unfolding is_open close_socket on_close
close_socket-is_open p = elim (Bool-cases p.closed) [ inl e ↦ rw e | inr e ↦ rw e ]

pub kick_session-socket :
    (set_kicked : Bool) (d : DiscordSession) (p : Peer)
    → d.socket ≡ some p
    → (kick_session set_kicked d).socket ≡ some (close_socket p)
unfolding kick_session
kick_session-socket true d p there = rw there refl
kick_session-socket false d p there = rw there refl

kick_session-state :
    (set_kicked : Bool) (d : DiscordSession) (p : Peer)
    → d.socket ≡ some p
    → (kick_session set_kicked d).state ≡ d.state
unfolding kick_session
kick_session-state true d p there = rw there refl
kick_session-state false d p there = rw there refl

-- A kick closes the socket, and the next update gives the session up, with or without the mark of
-- a kick. That update still handles the first 101 packets of the queue, which were received
-- before; the packets are those that the socket queues, of less than 2^63 bytes.
pub kick_session-update :
    (is_valid : List ℕ → Bool) (set_kicked : Bool) (d : DiscordSession) (p : Peer)
    → d.socket ≡ some p
    → HasChannels d.state
    → AreServed d.state.recv_queue
    → (d' : DiscordSession) × (update is_valid (kick_session set_kicked d)
        ≡ ok (false, asked_by is_valid d.state (take 101 d.state.recv_queue), d'))
      × (d'.socket ≡ none)
      × (d'.state.recv_queue ≡ drop 101 d.state.recv_queue)
kick_session-update is_valid set_kicked d p there channels served =
    let k = kick_session set_kicked d in
    let same : k.state ≡ d.state = kick_session-state set_kicked d p there in
    let closed = close_socket-is_open p in
    let e =
      update_lem is_valid k (close_socket p) (kick_session-socket set_kicked d p there)
        (subst HasChannels (sym same) channels)
        (subst (λ s. AreServed s.recv_queue) (sym same) served) in
    (
      updated is_valid k (close_socket p),
      e
          ∙ ap₂
              (λ o s. ok (
                o,
                asked_by is_valid s (take 101 s.recv_queue),
                updated is_valid k (close_socket p),
              ))
              closed same,
      rw closed refl,
      ap (λ s. drop 101 s.recv_queue) same,
    )

-- `HandleSocketClosed` lets the socket go where it answers true, leaves a session alone whose socket
-- is open, and never changes what `IsSocketClosed` answers.
pub handle_socket_closed_lem :
    (stopped : Bool) (d : DiscordSession)
    → ((handle_socket_closed stopped d).0 ≡ true → (handle_socket_closed stopped d).1.socket ≡ none)
      × (is_socket_closed d ≡ false → handle_socket_closed stopped d ≡ (false, d))
      × (is_socket_closed (handle_socket_closed stopped d).1 ≡ is_socket_closed d)
unfolding handle_socket_closed is_socket_closed
handle_socket_closed_lem stopped d = ground arith
