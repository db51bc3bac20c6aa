-- ===== src/Discord/Released.antt =====
-- The sockets that deleted sessions leave: `AddSession` closes that of the session it replaces.
use warhead_discord.Prelude.{
  Option, ℕ, ◌≡◌, refl, sym, ap, ◌∙◌, true, false, inl, inr, Bool-cases, Option-cases, List, [],
  ◌∷◌, ◌++◌, append-nil, none, some, arith, ◌==◌, find,
}
use warhead_discord.DiscordSocket.{Peer, close_socket, on_close}
use warhead_discord.DiscordSession.{DiscordSession, kick_session, destroy}
use warhead_discord.Discord.{Discord, find_session, kick_entry, kick, release, drop_old}
use warhead_discord.DiscordSession.Closing.{kick_session-socket}
use warhead_discord.Discord.Kicks.{kicked_at, kick_session-socket_none, find-kick_entry}

close_socket_twice : (p : Peer) → close_socket (close_socket p) ≡ close_socket p
unfolding close_socket on_close
close_socket_twice p = elim (Bool-cases p.closed) [ inl e ↦ rw e refl | inr e ↦ rw e refl ]

release_with :
    (d : Discord) (s : DiscordSession) (p : Peer)
    → s.socket ≡ some p
    → (release d s).released ≡ d.released ++ close_socket p ∷ []
unfolding release destroy
release_with d s p there = rw (release, destroy, there) refl

release_without :
    (d : Discord) (s : DiscordSession) → s.socket ≡ none → (release d s).released ≡ d.released
unfolding release destroy
release_without d s gone = rw (release, destroy, gone) refl

-- The closed socket of a session, if there is one.
abbrev pub closed_socket_of : Option Peer → List Peer
closed_socket_of none = []
closed_socket_of (some p) = close_socket p ∷ []

abbrev pub closed_socket : Option DiscordSession → List Peer
closed_socket none = []
closed_socket (some s) = closed_socket_of s.socket

release-kick_session :
    (d : Discord) (s : DiscordSession)
    → (release d (kick_session false s)).released ≡ d.released ++ closed_socket_of s.socket
release-kick_session d s = elim (Option-cases s.socket) [
  | inl gone ↦
      release_without d (kick_session false s) (kick_session-socket_none false s gone)
      ∙ sym (append-nil d.released)
      ∙ ap (λ o. d.released ++ closed_socket_of o) (sym gone)
  | inr (p, there) ↦
      release_with d (kick_session false s) (close_socket p) (kick_session-socket false s p there)
      ∙ ap (λ x. d.released ++ x ∷ []) (close_socket_twice p)
      ∙ ap (λ o. d.released ++ closed_socket_of o) (sym there)
]

pub drop_old-released :
    (d : Discord) (id : ℕ)
    → (drop_old d id).released ≡ d.released ++ closed_socket (find_session d id)
unfolding drop_old find_session kick
drop_old-released d id = elim (Option-cases (find d.sessions id)) [
  | inl missing ↦
      let e : find (kick_entry id d.sessions) id ≡ none =
        find-kick_entry id id d.sessions ∙ ap (kicked_at id id) missing in
      rw (drop_old, e, missing) (sym (append-nil d.released))
  | inr (old, there) ↦
      let here : (id == id) ≡ true = ground arith in
      let e : find (kick_entry id d.sessions) id ≡ some (kick_session false old) =
        find-kick_entry id id d.sessions ∙ ap (kicked_at id id) there ∙ rw here refl in
      rw (drop_old, e, there) (release-kick_session (kick d id) old)
]
