-- ===== src/Discord/Members.antt =====
-- `AddSession`, `KickSession` and `KickAll`: who is in the server's map of sessions.
use warhead_discord.Prelude.{
  if◌then◌else◌, ℕ, suc, ◌≤◌, max, ◌≡◌, ◌≢◌, refl, sym, ap, subst, ◌∙◌, true, false, inl, inr,
  Bool-cases, Option-cases, List, [], ◌∷◌, ◌++◌, none, some, ok, arith, length, ◌==◌, find, erase,
  IsMap, Lacks, find-erase_other, erase-Lacks, erase-IsMap,
}
use warhead_discord.Opcodes.{ok_code}
use warhead_discord.DiscordSocket.{Peer, is_open}
use warhead_discord.DiscordSocket.Login.Outcome.{response, send_auth_response_lem}
use warhead_discord.DiscordSession.{DiscordSession}
use warhead_discord.DiscordSession.Serving.{HasChannels, AreServed}
use warhead_discord.Discord.{
  Discord, find_session, kick_entry, kick, release, update_max_session_counters, answer, drop_old,
  add_session,
}
use warhead_discord.Discord.Kicks.{kept_at, find-kick_entry, kick_entry-IsMap, kick_entry-AreSound}
use warhead_discord.Discord.Released.{closed_socket, drop_old-released}
use warhead_discord.Discord.Sound.{AreSound, IsSound}

length-erase :
    (sessions : List (ℕ × DiscordSession)) (id : ℕ) → length (erase sessions id) ≤ length sessions
unfolding erase
length-erase [] id = omega arith
length-erase (e ∷ sessions) id = ground (arith, length-erase sessions id)

erase-AreSound :
    (sessions : List (ℕ × DiscordSession)) (id : ℕ)
    → AreSound sessions
    → AreSound (erase sessions id)
unfolding erase
erase-AreSound [] id h = tt
erase-AreSound ((k, s) ∷ sessions) id (now, later) = elim (Bool-cases (k == id)) [
  | inl e ↦ rw (erase, e) (erase-AreSound sessions id later)
  | inr e ↦ rw (erase, e) (now, erase-AreSound sessions id later)
]

erase-Lacking :
    (sessions : List (ℕ × DiscordSession)) (id : ℕ)
    → find sessions id ≡ none
    → erase sessions id ≡ sessions
unfolding find erase
erase-Lacking [] id h = refl
erase-Lacking ((k, s) ∷ sessions) id h = elim (Bool-cases (k == id)) [
  | inl e ↦ let wrong : some s ≡ none = rw (find, e) at h in cc
  | inr e ↦
      let rest : find sessions id ≡ none = rw (find, e) at h in
      rw (erase, e) (ap (◌∷◌ (k, s)) (erase-Lacking sessions id rest))
]

release-sessions : (d : Discord) (s : DiscordSession) → (release d s).sessions ≡ d.sessions
unfolding release
release-sessions d s = ground arith

release-count :
    (d : Discord) (s : DiscordSession)
    → (release d s).max_active_session_count ≡ d.max_active_session_count
unfolding release
release-count d s = ground arith

-- What `drop_old` leaves: nothing under the id, and the others as they were.
drop_old-sessions :
    (d : Discord) (id : ℕ) → (drop_old d id).sessions ≡ erase (kick_entry id d.sessions) id
unfolding drop_old find_session kick
drop_old-sessions d id = elim (Option-cases (find (kick_entry id d.sessions) id)) [
  | inl missing ↦ rw (drop_old, missing) (sym (erase-Lacking (kick_entry id d.sessions) id missing))
  | inr (old, there) ↦
      rw (drop_old, there) (ap (λ l. erase l id) (release-sessions (kick d id) old))
]

drop_old-count :
    (d : Discord) (id : ℕ) → (drop_old d id).max_active_session_count ≡ d.max_active_session_count
unfolding drop_old find_session kick
drop_old-count d id = elim (Option-cases (find (kick_entry id d.sessions) id)) [
  | inl missing ↦ rw (drop_old, missing) refl
  | inr (old, there) ↦ rw (drop_old, there) (release-count (kick d id) old)
]

-- The new session with the answer to its login behind what its socket sends already.
abbrev pub welcomed : DiscordSession → Peer → DiscordSession
welcomed s p = record s {
  socket = some (record p { buffer_queue = p.buffer_queue ++ response ok_code ∷ [] });
}

answer-welcomed :
    (s : DiscordSession) (p : Peer)
    → s.socket ≡ some p
    → is_open p ≡ true
    → answer s ok_code ≡ ok (welcomed s p)
unfolding answer
answer-welcomed s p there opened = rw (answer, there, send_auth_response_lem p ok_code opened) refl

-- The server with a session added to those that `drop_old` leaves.
abbrev pub joined_by : Discord → DiscordSession → Peer → Discord
joined_by d s p =
    let room = drop_old d s.state.account_id in
    record room {
      sessions = (s.state.account_id, welcomed s p) ∷ room.sessions;
      max_active_session_count = max room.max_active_session_count (suc (length room.sessions));
    }

add_session-joined_by :
    (d : Discord) (s : DiscordSession) (p : Peer)
    → s.socket ≡ some p
    → is_open p ≡ true
    → add_session d s ≡ ok (joined_by d s p)
unfolding add_session update_max_session_counters
add_session-joined_by d s p there opened = rw (answer-welcomed s p there opened) refl

find-drop_old :
    (d : Discord) (id other : ℕ)
    → other ≢ id
    → find (drop_old d id).sessions other ≡ find d.sessions other
find-drop_old d id other ne =
    let e : (other == id) ≡ false = ground arith in
    ap (λ l. find l other) (drop_old-sessions d id)
    ∙ find-erase_other (kick_entry id d.sessions) id other ne
    ∙ find-kick_entry id other d.sessions
    ∙ kept_at id other (find d.sessions other) e

-- A sound server takes an open session of any account, and stays sound: from then on the account
-- has this session and no other, with the answer to its login on the way to the client, and the
-- sessions of the other accounts are as they were; the socket of the session that the account had
-- is closed.
pub add_session-IsSound :
    (d : Discord) (s : DiscordSession) (p : Peer)
    → IsSound d
    → s.socket ≡ some p
    → is_open p ≡ true
    → HasChannels s.state
    → AreServed s.state.recv_queue
    → (d' : Discord) × (add_session d s ≡ ok d')
      × IsSound d'
      × ((other : ℕ)
          → find_session d' other
            ≡ (if other == s.state.account_id then some (welcomed s p) else find_session d other))
      × (d'.released ≡ d.released ++ closed_socket (find_session d s.state.account_id))
unfolding find_session find
add_session-IsSound d s p h there opened channels served =
    let id = s.state.account_id in
    let room = drop_old d id in
    let others : room.sessions ≡ erase (kick_entry id d.sessions) id = drop_old-sessions d id in
    let map_left =
      erase-IsMap (kick_entry id d.sessions) id (kick_entry-IsMap id d.sessions h.unique) in
    let sound_left =
      erase-AreSound (kick_entry id d.sessions) id (kick_entry-AreSound id d.sessions h.sound) in
    (
      joined_by d s p,
      add_session-joined_by d s p there opened,
      record {
        unique = (
          subst (Lacks id) (sym others) (erase-Lacks (kick_entry id d.sessions) id),
          subst IsMap (sym others) map_left,
        );
        sound = (
          record { named = refl; channels = channels; served = served },
          subst AreSound (sym others) sound_left,
        );
        counted = omega arith;
      },
      λ other. elim (Bool-cases (other == id)) [
        | inl same ↦
            let here : (id == other) ≡ true = ground arith in rw (find_session, here, same) refl
        | inr apart ↦
            let away : (id == other) ≡ false = ground arith in
            rw (find_session, away, apart) (find-drop_old d id other (λ e. ground arith))
      ],
      drop_old-released d id,
    )
