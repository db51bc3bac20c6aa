-- ===== src/Discord/Kicks.antt =====
-- `KickSession` and `KickAll`: what they leave of the sessions.
use warhead_discord.Prelude.{
  Bool-cases, ℕ, suc, ◌≡◌, refl, sym, ap, subst, ◌∙◌, Bool, true, false, inl, inr, Option-cases,
  List, [], ◌∷◌, Option, none, some, ok, arith, length, ◌==◌, if◌then◌else◌, find, IsMap, Lacks,
}
use warhead_discord.DiscordSocket.{close_socket}
use warhead_discord.DiscordSession.{DiscordSession, kick_session}
use warhead_discord.DiscordSession.Serving.{HasChannels, AreServed}
use warhead_discord.Discord.{Discord, find_session, kick_entry, kick, update_sessions}
use warhead_discord.DiscordSession.Closing.{kick_session-socket, close_socket-is_open}
use warhead_discord.Discord.Sound.{IsSoundSession, AreSound, IsSound}
use warhead_discord.Discord.Rounds.{
  after_update, asked_of, survivor, update_sessions-IsSound, after_update_alone, after_update_with,
}

-- A kick changes the session of its id, and no other.
abbrev pub kicked_at : ℕ → ℕ → Option DiscordSession → Option DiscordSession
kicked_at id other none = none
kicked_at id other (some s) = some (if other == id then kick_session false s else s)

pub kept_at :
    (id other : ℕ) (o : Option DiscordSession) → (other == id) ≡ false → kicked_at id other o ≡ o
kept_at id other none e = refl
kept_at id other (some s) e = rw e refl

pub find-kick_entry :
    (id other : ℕ) (sessions : List (ℕ × DiscordSession))
    → find (kick_entry id sessions) other ≡ kicked_at id other (find sessions other)
unfolding find kick_entry
find-kick_entry id other [] = refl
find-kick_entry id other ((k, s) ∷ sessions) = ground (arith, find-kick_entry id other sessions)

pub kick_entry-Lacks :
    (id key : ℕ) (sessions : List (ℕ × DiscordSession))
    → Lacks key sessions
    → Lacks key (kick_entry id sessions)
unfolding kick_entry
kick_entry-Lacks id key [] h = tt
kick_entry-Lacks id key ((k, s) ∷ sessions) (ne, h) = (ne, kick_entry-Lacks id key sessions h)

pub kick_entry-IsMap :
    (id : ℕ) (sessions : List (ℕ × DiscordSession))
    → IsMap sessions
    → IsMap (kick_entry id sessions)
unfolding kick_entry
kick_entry-IsMap id [] h = tt
kick_entry-IsMap id ((k, s) ∷ sessions) (l, h) =
    (kick_entry-Lacks id k sessions l, kick_entry-IsMap id sessions h)

kick_session-same :
    (flag : Bool) (s : DiscordSession) → (if flag then kick_session false s else s).state ≡ s.state
unfolding kick_session
kick_session-same flag s = ground arith

IsSoundSession-same :
    (id : ℕ) (s t : DiscordSession) → t.state ≡ s.state → IsSoundSession id s → IsSoundSession id t
IsSoundSession-same id s t e h = record {
  named = ap (λ x. x.account_id) e ∙ h.named;
  channels = subst HasChannels (sym e) h.channels;
  served = subst (λ x. AreServed x.recv_queue) (sym e) h.served;
}

kick_session-IsSoundSession :
    (flag : Bool) (id : ℕ) (s : DiscordSession)
    → IsSoundSession id s
    → IsSoundSession id (if flag then kick_session false s else s)
kick_session-IsSoundSession flag id s =
    IsSoundSession-same id s (if flag then kick_session false s else s) (kick_session-same flag s)

pub kick_entry-AreSound :
    (id : ℕ) (sessions : List (ℕ × DiscordSession))
    → AreSound sessions
    → AreSound (kick_entry id sessions)
unfolding kick_entry
kick_entry-AreSound id [] h = tt
kick_entry-AreSound id ((k, s) ∷ sessions) (now, later) =
    (kick_session-IsSoundSession (k == id) k s now, kick_entry-AreSound id sessions later)

length-kick_entry :
    (id : ℕ) (sessions : List (ℕ × DiscordSession))
    → length (kick_entry id sessions) ≡ length sessions
unfolding kick_entry
length-kick_entry id [] = refl
length-kick_entry id (e ∷ sessions) = ap suc (length-kick_entry id sessions)

kick-IsSound : (d : Discord) (id : ℕ) → IsSound d → IsSound (kick d id)
unfolding kick
kick-IsSound d id h = record {
  unique = kick_entry-IsMap id d.sessions h.unique;
  sound = kick_entry-AreSound id d.sessions h.sound;
  counted = omega (arith, h.counted, length-kick_entry id d.sessions);
}

pub kick_session-socket_none :
    (flag : Bool) (s : DiscordSession) → s.socket ≡ none → (kick_session flag s).socket ≡ none
unfolding kick_session
kick_session-socket_none true s gone = rw gone gone
kick_session-socket_none false s gone = rw gone gone

module _ (is_valid : List ℕ → Bool) where
  kicked-is_given_up :
      (s : DiscordSession) → (after_update is_valid (kick_session false s)).0 ≡ false
  kicked-is_given_up s = elim (Option-cases s.socket) [
    | inl gone ↦
        ap (λ r. r.0)
          (after_update_alone is_valid (kick_session false s)
            (kick_session-socket_none false s gone))
    | inr (p, there) ↦
        ap (λ r. r.0)
          (after_update_with is_valid (kick_session false s) (close_socket p)
            (kick_session-socket false s p there))
        ∙ close_socket-is_open p
  ]

  kicked-survivor :
      (id : ℕ) (o : Option DiscordSession) → survivor is_valid (kicked_at id id o) ≡ none
  kicked-survivor id none = refl
  kicked-survivor id (some s) =
      let here : (id == id) ≡ true = ground arith in rw (here, kicked-is_given_up s) refl

  -- After a kick the next round over the sessions ends the session of the account, as it ends those
  -- whose socket is closed, and what it does with the others is what it would do without the kick.
  pub kick-update_sessions :
      (d : Discord) (id : ℕ)
      → IsSound d
      → (d' : Discord) × (update_sessions is_valid (kick d id)
          ≡ ok (asked_of is_valid (kick d id).sessions, d'))
        × IsSound d'
        × ((other : ℕ)
            → find_session d' other
              ≡ (if other == id then none else survivor is_valid (find_session d other)))
  unfolding find_session kick
  kick-update_sessions d id h =
      let (d', e, sound, found) =
        update_sessions-IsSound is_valid (kick d id) (kick-IsSound d id h) in
      (
        d',
        e,
        sound,
        λ other. elim (Bool-cases (other == id)) [
          | inl same ↦
              let e : other ≡ id = ground arith in
              rw same (
                ap (find d'.sessions) e
                ∙ found id
                ∙ ap (survivor is_valid) (find-kick_entry id id d.sessions)
                ∙ kicked-survivor id (find d.sessions id))
          | inr apart ↦ rw apart (
              found other
              ∙ ap (survivor is_valid) (
                  find-kick_entry id other d.sessions
                  ∙ kept_at id other (find d.sessions other) apart))
        ],
      )
