-- ===== src/Discord/Rounds.antt =====
-- `UpdateSessions`: what a round of the server does with every session.
use warhead_discord.Prelude.{
  ℕ, ◌≤◌, ◌≡◌, refl, sym, ap, ◌∙◌, Bool, false, inl, inr, Bool-cases, Option-cases, List, [], ◌∷◌,
  ◌++◌, Option, none, some, ok, arith, length, take, if◌then◌else◌, find, IsMap, Lacks, find-Lacks,
  subst,
}
use warhead_discord.DiscordSocket.{Peer, is_open}
use warhead_discord.DiscordSession.{DiscordSession, BotCall, update, destroy}
use warhead_discord.DiscordSession.Serving.{asked_by, updated, update_lem, update_alone}
use warhead_discord.DiscordSession.Draining.{AreServed-drop}
use warhead_discord.Discord.{
  Discord, find_session, release, release_all, update_all, update_sessions,
}
use warhead_discord.Discord.Sound.{IsSoundSession, AreSound, IsSound}

module _ (is_valid : List ℕ → Bool) where
  -- What an update of a sound session gives.
  abbrev pub after_update_on : Option Peer → DiscordSession → Bool × List BotCall × DiscordSession
  after_update_on none s = (false, [], s)
  after_update_on (some p) s =
      (is_open p, asked_by is_valid s.state (take 101 s.state.recv_queue), updated is_valid s p)

  abbrev pub after_update : DiscordSession → Bool × List BotCall × DiscordSession
  after_update s = after_update_on s.socket s

  pub after_update_alone : (s : DiscordSession) → s.socket ≡ none → after_update s ≡ (false, [], s)
  after_update_alone s gone = ap (λ o. after_update_on o s) gone

  pub after_update_with :
      (s : DiscordSession) (p : Peer)
      → s.socket ≡ some p
      → after_update s
        ≡ (is_open p, asked_by is_valid s.state (take 101 s.state.recv_queue), updated is_valid s p)
  after_update_with s p there = ap (λ o. after_update_on o s) there

  update-after_update :
      (id : ℕ) (s : DiscordSession) → IsSoundSession id s → update is_valid s ≡ ok (after_update s)
  update-after_update id s h = elim (Option-cases s.socket) [
    | inl gone ↦ update_alone is_valid s gone ∙ sym (ap ok (after_update_alone s gone))
    | inr (p, there) ↦
        update_lem is_valid s p there h.channels h.served
        ∙ sym (ap ok (after_update_with s p there))
  ]

  after_update-IsSoundSession :
      (id : ℕ) (s : DiscordSession) → IsSoundSession id s → IsSoundSession id (after_update s).2
  after_update-IsSoundSession id s h = elim (Option-cases s.socket) [
    | inl gone ↦ subst (λ r. IsSoundSession id r.2) (sym (after_update_alone s gone)) h
    | inr (p, there) ↦
        subst (λ r. IsSoundSession id r.2) (sym (after_update_with s p there))
          (record {
            named = h.named;
            channels = h.channels;
            served = AreServed-drop 101 s.state.recv_queue h.served;
          })
  ]

  -- A session that an update gives up has no socket left.
  after_update-socket :
      (s : DiscordSession) → (after_update s).0 ≡ false → (after_update s).2.socket ≡ none
  after_update-socket s h = ground arith

  -- The sessions that stay, those that go, and what all of them ask of the bot.
  abbrev pub kept_of : List (ℕ × DiscordSession) → List (ℕ × DiscordSession)
  kept_of [] = []
  kept_of ((id, s) ∷ sessions) =
      let rest = kept_of sessions in
      if (after_update s).0 then (id, (after_update s).2) ∷ rest else rest

  abbrev pub gone_of : List (ℕ × DiscordSession) → List DiscordSession
  gone_of [] = []
  gone_of ((id, s) ∷ sessions) =
      let rest = gone_of sessions in if (after_update s).0 then rest else (after_update s).2 ∷ rest

  abbrev pub asked_of : List (ℕ × DiscordSession) → List BotCall
  asked_of [] = []
  asked_of ((id, s) ∷ sessions) = (after_update s).1 ++ asked_of sessions

  update_all_lem :
      (sessions : List (ℕ × DiscordSession))
      → AreSound sessions
      → update_all is_valid sessions ≡ ok (asked_of sessions, kept_of sessions, gone_of sessions)
  unfolding update_all
  update_all_lem [] h = refl
  update_all_lem ((id, s) ∷ sessions) (now, later) =
      rw (update-after_update id s now, update_all_lem sessions later) refl

  kept_of-AreSound :
      (sessions : List (ℕ × DiscordSession)) → AreSound sessions → AreSound (kept_of sessions)
  kept_of-AreSound [] h = tt
  kept_of-AreSound ((id, s) ∷ sessions) (now, later) = elim (Bool-cases (after_update s).0) [
    | inl e ↦ rw e (after_update-IsSoundSession id s now, kept_of-AreSound sessions later)
    | inr e ↦ rw e (kept_of-AreSound sessions later)
  ]

  kept_of-Lacks :
      (key : ℕ) (sessions : List (ℕ × DiscordSession))
      → Lacks key sessions
      → Lacks key (kept_of sessions)
  kept_of-Lacks key [] h = tt
  kept_of-Lacks key ((id, s) ∷ sessions) (ne, h) = elim (Bool-cases (after_update s).0) [
    | inl e ↦ rw e (ne, kept_of-Lacks key sessions h)
    | inr e ↦ rw e (kept_of-Lacks key sessions h)
  ]

  kept_of-IsMap : (sessions : List (ℕ × DiscordSession)) → IsMap sessions → IsMap (kept_of sessions)
  kept_of-IsMap [] h = tt
  kept_of-IsMap ((id, s) ∷ sessions) (l, h) = elim (Bool-cases (after_update s).0) [
    | inl e ↦ rw e (kept_of-Lacks id sessions l, kept_of-IsMap sessions h)
    | inr e ↦ rw e (kept_of-IsMap sessions h)
  ]

  kept_of-length :
      (sessions : List (ℕ × DiscordSession)) → length (kept_of sessions) ≤ length sessions
  kept_of-length [] = omega arith
  kept_of-length ((id, s) ∷ sessions) = ground (arith, kept_of-length sessions)

  -- What a round leaves of a session that was found before.
  abbrev pub survivor : Option DiscordSession → Option DiscordSession
  survivor none = none
  survivor (some s) = if (after_update s).0 then some (after_update s).2 else none

  find-kept_of :
      (sessions : List (ℕ × DiscordSession)) (id : ℕ)
      → IsMap sessions
      → find (kept_of sessions) id ≡ survivor (find sessions id)
  unfolding find
  find-kept_of [] id h = refl
  find-kept_of ((k, s) ∷ sessions) id (l, h) = elim (Bool-cases (after_update s).0) [
    | inl e ↦ ground (arith, e, find-kept_of sessions id h)
    | inr e ↦ ground (
      arith,
      e,
      find-kept_of sessions id h,
      find-Lacks (kept_of sessions) k (kept_of-Lacks k sessions l),
    )
  ]

  release_nothing : (d : Discord) (s : DiscordSession) → s.socket ≡ none → release d s ≡ d
  unfolding release destroy
  release_nothing d s gone = simp (release, destroy, gone) refl

  release_all-gone_of :
      (d : Discord) (sessions : List (ℕ × DiscordSession)) → release_all d (gone_of sessions) ≡ d
  release_all-gone_of d [] = refl
  release_all-gone_of d ((id, s) ∷ sessions) = elim (Bool-cases (after_update s).0) [
    | inl e ↦ rw e (release_all-gone_of d sessions)
    | inr e ↦ rw e (
        ap (λ x. release_all x (gone_of sessions))
          (release_nothing d (after_update s).2 (after_update-socket s e))
        ∙ release_all-gone_of d sessions)
  ]

  -- On a sound server a round over the sessions always returns, and leaves the server sound: every
  -- session whose socket is open stays, without the packets that it handled, every other is gone,
  -- and the bot is asked for the posts of all of them, each session's in the order of its queue.
  pub update_sessions-IsSound :
      (d : Discord)
      → IsSound d
      → (d' : Discord) × (update_sessions is_valid d ≡ ok (asked_of d.sessions, d'))
        × IsSound d'
        × ((id : ℕ) → find_session d' id ≡ survivor (find_session d id))
  unfolding update_sessions find_session
  update_sessions-IsSound d h =
      let d' = record d { sessions = kept_of d.sessions } in
      (
        d',
        rw (update_all_lem d.sessions h.sound, release_all-gone_of d' d.sessions) refl,
        record {
          unique = kept_of-IsMap d.sessions h.unique;
          sound = kept_of-AreSound d.sessions h.sound;
          counted = omega (arith, kept_of-length d.sessions, h.counted);
        },
        λ id. find-kept_of d.sessions id h.unique,
      )
