-- ===== src/Discord/Sound.antt =====
-- The invariant of the server's map of sessions.
use warhead_discord.Prelude.{ℕ, ◌≤◌, ◌≡◌, List, [], ◌∷◌, length, IsMap}
use warhead_discord.DiscordSession.{DiscordSession}
use warhead_discord.DiscordSession.Serving.{HasChannels, AreServed}
use warhead_discord.Discord.{Discord}

-- A session under the id of its account, with its channels, and packets as the socket queues them.
pub record IsSoundSession (id : ℕ) (s : DiscordSession) : Type 0 where
  pub named : s.state.account_id ≡ id
  pub channels : HasChannels s.state
  pub served : AreServed s.state.recv_queue

abbrev pub AreSound : List (ℕ × DiscordSession) → Type 0
AreSound [] = Unit {0}
AreSound ((id, s) ∷ sessions) = IsSoundSession id s × AreSound sessions

-- One session at most for each account, each of them sound, and never more at a time than the
-- counter says.
pub record IsSound (d : Discord) : Type 0 where
  pub unique : IsMap d.sessions
  pub sound : AreSound d.sessions
  pub counted : length d.sessions ≤ d.max_active_session_count
