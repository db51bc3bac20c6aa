-- ===== src/Discord.antt =====
-- src/server/Discord/Discord.cpp: the server's sessions, its game time and its shutdown timer. A
-- time is a number of seconds; a clock that is set back shows as no time passed. The order of the
-- unordered map is that of the list. Its scheduler, the bot and the callbacks of the database are
-- other parts.
pub mod Sound
pub mod Kicks
pub mod Released
pub mod Members
pub mod Joining
pub mod Rounds
pub mod Shutdown
use warhead_discord.Prelude.{
  ℕ, ◌+◌, ◌-◌, max, Bool, true, false, not, ◌&&◌, List, [], ◌∷◌, ◌++◌, Option, none, some, map, ok,
  Result, ◌>>=◌, ltb, leb, ◌==◌, if◌then◌else◌, length, find, erase,
}
use warhead_discord.Opcodes.{AuthResponseCode, ok_code}
use warhead_discord.DiscordSocket.{Peer}
use warhead_discord.DiscordSocket.Login.{send_auth_response}
use warhead_discord.DiscordSession.{DiscordSession, BotCall, kick_session, destroy, update}

-- `released` are the sockets that deleted sessions held, and `leaked` the sessions that the map
-- forgets without deleting them.
pub record Discord : Type 0 where
  pub sessions : List (ℕ × DiscordSession)
  pub max_active_session_count : ℕ
  pub closed : Bool
  pub stop_event : Bool
  pub exit_code : ℕ
  pub shutdown_timer : ℕ
  pub game_time : ℕ
  pub released : List Peer
  pub leaked : List DiscordSession

abbrev pub shutdown_exit_code : ℕ
shutdown_exit_code = 0

-- The constructor, at the time `now`.
abbrev pub new_discord : ℕ → Discord
new_discord now = record {
  sessions = [];
  max_active_session_count = 0;
  closed = false;
  stop_event = false;
  exit_code = shutdown_exit_code;
  shutdown_timer = 0;
  game_time = now;
  released = [];
  leaked = [];
}

unfoldable pub find_session : Discord → ℕ → Option DiscordSession
unfolding find
find_session d id = find d.sessions id

abbrev pub active_session_count : Discord → ℕ
active_session_count d = length d.sessions

-- The entries of the id with the session kicked.
unfoldable pub kick_entry : ℕ → List (ℕ × DiscordSession) → List (ℕ × DiscordSession)
unfolding kick_session
kick_entry id [] = []
kick_entry id ((k, s) ∷ sessions) =
    (k, if k == id then kick_session false s else s) ∷ kick_entry id sessions

unfoldable pub kick : Discord → ℕ → Discord
unfolding kick_entry
kick d id = record d { sessions = kick_entry id d.sessions }

-- `delete session`.
unfoldable pub release : Discord → DiscordSession → Discord
unfolding destroy
release d s = elim (destroy s) [ none ↦ d | some p ↦ record d { released = d.released ++ p ∷ [] } ]

unfoldable pub update_max_session_counters : Discord → Discord
update_max_session_counters d = record d {
  max_active_session_count = max d.max_active_session_count (active_session_count d);
}

-- `SendAuthResponse` of a session, which drops the answer without a socket.
unfoldable pub answer : DiscordSession → AuthResponseCode → Result DiscordSession
unfolding send_auth_response
answer s code = elim s.socket [
  | none ↦ ok s
  | some p ↦ do told ← send_auth_response p code; ok (record s { socket = some told })
]

-- The part of `AddSession` that makes room: the old session of the account is kicked and deleted.
unfoldable pub drop_old : Discord → ℕ → Discord
unfolding kick find_session release erase
drop_old d id =
    let kicked = kick d id in
    elim (find_session kicked id) [
      | none ↦ kicked
      | some old ↦
          let freed = release kicked old in record freed { sessions = erase freed.sessions id }
    ]

-- The answer goes to the session that is in the map.
unfoldable pub add_session : Discord → DiscordSession → Result Discord
unfolding drop_old answer update_max_session_counters
add_session d s = do
  let room = drop_old d s.state.account_id
  answered ← answer s ok_code
  ok (
      update_max_session_counters
        (record room { sessions = (s.state.account_id, answered) ∷ room.sessions }))

unfoldable pub kick_all : Discord → Discord
unfolding kick_session
kick_all d = record d {
  sessions = [];
  leaked = d.leaked ++ map (λ (id, s). kick_session true s) d.sessions;
}

-- `now` is what GetEpochTime gives. A message about the time that is left is only logged.
unfoldable pub update_game_time : ℕ → Discord → Discord
update_game_time now d =
    let elapsed = now - d.game_time in
    let timed = record d { game_time = now } in
    if not d.stop_event && ltb 0 d.shutdown_timer && ltb 0 elapsed
    then if leb d.shutdown_timer elapsed
      then record timed { stop_event = true }
      else record timed { shutdown_timer = d.shutdown_timer - elapsed }
    else timed

unfoldable pub shutdown_serv : ℕ → ℕ → Discord → Discord
shutdown_serv time code d =
    if d.stop_event
    then d
    else (let delay = if ltb time 2 && not (active_session_count d == 0) then 2 else time in
        if delay == 0
        then record d { exit_code = code; stop_event = true }
        else record d { exit_code = code; shutdown_timer = delay })

unfoldable pub shutdown_cancel : Discord → Discord
shutdown_cancel d =
    if (d.shutdown_timer == 0)
    then d
    else if d.stop_event
    then d
    else record d { shutdown_timer = 0; exit_code = shutdown_exit_code }

unfoldable pub stop_now : ℕ → Discord → Discord
stop_now code d = record d { stop_event = true; exit_code = code }

unfoldable pub set_closed : Bool → Discord → Discord
set_closed val d = record d { closed = val }

abbrev pub release_all : Discord → List DiscordSession → Discord
release_all d [] = d
release_all d (s ∷ gone) = release_all (release d s) gone

module _ (is_valid : List ℕ → Bool) where
  -- The loop of `UpdateSessions`: what the sessions ask of the bot, those that stay, and those
  -- that are deleted.
  unfoldable pub update_all :
      List (ℕ × DiscordSession)
      → Result (List BotCall × List (ℕ × DiscordSession) × List DiscordSession)
  unfolding update
  update_all [] = ok ([], [], [])
  update_all ((id, s) ∷ sessions) = do
    (alive, calls, s') ← update is_valid s
    (more, kept, gone) ← update_all sessions
    ok (calls ++ more, if alive then (id, s') ∷ kept else kept, if alive then gone else s' ∷ gone)

  unfoldable pub update_sessions : Discord → Result (List BotCall × Discord)
  unfolding update_all release
  update_sessions d = do
    (calls, kept, gone) ← update_all d.sessions
    ok (calls, release_all (record d { sessions = kept }) gone)
