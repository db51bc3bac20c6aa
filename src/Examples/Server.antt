-- ===== src/Examples/Server.antt =====
-- Runs of src/server/Discord/Discord.cpp: a server with one session, and its shutdown.
use warhead_discord.Prelude.{
  ◌==◌, if◌then◌else◌, ◌++◌, ℕ, ◌≡◌, refl, List, [], ◌∷◌, none, some, ok, arith,
}
use warhead_discord.Discord.{Discord, new_discord, find_session, kick, add_session, update_sessions}
use warhead_discord.Discord.Sound.{IsSound}
use warhead_discord.Discord.Rounds.{asked_of, survivor, update_sessions-IsSound}
use warhead_discord.Discord.Released.{closed_socket}
use warhead_discord.Discord.Members.{welcomed, add_session-IsSound}
use warhead_discord.Discord.Kicks.{kick-update_sessions}
use warhead_discord.Examples.Shared.{any_string}
use warhead_discord.Examples.Sessions.{
  a_guest_client, a_guest_client-is_open, a_busy_session, two_packets-AreServed,
}

abbrev a_server : Discord
a_server = record (new_discord 100) {
  sessions = (7, a_busy_session) ∷ [];
  max_active_session_count = 1;
}

a_server-IsSound : IsSound a_server
a_server-IsSound = record {
  unique = (tt, tt);
  sound = (record { named = refl; channels = refl; served = two_packets-AreServed }, tt);
  counted = omega arith;
}

add_session-IsSound_example :
    (d' : Discord) × (add_session a_server a_busy_session ≡ ok d')
    × IsSound d'
    × ((other : ℕ)
        → find_session d' other ≡ (
            if other == 7
            then some (welcomed a_busy_session a_guest_client)
            else find_session a_server other))
    × (d'.released ≡ [] ++ closed_socket (find_session a_server 7))
add_session-IsSound_example =
    add_session-IsSound a_server a_busy_session a_guest_client a_server-IsSound refl
      a_guest_client-is_open refl two_packets-AreServed

update_sessions-IsSound_example :
    (d' : Discord) × (update_sessions any_string a_server
      ≡ ok (asked_of any_string a_server.sessions, d'))
    × IsSound d'
    × ((id : ℕ) → find_session d' id ≡ survivor any_string (find_session a_server id))
update_sessions-IsSound_example = update_sessions-IsSound any_string a_server a_server-IsSound

kick-update_sessions_example :
    (d' : Discord) × (update_sessions any_string (kick a_server 7)
      ≡ ok (asked_of any_string (kick a_server 7).sessions, d'))
    × IsSound d'
    × ((other : ℕ)
        → find_session d' other
          ≡ (if other == 7 then none else survivor any_string (find_session a_server other)))
kick-update_sessions_example = kick-update_sessions any_string a_server 7 a_server-IsSound

-- Three rounds, two of them in the same second.
abbrev three_rounds : List ℕ
three_rounds = 101 ∷ 101 ∷ 103 ∷ []

abbrev a_planned_shutdown : Discord
a_planned_shutdown = record a_server { shutdown_timer = 3; exit_code = 2 }
