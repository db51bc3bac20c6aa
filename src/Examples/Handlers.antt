-- ===== src/Examples/Handlers.antt =====
-- Runs of the handlers of one packet in src/server/Server/DiscordSocket.cpp.
use warhead_discord.Prelude.{◌≡◌, refl, false, ok, arith}
use warhead_discord.DiscordSocket.{Peer}
use warhead_discord.DiscordSocket.Handlers.{handle_packet, check_ping_speed}
use warhead_discord.DiscordSocket.Handlers.Pings.{timed}
use warhead_discord.DiscordSocket.Handlers.Total.{handle_packet-returns}
use warhead_discord.Examples.Shared.{a_client, a_message, any_string, seconds_clock}

a_slow_ping :
    (check_ping_speed
      (seconds_clock a_client.clock_reads)
      (timed any_string seconds_clock a_client)).0
    ≡ false
unfolding check_ping_speed
a_slow_ping = refl

handle_packet-returns_example :
    (r : _) × (handle_packet any_string seconds_clock a_client a_message ≡ ok r)
handle_packet-returns_example =
    handle_packet-returns any_string seconds_clock a_client a_message (λ _ nobody. cc) (omega arith)

abbrev a_fast_client : Peer
a_fast_client = record a_client { last_ping_time = 19000000000; over_speed_pings = 5 }
