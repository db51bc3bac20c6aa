-- ===== src/Examples/Reading.antt =====
-- Runs of src/server/Server/DiscordSocket.cpp: a logged-in client whose bytes come in pieces, and a
-- stranger's bytes.
use warhead_discord.Prelude.{ℕ, ◌≡◌, refl, Bool, true, List, [], ◌∷◌, none, ok, arith}
use warhead_discord.PacketHeader.{server_header}
use warhead_discord.DiscordSocket.{Connection, new_peer, new_connection}
use warhead_discord.DiscordSocket.Reading.{receive_all}
use warhead_discord.DiscordSocket.Reading.Machine.{in_header, running, consume}
use warhead_discord.DiscordSocket.Reading.Chunks.{joined, FitBlocks, receive_all-Outcome}
use warhead_discord.DiscordSocket.Reading.OneRead.{IsReady, Outcome, new_connection-IsReady}
use warhead_discord.DiscordSocket.Reading.Frames.{
  AreFrames, frames, deliver_all, receive_all-deliver_all,
}
use warhead_discord.DiscordSocket.Reading.Delivery.{AreForSession, queued, receive_all-session}
use warhead_discord.DiscordSocket.Reading.Safety.{receive_all-stays_out}
use warhead_discord.Examples.Shared.{
  a_client, a_client-is_open, a_session, any_string, new_peer-is_open, seconds_clock, two_packets,
}

-- The first packet's header breaks after three bytes; the second packet comes in one piece with
-- the end of the first.
abbrev two_reads : List (List ℕ)
two_reads = (0 ∷ 0 ∷ 0 ∷ []) ∷ (4 ∷ 3 ∷ 0 ∷ 5 ∷ 6 ∷ 0 ∷ 0 ∷ 0 ∷ 2 ∷ 4 ∷ 0 ∷ []) ∷ []

two_reads-frames : joined two_reads ≡ frames two_packets
unfolding server_header
two_reads-frames = refl

two_packets-AreForSession : AreForSession two_packets
two_packets-AreForSession = (ground arith, ground arith)

two_reads-FitBlocks : FitBlocks two_reads
two_reads-FitBlocks = (omega arith, (omega arith, tt))

receive_all-session_example :
    (c' : Connection) × (receive_all any_string seconds_clock two_reads
        (true, new_connection a_client)
      ≡ ok (true, c'))
    × IsReady (in_header []) c'
    × (c'.peer ≡ queued a_client a_session two_packets)
unfolding new_connection
receive_all-session_example =
    receive_all-session any_string seconds_clock two_packets two_reads (new_connection a_client)
      a_session two_packets-AreForSession two_reads-frames two_reads-FitBlocks
      (new_connection-IsReady a_client a_client-is_open) refl

two_packets-AreFrames : AreFrames two_packets
two_packets-AreFrames = ground arith

receive_all-deliver_all_example :
    Outcome
      (deliver_all any_string seconds_clock a_client two_packets)
      (receive_all any_string seconds_clock two_reads (true, new_connection a_client))
unfolding new_connection
receive_all-deliver_all_example =
    receive_all-deliver_all any_string seconds_clock two_packets two_reads (new_connection a_client)
      two_packets-AreFrames two_reads-frames two_reads-FitBlocks
      (new_connection-IsReady a_client a_client-is_open)

receive_all-Outcome_example :
    Outcome
      (consume any_string seconds_clock (running (in_header []) new_peer) (joined two_reads))
      (receive_all any_string seconds_clock two_reads (true, new_connection new_peer))
unfolding new_connection
receive_all-Outcome_example =
    receive_all-Outcome any_string seconds_clock two_reads (in_header []) (new_connection new_peer)
      (new_connection-IsReady new_peer new_peer-is_open) two_reads-FitBlocks

receive_all-stays_out_example :
    (reading : Bool) × (c' : Connection) × (receive_all any_string seconds_clock two_reads
        (true, new_connection new_peer)
      ≡ ok (reading, c'))
    × (c'.peer.session ≡ none)
    × (c'.peer.buffer_queue ≡ [])
unfolding new_connection
receive_all-stays_out_example =
    receive_all-stays_out any_string seconds_clock two_reads (new_connection new_peer)
      (new_connection-IsReady new_peer new_peer-is_open) two_reads-FitBlocks refl refl
