-- ===== src/Examples/Sessions.antt =====
-- Runs of src/server/Server/DiscordSession.cpp: a client with seven channels and two messages.
use warhead_discord.Prelude.{ℕ, ◌≡◌, refl, true, List, [], ◌∷◌, some, ok, arith, map, take, to_le}
use warhead_discord.PacketHeader.{server_header}
use warhead_discord.ByteBuffer.Caught.{IsCaught}
use warhead_discord.Opcodes.{handler_at, initialize}
use warhead_discord.DiscordSocket.{Session, Peer, Connection, new_connection, is_open}
use warhead_discord.DiscordSocket.Reading.{receive_all}
use warhead_discord.DiscordSocket.Reading.Chunks.{joined}
use warhead_discord.DiscordSocket.Reading.Frames.{frames}
use warhead_discord.DiscordSocket.Reading.OneRead.{new_connection-IsReady}
use warhead_discord.DiscordSession.{call_handler, DiscordSession, update}
use warhead_discord.DiscordSession.Serving.{
  AreServed, call_handler-IsCaught, asked_by, updated, update_lem,
}
use warhead_discord.DiscordSession.Draining.{update_many, with_queue, update_many-drains}
use warhead_discord.DiscordSession.Posting.{
  Sent, plain, packet_of, AreSendable, post_all, update_many-posts,
}
use warhead_discord.DiscordSession.FromWire.{session_of, receive_all-posts}
use warhead_discord.Examples.Shared.{
  an_embed, any_string, seconds_clock, a_session, a_client, two_packets,
}
use warhead_discord.Examples.Packets.{hi, hi-IsText}

abbrev pub a_guest : Session
a_guest = record a_session { channels = 11 ∷ 12 ∷ 13 ∷ 14 ∷ 15 ∷ 16 ∷ 17 ∷ [] }

abbrev pub a_guest_client : Peer
a_guest_client = record a_client { session = some a_guest }

pub a_guest_client-is_open : is_open a_guest_client ≡ true
unfolding is_open
a_guest_client-is_open = refl

abbrev pub a_busy_session : DiscordSession
a_busy_session = session_of (record a_guest { recv_queue = two_packets }) a_guest_client

pub two_packets-AreServed : AreServed two_packets
unfolding handler_at initialize
two_packets-AreServed = (
  record { has_handler = λ e. cc; small = omega arith },
  (record { has_handler = λ e. cc; small = omega arith }, tt),
)

call_handler-IsCaught_example : IsCaught (call_handler any_string a_guest an_embed)
call_handler-IsCaught_example =
    call_handler-IsCaught any_string a_guest refl an_embed
      (record { has_handler = two_packets-AreServed.1.0.has_handler; small = omega arith })

update_lem_example :
    update any_string a_busy_session
    ≡ ok (
      is_open a_guest_client,
      asked_by any_string a_busy_session.state (take 101 two_packets),
      updated any_string a_busy_session a_guest_client,
    )
update_lem_example =
    update_lem any_string a_busy_session a_guest_client refl refl two_packets-AreServed

update_many-drains_example :
    update_many any_string 1 a_busy_session
    ≡ ok (
      asked_by any_string a_busy_session.state two_packets,
      with_queue any_string a_busy_session [],
    )
update_many-drains_example =
    update_many-drains any_string 1 a_busy_session a_guest_client refl a_guest_client-is_open refl
      two_packets-AreServed (omega arith)

-- Two messages, for a channel that there is and for one that there is not.
abbrev two_messages : List Sent
two_messages =
    plain (record { channel_type = 2; context = hi })
    ∷ plain (record { channel_type = 9; context = hi })
    ∷ []

two_messages-AreSendable : AreSendable any_string two_messages
unfolding to_le
two_messages-AreSendable =
    ((omega arith, hi-IsText, omega arith), ((omega arith, hi-IsText, omega arith), tt))

update_many-posts_example :
    update_many any_string 1
      (session_of (record a_guest { recv_queue = map packet_of two_messages }) a_guest_client)
    ≡ ok (
      post_all a_guest.channels two_messages,
      with_queue any_string (session_of a_guest a_guest_client) [],
    )
update_many-posts_example =
    update_many-posts any_string 1
      (session_of (record a_guest { recv_queue = map packet_of two_messages }) a_guest_client)
      a_guest_client two_messages refl a_guest_client-is_open refl two_messages-AreSendable refl
      (omega arith)

-- The second message comes in one piece with the end of the first.
abbrev two_pieces : List (List ℕ)
two_pieces =
    (0 ∷ 0 ∷ 0 ∷ 6 ∷ 3 ∷ 0 ∷ 2 ∷ 72 ∷ [])
    ∷ (105 ∷ 0 ∷ 0 ∷ 0 ∷ 0 ∷ 6 ∷ 3 ∷ 0 ∷ 9 ∷ 72 ∷ 105 ∷ 0 ∷ [])
    ∷ []

two_pieces-frames : joined two_pieces ≡ frames (map packet_of two_messages)
unfolding server_header to_le
two_pieces-frames = refl

receive_all-posts_example :
    (c' : Connection) × (s' : Session) × (receive_all any_string seconds_clock two_pieces
        (true, new_connection a_guest_client)
      ≡ ok (true, c'))
    × (c'.peer.session ≡ some s')
    × (update_many any_string 1 (session_of s' c'.peer)
        ≡ ok (
          post_all a_guest.channels two_messages,
          with_queue any_string (session_of s' c'.peer) [],
        ))
unfolding new_connection to_le
receive_all-posts_example =
    receive_all-posts any_string seconds_clock 1 two_messages two_pieces
      (new_connection a_guest_client) a_guest two_messages-AreSendable
      ((omega arith, omega arith), ((omega arith, omega arith), tt)) two_pieces-frames
      (omega arith, (omega arith, tt))
      (new_connection-IsReady a_guest_client a_guest_client-is_open) refl refl refl (omega arith)
