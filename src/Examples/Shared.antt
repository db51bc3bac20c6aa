-- ===== src/Examples/Shared.antt =====
-- What the concrete runs share: clients, their packets, and a clock.
use warhead_discord.Prelude.{ℕ, ◌+◌, ◌*◌, ◌≡◌, refl, Bool, true, List, [], ◌∷◌, some}
use warhead_discord.MessageBuffer.{MessageBuffer}
use warhead_discord.DiscordSocket.{Packet, Session, Peer, new_peer, is_open}

abbrev pub any_string : List ℕ → Bool
any_string bytes = true

abbrev pub seconds_clock : ℕ → ℕ
seconds_clock reading = (reading + 1) * 20000000000

abbrev pub a_session : Session
a_session = record {
  account_id = 7;
  guild_id = 9;
  account_name = 65 ∷ [];
  channels = [];
  latency = 0;
  recv_queue = [];
}

abbrev pub a_client : Peer
a_client = record new_peer { authed = true; session = some a_session }

abbrev pub a_message : Packet
a_message = record { opcode = 3; payload = 5 ∷ 6 ∷ [] }

abbrev pub an_embed : Packet
an_embed = record { opcode = 4; payload = [] }

abbrev pub two_packets : List Packet
two_packets = a_message ∷ an_embed ∷ []

abbrev pub a_busy_client : Peer
a_busy_client = record a_client { buffer_queue = two_packets }

pub a_client-is_open : is_open a_client ≡ true
unfolding is_open
a_client-is_open = refl

pub new_peer-is_open : is_open new_peer ≡ true
unfolding is_open
new_peer-is_open = refl

abbrev pub a_full_buffer : MessageBuffer
a_full_buffer = record { wpos = 3; rpos = 0; storage = 1 ∷ 2 ∷ 3 ∷ [] }
