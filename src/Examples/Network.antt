-- ===== src/Examples/Network.antt =====
-- Connections that come in: src/shared/Network/NetworkThread.h and SocketMgr.h, for the sockets of
-- src/server/Server/DiscordSocket.cpp.
use mathlib.Core.List.{Perm}
use warhead_discord.Prelude.{
  ◌+◌, ◌≡◌, refl, true, false, List, [], ◌∷◌, some, none, ok, ◌>>=◌, arith, length,
}
use warhead_discord.DiscordSocket.{Peer, new_peer, is_open, close_socket, on_close}
use warhead_discord.NetworkThread.{SocketOperations, NetworkThread, new_thread, add_socket, update}
use warhead_discord.NetworkThread.Rounds.{rounded, update-rounded, AllShut}
use warhead_discord.NetworkThread.Steps.{begun, added, Reaches-IsCounted}
use warhead_discord.SocketMgr.{SocketMgr, start_discord_network, accept_all}
use warhead_discord.SocketMgr.Balance.{IsBalanced, connection_count}
use warhead_discord.SocketMgr.Holding.{held, AreCounted}
use warhead_discord.SocketMgr.Accepting.{listening, start_discord_network-accept_all}

abbrev peers : SocketOperations Peer
peers = record {
  is_open = is_open;
  update = λ p. (is_open p, p);
  close_socket = close_socket;
  added = λ p. p;
}

peers-close : (p : Peer) → is_open (close_socket p) ≡ false
unfolding is_open close_socket on_close
peers-close p = ground arith

abbrev one_added : NetworkThread Peer
one_added = add_socket peers new_peer new_thread

Reaches-IsCounted_example :
    (one_added.connections ≡ length one_added.sockets + length one_added.new_sockets)
    × (one_added.connections + length one_added.removed ≡ 1)
    × AllShut peers one_added.removed
Reaches-IsCounted_example = Reaches-IsCounted peers 1 one_added peers-close (added new_peer begun)

one_added-runs : one_added.stopped ≡ false
unfolding add_socket
one_added-runs = refl

update-rounded_example : update peers one_added ≡ rounded peers one_added
update-rounded_example = update-rounded peers one_added one_added-runs

abbrev no_network : SocketMgr Peer
no_network = record { threads = []; acceptor = none }

start_discord_network-accept_all_example :
    (ts : List (NetworkThread Peer)) × ((start_discord_network true true 2 no_network
        >>= λ (started, m').
            accept_all peers
              ((false, true, some new_peer)
                ∷ (true, true, none)
                ∷ (false, true, some new_peer)
                ∷ [])
              m')
      ≡ ok (listening peers ts))
    × IsBalanced ts
    × (connection_count ts ≡ 2)
    × AreCounted ts
    × Perm (held ts) (new_peer ∷ new_peer ∷ [])
start_discord_network-accept_all_example =
    start_discord_network-accept_all peers 2
      ((false, true, some new_peer) ∷ (true, true, none) ∷ (false, true, some new_peer) ∷ [])
      no_network (omega arith)
