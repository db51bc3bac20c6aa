-- ===== src/SocketMgr.antt =====
-- src/shared/Network/SocketMgr.h with src/server/Server/DiscordSocketMgr.cpp and the loop of
-- src/shared/Network/AsyncAcceptor.h: new connections, and the threads that serve them. What asio
-- answers is an argument.
pub mod Selection
pub mod Balance
pub mod Holding
pub mod Accepting
use warhead_discord.Prelude.{
  ℕ, zero, suc, ◌+◌, Bool, true, false, not, Option, none, some, List, [], ◌∷◌, map, ltb,
  if◌then◌else◌, length, replicate, Result, err, ok, require, ◌>>=◌, ◌>>◌, aborted, fault,
}
use warhead_discord.NetworkThread.{SocketOperations, NetworkThread, new_thread, start, add_socket}

-- `pending` is the thread that was chosen for the connection that is waited for.
pub record AsyncAcceptor : Type 0 where
  pub closed : Bool
  pub pending : Option ℕ

-- `_threadCount` is the length of the threads.
pub record SocketMgr (Socket : Type 0) : Type 0 where
  pub threads : List (NetworkThread Socket)
  pub acceptor : Option AsyncAcceptor

module _ {S : Type 0} where
  -- The loop: `i` is the place of the first thread that is left, and `count` the number of
  -- connections of the thread at `min`.
  unfoldable pub select_loop : List (NetworkThread S) → ℕ → ℕ → ℕ → ℕ
  select_loop [] i min count = min
  select_loop (t ∷ ts) i min count =
      let fewer = ltb t.connections count in
      select_loop ts (suc i) (if fewer then i else min) (if fewer then t.connections else count)

  unfoldable pub select_thread_with_min_connections : List (NetworkThread S) → ℕ
  unfolding select_loop
  select_thread_with_min_connections [] = 0
  select_thread_with_min_connections (t ∷ ts) = select_loop ts 1 0 t.connections

  -- `bound` tells whether the acceptor could be made, and bound to its address.
  unfoldable pub start_network : Bool → ℕ → SocketMgr S → Result (Bool × SocketMgr S)
  unfolding start
  start_network bound thread_count m =
      require (ltb 0 thread_count) aborted
      >> ok (
          if bound
          then (
            true,
            record {
              threads = replicate thread_count (start new_thread).1;
              acceptor = some (record { closed = false; pending = none });
            },
          )
          else (false, m))

  -- The threads are stopped, waited for and deleted.
  unfoldable pub stop_network : SocketMgr S → Result (SocketMgr S)
  stop_network m = elim m.acceptor [
    | none ↦ err fault
    | some a ↦ ok (record { threads = []; acceptor = none })
  ]

  -- `AsyncAcceptWithCallback` asks for a thread, and then waits for a connection.
  unfoldable pub async_accept : SocketMgr S → SocketMgr S
  unfolding select_thread_with_min_connections
  async_accept m = elim m.acceptor [
    | none ↦ m
    | some a ↦ if a.closed then m else record m {
      acceptor = some (record a { pending = some (select_thread_with_min_connections m.threads) });
    }
  ]

module _ {S : Type 0} where
  -- `buffer` tells whether the configured size of the send buffer is more than zero.
  unfoldable pub start_discord_network : Bool → Bool → ℕ → SocketMgr S → Result (Bool × SocketMgr S)
  unfolding start_network async_accept
  start_discord_network false bound thread_count m = ok (false, m)
  start_discord_network true bound thread_count m = do
    (started, m') ← start_network bound thread_count m
    ok (started, if started then async_accept m' else m')

module _ {S : Type 0} (operations : SocketOperations S) where
  -- `_threads[index].AddSocket`.
  unfoldable pub add_to : ℕ → S → List (NetworkThread S) → Result (List (NetworkThread S))
  unfolding add_socket
  add_to index s [] = err fault
  add_to zero s (t ∷ ts) = ok (add_socket operations s t ∷ ts)
  add_to (suc index) s (t ∷ ts) = do ts' ← add_to index s ts; ok (t ∷ ts')

  -- `options` tells whether the options of the socket could be set; a socket that cannot tell its
  -- address is none.
  unfoldable pub on_socket_open : Bool → Option S → ℕ → SocketMgr S → Result (SocketMgr S)
  unfolding add_to
  on_socket_open false started index m = ok m
  on_socket_open true none index m = ok m
  on_socket_open true (some s) index m = do
    ts ← add_to index s m.threads
    ok (record m { threads = ts })

  -- The handler of a connection that was waited for, for the thread at `index`.
  unfoldable pub on_accept : Bool → Bool → Option S → ℕ → SocketMgr S → Result (SocketMgr S)
  unfolding on_socket_open async_accept
  on_accept error options started index m = do
    m' ← if error then ok m else on_socket_open options started index m
    ok (async_accept m')

  -- Connections that come one after the other, with how each turns out.
  unfoldable pub accept_all : List (Bool × Bool × Option S) → SocketMgr S → Result (SocketMgr S)
  unfolding on_accept
  accept_all [] m = ok m
  accept_all ((error, options, started) ∷ rest) m = elim m.acceptor [
    | none ↦ ok m
    | some a ↦ elim a.pending [
      | none ↦ ok m
      | some index ↦ on_accept error options started index m >>= accept_all rest
    ]
  ]
