-- ===== src/SocketMgr/Accepting.antt =====
-- From the start of the network on: StartNetwork, OnSocketOpen and the loop of the acceptor, of
-- src/shared/Network/SocketMgr.h and AsyncAcceptor.h.
use mathlib.Core.List.Perm
use mathlib.Core.List.{Perm, perm_middle}
use warhead_discord.Prelude.{
  append-nil, subst, ap, ◌++◌, ℕ, zero, suc, ◌+◌, ◌<◌, ◌≡◌, refl, ◌∙◌, Bool, true, false, Option,
  none, some, List, [], ◌∷◌, lt→ltb, length, replicate, ok, Result, ◌>>=◌, arith,
}
use warhead_discord.NetworkThread.{SocketOperations, NetworkThread, new_thread, start}
use warhead_discord.SocketMgr.{
  SocketMgr, select_thread_with_min_connections, start_network, start_discord_network, async_accept,
  add_to, on_socket_open, on_accept, accept_all,
}
use warhead_discord.SocketMgr.Balance.{
  IsLevel, IsBalanced, connection_count, select_thread-IsBalanced,
}
use warhead_discord.SocketMgr.Holding.{held, AreCounted, idle-held, idle-AreCounted, add_to-held}

module _ {S : Type 0} (operations : SocketOperations S) where
  -- A server that waits for the next connection.
  abbrev pub listening : List (NetworkThread S) → SocketMgr S
  listening ts = record {
    threads = ts;
    acceptor =
        some (record { closed = false; pending = some (select_thread_with_min_connections ts) });
  }

  -- The sockets of the connections that get one: without an error, with their options, and with an
  -- address.
  abbrev pub arrived : List (Bool × Bool × Option S) → List S
  arrived [] = []
  arrived ((false, true, some s) ∷ rest) = operations.added s ∷ arrived rest
  arrived (_ ∷ rest) = arrived rest

  -- Threads that hold these sockets and no other, counted by each thread.
  abbrev Serves : ℕ → List S → Result (SocketMgr S) → Type 0
  Serves n sockets result =
      (ts : List (NetworkThread S)) × (result ≡ ok (listening ts))
      × IsBalanced ts
      × (connection_count ts ≡ n)
      × AreCounted ts
      × Perm (held ts) sockets

  one_more :
      (rest : List (Bool × Bool × Option S)) (s : S) (t : NetworkThread S)
      (ts : List (NetworkThread S))
      → ((t' : NetworkThread S) (ts' : List (NetworkThread S))
          → IsBalanced (t' ∷ ts')
          → AreCounted (t' ∷ ts')
          → Serves
              (length (arrived rest) + connection_count (t' ∷ ts'))
              (arrived rest ++ held (t' ∷ ts'))
              (accept_all operations rest (listening (t' ∷ ts'))))
      → ((ts' : List (NetworkThread S)) × (add_to operations
              (select_thread_with_min_connections (t ∷ ts))
              s
              (t ∷ ts)
            ≡ ok ts')
          × IsBalanced ts'
          × (connection_count ts' ≡ suc (connection_count (t ∷ ts)))
          × (length ts' ≡ length (t ∷ ts)))
      → AreCounted (t ∷ ts)
      → Serves
          (suc (length (arrived rest)) + connection_count (t ∷ ts))
          (operations.added s ∷ (arrived rest ++ held (t ∷ ts)))
          (accept_all operations ((false, true, some s) ∷ rest) (listening (t ∷ ts)))
  unfolding accept_all on_accept on_socket_open async_accept
  one_more rest s t ts serves ([], added, b, count, size) c = absurd (omega arith)
  one_more rest s t ts serves (t' ∷ ts', added, b, count, size) c =
      let i = select_thread_with_min_connections (t ∷ ts) in
      let (moved, counted) = add_to-held operations i s (t ∷ ts) (t' ∷ ts') added c in
      let (us, e, b', total, counted', holds) = serves t' ts' b counted in
      (
        us,
        rw (on_accept, on_socket_open, added) e,
        b',
        total ∙ omega (arith, count),
        counted',
        Perm.trans holds (
            Perm.trans (Perm.append_left (arrived rest) moved)
              (perm_middle (arrived rest) (held (t ∷ ts)))),
      )

  accept_all-Serves :
      (arrivals : List (Bool × Bool × Option S)) (t : NetworkThread S) (ts : List (NetworkThread S))
      → IsBalanced (t ∷ ts)
      → AreCounted (t ∷ ts)
      → Serves
          (length (arrived arrivals) + connection_count (t ∷ ts))
          (arrived arrivals ++ held (t ∷ ts))
          (accept_all operations arrivals (listening (t ∷ ts)))
  unfolding accept_all on_accept on_socket_open async_accept
  accept_all-Serves [] t ts b c = (t ∷ ts, refl, b, omega arith, c, Perm.rfl)
  accept_all-Serves ((true, options, started) ∷ rest) t ts b c = accept_all-Serves rest t ts b c
  accept_all-Serves ((false, false, started) ∷ rest) t ts b c = accept_all-Serves rest t ts b c
  accept_all-Serves ((false, true, none) ∷ rest) t ts b c = accept_all-Serves rest t ts b c
  accept_all-Serves ((false, true, some s) ∷ rest) t ts b c =
      one_more rest s t ts (accept_all-Serves rest) (select_thread-IsBalanced operations s t ts b) c

  idle-IsLevel : (n : ℕ) → IsLevel 0 (replicate n (start (new_thread {S = S})).1)
  unfolding start
  idle-IsLevel zero = tt
  idle-IsLevel (suc n) = (omega arith, omega arith, idle-IsLevel n)

  idle-count : (n : ℕ) → connection_count (replicate n (start (new_thread {S = S})).1) ≡ 0
  unfolding start
  idle-count zero = refl
  idle-count (suc n) = omega (arith, idle-count n)

  -- However many connections come one after the other, and however each of them turns out, as long
  -- as none is given up in between: the threads of the network that was started with some hold
  -- exactly the sockets of those that got one, each once and as SocketAdded left it; each thread
  -- counts the sockets that it holds, no thread counts more than one more than another, all counts
  -- together are the number of those sockets, and the next connection is waited for.
  pub start_discord_network-accept_all :
      (n : ℕ) (arrivals : List (Bool × Bool × Option S)) (m : SocketMgr S)
      → 0 < n
      → (ts : List (NetworkThread S)) × ((start_discord_network true true n m >>= λ (started, m').
            accept_all operations arrivals m')
          ≡ ok (listening ts))
        × IsBalanced ts
        × (connection_count ts ≡ length (arrived arrivals))
        × AreCounted ts
        × Perm (held ts) (arrived arrivals)
  unfolding start_discord_network start_network async_accept
  start_discord_network-accept_all zero arrivals m some_threads = absurd (omega arith)
  start_discord_network-accept_all (suc n) arrivals m some_threads =
      let nothing =
        ap (λ l. arrived arrivals ++ l) (idle-held (suc n)) ∙ append-nil (arrived arrivals) in
      let (ts, e, b, count, counted, holds) =
        accept_all-Serves arrivals (start new_thread).1 (replicate n (start new_thread).1)
          (0, idle-IsLevel (suc n)) (idle-AreCounted S (suc n)) in
      (
        ts,
        rw (lt→ltb 0 (suc n) some_threads) e,
        b,
        count ∙ omega (arith, idle-count (suc n)),
        counted,
        subst (λ l. Perm (held ts) l) nothing holds,
      )
