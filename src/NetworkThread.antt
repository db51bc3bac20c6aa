-- ===== src/NetworkThread.antt =====
-- src/shared/Network/NetworkThread.h: a thread that serves the sockets that it is given. The type
-- of the sockets is a parameter, as it is of the template, with the operations that the template
-- uses. What runs between two rounds of a thread, its lock held or not, are the steps of
-- NetworkThread/Steps.
pub mod Rounds
pub mod Steps
use warhead_discord.Prelude.{ℕ, ◌+◌, ◌-◌, Bool, true, false, List, [], ◌∷◌, ◌++◌, if◌then◌else◌}

-- `update` answers whether the socket goes on, and `added` is SocketAdded of the subclass.
pub record SocketOperations (Socket : Type 0) : Type 0 where
  pub is_open : Socket → Bool
  pub update : Socket → Bool × Socket
  pub close_socket : Socket → Socket
  pub added : Socket → Socket

-- `removed` are the sockets that SocketRemoved was called for. The counter is an int32, and the
-- program has far fewer connections.
pub record NetworkThread (Socket : Type 0) : Type 0 where
  pub connections : ℕ
  pub stopped : Bool
  pub started : Bool
  pub sockets : List Socket
  pub new_sockets : List Socket
  pub removed : List Socket

module _ {S : Type 0} where
  abbrev pub new_thread : NetworkThread S
  new_thread = record {
    connections = 0;
    stopped = false;
    started = false;
    sockets = [];
    new_sockets = [];
    removed = [];
  }

  unfoldable pub start : NetworkThread S → Bool × NetworkThread S
  start t = if t.started then (false, t) else (true, record t { started = true })

  unfoldable pub stop : NetworkThread S → NetworkThread S
  stop t = record t { stopped = true }

  -- The end of `Run`, which a stopped thread comes to.
  unfoldable pub run_exit : NetworkThread S → NetworkThread S
  run_exit t = record t { sockets = []; new_sockets = [] }

  unfoldable pub socket_removed : S → NetworkThread S → NetworkThread S
  socket_removed s t = record t { removed = t.removed ++ s ∷ []; connections = t.connections - 1 }

module _ {S : Type 0} (operations : SocketOperations S) where
  unfoldable pub add_socket : S → NetworkThread S → NetworkThread S
  add_socket s t = record t {
    connections = t.connections + 1;
    new_sockets = t.new_sockets ++ operations.added s ∷ [];
  }

  -- The loop over the new sockets.
  unfoldable pub take_over : List S → NetworkThread S → NetworkThread S
  unfolding socket_removed
  take_over [] t = t
  take_over (s ∷ ss) t = take_over ss (
      if operations.is_open s
      then record t { sockets = t.sockets ++ s ∷ [] }
      else socket_removed s t)

  unfoldable pub add_new_sockets : NetworkThread S → NetworkThread S
  unfolding take_over
  add_new_sockets t = let taken = take_over t.new_sockets t in record taken { new_sockets = [] }

  -- `remove_if` over the sockets: those that stay, and the thread as the test leaves it.
  unfoldable pub update_sockets : List S → NetworkThread S → List S × NetworkThread S
  unfolding socket_removed
  update_sockets [] t = ([], t)
  update_sockets (s ∷ ss) t =
      let (goes_on, s') = operations.update s in
      let last = if operations.is_open s' then operations.close_socket s' else s' in
      let (kept, t') = update_sockets ss (if goes_on then t else socket_removed last t) in
      (if goes_on then s' ∷ kept else kept, t')

  unfoldable pub update : NetworkThread S → NetworkThread S
  unfolding add_new_sockets update_sockets
  update t =
      let added = add_new_sockets t in
      let (kept, t') = update_sockets added.sockets added in
      if t.stopped then t else record t' { sockets = kept }
