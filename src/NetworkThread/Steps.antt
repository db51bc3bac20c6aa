-- ===== src/NetworkThread/Steps.antt =====
-- The life of a thread of src/shared/Network/NetworkThread.h until it exits: the sockets that it is
-- given, its rounds, and what its sockets do in between.
use warhead_discord.Prelude.{
  ℕ, suc, ◌+◌, ◌≡◌, sym, subst, false, inl, inr, Bool-cases, [], ◌∷◌, map, arith, length,
  length-append, length-map,
}
use warhead_discord.NetworkThread.{
  SocketOperations, NetworkThread, new_thread, stop, add_socket, update,
}
use warhead_discord.NetworkThread.Rounds.{
  update-rounded, update_stopped, IsCounted, rounded-IsCounted, AllShut, rounded-AllShut,
}

module _ {S : Type 0} (operations : SocketOperations S) where
  -- `Reaches n t`: the thread can get to `t` with `n` sockets added. AddSocket and AddNewSockets
  -- hold one lock, and so come one after the other; `served` is what the callbacks of the sockets
  -- do to them.
  pub data Reaches : ℕ → NetworkThread S → Type 0 where
    begun : Reaches 0 new_thread
    added :
        {n : ℕ} {t : NetworkThread S} (s : S)
        → Reaches n t
        → Reaches (suc n) (add_socket operations s t)
    served :
        {n : ℕ} {t : NetworkThread S} (change : S → S)
        → Reaches n t
        → Reaches n
            (record t { sockets = map change t.sockets; new_sockets = map change t.new_sockets })
    updated : {n : ℕ} {t : NetworkThread S} → Reaches n t → Reaches n (update operations t)
    halted : {n : ℕ} {t : NetworkThread S} → Reaches n t → Reaches n (stop t)

  update-IsCounted :
      (n : ℕ) (t : NetworkThread S)
      → IsCounted operations n t
      → IsCounted operations n (update operations t)
  update-IsCounted n t h = elim (Bool-cases t.stopped) [
    | inl stopped ↦ subst (IsCounted operations n) (sym (update_stopped operations t stopped)) h
    | inr running ↦
        subst (IsCounted operations n) (sym (update-rounded operations t running))
          (rounded-IsCounted operations n t h)
  ]

  update-AllShut :
      (t : NetworkThread S)
      → ((s : S) → operations.is_open (operations.close_socket s) ≡ false)
      → AllShut operations t.removed
      → AllShut operations (update operations t).removed
  update-AllShut t closes h = elim (Bool-cases t.stopped) [
    | inl stopped ↦
        subst (λ u. AllShut operations u.removed) (sym (update_stopped operations t stopped)) h
    | inr running ↦
        subst (λ u. AllShut operations u.removed) (sym (update-rounded operations t running))
          (rounded-AllShut operations t closes h)
  ]

  -- Whatever sockets a thread is given, and whatever they do, however its rounds fall: its counter
  -- is the number of the sockets that it holds, every socket it was given is held or was given up,
  -- and none was given up open, as long as closing a socket closes it.
  pub Reaches-IsCounted :
      (n : ℕ) (t : NetworkThread S)
      → ((s : S) → operations.is_open (operations.close_socket s) ≡ false)
      → Reaches n t
      → (t.connections ≡ length t.sockets + length t.new_sockets)
        × (t.connections + length t.removed ≡ n)
        × AllShut operations t.removed
  unfolding add_socket stop
  Reaches-IsCounted n t closes begun = (omega arith, omega arith, tt)
  Reaches-IsCounted n t closes (added {t = t'} s r) =
      let (counted, all, shut) = Reaches-IsCounted _ t' closes r in
      (omega (arith, length-append t'.new_sockets (operations.added s ∷ [])), omega arith, shut)
  Reaches-IsCounted n t closes (served {t = t'} change r) =
      let (counted, all, shut) = Reaches-IsCounted n t' closes r in
      (omega (arith, length-map change t'.sockets, length-map change t'.new_sockets), all, shut)
  Reaches-IsCounted n t closes (updated {t = t'} r) =
      let (counted, all, shut) = Reaches-IsCounted n t' closes r in
      let (counted', all') = update-IsCounted n t' (counted, all) in
      (counted', all', update-AllShut t' closes shut)
  Reaches-IsCounted n t closes (halted {t = t'} r) = Reaches-IsCounted n t' closes r
