-- ===== src/SocketMgr/Holding.antt =====
-- Which sockets the threads of src/shared/Network/SocketMgr.h hold.
use mathlib.Core.List.Perm
use mathlib.Core.List.{Perm, perm_middle}
use warhead_discord.Prelude.{
  ℕ, zero, suc, ◌+◌, ◌≡◌, sym, subst, ◌∙◌, List, [], ◌∷◌, ◌++◌, append_assoc, ap, replicate, refl,
  ok, length, length-append, >>=-eq-ok, arith,
}
use warhead_discord.NetworkThread.{SocketOperations, NetworkThread, new_thread, start, add_socket}
use warhead_discord.SocketMgr.{add_to}

module _ {S : Type 0} where
  -- The sockets of all threads: those that are served, and those that wait for the next round.
  abbrev pub held : List (NetworkThread S) → List S
  held [] = []
  held (t ∷ ts) = (t.sockets ++ t.new_sockets) ++ held ts

  -- Each thread counts the sockets that it holds.
  abbrev pub AreCounted : List (NetworkThread S) → Type 0
  AreCounted [] = Unit {0}
  AreCounted (t ∷ ts) = (t.connections ≡ length t.sockets + length t.new_sockets) × AreCounted ts

  -- Threads that were only started.
  pub idle-held : (n : ℕ) → held (replicate n (start (new_thread {S = S})).1) ≡ []
  unfolding start
  idle-held zero = refl
  idle-held (suc n) = idle-held n

pub idle-AreCounted : (S : Type 0) (n : ℕ) → AreCounted (replicate n (start (new_thread {S = S})).1)
unfolding start
idle-AreCounted S zero = tt
idle-AreCounted S (suc n) = (refl, idle-AreCounted S n)

module _ {S : Type 0} (operations : SocketOperations S) where
  add_socket-held :
      (s : S) (t : NetworkThread S) (ts : List (NetworkThread S))
      → Perm (held (add_socket operations s t ∷ ts)) (operations.added s ∷ held (t ∷ ts))
  unfolding add_socket
  add_socket-held s t ts =
      let x = operations.added s in
      let moved : (t.sockets ++ (t.new_sockets ++ x ∷ [])) ++ held ts
          ≡ (t.sockets ++ t.new_sockets) ++ x ∷ held ts =
        ap (λ l. l ++ held ts) (sym (append_assoc t.sockets t.new_sockets (x ∷ [])))
        ∙ append_assoc (t.sockets ++ t.new_sockets) (x ∷ []) (held ts) in
      subst (λ l. Perm l (x ∷ held (t ∷ ts))) (sym moved)
        (perm_middle (t.sockets ++ t.new_sockets) (held ts))

  -- A thread that takes a socket holds it behind its others, and the other threads hold what they
  -- held.
  pub add_to-held :
      (i : ℕ) (s : S) (ts ts' : List (NetworkThread S))
      → add_to operations i s ts ≡ ok ts'
      → AreCounted ts
      → Perm (held ts') (operations.added s ∷ held ts) × AreCounted ts'
  unfolding add_to
  add_to-held i s [] ts' h c = absurd (cc)
  add_to-held zero s (t ∷ ts) ts' h (now, c) =
      let same : add_socket operations s t ∷ ts ≡ ts' = cc in
      subst (λ us. Perm (held us) (operations.added s ∷ held (t ∷ ts)) × AreCounted us) same
        (
          add_socket-held s t ts,
          unfold add_socket in
              (omega (arith, now, length-append t.new_sockets (operations.added s ∷ [])), c),
        )
  add_to-held (suc i) s (t ∷ ts) ts' h (now, c) =
      let (us, e, h') = >>=-eq-ok (add_to operations i s ts) _ h in
      let same : t ∷ us ≡ ts' = cc in
      let (moved, counted) = add_to-held i s ts us e c in
      subst (λ vs. Perm (held vs) (operations.added s ∷ held (t ∷ ts)) × AreCounted vs) same
        (
          Perm.trans (Perm.append_left (t.sockets ++ t.new_sockets) moved)
              (perm_middle (t.sockets ++ t.new_sockets) (held ts)),
          (now, counted),
        )
