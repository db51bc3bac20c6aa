-- ===== src/SocketMgr/Selection.antt =====
-- `SelectThreadWithMinConnections` of src/shared/Network/SocketMgr.h.
use warhead_discord.Prelude.{
  ℕ, zero, suc, ◌≤◌, ◌<◌, ◌≡◌, refl, sym, ◌∙◌, subst, inl, inr, Bool-cases, Option, none, some,
  List, [], ◌∷◌, ◌++◌, append_assoc, ltb, length, length-append, arith,
}
use warhead_discord.NetworkThread.{NetworkThread}
use warhead_discord.SocketMgr.{select_loop, select_thread_with_min_connections}

module _ {S : Type 0} where
  abbrev pub thread_at : List (NetworkThread S) → ℕ → Option (NetworkThread S)
  thread_at [] i = none
  thread_at (t ∷ ts) zero = some t
  thread_at (t ∷ ts) (suc i) = thread_at ts i

  abbrev pub AllAtLeast : ℕ → List (NetworkThread S) → Type 0
  AllAtLeast count [] = Unit {0}
  AllAtLeast count (t ∷ ts) = (count ≤ t.connections) × AllAtLeast count ts

  thread_at-length :
      (before : List (NetworkThread S)) (t : NetworkThread S) (ts : List (NetworkThread S))
      → thread_at (before ++ t ∷ ts) (length before) ≡ some t
  thread_at-length [] t ts = refl
  thread_at-length (u ∷ us) t ts = thread_at-length us t ts

  AllAtLeast-le :
      (m n : ℕ) (ts : List (NetworkThread S)) → m ≤ n → AllAtLeast n ts → AllAtLeast m ts
  AllAtLeast-le m n [] le h = tt
  AllAtLeast-le m n (t ∷ ts) le (first, h) = (omega arith, AllAtLeast-le m n ts le h)

  AllAtLeast-append :
      (n : ℕ) (ts us : List (NetworkThread S))
      → AllAtLeast n ts
      → AllAtLeast n us
      → AllAtLeast n (ts ++ us)
  AllAtLeast-append n [] us h k = k
  AllAtLeast-append n (t ∷ ts) us (first, h) k = (first, AllAtLeast-append n ts us h k)

  -- A thread that has no more connections than any other.
  abbrev pub IsLeast : List (NetworkThread S) → ℕ → Type 0
  IsLeast ts i = (t : NetworkThread S) × (thread_at ts i ≡ some t) × AllAtLeast t.connections ts

  select_loop-IsLeast :
      (before rest ts : List (NetworkThread S)) (min : ℕ) (u : NetworkThread S)
      → before ++ rest ≡ ts
      → thread_at ts min ≡ some u
      → AllAtLeast u.connections before
      → IsLeast ts (select_loop rest (length before) min u.connections)
  unfolding select_loop
  select_loop-IsLeast before [] ts min u e there least =
      (u, there, subst (AllAtLeast u.connections) e (AllAtLeast-append _ before [] least tt))
  select_loop-IsLeast before (t ∷ rest) ts min u e there least =
      let longer : suc (length before) ≡ length (before ++ t ∷ []) =
        omega (arith, length-append before (t ∷ [])) in
      let whole : (before ++ t ∷ []) ++ rest ≡ ts = append_assoc before (t ∷ []) rest ∙ e in
      elim (Bool-cases (ltb t.connections u.connections)) [
        | inl fewer ↦
            let here : thread_at ts (length before) ≡ some t =
              subst (λ l. thread_at l (length before) ≡ some t) e
                (thread_at-length before t rest) in
            let less : t.connections < u.connections = ground arith in
            let found =
              select_loop-IsLeast (before ++ t ∷ []) rest ts (length before) t whole here (
                AllAtLeast-append _ before (t ∷ [])
                  (AllAtLeast-le _ u.connections before (omega arith) least) (omega arith, tt)) in
            rw (select_loop, fewer)
              (subst (λ i. IsLeast ts (select_loop rest i (length before) t.connections))
                (sym longer) found)
        | inr not_fewer ↦
            let no_less : u.connections ≤ t.connections = ground arith in
            let found =
              select_loop-IsLeast (before ++ t ∷ []) rest ts min u whole there
                (AllAtLeast-append _ before (t ∷ []) least (no_less, tt)) in
            rw (select_loop, not_fewer)
              (subst (λ i. IsLeast ts (select_loop rest i min u.connections)) (sym longer) found)
      ]

  -- The thread that is chosen for the next connection is one of the threads, and none has fewer
  -- connections.
  pub select_thread-IsLeast :
      (t : NetworkThread S) (ts : List (NetworkThread S))
      → IsLeast (t ∷ ts) (select_thread_with_min_connections (t ∷ ts))
  unfolding select_thread_with_min_connections
  select_thread-IsLeast t ts =
      select_loop-IsLeast (t ∷ []) ts (t ∷ ts) 0 t refl refl (omega arith, tt)
