-- ===== src/SocketMgr/Balance.antt =====
-- How the connections that src/shared/Network/SocketMgr.h takes in spread over its threads.
use warhead_discord.Prelude.{
  ℕ, zero, suc, ◌+◌, ◌≤◌, ◌≡◌, refl, ap, subst, inl, inr, Bool-cases, none, some, List, [], ◌∷◌,
  leb, length, ok, Result, arith,
}
use warhead_discord.NetworkThread.{SocketOperations, NetworkThread, add_socket}
use warhead_discord.SocketMgr.{select_thread_with_min_connections, add_to}
use warhead_discord.SocketMgr.Selection.{thread_at, AllAtLeast, select_thread-IsLeast}

module _ {S : Type 0} where
  -- Every thread has `m` connections, or one more.
  abbrev pub IsLevel : ℕ → List (NetworkThread S) → Type 0
  IsLevel m [] = Unit {0}
  IsLevel m (t ∷ ts) = (m ≤ t.connections) × (t.connections ≤ suc m) × IsLevel m ts

  abbrev pub IsBalanced : List (NetworkThread S) → Type 0
  IsBalanced ts = (m : ℕ) × IsLevel m ts

  -- The connections of all threads.
  abbrev pub connection_count : List (NetworkThread S) → ℕ
  connection_count [] = 0
  connection_count (t ∷ ts) = t.connections + connection_count ts

  IsLevel-raised :
      (m : ℕ) (ts : List (NetworkThread S))
      → IsLevel m ts
      → AllAtLeast (suc m) ts
      → IsLevel (suc m) ts
  IsLevel-raised m [] h least = tt
  IsLevel-raised m (t ∷ ts) (lo, hi, h) (first, least) =
      (first, omega arith, IsLevel-raised m ts h least)

  IsLevel-thread_at :
      (m i : ℕ) (t : NetworkThread S) (ts : List (NetworkThread S))
      → IsLevel m ts
      → thread_at ts i ≡ some t
      → (m ≤ t.connections) × (t.connections ≤ suc m)
  IsLevel-thread_at m i t [] h e = absurd (cc)
  IsLevel-thread_at m zero t (u ∷ us) (lo, hi, h) e =
      let same : u ≡ t = cc in
      subst (λ v. (m ≤ v.connections) × (v.connections ≤ suc m)) same (lo, hi)
  IsLevel-thread_at m (suc i) t (u ∷ us) (lo, hi, h) e = IsLevel-thread_at m i t us h e

module _ {S : Type 0} (operations : SocketOperations S) where
  -- What adding a socket to a thread leaves.
  abbrev Taken : ℕ → List (NetworkThread S) → Result (List (NetworkThread S)) → Type 0
  Taken m ts result =
      (ts' : List (NetworkThread S)) × (result ≡ ok ts')
      × IsLevel m ts'
      × (connection_count ts' ≡ suc (connection_count ts))
      × (length ts' ≡ length ts)

  add_to-level :
      (m i : ℕ) (s : S) (t : NetworkThread S) (ts : List (NetworkThread S))
      → IsLevel m ts
      → thread_at ts i ≡ some t
      → t.connections ≡ m
      → Taken m ts (add_to operations i s ts)
  unfolding add_to add_socket
  add_to-level m i s t [] h e least = absurd (cc)
  add_to-level m zero s t (u ∷ us) (lo, hi, h) e least =
      let same : u.connections ≡ t.connections =
        ap (λ o. elim o [ none ↦ 0 | some v ↦ v.connections ]) e in
      (_, refl, (omega arith, omega arith, h), omega arith, refl)
  add_to-level m (suc i) s t (u ∷ us) (lo, hi, h) e least =
      let (ts', added, h', count, size) = add_to-level m i s t us h e least in
      (u ∷ ts', rw (add_to, added) refl, (lo, hi, h'), omega arith, ap suc size)

  -- The next connection goes where the threads stay balanced.
  pub select_thread-IsBalanced :
      (s : S) (t : NetworkThread S) (ts : List (NetworkThread S))
      → IsBalanced (t ∷ ts)
      → (ts' : List (NetworkThread S)) × (add_to operations
            (select_thread_with_min_connections (t ∷ ts))
            s
            (t ∷ ts)
          ≡ ok ts')
        × IsBalanced ts'
        × (connection_count ts' ≡ suc (connection_count (t ∷ ts)))
        × (length ts' ≡ length (t ∷ ts))
  select_thread-IsBalanced s t ts (m, h) =
      let i = select_thread_with_min_connections (t ∷ ts) in
      let (u, there, least) = select_thread-IsLeast t ts in
      let (lo, hi) = IsLevel-thread_at m i u (t ∷ ts) h there in
      elim (Bool-cases (leb u.connections m)) [
        | inl lower ↦
            let (ts', added, h', count, size) =
              add_to-level m i s u (t ∷ ts) h there (ground arith) in
            (ts', added, (m, h'), count, size)
        | inr upper ↦
            let top : u.connections ≡ suc m = ground arith in
            let up = IsLevel-raised m (t ∷ ts) h (subst (λ n. AllAtLeast n (t ∷ ts)) top least) in
            let (ts', added, h', count, size) = add_to-level (suc m) i s u (t ∷ ts) up there top in
            (ts', added, (suc m, h'), count, size)
      ]
