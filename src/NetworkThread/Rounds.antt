-- ===== src/NetworkThread/Rounds.antt =====
-- One round of a thread of src/shared/Network/NetworkThread.h.
use warhead_discord.Prelude.{
  ℕ, ◌+◌, ◌-◌, ◌≡◌, refl, ap, ap₂, sym, ◌∙◌, true, false, inl, inr, Bool-cases, List, [], ◌∷◌, ◌++◌,
  append_assoc, append-nil, arith, length, length-append, if◌then◌else◌,
}
use warhead_discord.NetworkThread.{
  SocketOperations, NetworkThread, socket_removed, take_over, add_new_sockets, update_sockets,
  update,
}

module _ {S : Type 0} where
  settled :
      (t : NetworkThread S) {ss ss' rs rs' : List S} {c c' : ℕ}
      → ss ≡ ss'
      → rs ≡ rs'
      → c ≡ c'
      → record t { sockets = ss; removed = rs; connections = c }
        ≡ record t { sockets = ss'; removed = rs'; connections = c' }
  settled t {ss'} {rs'} {c} p q r =
      ap₂ (λ a b. record t { sockets = a; removed = b; connections = c }) p q
      ∙ ap (λ n. record t { sockets = ss'; removed = rs'; connections = n }) r

module _ {S : Type 0} (operations : SocketOperations S) where
  -- The sockets that a round takes over, and those that it keeps.
  abbrev pub open_of : List S → List S
  open_of [] = []
  open_of (s ∷ ss) = if operations.is_open s then s ∷ open_of ss else open_of ss

  abbrev pub shut_of : List S → List S
  shut_of [] = []
  shut_of (s ∷ ss) = if operations.is_open s then shut_of ss else s ∷ shut_of ss

  abbrev pub going_on : List S → List S
  going_on [] = []
  going_on (s ∷ ss) =
      if (operations.update s).0 then (operations.update s).1 ∷ going_on ss else going_on ss

  -- A socket that is done, closed if it was open.
  abbrev pub done_with : S → S
  done_with s = if operations.is_open s then operations.close_socket s else s

  abbrev pub given_up : List S → List S
  given_up [] = []
  given_up (s ∷ ss) =
      if (operations.update s).0
      then given_up ss
      else done_with (operations.update s).1 ∷ given_up ss

  take_over_lem :
      (ss : List S) (t : NetworkThread S)
      → take_over operations ss t ≡ record t {
        sockets = t.sockets ++ open_of ss;
        removed = t.removed ++ shut_of ss;
        connections = t.connections - length (shut_of ss);
      }
  unfolding take_over socket_removed
  take_over_lem [] t =
      settled t (sym (append-nil t.sockets)) (sym (append-nil t.removed)) (omega arith)
  take_over_lem (s ∷ ss) t = elim (Bool-cases (operations.is_open s)) [
    | inl e ↦
        simp (take_over, e)
          (take_over_lem ss (record t { sockets = t.sockets ++ s ∷ [] })
            ∙ settled t (append_assoc t.sockets (s ∷ []) (open_of ss)) refl refl)
    | inr e ↦
        simp (take_over, e)
          (take_over_lem ss (socket_removed s t)
            ∙ settled t refl (append_assoc t.removed (s ∷ []) (shut_of ss)) (omega arith))
  ]

  update_sockets_lem :
      (ss : List S) (t : NetworkThread S)
      → update_sockets operations ss t ≡ (
        going_on ss,
        record t {
          removed = t.removed ++ given_up ss;
          connections = t.connections - length (given_up ss);
        },
      )
  unfolding update_sockets socket_removed
  update_sockets_lem [] t =
      ap (λ x. ([], x)) (settled t refl (sym (append-nil t.removed)) (omega arith))
  update_sockets_lem (s ∷ ss) t = elim (Bool-cases (operations.update s).0) [
    | inl e ↦ simp (update_sockets, e, update_sockets_lem ss t) refl
    | inr e ↦
        simp (update_sockets, e, update_sockets_lem ss _)
          (ap (λ x. (going_on ss, x))
            (settled t refl (append_assoc t.removed _ (given_up ss)) (omega arith)))
  ]

  length-open_of : (ss : List S) → length (open_of ss) + length (shut_of ss) ≡ length ss
  length-open_of [] = omega arith
  length-open_of (s ∷ ss) = elim (Bool-cases (operations.is_open s)) [
    | inl e ↦ simp e (omega (arith, length-open_of ss))
    | inr e ↦ simp e (omega (arith, length-open_of ss))
  ]

  length-going_on : (ss : List S) → length (going_on ss) + length (given_up ss) ≡ length ss
  length-going_on [] = omega arith
  length-going_on (s ∷ ss) = elim (Bool-cases (operations.update s).0) [
    | inl e ↦ simp e (omega (arith, length-going_on ss))
    | inr e ↦ simp e (omega (arith, length-going_on ss))
  ]

  -- The sockets that a round looks at.
  abbrev pub held : NetworkThread S → List S
  held t = t.sockets ++ open_of t.new_sockets

  -- The thread after a round.
  abbrev pub rounded : NetworkThread S → NetworkThread S
  rounded t = record t {
    sockets = going_on (held t);
    new_sockets = [];
    removed = (t.removed ++ shut_of t.new_sockets) ++ given_up (held t);
    connections = t.connections - length (shut_of t.new_sockets) - length (given_up (held t));
  }

  pub update-rounded : (t : NetworkThread S) → t.stopped ≡ false → update operations t ≡ rounded t
  unfolding update add_new_sockets
  update-rounded t running =
      simp
        (
          update,
          add_new_sockets,
          running,
          take_over_lem t.new_sockets t,
          update_sockets_lem (held t) _,
        )
        refl

  pub update_stopped : (t : NetworkThread S) → t.stopped ≡ true → update operations t ≡ t
  unfolding update
  update_stopped t stopped = simp (update, stopped) refl

  -- The sockets that are counted, and the ones that were, with how many there have been at all.
  abbrev pub IsCounted : ℕ → NetworkThread S → Type 0
  IsCounted n t =
      (t.connections ≡ length t.sockets + length t.new_sockets)
      × (t.connections + length t.removed ≡ n)

  pub rounded-IsCounted : (n : ℕ) (t : NetworkThread S) → IsCounted n t → IsCounted n (rounded t)
  rounded-IsCounted n t (counted, all) =
      let a = length-open_of t.new_sockets in
      let b = length-going_on (held t) in
      let c = length-append t.sockets (open_of t.new_sockets) in
      let d = length-append (t.removed ++ shut_of t.new_sockets) (given_up (held t)) in
      let e = length-append t.removed (shut_of t.new_sockets) in (omega arith, omega arith)

  abbrev pub AllShut : List S → Type 0
  AllShut [] = Unit {0}
  AllShut (s ∷ ss) = (operations.is_open s ≡ false) × AllShut ss

  append-AllShut : (ss rs : List S) → AllShut ss → AllShut rs → AllShut (ss ++ rs)
  append-AllShut [] rs a b = b
  append-AllShut (s ∷ ss) rs (shut, a) b = (shut, append-AllShut ss rs a b)

  shut_of-AllShut : (ss : List S) → AllShut (shut_of ss)
  shut_of-AllShut [] = tt
  shut_of-AllShut (s ∷ ss) = elim (Bool-cases (operations.is_open s)) [
    | inl e ↦ simp e (shut_of-AllShut ss)
    | inr e ↦ simp e (refl, shut_of-AllShut ss)
  ]

  given_up-AllShut :
      (ss : List S)
      → ((s : S) → operations.is_open (operations.close_socket s) ≡ false)
      → AllShut (given_up ss)
  given_up-AllShut [] closes = tt
  given_up-AllShut (s ∷ ss) closes = elim (Bool-cases (operations.update s).0) [
    | inl e ↦ simp e (given_up-AllShut ss closes)
    | inr e ↦
        let s' = (operations.update s).1 in
        let shut : operations.is_open (done_with s') ≡ false =
          elim (Bool-cases (operations.is_open s')) [
            | inl o ↦ simp o (closes s')
            | inr o ↦ simp o refl
          ] in
        simp e (shut, given_up-AllShut ss closes)
  ]

  pub rounded-AllShut :
      (t : NetworkThread S)
      → ((s : S) → operations.is_open (operations.close_socket s) ≡ false)
      → AllShut t.removed
      → AllShut (rounded t).removed
  rounded-AllShut t closes shut =
      append-AllShut (t.removed ++ shut_of t.new_sockets) (given_up (held t))
        (append-AllShut t.removed (shut_of t.new_sockets) shut (shut_of-AllShut t.new_sockets))
        (given_up-AllShut (held t) closes)
