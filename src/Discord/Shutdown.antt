-- ===== src/Discord/Shutdown.antt =====
-- The shutdown timer over the rounds of the server.
use warhead_discord.Prelude.{
  ℕ, ◌+◌, ◌-◌, ◌≤◌, ◌<◌, ◌≡◌, refl, sym, ap, subst, ◌∙◌, true, false, not, ◌&&◌, inl, inr,
  Bool-cases, List, [], ◌∷◌, arith, ltb, leb, ◌==◌, if◌then◌else◌,
}
use warhead_discord.Discord.{
  Discord, active_session_count, update_game_time, shutdown_cancel, shutdown_exit_code,
}

-- The rounds of the server, as far as they concern the time.
unfoldable pub ticks : List ℕ → Discord → Discord
unfolding update_game_time
ticks [] d = d
ticks (now ∷ later) d = ticks later (update_game_time now d)

-- The readings of a clock that is not set back, from `t` on, and the last of them.
abbrev pub IsClock : ℕ → List ℕ → Type 0
IsClock t [] = Unit {0}
IsClock t (now ∷ later) = (t ≤ now) × IsClock now later

abbrev pub last_of : ℕ → List ℕ → ℕ
last_of t [] = t
last_of t (now ∷ later) = last_of now later

last_of-le : (t : ℕ) (times : List ℕ) → IsClock t times → t ≤ last_of t times
last_of-le t [] c = omega arith
last_of-le t (now ∷ later) (le, c) = omega (arith, last_of-le now later c)

-- One round: of a stopped server, of one whose time is over, and of one that has time left.
tick_stopped :
    (now : ℕ) (d : Discord)
    → d.stop_event ≡ true
    → ((update_game_time now d).stop_event ≡ true)
      × ((update_game_time now d).exit_code ≡ d.exit_code)
unfolding update_game_time
tick_stopped now d stopped = (ground (arith, stopped), ground (arith, stopped))

tick_over :
    (now : ℕ) (d : Discord)
    → d.stop_event ≡ false
    → 0 < d.shutdown_timer
    → d.shutdown_timer + d.game_time ≤ now
    → ((update_game_time now d).stop_event ≡ true)
      × ((update_game_time now d).exit_code ≡ d.exit_code)
unfolding update_game_time
tick_over now d running timer over = (ground arith, ground arith)

tick_running :
    (now : ℕ) (d : Discord)
    → d.stop_event ≡ false
    → 0 < d.shutdown_timer
    → d.game_time ≤ now
    → now < d.shutdown_timer + d.game_time
    → (update_game_time now d).stop_event ≡ false
      × (update_game_time now d).exit_code ≡ d.exit_code
      × (update_game_time now d).game_time ≡ now
      × (update_game_time now d).shutdown_timer ≡ d.shutdown_timer - (now - d.game_time)
unfolding update_game_time
tick_running now d running timer le left = (ground arith, ground arith, ground arith, ground arith)

-- A stopped server stays stopped, with its exit code.
ticks-stopped :
    (times : List ℕ) (d : Discord)
    → d.stop_event ≡ true
    → ((ticks times d).stop_event ≡ true) × ((ticks times d).exit_code ≡ d.exit_code)
unfolding ticks
ticks-stopped [] d stopped = (stopped, refl)
ticks-stopped (now ∷ later) d stopped =
    let (still, code) = tick_stopped now d stopped in
    let (s, c) = ticks-stopped later (update_game_time now d) still in (s, c ∙ code)

-- While a shutdown is planned and the clock is not set back, the rounds stop the server exactly
-- when the time that passed since the last round before them, all rounds together, has reached the
-- timer, however it was cut into rounds; they leave the exit code as it was.
pub ticks-stop_event :
    (times : List ℕ) (d : Discord)
    → d.stop_event ≡ false
    → 0 < d.shutdown_timer
    → IsClock d.game_time times
    → ((ticks times d).stop_event ≡ leb d.shutdown_timer (last_of d.game_time times - d.game_time))
      × ((ticks times d).exit_code ≡ d.exit_code)
unfolding ticks
ticks-stop_event [] d running timer c = (ground arith, refl)
ticks-stop_event (now ∷ later) d running timer (le, c) =
    let behind = last_of-le now later c in
    elim (Bool-cases (leb (d.shutdown_timer + d.game_time) now)) [
      | inl over ↦
          let (stopped, code) = tick_over now d running timer (ground arith) in
          let (s, k) = ticks-stopped later (update_game_time now d) stopped in
          (s ∙ ground arith, k ∙ code)
      | inr left ↦
          let before : now < d.shutdown_timer + d.game_time = ground arith in
          let (still, code, time, rest) = tick_running now d running timer le before in
          let t = update_game_time now d in
          let (s, k) =
            ticks-stop_event later t still (omega (arith, rest, before))
              (subst (λ g. IsClock g later) (sym time) c) in
          let same : last_of t.game_time later ≡ last_of now later =
            ap (λ g. last_of g later) time in
          (s ∙ ground (arith, rest, time, same, before, behind), k ∙ code)
    ]

-- The delay that a shutdown gets: two seconds at least while there are sessions.
abbrev pub grace : ℕ → Discord → ℕ
grace time d = if ltb time 2 && not (active_session_count d == 0) then 2 else time

tick_idle :
    (now : ℕ) (d : Discord)
    → d.shutdown_timer ≡ 0
    → update_game_time now d ≡ record d { game_time = now }
unfolding update_game_time
tick_idle now d idle = ground arith

ticks_idle :
    (times : List ℕ) (d : Discord)
    → d.shutdown_timer ≡ 0
    → ((ticks times d).stop_event ≡ d.stop_event) × ((ticks times d).exit_code ≡ d.exit_code)
unfolding ticks
ticks_idle [] d idle = (refl, refl)
ticks_idle (now ∷ later) d idle =
    let (s, e) = ticks_idle later (record d { game_time = now }) idle in
    rw (ticks, tick_idle now d idle) (s, e)

cancelled :
    (d : Discord)
    → d.stop_event ≡ false
    → 0 < d.shutdown_timer
    → shutdown_cancel d ≡ record d { shutdown_timer = 0; exit_code = shutdown_exit_code }
unfolding shutdown_cancel
cancelled d running planned = ground arith

-- A planned shutdown that is cancelled never stops the server, whatever the clock shows from then
-- on, and the exit code is the default again.
pub shutdown_cancel-ticks :
    (times : List ℕ) (d : Discord)
    → d.stop_event ≡ false
    → 0 < d.shutdown_timer
    → ((ticks times (shutdown_cancel d)).stop_event ≡ false)
      × ((ticks times (shutdown_cancel d)).exit_code ≡ shutdown_exit_code)
shutdown_cancel-ticks times d running planned =
    let off = record d { shutdown_timer = 0; exit_code = shutdown_exit_code } in
    let (s, e) = ticks_idle times off refl in rw (cancelled d running planned) (s ∙ running, e)
