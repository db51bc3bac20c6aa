-- ===== src/TaskScheduler/Periods/Rounds.antt =====
-- The server's scheduled tasks over its rounds: Discord::Update of src/server/Discord/Discord.cpp.
use warhead_discord.Prelude.{
  ℕ, ◌+◌, ◌*◌, ◌/◌, ◌≤◌, ◌≡◌, refl, ap, ap₂, sym, ◌∙◌, subst, Bool, false, List, [], ◌∷◌, arith,
  lt→ltb,
}
use warhead_discord.TaskScheduler.{
  Scheduler, empty_validator, push, new_scheduler, schedule, schedule_at, insert_task,
}
use warhead_discord.TaskScheduler.Context.{fulfil_all}
use warhead_discord.TaskScheduler.Dispatch.{
  completed, and_then, process_asyncs, finish, dispatch, empty_callback, update_by,
}
use warhead_discord.TaskScheduler.Periods.{
  ServerTask, Counts, server_calls, set_initial_tasks, update_rounds, sum, AllWithin,
}
use warhead_discord.TaskScheduler.Periods.Tasks.{keep_task, diff_task, both, server_at, counts}
use warhead_discord.TaskScheduler.Periods.Both.{InOrder, NoneEarly, NoneLate, CatchesUp, run_both}

-- One round.
update_both :
    (fuel diff start now a b : ℕ) (order : Bool)
    → InOrder order start a b
    → NoneEarly start now a b
    → NoneLate start now a b
    → diff + diff ≤ fuel
    → CatchesUp start (now + diff) (
        update_by server_calls fuel diff empty_callback
          (server_at now (both order start a b))
          (counts a b))
unfolding update_by dispatch process_asyncs finish fulfil_all
update_both fuel diff start now a b order o (ea, eb) (la, lb) le =
    let (a', b', order', e, o', early', late') =
      run_both fuel start (now + diff) a b order o (omega arith, omega arith) (omega arith) in
    (a', b', order', ap (λ outcome. and_then outcome (finish empty_callback)) e, o', early', late')

update_rounds-both :
    (fuel : ℕ) (diffs : List ℕ) (start now a b : ℕ) (order : Bool)
    → InOrder order start a b
    → NoneEarly start now a b
    → NoneLate start now a b
    → AllWithin (fuel / 2) diffs
    → CatchesUp start
        (now + sum diffs)
        (update_rounds fuel diffs (server_at now (both order start a b)) (counts a b))
unfolding update_rounds
update_rounds-both fuel [] start now a b order o early late all =
    let same : now ≡ now + sum [] = omega arith in
    subst (λ t. CatchesUp start t (completed (server_at now (both order start a b)) (counts a b)))
      same (a, b, order, refl, o, early, late)
update_rounds-both fuel (diff ∷ diffs) start now a b order o early late (le, all) =
    let (a', b', order', e, o', early', late') =
      update_both fuel diff start now a b order o early late (omega arith) in
    let same : now + diff + sum diffs ≡ now + sum (diff ∷ diffs) = omega arith in
    let rest = update_rounds-both fuel diffs start (now + diff) a' b' order' o' early' late' all in
    subst
      (λ outcome.
        CatchesUp start (now + sum (diff ∷ diffs)) (and_then outcome (update_rounds fuel diffs)))
      (sym e)
      (subst
        (λ t. CatchesUp start t (
          update_rounds fuel diffs (server_at (now + diff) (both order' start a' b'))
            (counts a' b')))
        same rest)

initial_tasks :
    (start : ℕ)
    → set_initial_tasks (new_scheduler empty_validator start)
      ≡ server_at start (both false start 0 0)
unfolding set_initial_tasks new_scheduler schedule schedule_at insert_task push
initial_tasks start =
    let sooner = lt→ltb (start + 15000) (start + 1800000) (omega arith) in
    let due : start + 15000 ≡ start + 15000 + 300000 * 0 = omega arith in
    rw (set_initial_tasks, schedule, schedule_at, insert_task, push, sooner)
      (ap (λ e. server_at start (record (diff_task start 0) { end = e } ∷ keep_task start 0 ∷ []))
        due)

-- After any rounds of the server, of whatever lengths up to half the fuel, the ping has run once
-- for every full half hour since the start, and the report once after 15 seconds and then once for
-- every full five minutes: what a round is late for one call is not lost for the next, and a round
-- that is longer than a period makes up for the calls it missed.
pub update_rounds-counts :
    (fuel start : ℕ) (diffs : List ℕ)
    → AllWithin (fuel / 2) diffs
    → (s : Scheduler ServerTask Counts) × (update_rounds fuel diffs
          (set_initial_tasks (new_scheduler empty_validator start))
          (record { pings = 0; reports = 0 })
        ≡ completed s
            (record { pings = sum diffs / 1800000; reports = (sum diffs + 285000) / 300000 }))
      × (s.now ≡ start + sum diffs)
update_rounds-counts fuel start diffs all =
    let (a, b, order, e, o, (ea, eb), (la, lb)) =
      update_rounds-both fuel diffs start start 0 0 false (omega arith) (omega arith, omega arith)
        (omega arith, omega arith) all in
    let pings : a ≡ sum diffs / 1800000 = omega arith in
    let reports : b ≡ (sum diffs + 285000) / 300000 = omega arith in
    (
      server_at (start + sum diffs) (both order start a b),
      rw initial_tasks (
          e
          ∙ ap₂
              (λ p r. completed (server_at (start + sum diffs) (both order start a b)) (counts p r))
              pings reports),
      refl,
    )
