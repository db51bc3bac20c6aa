-- ===== src/TaskScheduler/Periods.antt =====
-- The tasks of the server's own scheduler: Discord::SetInitialDiscordSettings and Discord::Update of
-- src/server/Discord/Discord.cpp, as far as they concern src/common/Utilities/TaskScheduler.h.
pub mod Tasks
pub mod Both
pub mod Rounds
use warhead_discord.Prelude.{
  ℕ, zero, suc, ◌+◌, ◌-◌, ◌*◌, ◌/◌, ◌%◌, ◌^◌, ◌≤◌, ◌<◌, ◌≡◌, refl, ap, ap₂, sym, ◌∙◌, subst, Bool,
  true, false, not, none, some, ok, Result, List, [], ◌∷◌, map, inl, inr, ◌⊎◌, Bool-cases, arith,
  ltb, leb, lt→ltb, le→ltb, if◌then◌else◌,
}
use warhead_discord.TaskScheduler.{
  Task, Scheduler, empty_validator, push, new_scheduler, schedule, schedule_at, insert_task,
}
use warhead_discord.TaskScheduler.Context.{
  Action, repeat_for, repeat, Request, act_all, act, repeat_with, repeated_task, assert_on_consumed,
  fulfil_all,
}
use warhead_discord.TaskScheduler.Dispatch.{
  Callbacks, Outcome, completed, and_then, go_on, invoke, process_asyncs, run_tasks, finish,
  dispatch, empty_callback, update_by,
}

-- The ping that keeps the connection to the database alive, and the report of the time
-- differences.
pub data ServerTask : Type 0 where
  keep_alive time_diff : ServerTask

-- How often each of them has run.
pub record Counts : Type 0 where
  pub pings : ℕ
  pub reports : ℕ

unfoldable pub on_server_task : ServerTask → Counts → List (Action ServerTask) × Counts
on_server_task keep_alive c = (repeat ∷ [], record c { pings = suc c.pings })
on_server_task time_diff c = (repeat_for 300000 ∷ [], record c { reports = suc c.reports })

unfoldable pub server_calls : Callbacks ServerTask Counts
unfolding on_server_task
server_calls = record {
  on_task = λ t c. on_server_task t.callable c;
  on_async = λ callable c. ([], c);
}

unfoldable pub set_initial_tasks : Scheduler ServerTask Counts → Scheduler ServerTask Counts
unfolding schedule
set_initial_tasks s = schedule 15000 none time_diff (schedule 1800000 none keep_alive s)

-- The rounds of the server, by the difference of time that each hands on.
unfoldable pub update_rounds :
    ℕ → List ℕ → Scheduler ServerTask Counts → Counts → Outcome ServerTask Counts
unfolding update_by server_calls
update_rounds fuel [] s c = completed s c
update_rounds fuel (diff ∷ diffs) s c =
    and_then (update_by server_calls fuel diff empty_callback s c) (update_rounds fuel diffs)

abbrev pub sum : List ℕ → ℕ
sum [] = 0
sum (n ∷ ns) = n + sum ns

-- No step of the clock is longer than that.
abbrev pub AllWithin : ℕ → List ℕ → Type 0
AllWithin limit [] = Unit {0}
AllWithin limit (n ∷ ns) = (n ≤ limit) × AllWithin limit ns
