-- ===== src/Examples/Schedules.antt =====
-- The scheduler at work: src/common/Utilities/TaskScheduler.cpp, with the tasks of
-- src/server/Discord/Discord.cpp.
use mathlib.Core.List.{Perm}
use warhead_discord.Prelude.{◌≡◌, refl, false, none, some, [], ◌∷◌, arith, aborted, fault}
use warhead_discord.TaskScheduler.{
  Task, Scheduler, empty_validator, remove_if, new_scheduler, cancel_groups_of, delay_group,
  reschedule_group,
}
use warhead_discord.TaskScheduler.Context.{ask_cancel_all, ask_async, repeat, repeat_for}
use warhead_discord.TaskScheduler.Context.Once.{failure, invoke-failure}
use warhead_discord.TaskScheduler.Dispatch.{
  Callbacks, completed, failed, invoke, run_tasks, dispatch, empty_callback,
}
use warhead_discord.TaskScheduler.Dispatch.Callables.{dispatch-cancel_all}
use warhead_discord.TaskScheduler.Ending.{MovesOn}
use warhead_discord.TaskScheduler.Ending.Completed.{run_tasks-completed}
use warhead_discord.TaskScheduler.Ending.Enough.{IsSteady, ran_out}
use warhead_discord.TaskScheduler.Ending.Whole.{IsQuiet, dispatch-ran_out}
use warhead_discord.TaskScheduler.Groups.{
  cancel_groups_of-task_holder, delay_group-reschedule_group,
}
use warhead_discord.TaskScheduler.Order.{IsFrom}
use warhead_discord.TaskScheduler.Order.Runs.{RunsOrdered}
use warhead_discord.TaskScheduler.Periods.{
  ServerTask, keep_alive, time_diff, Counts, on_server_task, server_calls, set_initial_tasks,
  update_rounds,
}
use warhead_discord.TaskScheduler.Periods.Rounds.{update_rounds-counts}

abbrev none_yet : Counts
none_yet = record { pings = 0; reports = 0 }

abbrev ping : Task ServerTask
ping = record {
  key = 0;
  end = 1800000;
  duration = 1800000;
  group = some 7;
  repeated = 0;
  callable = keep_alive;
}

abbrev report : Task ServerTask
report = record {
  key = 1;
  end = 15000;
  duration = 15000;
  group = none;
  repeated = 0;
  callable = time_diff;
}

-- A server whose report is due.
abbrev at_first_report : Scheduler ServerTask Counts
at_first_report = record {
  now = 15000;
  task_holder = report ∷ ping ∷ [];
  async_holder = [];
  predicate = empty_validator;
  next_key = 2;
}

on_server_task-MovesOn :
    (callable : ServerTask) (c : Counts) → MovesOn 1 (on_server_task callable c).0
unfolding on_server_task
on_server_task-MovesOn keep_alive c = (omega arith, tt)
on_server_task-MovesOn time_diff c = (omega arith, omega arith, tt)

server_calls-IsSteady : IsSteady 1 server_calls
unfolding server_calls
server_calls-IsSteady t c p = on_server_task-MovesOn t.callable c

server_calls-IsQuiet : IsQuiet server_calls
unfolding server_calls
server_calls-IsQuiet callable world = tt

run_tasks-completed_example :
    (s' : Scheduler ServerTask Counts) × (c' : Counts) × (run_tasks server_calls 1
        (report ∷ ping ∷ [])
        at_first_report
        none_yet
      ≡ completed s' c')
    × RunsOrdered server_calls 0 at_first_report none_yet s' c'
run_tasks-completed_example =
    run_tasks-completed server_calls 1 at_first_report none_yet server_calls-IsSteady refl
      (omega arith, (omega arith, tt)) ((omega arith, (omega arith, tt)), omega arith)

dispatch-ran_out_example :
    ran_out (dispatch server_calls 1 empty_callback at_first_report none_yet) ≡ false
dispatch-ran_out_example =
    dispatch-ran_out server_calls 1 1 empty_callback at_first_report none_yet server_calls-IsSteady
      server_calls-IsQuiet (omega arith, (omega arith, tt))
      ((omega arith, (omega arith, tt)), omega arith) (omega arith)

update_rounds-counts_example :
    (s : Scheduler ServerTask Counts) × (update_rounds 2000000
        (1000000 ∷ 900000 ∷ [])
        (set_initial_tasks (new_scheduler empty_validator 50))
        none_yet
      ≡ completed s (record { pings = 1; reports = 7 }))
    × (s.now ≡ 1900050)
update_rounds-counts_example =
    update_rounds-counts 2000000 50 (1000000 ∷ 900000 ∷ []) (omega arith, (omega arith, tt))

-- A handler that repeats its task twice.
abbrev repeats_twice : Callbacks ServerTask Counts
repeats_twice = record {
  on_task = λ t c. (repeat ∷ repeat_for 5 ∷ [], c);
  on_async = λ callable c. ([], c);
}

invoke-failure_example :
    failure (invoke repeats_twice report at_first_report none_yet) ≡ some aborted
invoke-failure_example = invoke-failure repeats_twice report at_first_report none_yet

cancel_groups_of-task_holder_example :
    cancel_groups_of (3 ∷ 7 ∷ []) at_first_report
    ≡ record at_first_report { task_holder = report ∷ [] }
unfolding remove_if
cancel_groups_of-task_holder_example = cancel_groups_of-task_holder (3 ∷ 7 ∷ []) at_first_report

delay_group-reschedule_group_example :
    Perm
      (delay_group 7 100 at_first_report).task_holder
      (report ∷ record ping { end = 1800100 } ∷ [])
    × IsFrom 0 (delay_group 7 100 at_first_report).task_holder
    × Perm
        (reschedule_group 7 100 at_first_report).task_holder
        (report ∷ record ping { end = 15100 } ∷ [])
    × IsFrom 0 (reschedule_group 7 100 at_first_report).task_holder
delay_group-reschedule_group_example =
    delay_group-reschedule_group 0 7 100 at_first_report (omega arith)
      (omega arith, (omega arith, tt))

-- A callable that cancels everything.
abbrev cancels_all : Callbacks ServerTask Counts
cancels_all = record {
  on_task = λ t c. ([], c);
  on_async = λ callable c. (ask_async callable ∷ ask_cancel_all ∷ [], c);
}

dispatch-cancel_all_example :
    dispatch cancels_all 5 empty_callback
      (record at_first_report { async_holder = keep_alive ∷ time_diff ∷ [] })
      none_yet
    ≡ failed fault
dispatch-cancel_all_example =
    dispatch-cancel_all cancels_all 4 empty_callback keep_alive (time_diff ∷ [])
      (ask_async keep_alive ∷ [])
      (record at_first_report { async_holder = keep_alive ∷ time_diff ∷ [] }) none_yet refl refl
      refl
