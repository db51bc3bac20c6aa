-- ===== src/TaskScheduler/Periods/Tasks.antt =====
-- The two tasks of the server's scheduler, of src/server/Discord/Discord.cpp, at any time of its life,
-- and one call for each.
use warhead_discord.Prelude.{
  ℕ, zero, suc, ◌+◌, ◌*◌, ◌%◌, ◌^◌, ◌≡◌, ap, ap₂, Bool, true, false, none, ok, List, [], ◌∷◌, arith,
}
use warhead_discord.TaskScheduler.{Task, Scheduler, empty_validator, push, insert_task}
use warhead_discord.TaskScheduler.Context.{
  act_all, act, repeat_with, repeated_task, assert_on_consumed,
}
use warhead_discord.TaskScheduler.Dispatch.{invoke}
use warhead_discord.TaskScheduler.Periods.{
  ServerTask, keep_alive, time_diff, Counts, on_server_task, server_calls,
}

-- The two tasks of a server that was started at `start`, when they have run so often.
abbrev pub keep_task : ℕ → ℕ → Task ServerTask
keep_task start n = record {
  key = 0;
  end = start + 1800000 * suc n;
  duration = 1800000;
  group = none;
  repeated = n % 2 ^ 32;
  callable = keep_alive;
}

abbrev pub diff_duration : ℕ → ℕ
diff_duration zero = 15000
diff_duration (suc n) = 300000

abbrev pub diff_task : ℕ → ℕ → Task ServerTask
diff_task start n = record {
  key = 1;
  end = start + 15000 + 300000 * n;
  duration = diff_duration n;
  group = none;
  repeated = n % 2 ^ 32;
  callable = time_diff;
}

abbrev pub both : Bool → ℕ → ℕ → ℕ → List (Task ServerTask)
both true start a b = keep_task start a ∷ diff_task start b ∷ []
both false start a b = diff_task start b ∷ keep_task start a ∷ []

abbrev pub server_at : ℕ → List (Task ServerTask) → Scheduler ServerTask Counts
server_at now queue = record {
  now = now;
  task_holder = queue;
  async_holder = [];
  predicate = empty_validator;
  next_key = 2;
}

abbrev pub counts : ℕ → ℕ → Counts
counts a b = record { pings = a; reports = b }

pub keep_repeated :
    (start n : ℕ) → repeated_task 1800000 (keep_task start n) ≡ keep_task start (suc n)
unfolding repeated_task
keep_repeated start n =
    ap₂ (λ e r. record (keep_task start (suc n)) { end = e; repeated = r }) (omega arith)
      (omega arith)

pub diff_repeated :
    (start n : ℕ) → repeated_task 300000 (diff_task start n) ≡ diff_task start (suc n)
unfolding repeated_task
diff_repeated start n =
    ap₂ (λ e r. record (diff_task start (suc n)) { end = e; repeated = r }) (omega arith)
      (omega arith)

pub keep_invoked :
    (now start a b : ℕ)
    → invoke server_calls (keep_task start a) (server_at now (diff_task start b ∷ [])) (counts a b)
      ≡ ok (
        server_at now (push (keep_task start (suc a)) (diff_task start b ∷ [])),
        counts (suc a) b,
      )
unfolding invoke server_calls on_server_task act_all act repeat_with assert_on_consumed insert_task
keep_invoked now start a b =
    ap (λ t. ok (server_at now (push t (diff_task start b ∷ [])), counts (suc a) b))
      (keep_repeated start a)

pub diff_invoked :
    (now start a b : ℕ)
    → invoke server_calls (diff_task start b) (server_at now (keep_task start a ∷ [])) (counts a b)
      ≡ ok (
        server_at now (push (diff_task start (suc b)) (keep_task start a ∷ [])),
        counts a (suc b),
      )
unfolding invoke server_calls on_server_task act_all act repeat_with assert_on_consumed insert_task
diff_invoked now start a b =
    ap (λ t. ok (server_at now (push t (keep_task start a ∷ [])), counts a (suc b)))
      (diff_repeated start b)
