-- ===== src/TaskScheduler/Context.antt =====
-- What a task asks for while it runs: class TaskContext of
-- src/common/Utilities/TaskScheduler.h and TaskScheduler.cpp.
pub mod Once
use warhead_discord.Prelude.{
  ℕ, ◌+◌, ◌%◌, ◌^◌, Bool, true, false, not, Option, none, some, List, [], ◌∷◌, map, ◌==◌,
  if◌then◌else◌, Result, err, ok, require, ◌>>=◌, ◌>>◌, aborted,
}
use warhead_discord.TaskScheduler.{
  Task, Scheduler, insert_task, schedule_at, schedule, async, cancel_all, cancel_group,
  cancel_groups_of, delay_all, delay_group, reschedule_all, reschedule_group,
}

-- The public operations of a scheduler that its callables may call. Where the source draws a
-- random duration, the number is the one that was drawn.
pub data Request (Callable : Type 0) : Type 0 where
  ask_schedule : ℕ → Option ℕ → Callable → Request Callable
  ask_async : Callable → Request Callable
  ask_cancel_all : Request Callable
  ask_cancel_group : ℕ → Request Callable
  ask_cancel_groups_of : List ℕ → Request Callable
  ask_delay_all : ℕ → Request Callable
  ask_delay_group : ℕ → ℕ → Request Callable
  ask_reschedule_all : ℕ → Request Callable
  ask_reschedule_group : ℕ → ℕ → Request Callable

-- The operations of a context. All but the first five hand a request on to the scheduler.
pub data Action (Callable : Type 0) : Type 0 where
  repeat_for : ℕ → Action Callable
  repeat : Action Callable
  set_group : ℕ → Action Callable
  clear_group : Action Callable
  schedule_after : ℕ → Option ℕ → Callable → Action Callable
  ask : Request Callable → Action Callable

pub record Context (Callable : Type 0) : Type 0 where
  pub task : Task Callable
  pub consumed : Bool

module _ {C : Type 0} where
  unfoldable pub repeated_task : ℕ → Task C → Task C
  repeated_task duration t = record t {
    duration = duration;
    end = t.end + duration;
    repeated = (t.repeated + 1) % 2 ^ 32;
  }

  unfoldable pub assert_on_consumed : Context C → Result (Unit {0})
  assert_on_consumed c = require (not c.consumed) aborted

  -- The context's task as the queue holds it, if it is in the queue.
  unfoldable pub shared : List (Task C) → Task C → Task C
  shared [] t = t
  shared (u ∷ us) t = let rest = shared us t in if u.key == t.key then u else rest

  unfoldable pub regroup : ℕ → Option ℕ → Task C → Task C
  regroup key group u = if u.key == key then record u { group = group } else u

module _ {C W : Type 0} where
  unfoldable pub fulfil : Request C → Scheduler C W → Scheduler C W
  unfolding schedule async cancel_all cancel_group cancel_groups_of delay_all delay_group
      reschedule_all reschedule_group
  fulfil (ask_schedule time group callable) s = schedule time group callable s
  fulfil (ask_async callable) s = async callable s
  fulfil ask_cancel_all s = cancel_all s
  fulfil (ask_cancel_group group) s = cancel_group group s
  fulfil (ask_cancel_groups_of groups) s = cancel_groups_of groups s
  fulfil (ask_delay_all duration) s = delay_all duration s
  fulfil (ask_delay_group group duration) s = delay_group group duration s
  fulfil (ask_reschedule_all duration) s = reschedule_all duration s
  fulfil (ask_reschedule_group group duration) s = reschedule_group group duration s

  unfoldable pub fulfil_all : List (Request C) → Scheduler C W → Scheduler C W
  unfolding fulfil
  fulfil_all [] s = s
  fulfil_all (request ∷ requests) s = fulfil_all requests (fulfil request s)

  unfoldable pub repeat_with : ℕ → Context C → Scheduler C W → Result (Context C × Scheduler C W)
  unfolding assert_on_consumed repeated_task insert_task
  repeat_with duration c s =
      let t = repeated_task duration c.task in
      assert_on_consumed c >> ok (record { task = t; consumed = true }, insert_task t s)

  unfoldable pub put_group : Option ℕ → Context C → Scheduler C W → Context C × Scheduler C W
  unfolding regroup
  put_group group c s = (
    record c { task = record c.task { group = group } },
    record s { task_holder = map (regroup c.task.key group) s.task_holder },
  )

  unfoldable pub act : Action C → Context C → Scheduler C W → Result (Context C × Scheduler C W)
  unfolding repeat_with put_group schedule_at fulfil shared
  act (repeat_for duration) c s = repeat_with duration c s
  act repeat c s = repeat_with c.task.duration c s
  act (set_group group) c s = ok (put_group (some group) c s)
  act clear_group c s = ok (put_group none c s)
  act (schedule_after time group callable) c s =
      ok (c, schedule_at c.task.end time group callable s)
  act (ask request) c s =
      let after = fulfil request s in
      ok (record c { task = shared after.task_holder c.task }, after)

  unfoldable pub act_all :
      List (Action C) → Context C → Scheduler C W → Result (Context C × Scheduler C W)
  unfolding act
  act_all [] c s = ok (c, s)
  act_all (action ∷ actions) c s = act action c s >>= λ (c', s'). act_all actions c' s'
