-- ===== src/TaskScheduler/Dispatch.antt =====
-- The update of a scheduler: TaskScheduler::Update and TaskScheduler::Dispatch of
-- src/common/Utilities/TaskScheduler.h and TaskScheduler.cpp, with TaskContext::Invoke.
pub mod Callables
use warhead_discord.Prelude.{
  ℕ, zero, suc, ◌+◌, Bool, true, false, List, [], ◌∷◌, ltb, if◌then◌else◌, Error, Result, err, ok,
  ◌>>=◌, fault,
}
use warhead_discord.TaskScheduler.{Task, Scheduler}
use warhead_discord.TaskScheduler.Context.{Request, Action, Context, fulfil_all, act_all}

-- What a call of a callable does: it changes the world, and asks the scheduler for something. The
-- call for a task sees the task, with its repeat counter and its group.
pub record Callbacks (Callable World : Type 0) : Type 0 where
  pub on_task : Task Callable → World → List (Action Callable) × World
  pub on_async : Callable → World → List (Request Callable) × World

-- `completed` reached the final callback, and `invalidated` was stopped by the validator.
pub data Outcome (Callable World : Type 0) : Type 0 where
  completed invalidated : Scheduler Callable World → World → Outcome Callable World
  failed : Error → Outcome Callable World
  out_of_fuel : Outcome Callable World

module _ {C W : Type 0} where
  unfoldable pub invoke : Callbacks C W → Task C → Scheduler C W → W → Result (Scheduler C W × W)
  unfolding act_all
  invoke calls t s world =
      let (actions, after) = calls.on_task t world in
      act_all actions (record { task = t; consumed = false }) s >>= λ (c, s'). ok (s', after)

  -- `pop` of an empty queue is left undefined.
  unfoldable pub pop_async : List C → Scheduler C W → Result (Scheduler C W)
  pop_async [] s = err fault
  pop_async (callable ∷ later) s = ok (record s { async_holder = later })

  -- Behind every callable the validator is asked whether the dispatching may go on.
  abbrev pub go_on : Result (Scheduler C W × W) → (Scheduler C W → W → Outcome C W) → Outcome C W
  go_on (err e) rest = failed e
  go_on (ok (s, world)) rest =
      let outcome = rest s world in if s.predicate world then outcome else invalidated s world

  -- The callable stays the front of its queue while it runs.
  unfoldable pub run_async : Callbacks C W → C → Scheduler C W → W → Result (Scheduler C W × W)
  unfolding fulfil_all pop_async
  run_async calls callable s world =
      let (requests, after) = calls.on_async callable world in
      let s' = fulfil_all requests s in pop_async s'.async_holder s' >>= λ s''. ok (s'', after)

  unfoldable pub process_asyncs : Callbacks C W → ℕ → List C → Scheduler C W → W → Outcome C W
  unfolding run_async
  process_asyncs calls fuel [] s world = completed s world
  process_asyncs calls zero (callable ∷ later) s world = out_of_fuel
  process_asyncs calls (suc fuel) (callable ∷ later) s world =
      go_on (run_async calls callable s world)
        λ s' after. process_asyncs calls fuel s'.async_holder s' after

  unfoldable pub run_tasks : Callbacks C W → ℕ → List (Task C) → Scheduler C W → W → Outcome C W
  unfolding invoke
  run_tasks calls fuel [] s world = completed s world
  run_tasks calls zero (t ∷ later) s world =
      if ltb s.now t.end then completed s world else out_of_fuel
  run_tasks calls (suc fuel) (t ∷ later) s world = elim (ltb s.now t.end) [
    | true ↦ completed s world
    | false ↦
        go_on (invoke calls t (record s { task_holder = later }) world)
          λ s' after. run_tasks calls fuel s'.task_holder s' after
  ]

  unfoldable pub finish : (W → List (Request C) × W) → Scheduler C W → W → Outcome C W
  unfolding fulfil_all
  finish callback s world =
      let (requests, after) = callback world in completed (fulfil_all requests s) after

  abbrev pub and_then : Outcome C W → (Scheduler C W → W → Outcome C W) → Outcome C W
  and_then (completed s world) rest = rest s world
  and_then (invalidated s world) rest = invalidated s world
  and_then (failed e) rest = failed e
  and_then out_of_fuel rest = out_of_fuel

  -- The fuel is one step for every callable, and one for every task.
  unfoldable pub dispatch :
      Callbacks C W → ℕ → (W → List (Request C) × W) → Scheduler C W → W → Outcome C W
  unfolding process_asyncs run_tasks finish
  dispatch calls fuel callback s world = elim (s.predicate world) [
    | false ↦ invalidated s world
    | true ↦
        and_then
          (and_then (process_asyncs calls fuel s.async_holder s world)
            λ s' after. run_tasks calls fuel s'.task_holder s' after)
          (finish callback)
  ]

  abbrev pub empty_callback : W → List (Request C) × W
  empty_callback world = ([], world)

  -- The update by a difference of time, and the one by the clock.
  unfoldable pub update_by :
      Callbacks C W → ℕ → ℕ → (W → List (Request C) × W) → Scheduler C W → W → Outcome C W
  unfolding dispatch
  update_by calls fuel difftime callback s world =
      dispatch calls fuel callback (record s { now = s.now + difftime }) world

  unfoldable pub update_to :
      Callbacks C W → ℕ → ℕ → (W → List (Request C) × W) → Scheduler C W → W → Outcome C W
  unfolding dispatch
  update_to calls fuel clock callback s world =
      dispatch calls fuel callback (record s { now = clock }) world
