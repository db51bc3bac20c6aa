-- ===== src/TaskScheduler/Ending/Whole.antt =====
-- The fuel that is enough for all of TaskScheduler::Dispatch, its callables included, of src/common/Utilities/TaskScheduler.cpp.
use warhead_discord.Prelude.{
  ℕ, zero, suc, ◌≤◌, ◌≡◌, refl, ap, sym, subst, ◌∙◌, Bool, true, false, List, [], ◌∷◌, inl, inr,
  Bool-cases, arith, length, Result, err, ok, OnOk, OnOk-bind,
}
use warhead_discord.TaskScheduler.{
  Scheduler, schedule, schedule_at, insert_task, cancel_all, cancel_group, cancel_groups_of,
  delay_all, delay_group, reschedule_all, reschedule_group,
}
use warhead_discord.TaskScheduler.Context.{
  Request, ask_schedule, ask_async, ask_cancel_all, ask_cancel_group, ask_cancel_groups_of,
  ask_delay_all, ask_delay_group, ask_reschedule_all, ask_reschedule_group, fulfil, fulfil_all,
}
use warhead_discord.TaskScheduler.Dispatch.{
  Callbacks, Outcome, completed, invalidated, failed, out_of_fuel, and_then, go_on, pop_async,
  run_async, process_asyncs, run_tasks, finish, dispatch,
}
use warhead_discord.TaskScheduler.Order.{IsFrom}
use warhead_discord.TaskScheduler.Order.Actions.{fulfil-Holds, fulfil-now}
use warhead_discord.TaskScheduler.Order.Runs.{OnCompleted, OnCompleted-map}
use warhead_discord.TaskScheduler.Ending.{Postpones, Bounded, fulfil-Bounded}
use warhead_discord.TaskScheduler.Ending.Enough.{IsSteady, ran_out, Left, run_tasks_enough}

module _ {C : Type 0} where
  abbrev pub is_async : Request C → Bool
  is_async (ask_async callable) = true
  is_async _ = false

  -- Requests that put nothing into the queue of callables, and no task where its time has come.
  abbrev pub AreQuiet : List (Request C) → Type 0
  AreQuiet [] = Unit {0}
  AreQuiet (request ∷ requests) = (is_async request ≡ false) × Postpones request × AreQuiet requests

module _ {C W : Type 0} where
  -- The callables keep to such requests.
  abbrev pub IsQuiet : Callbacks C W → Type 0
  IsQuiet calls = (callable : C) (world : W) → AreQuiet (calls.on_async callable world).0

  cancel_groups_of-asyncs :
      (groups : List ℕ) (s : Scheduler C W)
      → (cancel_groups_of groups s).async_holder ≡ s.async_holder
  unfolding cancel_groups_of cancel_group
  cancel_groups_of-asyncs [] s = refl
  cancel_groups_of-asyncs (group ∷ groups) s = cancel_groups_of-asyncs groups (cancel_group group s)

  fulfil-asyncs :
      (request : Request C) (s : Scheduler C W)
      → is_async request ≡ false
      → length (fulfil request s).async_holder ≤ length s.async_holder
  unfolding fulfil schedule schedule_at insert_task cancel_all cancel_group delay_all delay_group
      reschedule_all reschedule_group
  fulfil-asyncs (ask_schedule time group callable) s quiet = omega arith
  fulfil-asyncs (ask_async callable) s quiet = absurd (cc)
  fulfil-asyncs ask_cancel_all s quiet = omega arith
  fulfil-asyncs (ask_cancel_group group) s quiet = omega arith
  fulfil-asyncs (ask_cancel_groups_of groups) s quiet =
      omega (arith, ap length (cancel_groups_of-asyncs groups s))
  fulfil-asyncs (ask_delay_all duration) s quiet = omega arith
  fulfil-asyncs (ask_delay_group group duration) s quiet = omega arith
  fulfil-asyncs (ask_reschedule_all duration) s quiet = omega arith
  fulfil-asyncs (ask_reschedule_group group duration) s quiet = omega arith

  -- What the requests of one callable leave: `m` bounds the queue of callables.
  abbrev Behind : ℕ → ℕ → ℕ → ℕ → Scheduler C W × W → Type 0
  Behind k now n m (s, world) = Left k now n (s, world) × (length s.async_holder ≤ m)

  fulfil_all-Behind :
      (k now n m : ℕ) (requests : List (Request C)) (s : Scheduler C W) (world : W)
      → AreQuiet requests
      → Behind k now n m (s, world)
      → Behind k now n m (fulfil_all requests s, world)
  unfolding fulfil_all
  fulfil_all-Behind k now n m [] s world quiet h = h
  fulfil_all-Behind k now n m (r ∷ rs) s world (sync, later, quiet) ((f, h, same), le) =
      let f' =
        subst (λ t. Bounded k t n (fulfil r s).task_holder) same
          (fulfil-Bounded k n r s later (subst (λ t. Bounded k t n s.task_holder) (sym same) f)) in
      let shorter = fulfil-asyncs r s sync in
      fulfil_all-Behind k now n m rs (fulfil r s) world quiet
        ((f', fulfil-Holds 0 r s h, fulfil-now r s ∙ same), omega (arith, shorter, le))

  pop_async-Behind :
      (k now n m : ℕ) (holder : List C) (s : Scheduler C W) (world : W)
      → length holder ≤ suc m
      → Left k now n (s, world)
      → OnOk (λ s'. Behind k now n m (s', world)) (pop_async holder s)
  unfolding pop_async
  pop_async-Behind k now n m [] s world le left = tt
  pop_async-Behind k now n m (callable ∷ later) s world le left = (left, omega arith)

  run_async-Behind :
      (calls : Callbacks C W) (k now n m : ℕ) (callable : C) (s : Scheduler C W) (world : W)
      → IsQuiet calls
      → Behind k now n (suc m) (s, world)
      → OnOk (Behind k now n m) (run_async calls callable s world)
  unfolding run_async
  run_async-Behind calls k now n m callable s world quiet h =
      let requests = (calls.on_async callable world).0 in
      let s' = fulfil_all requests s in
      let (left, le) =
        fulfil_all-Behind k now n (suc m) requests s world (quiet callable world) h in
      OnOk-bind {P = λ s''. Behind k now n m (s'', world)} (Behind k now n m)
        (pop_async s'.async_holder s') _
        (pop_async-Behind k now n m s'.async_holder s' world le left) λ s'' behind. behind

  -- What is claimed of a part of the dispatching.
  abbrev Ends : ℕ → ℕ → ℕ → Outcome C W → Type 0
  Ends k now n outcome =
      (ran_out outcome ≡ false) × OnCompleted (λ s world. Left k now n (s, world)) outcome

  go_on-Ends :
      (k now n m : ℕ) (result : Result (Scheduler C W × W)) (more : Scheduler C W → W → Outcome C W)
      → OnOk (Behind k now n m) result
      → ((s : Scheduler C W) (world : W)
          → Behind k now n m (s, world)
          → Ends k now n (more s world))
      → Ends k now n (go_on result more)
  go_on-Ends k now n m (err e) more behind h = (refl, tt)
  go_on-Ends k now n m (ok (s, world)) more behind h = elim (Bool-cases (s.predicate world)) [
    | inl valid ↦ rw valid (h s world behind)
    | inr invalid ↦ rw invalid (refl, tt)
  ]

  process_asyncs-Ends :
      (calls : Callbacks C W) (k now n fuel : ℕ) (holder : List C) (s : Scheduler C W) (world : W)
      → IsQuiet calls
      → s.async_holder ≡ holder
      → Behind k now n fuel (s, world)
      → Ends k now n (process_asyncs calls fuel holder s world)
  unfolding process_asyncs
  process_asyncs-Ends calls k now n fuel [] s world quiet e (left, le) = (refl, left)
  process_asyncs-Ends calls k now n zero (callable ∷ later) s world quiet e (left, le) =
      absurd (omega (arith, ap length e))
  process_asyncs-Ends calls k now n (suc fuel) (callable ∷ later) s world quiet e h =
      go_on-Ends k now n fuel _ _ (run_async-Behind calls k now n fuel callable s world quiet h)
        λ s' after behind.
          process_asyncs-Ends calls k now n fuel s'.async_holder s' after quiet refl behind

  and_then-ran_out :
      (outcome : Outcome C W) (rest : Scheduler C W → W → Outcome C W)
      → ran_out outcome ≡ false
      → OnCompleted (λ s world. ran_out (rest s world) ≡ false) outcome
      → ran_out (and_then outcome rest) ≡ false
  and_then-ran_out (completed s world) rest ends more = more
  and_then-ran_out (invalidated s world) rest ends more = refl
  and_then-ran_out (failed e) rest ends more = refl
  and_then-ran_out out_of_fuel rest ends more = ends

  OnCompleted-every :
      {P : Scheduler C W → W → Type 0}
      → ((s : Scheduler C W) (world : W) → P s world)
      → (outcome : Outcome C W) → OnCompleted P outcome
  OnCompleted-every p (completed s world) = p s world
  OnCompleted-every p (invalidated s world) = tt
  OnCompleted-every p (failed e) = tt
  OnCompleted-every p out_of_fuel = tt

  -- A dispatching comes to its end, and so to its final callback, an error or the validator, if the
  -- queue is in order and its tasks have durations, every call for a task adds `k` tasks at most and
  -- puts each behind the running one, the callables add none to their own queue, and no request
  -- moves a task to where its time has come: fuel as much as there are callables, and as the bound of
  -- the tasks that can become due, is enough.
  pub dispatch-ran_out :
      (calls : Callbacks C W) (k fuel : ℕ) (callback : W → List (Request C) × W) (s : Scheduler C W)
      (world : W)
      → IsSteady k calls
      → IsQuiet calls
      → IsFrom 0 s.task_holder
      → Bounded k s.now fuel s.task_holder
      → length s.async_holder ≤ fuel
      → ran_out (dispatch calls fuel callback s world) ≡ false
  unfolding dispatch finish
  dispatch-ran_out calls k fuel callback s world steady quiet q f le =
      elim (Bool-cases (s.predicate world)) [
        | inr invalid ↦ rw (dispatch, invalid) refl
        | inl valid ↦
            let ends =
              process_asyncs-Ends calls k s.now fuel fuel s.async_holder s world quiet refl
                ((f, (omega arith, q), refl), le) in
            rw (dispatch, valid)
              (and_then-ran_out _ _
                (and_then-ran_out _ _ ends.0 (
                  OnCompleted-map (process_asyncs calls fuel s.async_holder s world)
                    (λ s' after (f', (clock, q'), same).
                      run_tasks_enough calls k fuel 0 s'.task_holder s' after steady q'
                        (subst (λ now. Bounded k now fuel s'.task_holder) (sym same) f'))
                    ends.1))
                (OnCompleted-every {P = λ s' after. ran_out (finish callback s' after) ≡ false}
                  (λ s' after. refl)
                  (and_then (process_asyncs calls fuel s.async_holder s world)
                    λ s' after. run_tasks calls fuel s'.task_holder s' after)))
      ]
