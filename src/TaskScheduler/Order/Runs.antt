-- ===== src/TaskScheduler/Order/Runs.antt =====
-- The order in which TaskScheduler::Dispatch of src/common/Utilities/TaskScheduler.cpp invokes the
-- tasks: as a relation, and the dispatching as one way through it.
use warhead_discord.Prelude.{
  ℕ, zero, suc, ◌≤◌, ◌≡◌, refl, subst, ◌∙◌, true, false, List, [], ◌∷◌, inl, inr, Bool-cases, arith,
  ltb, Result, err, ok, OnOk, OnOk-bind,
}
use warhead_discord.TaskScheduler.{Task, Scheduler}
use warhead_discord.TaskScheduler.Context.{act_all}
use warhead_discord.TaskScheduler.Dispatch.{
  Callbacks, Outcome, go_on, completed, invalidated, failed, out_of_fuel, invoke, run_tasks,
}
use warhead_discord.TaskScheduler.Order.{IsFrom}
use warhead_discord.TaskScheduler.Order.Actions.{Holds, AreFrom, act_all-AreFrom}

module _ {C : Type 0} where
  -- No task of the list ends after `now`.
  abbrev pub AllDue : ℕ → List (Task C) → Type 0
  AllDue now [] = Unit {0}
  AllDue now (t ∷ ts) = (t.end ≤ now) × AllDue now ts

module _ {C W : Type 0} where
  -- `Runs calls s world log s' world'`: the tasks of `log` are taken from the front of the queue
  -- and invoked, one after the other, each when its time has come; their calls return, and the
  -- validator agrees after each.
  pub data Runs (calls : Callbacks C W)
      : Scheduler C W → W → List (Task C) → Scheduler C W → W → Type 0 where
    rest : {s : Scheduler C W} {world : W} → Runs calls s world [] s world
    next :
        {s s' s'' : Scheduler C W} {world world' world'' : W} (t : Task C)
        {later log : List (Task C)}
        → s.task_holder ≡ t ∷ later
        → t.end ≤ s.now
        → invoke calls t (record s { task_holder = later }) world ≡ ok (s', world')
        → s'.predicate world' ≡ true
        → Runs calls s' world' log s'' world''
        → Runs calls s world (t ∷ log) s'' world''

  -- `P` holds of the scheduler and the world of a dispatching that got to its end.
  abbrev pub OnCompleted {κ} : (Scheduler C W → W → Type κ) → Outcome C W → Type κ
  OnCompleted P (completed s world) = P s world
  OnCompleted P _ = Unit

  pub OnCompleted-map {κ} :
      {P Q : Scheduler C W → W → Type κ} (outcome : Outcome C W)
      → ((s : Scheduler C W) (world : W) → P s world → Q s world)
      → OnCompleted P outcome
      → OnCompleted Q outcome
  OnCompleted-map (completed s world) more p = more s world p
  OnCompleted-map (invalidated s world) more p = tt
  OnCompleted-map (failed e) more p = tt
  OnCompleted-map out_of_fuel more p = tt

  -- What a dispatching of a scheduler with tasks from `b` on comes to.
  abbrev pub RunsOrdered : Callbacks C W → ℕ → Scheduler C W → W → Scheduler C W → W → Type 0
  RunsOrdered calls b s world s' world' =
      (log : List (Task C)) × Runs calls s world log s' world'
      × IsFrom b log
      × AllDue s.now log
      × IsFrom (suc s.now) s'.task_holder
      × (s'.now ≡ s.now)

  abbrev Kept : ℕ → ℕ → Scheduler C W × W → Type 0
  Kept b now (s, world) = Holds b s × (s.now ≡ now)

  pub invoke-Holds :
      (calls : Callbacks C W) (b : ℕ) (t : Task C) (s : Scheduler C W) (world : W)
      → b ≤ t.end
      → Holds b s
      → OnOk (Kept b s.now) (invoke calls t s world)
  unfolding invoke
  invoke-Holds calls b t s world le h =
      OnOk-bind {P = AreFrom b s.now} (Kept b s.now)
        (act_all (calls.on_task t world).0 (record { task = t; consumed = false }) s) _
        (act_all-AreFrom b s.now (calls.on_task t world).0 _ s (le, h, refl))
        λ (c, s') kept. (kept.1, kept.2)

  -- One step more in front of a dispatching.
  prepend :
      (calls : Callbacks C W) (b : ℕ) (t : Task C) (later : List (Task C))
      (s s' s'' : Scheduler C W) (world world' world'' : W)
      → s.task_holder ≡ t ∷ later
      → b ≤ t.end
      → t.end ≤ s.now
      → invoke calls t (record s { task_holder = later }) world ≡ ok (s', world')
      → s'.predicate world' ≡ true
      → s'.now ≡ s.now
      → RunsOrdered calls t.end s' world' s'' world''
      → RunsOrdered calls b s world s'' world''
  prepend calls b t later s s' s'' world world' world'' e le due call valid same
        (log, runs, ordered, all_due, left, clock) =
      (
        t ∷ log,
        next t e due call valid runs,
        (le, ordered),
        (due, subst (λ now. AllDue now log) same all_due),
        subst (λ now. IsFrom (suc now) s''.task_holder) same left,
        clock ∙ same,
      )

  -- What holds of the rest of a dispatching holds of it with the call for a task in front.
  go_on_ordered :
      (calls : Callbacks C W) (b : ℕ) (t : Task C) (later : List (Task C)) (s : Scheduler C W)
      (world : W) (result : Result (Scheduler C W × W)) (more : Scheduler C W → W → Outcome C W)
      → s.task_holder ≡ t ∷ later
      → b ≤ t.end
      → t.end ≤ s.now
      → invoke calls t (record s { task_holder = later }) world ≡ result
      → OnOk (Kept t.end s.now) result
      → ((s' : Scheduler C W) (after : W)
          → Holds t.end s'
          → OnCompleted (RunsOrdered calls t.end s' after) (more s' after))
      → OnCompleted (RunsOrdered calls b s world) (go_on result more)
  go_on_ordered calls b t later s world (err e) more holder le due call kept ordered = tt
  go_on_ordered calls b t later s world (ok (s', after)) more holder le due call (h, same) ordered =
      elim (Bool-cases (s'.predicate after)) [
        | inl valid ↦ rw valid (
            OnCompleted-map (more s' after)
              (λ s'' last.
                prepend calls b t later s s' s'' world after last holder le due call valid same)
              (ordered s' after h))
        | inr invalid ↦ rw invalid tt
      ]

  run_tasks_ordered :
      (calls : Callbacks C W) (fuel b : ℕ) (queue : List (Task C)) (s : Scheduler C W) (world : W)
      → s.task_holder ≡ queue
      → IsFrom b queue
      → OnCompleted (RunsOrdered calls b s world) (run_tasks calls fuel queue s world)
  unfolding run_tasks
  run_tasks_ordered calls fuel b [] s world e q = ([], rest, tt, tt, rw e tt, refl)
  run_tasks_ordered calls zero b (t ∷ later) s world e (first, q) =
      elim (Bool-cases (ltb s.now t.end)) [
        | inl wait ↦ rw (run_tasks, wait) ([], rest, tt, tt, rw e (ground arith, q), refl)
        | inr due ↦ rw (run_tasks, due) tt
      ]
  run_tasks_ordered calls (suc fuel) b (t ∷ later) s world e (first, q) =
      elim (Bool-cases (ltb s.now t.end)) [
        | inl wait ↦ rw (run_tasks, wait) ([], rest, tt, tt, rw e (ground arith, q), refl)
        | inr due ↦
            let time : t.end ≤ s.now = ground arith in
            rw (run_tasks, due)
              (go_on_ordered calls b t later s world _ _ e first time refl
                (invoke-Holds calls t.end t (record s { task_holder = later }) world (omega arith)
                  (time, q))
                λ s' after (clock, q').
                  run_tasks_ordered calls fuel t.end s'.task_holder s' after refl q')
      ]

  -- The tasks that a dispatching invokes when it gets to the end of its queue, of which each is in
  -- the queue before it is invoked, or is put there by a task of the same dispatching: they are
  -- invoked in the order of their ends, none before its time, and only tasks whose time is yet to
  -- come are left, again in order. The calls may ask for anything a scheduler offers.
  pub run_tasks-RunsOrdered :
      (calls : Callbacks C W) (fuel b : ℕ) (s s' : Scheduler C W) (world world' : W)
      → IsFrom b s.task_holder
      → run_tasks calls fuel s.task_holder s world ≡ completed s' world'
      → RunsOrdered calls b s world s' world'
  run_tasks-RunsOrdered calls fuel b s s' world world' q e =
      subst (OnCompleted (RunsOrdered calls b s world)) e
        (run_tasks_ordered calls fuel b s.task_holder s world refl q)
