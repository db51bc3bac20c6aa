-- ===== src/TaskScheduler/Ending/Completed.antt =====
-- When TaskScheduler::Dispatch of src/common/Utilities/TaskScheduler.cpp gets through its tasks.
use warhead_discord.Prelude.{
  ℕ, zero, suc, ◌-◌, ◌≤◌, ◌≡◌, refl, ap, sym, ◌∙◌, subst, Bool, true, false, none, List, [], ◌∷◌,
  inl, inr, Bool-cases, arith, ltb, Result, err, ok, OnOk, OnOk-bind, OnOk-and,
}
use warhead_discord.TaskScheduler.{
  Task, Scheduler, empty_validator, insert_task, schedule_at, schedule, async, cancel_all,
  cancel_group, cancel_groups_of, delay_all, delay_group, reschedule_all, reschedule_group,
}
use warhead_discord.TaskScheduler.Context.{
  Request, ask_schedule, ask_async, ask_cancel_all, ask_cancel_group, ask_cancel_groups_of,
  ask_delay_all, ask_delay_group, ask_reschedule_all, ask_reschedule_group, Action, repeat_for,
  repeat, set_group, clear_group, schedule_after, ask, Context, fulfil, assert_on_consumed,
  repeat_with, put_group, act, act_all,
}
use warhead_discord.TaskScheduler.Context.Once.{failure, repeats, invoke-failure}
use warhead_discord.TaskScheduler.Dispatch.{Callbacks, Outcome, completed, go_on, invoke, run_tasks}
use warhead_discord.TaskScheduler.Measure.{total}
use warhead_discord.TaskScheduler.Order.{IsFrom}
use warhead_discord.TaskScheduler.Order.Runs.{RunsOrdered, run_tasks-RunsOrdered}
use warhead_discord.TaskScheduler.Ending.{tree, MovesOn, HasDuration, prospects, Bounded}
use warhead_discord.TaskScheduler.Ending.Enough.{IsSteady, Left, invoke-Left}

module _ {C : Type 0} where
  MovesOn-repeats : (k : ℕ) (actions : List (Action C)) → MovesOn k actions → repeats actions ≤ k
  MovesOn-repeats k [] moves = omega arith
  MovesOn-repeats k (repeat_for duration ∷ rest) (some_left, later, moves) =
      omega (arith, MovesOn-repeats (k - 1) rest moves)
  MovesOn-repeats k (repeat ∷ rest) (some_left, moves) =
      omega (arith, MovesOn-repeats (k - 1) rest moves)
  MovesOn-repeats k (set_group group ∷ rest) moves = MovesOn-repeats k rest moves
  MovesOn-repeats k (clear_group ∷ rest) moves = MovesOn-repeats k rest moves
  MovesOn-repeats k (schedule_after time group callable ∷ rest) (some_left, later, moves) =
      omega (arith, MovesOn-repeats (k - 1) rest moves)
  MovesOn-repeats k (ask request ∷ rest) (later, moves) = MovesOn-repeats k rest moves

module _ {C W : Type 0} where
  cancel_groups_of-predicate :
      (groups : List ℕ) (s : Scheduler C W) → (cancel_groups_of groups s).predicate ≡ s.predicate
  unfolding cancel_groups_of cancel_group
  cancel_groups_of-predicate [] s = refl
  cancel_groups_of-predicate (group ∷ groups) s =
      cancel_groups_of-predicate groups (cancel_group group s)

  fulfil-predicate :
      (request : Request C) (s : Scheduler C W) → (fulfil request s).predicate ≡ s.predicate
  unfolding fulfil schedule schedule_at insert_task async cancel_all cancel_group delay_all
      delay_group reschedule_all reschedule_group
  fulfil-predicate (ask_schedule time group callable) s = refl
  fulfil-predicate (ask_async callable) s = refl
  fulfil-predicate ask_cancel_all s = refl
  fulfil-predicate (ask_cancel_group group) s = refl
  fulfil-predicate (ask_cancel_groups_of groups) s = cancel_groups_of-predicate groups s
  fulfil-predicate (ask_delay_all duration) s = refl
  fulfil-predicate (ask_delay_group group duration) s = refl
  fulfil-predicate (ask_reschedule_all duration) s = refl
  fulfil-predicate (ask_reschedule_group group duration) s = refl

  -- The validator of the scheduler.
  abbrev Asks : (W → Bool) → Context C × Scheduler C W → Type 0
  Asks p (c, s) = s.predicate ≡ p

  repeat_with-Asks :
      (duration : ℕ) (p : W → Bool) (c : Context C) (s : Scheduler C W)
      → s.predicate ≡ p
      → OnOk (Asks p) (repeat_with duration c s)
  unfolding repeat_with assert_on_consumed insert_task
  repeat_with-Asks duration p c s e = elim (Bool-cases c.consumed) [
    | inl used ↦ rw (repeat_with, used) tt
    | inr fresh ↦ rw (repeat_with, fresh) e
  ]

  act_all-Asks :
      (actions : List (Action C)) (p : W → Bool) (c : Context C) (s : Scheduler C W)
      → s.predicate ≡ p
      → OnOk (Asks p) (act_all actions c s)
  unfolding act_all act put_group schedule_at insert_task
  act_all-Asks [] p c s e = e
  act_all-Asks (repeat_for duration ∷ rest) p c s e =
      OnOk-bind {P = Asks p} (Asks p) (repeat_with duration c s) _
        (repeat_with-Asks duration p c s e) λ (c', s') e'. act_all-Asks rest p c' s' e'
  act_all-Asks (repeat ∷ rest) p c s e =
      OnOk-bind {P = Asks p} (Asks p) (repeat_with c.task.duration c s) _
        (repeat_with-Asks c.task.duration p c s e) λ (c', s') e'. act_all-Asks rest p c' s' e'
  act_all-Asks (set_group group ∷ rest) p c s e = act_all-Asks rest p _ _ e
  act_all-Asks (clear_group ∷ rest) p c s e = act_all-Asks rest p _ _ e
  act_all-Asks (schedule_after time group callable ∷ rest) p c s e = act_all-Asks rest p _ _ e
  act_all-Asks (ask request ∷ rest) p c s e =
      act_all-Asks rest p _ (fulfil request s) (fulfil-predicate request s ∙ e)

  abbrev AsksStill : (W → Bool) → Scheduler C W × W → Type 0
  AsksStill p (s, world) = s.predicate ≡ p

  invoke-Asks :
      (calls : Callbacks C W) (t : Task C) (p : W → Bool) (s : Scheduler C W) (world : W)
      → s.predicate ≡ p
      → OnOk (AsksStill p) (invoke calls t s world)
  unfolding invoke
  invoke-Asks calls t p s world e =
      OnOk-bind {P = Asks p} (AsksStill p)
        (act_all (calls.on_task t world).0 (record { task = t; consumed = false }) s) _
        (act_all-Asks (calls.on_task t world).0 p _ s e) λ (c, s') e'. e'

  abbrev Completes : Outcome C W → Type 0
  Completes outcome = (s : Scheduler C W) × (world : W) × (outcome ≡ completed s world)

  go_on-Completes :
      (P : Scheduler C W × W → Type 0) (result : Result (Scheduler C W × W))
      (more : Scheduler C W → W → Outcome C W)
      → failure result ≡ none
      → OnOk (λ pair. P pair × AsksStill empty_validator pair) result
      → ((s : Scheduler C W) (world : W)
          → P (s, world)
          → s.predicate ≡ empty_validator
          → Completes (more s world))
      → Completes (go_on result more)
  go_on-Completes P (err e) more fine kept rest = absurd (cc)
  go_on-Completes P (ok (s, world)) more fine (kept, e) rest =
      let valid : s.predicate world ≡ true = ap (λ p. p world) e in
      let (s', world', done) = rest s world kept e in (s', world', rw valid done)

  invoke-fine :
      (calls : Callbacks C W) (t : Task C) (s : Scheduler C W) (world : W)
      → IsSteady 1 calls
      → HasDuration t
      → failure (invoke calls t s world) ≡ none
  invoke-fine calls t s world steady p =
      let once = MovesOn-repeats 1 (calls.on_task t world).0 (steady t world p) in
      let few : ltb 1 (repeats (calls.on_task t world).0) ≡ false = ground arith in
      invoke-failure calls t s world ∙ rw few refl

  all_tasks :
      (calls : Callbacks C W) (fuel b : ℕ) (queue : List (Task C)) (s : Scheduler C W) (world : W)
      → IsSteady 1 calls
      → s.predicate ≡ empty_validator
      → IsFrom b queue
      → Bounded 1 s.now fuel queue
      → Completes (run_tasks calls fuel queue s world)
  unfolding run_tasks
  all_tasks calls fuel b [] s world steady valid q f = (s, world, refl)
  all_tasks calls zero b (t ∷ later) s world steady valid (first, q) ((p, each), le) =
      elim (Bool-cases (ltb s.now t.end)) [
        | inl wait ↦ (s, world, rw (run_tasks, wait) refl)
        | inr due ↦
            let height : suc s.now - t.end ≡ suc (s.now - t.end) = ground arith in
            let heavy = ap (tree 1) height in absurd (omega (arith, heavy, le))
      ]
  all_tasks calls (suc fuel) b (t ∷ later) s world steady valid (first, q) ((p, each), le) =
      elim (Bool-cases (ltb s.now t.end)) [
        | inl wait ↦ (s, world, rw (run_tasks, wait) refl)
        | inr due ↦
            let time : t.end ≤ s.now = ground arith in
            let height : suc s.now - t.end ≡ suc (s.now - t.end) = omega arith in
            let heavy = ap (tree 1) height in
            let rest = record s { task_holder = later } in
            let (s', world', done) =
              go_on-Completes (Left 1 s.now fuel) (invoke calls t rest world)
                (λ u after. run_tasks calls fuel u.task_holder u after)
                (invoke-fine calls t rest world steady p)
                (OnOk-and (Left 1 s.now fuel) (AsksStill empty_validator)
                  (invoke calls t rest world)
                  (invoke-Left calls 1 (total HasDuration (prospects 1 s.now) later) fuel t rest
                    world steady p (omega (arith, heavy, le)) (each, omega arith) (time, q))
                  (invoke-Asks calls t empty_validator rest world valid))
                λ u after (f', (clock, q'), same) valid'.
                  all_tasks calls fuel 0 u.task_holder u after steady valid' q'
                    (subst (λ now. Bounded 1 now fuel u.task_holder) (sym same) f') in
            (s', world', rw (run_tasks, due) done)
      ]

  -- Where the queue is in order and its tasks have durations, each call puts one task at most into
  -- the queue, behind the running one, and moves none to where its time has come, and nothing is
  -- validated: the dispatching gets through the queue, with steps as many as the bound of the tasks
  -- that can become due. It invokes the tasks in the order of their ends, none before its time, and
  -- leaves only tasks whose time is yet to come, again in order.
  pub run_tasks-completed :
      (calls : Callbacks C W) (fuel : ℕ) (s : Scheduler C W) (world : W)
      → IsSteady 1 calls
      → s.predicate ≡ empty_validator
      → IsFrom 0 s.task_holder
      → Bounded 1 s.now fuel s.task_holder
      → (s' : Scheduler C W) × (world' : W) × (run_tasks calls fuel s.task_holder s world
          ≡ completed s' world')
        × RunsOrdered calls 0 s world s' world'
  run_tasks-completed calls fuel s world steady valid q f =
      let (s', world', done) = all_tasks calls fuel 0 s.task_holder s world steady valid q f in
      (s', world', done, run_tasks-RunsOrdered calls fuel 0 s s' world world' q done)
