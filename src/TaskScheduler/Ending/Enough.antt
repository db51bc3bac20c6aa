-- ===== src/TaskScheduler/Ending/Enough.antt =====
-- The fuel that is enough for TaskScheduler::Dispatch of src/common/Utilities/TaskScheduler.cpp.
use warhead_discord.Prelude.{
  ℕ, zero, suc, ◌+◌, ◌-◌, ◌≤◌, ◌≡◌, refl, ap, sym, subst, Bool, true, false, List, [], ◌∷◌, inl,
  inr, Bool-cases, arith, ltb, Result, err, ok, OnOk, OnOk-bind,
}
use warhead_discord.TaskScheduler.{Task, Scheduler}
use warhead_discord.TaskScheduler.Context.{act_all}
use warhead_discord.TaskScheduler.Dispatch.{
  Callbacks, Outcome, out_of_fuel, go_on, invoke, run_tasks,
}
use warhead_discord.TaskScheduler.Measure.{total}
use warhead_discord.TaskScheduler.Order.{IsFrom, IsFrom-le}
use warhead_discord.TaskScheduler.Order.Actions.{Holds}
use warhead_discord.TaskScheduler.Ending.{times, tree, MovesOn, HasDuration, prospects, Bounded}
use warhead_discord.TaskScheduler.Ending.Calls.{Good, act_all-Good}

module _ {C W : Type 0} where
  -- The calls for tasks add `k` tasks at most, and move on.
  abbrev pub IsSteady : ℕ → Callbacks C W → Type 0
  IsSteady k calls = (t : Task C) (world : W) → HasDuration t → MovesOn k (calls.on_task t world).0

  abbrev pub ran_out : Outcome C W → Bool
  ran_out out_of_fuel = true
  ran_out _ = false

  abbrev pub Left : ℕ → ℕ → ℕ → Scheduler C W × W → Type 0
  Left k now n (s, world) = Bounded k now n s.task_holder × Holds 0 s × (s.now ≡ now)

  pub invoke-Left :
      (calls : Callbacks C W) (k m n : ℕ) (t : Task C) (s : Scheduler C W) (world : W)
      → IsSteady k calls
      → HasDuration t
      → m + times k (tree k (s.now - t.end)) ≤ n
      → Bounded k s.now m s.task_holder
      → Holds t.end s
      → OnOk (Left k s.now n) (invoke calls t s world)
  unfolding invoke
  invoke-Left calls k m n t s world steady p le f h =
      OnOk-bind {P = Good k t.end s.now n} (Left k s.now n)
        (act_all (calls.on_task t world).0 (record { task = t; consumed = false }) s) _
        (act_all-Good k t.end s.now k m n (calls.on_task t world).0 _ s (steady t world p) le
          ((p, f), (omega arith, h, refl)))
        λ (c, s') ((p', f'), (le', (clock, q), same)).
          (f', (omega arith, IsFrom-le 0 t.end s'.task_holder (omega arith) q), same)

  go_on-ran_out :
      (k now n : ℕ) (result : Result (Scheduler C W × W)) (more : Scheduler C W → W → Outcome C W)
      → OnOk (Left k now n) result
      → ((s : Scheduler C W) (world : W) → Left k now n (s, world) → ran_out (more s world) ≡ false)
      → ran_out (go_on result more) ≡ false
  go_on-ran_out k now n (err e) more left h = refl
  go_on-ran_out k now n (ok (s, world)) more left h = elim (Bool-cases (s.predicate world)) [
    | inl valid ↦ rw valid (h s world left)
    | inr invalid ↦ rw invalid refl
  ]

  -- Steps as many as the bound of the tasks that can become due are enough for the queue.
  pub run_tasks_enough :
      (calls : Callbacks C W) (k fuel b : ℕ) (queue : List (Task C)) (s : Scheduler C W) (world : W)
      → IsSteady k calls
      → IsFrom b queue
      → Bounded k s.now fuel queue
      → ran_out (run_tasks calls fuel queue s world) ≡ false
  unfolding run_tasks
  run_tasks_enough calls k fuel b [] s world steady q f = refl
  run_tasks_enough calls k zero b (t ∷ later) s world steady (first, q) ((p, each), le) =
      elim (Bool-cases (ltb s.now t.end)) [
        | inl wait ↦ rw (run_tasks, wait) refl
        | inr due ↦
            let height : suc s.now - t.end ≡ suc (s.now - t.end) = ground arith in
            let heavy = ap (tree k) height in absurd (omega (arith, heavy, le))
      ]
  run_tasks_enough calls k (suc fuel) b (t ∷ later) s world steady (first, q) ((p, each), le) =
      elim (Bool-cases (ltb s.now t.end)) [
        | inl wait ↦ rw (run_tasks, wait) refl
        | inr due ↦
            let time : t.end ≤ s.now = ground arith in
            let height : suc s.now - t.end ≡ suc (s.now - t.end) = omega arith in
            let heavy = ap (tree k) height in
            rw (run_tasks, due)
              (go_on-ran_out k s.now fuel _ _
                (invoke-Left calls k (total HasDuration (prospects k s.now) later) fuel t
                  (record s { task_holder = later }) world steady p (omega (arith, heavy, le))
                  (each, omega arith) (time, q))
                λ s' after (f', (clock, q'), same).
                  run_tasks_enough calls k fuel 0 s'.task_holder s' after steady q'
                    (subst (λ now. Bounded k now fuel s'.task_holder) (sym same) f'))
      ]
