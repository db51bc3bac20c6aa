-- ===== src/TaskScheduler/Context/Once.antt =====
-- The assertion of class TaskContext of src/common/Utilities/TaskScheduler.h: a task is put back
-- into the queue once at most by one call.
use warhead_discord.Prelude.{
  ℕ, suc, ◌+◌, ◌≡◌, refl, ap, ◌∙◌, Bool, Option, none, some, List, [], ◌∷◌, inl, inr, Bool-cases,
  arith, ltb, if◌then◌else◌, Error, Result, err, ok, ◌>>=◌, aborted,
}
use warhead_discord.TaskScheduler.{Task, Scheduler}
use warhead_discord.TaskScheduler.Dispatch.{Callbacks, invoke}
use warhead_discord.TaskScheduler.Context.{
  Action, repeat_for, repeat, set_group, clear_group, schedule_after, ask, Context,
  assert_on_consumed, repeat_with, put_group, act, act_all,
}

abbrev pub failure {ℓ} : {A : Type ℓ} → Result A → Option Error
failure (err e) = some e
failure (ok a) = none

-- A context that is consumed has repeated its task before.
abbrev spent : Bool → ℕ
spent consumed = if consumed then 1 else 0

-- What becomes of so many repeats.
abbrev verdict : ℕ → Option Error
verdict n = if ltb 1 n then some aborted else none

module _ {C : Type 0} where
  abbrev pub repeats : List (Action C) → ℕ
  repeats [] = 0
  repeats (repeat_for duration ∷ actions) = suc (repeats actions)
  repeats (repeat ∷ actions) = suc (repeats actions)
  repeats (_ ∷ actions) = repeats actions

module _ {C W : Type 0} where
  repeat_with-failure :
      (duration : ℕ) (actions : List (Action C)) (c : Context C) (s : Scheduler C W)
      → ((c' : Context C) (s' : Scheduler C W)
          → failure (act_all actions c' s') ≡ verdict (spent c'.consumed + repeats actions))
      → failure (repeat_with duration c s >>= λ (c', s'). act_all actions c' s')
        ≡ verdict (spent c.consumed + suc (repeats actions))
  unfolding repeat_with assert_on_consumed
  repeat_with-failure duration actions c s rest = elim (Bool-cases c.consumed) [
    | inl e ↦ rw (repeat_with, e) (ground arith)
    | inr e ↦ rw (repeat_with, e) (rest _ _ ∙ ap verdict (omega arith))
  ]

  act_all-failure :
      (actions : List (Action C)) (c : Context C) (s : Scheduler C W)
      → failure (act_all actions c s) ≡ verdict (spent c.consumed + repeats actions)
  unfolding act_all act put_group
  act_all-failure [] c s = elim (Bool-cases c.consumed) [ inl e ↦ rw e refl | inr e ↦ rw e refl ]
  act_all-failure (repeat_for duration ∷ rest) c s =
      repeat_with-failure duration rest c s (act_all-failure rest)
  act_all-failure (repeat ∷ rest) c s =
      repeat_with-failure c.task.duration rest c s (act_all-failure rest)
  act_all-failure (set_group group ∷ rest) c s = act_all-failure rest _ _
  act_all-failure (clear_group ∷ rest) c s = act_all-failure rest _ _
  act_all-failure (schedule_after time group callable ∷ rest) c s = act_all-failure rest _ _
  act_all-failure (ask request ∷ rest) c s = act_all-failure rest _ _

  -- The call for a task fails, and then by the assertion, exactly if it repeats its task more than
  -- once, whatever else it asks for in between and in whatever order: cancelling the repeated task
  -- does not take its context back.
  pub invoke-failure :
      (calls : Callbacks C W) (t : Task C) (s : Scheduler C W) (world : W)
      → failure (invoke calls t s world)
        ≡ (if ltb 1 (repeats (calls.on_task t world).0) then some aborted else none)
  unfolding invoke
  invoke-failure calls t s world =
      failure_bind _ _ ∙ act_all-failure (calls.on_task t world).0 _ s ∙ ap verdict (omega arith)
    where
      failure_bind :
          {A B : Type 0} (r : Result A) (f : A → B) → failure (r >>= λ a. ok (f a)) ≡ failure r
      failure_bind (err e) f = refl
      failure_bind (ok a) f = refl
