-- ===== src/TaskScheduler/Ending.antt =====
-- TaskScheduler::Dispatch of src/common/Utilities/TaskScheduler.cpp comes to an end: a bound for the
-- tasks that it invokes, where tasks that are put back or added are put behind the running one.
pub mod Calls
pub mod Enough
pub mod Whole
pub mod Completed
use warhead_discord.Prelude.{
  ℕ, zero, suc, ◌+◌, ◌-◌, ◌≤◌, ◌<◌, ◌≡◌, refl, ap, sym, subst, ◌∙◌, Bool, true, false, Option, none,
  some, List, [], ◌∷◌, map, inl, inr, Bool-cases, arith, ltb, ◌==◌, if◌then◌else◌, Result, err, ok,
  ◌>>=◌, OnOk, OnOk-bind,
}
use warhead_discord.TaskScheduler.{
  Task, Scheduler, is_in_group, remove_if, insert_task, schedule_at, schedule, async, cancel_all,
  cancel_group, cancel_groups_of, delay_all, delay_group, reschedule_all, reschedule_group,
  delayed_by, group_delayed_by, moved_to, group_moved_to,
}
use warhead_discord.TaskScheduler.Context.{
  Request, ask_schedule, ask_async, ask_cancel_all, ask_cancel_group, ask_cancel_groups_of,
  ask_delay_all, ask_delay_group, ask_reschedule_all, ask_reschedule_group, Action, repeat_for,
  repeat, set_group, clear_group, schedule_after, ask, Context, shared, regroup, fulfil,
  assert_on_consumed, repeated_task, repeat_with, put_group, act, act_all,
}
use warhead_discord.TaskScheduler.Measure.{
  Each, total, Fits, Lightens, push-Fits, remove_if-Fits, modify_if-Fits,
}
use warhead_discord.TaskScheduler.Order.Actions.{AreFrom, Holds, act-AreFrom, shared-from}

-- `k` times `n`.
abbrev pub times : ℕ → ℕ → ℕ
times zero n = 0
times (suc k) n = n + times k n

times-le : (k m n : ℕ) → m ≤ n → times k m ≤ times k n
times-le zero m n le = omega arith
times-le (suc k) m n le = omega (arith, times-le k m n le)

-- The tasks of a tree of the given height where every task has `k` others below it.
abbrev pub tree : ℕ → ℕ → ℕ
tree k zero = 0
tree k (suc height) = suc (times k (tree k height))

pub tree-le : (k m n : ℕ) → m ≤ n → tree k m ≤ tree k n
tree-le k zero n le = omega arith
tree-le k (suc m) zero le = absurd (omega arith)
tree-le k (suc m) (suc n) le =
    let inner = times-le k (tree k m) (tree k n) (tree-le k m n (omega arith)) in omega arith

module _ {C : Type 0} where
  -- A request that puts no task where its time has come already.
  abbrev pub Postpones : Request C → Type 0
  Postpones (ask_schedule time group callable) = 0 < time
  Postpones (ask_reschedule_all duration) = 0 < duration
  Postpones (ask_reschedule_group group duration) = 0 < duration
  Postpones _ = Unit

  -- What one call asks for: `k` tasks more at most, and each of them later than the running one.
  abbrev pub MovesOn : ℕ → List (Action C) → Type 0
  MovesOn k [] = Unit {0}
  MovesOn k (repeat_for duration ∷ actions) = (0 < k) × (0 < duration) × MovesOn (k - 1) actions
  MovesOn k (repeat ∷ actions) = (0 < k) × MovesOn (k - 1) actions
  MovesOn k (schedule_after time group callable ∷ actions) =
      (0 < k) × (0 < time) × MovesOn (k - 1) actions
  MovesOn k (ask request ∷ actions) = Postpones request × MovesOn k actions
  MovesOn k (_ ∷ actions) = MovesOn k actions

  -- A task that is repeated with its own duration takes its time.
  abbrev pub HasDuration : Task C → Type 0
  HasDuration t = 0 < t.duration

  -- What a task can still make a dispatching do, by the time it has.
  abbrev pub prospects : ℕ → ℕ → Task C → ℕ
  prospects k now t = tree k (suc now - t.end)

  abbrev pub Bounded : ℕ → ℕ → ℕ → List (Task C) → Type 0
  Bounded k now = Fits HasDuration (prospects k now)

  lighter :
      (k now : ℕ) (t u : Task C)
      → u.duration ≡ t.duration
      → suc now - u.end ≤ suc now - t.end
      → HasDuration t
      → HasDuration u × (prospects k now u ≤ prospects k now t)
  lighter k now t u same le p = (omega arith, tree-le k (suc now - u.end) (suc now - t.end) le)

  delayed_by-Lightens :
      (k now duration : ℕ) → Lightens HasDuration (prospects k now) (delayed_by duration)
  unfolding delayed_by
  delayed_by-Lightens k now duration t u e p = lighter k now t u (ground arith) (ground arith) p

  group_delayed_by-Lightens :
      (k now group duration : ℕ)
      → Lightens HasDuration (prospects k now) (group_delayed_by group duration)
  unfolding group_delayed_by
  group_delayed_by-Lightens k now group duration t u e p =
      lighter k now t u (ground arith) (ground arith) p

  moved_to-Lightens :
      (k now end : ℕ) → now < end → Lightens HasDuration (prospects k now) (moved_to end)
  unfolding moved_to
  moved_to-Lightens k now end l t u e p = lighter k now t u (ground arith) (ground arith) p

  group_moved_to-Lightens :
      (k now group end : ℕ)
      → now < end
      → Lightens HasDuration (prospects k now) (group_moved_to group end)
  unfolding group_moved_to
  group_moved_to-Lightens k now group end l t u e p =
      lighter k now t u (ground arith) (ground arith) p

module _ {C W : Type 0} where
  -- The queue of a scheduler whose clock shows `now`.
  abbrev pub IsBounded : ℕ → ℕ → ℕ → Scheduler C W → Type 0
  IsBounded k now n s = Bounded k now n s.task_holder × (s.now ≡ now)

  pub schedule_at-Bounded :
      (k now n end time : ℕ) (group : Option ℕ) (callable : C) (s : Scheduler C W)
      → 0 < time
      → Bounded k now n s.task_holder
      → Bounded k now
          (tree k (suc now - (end + time)) + n)
          (schedule_at end time group callable s).task_holder
  unfolding schedule_at insert_task
  schedule_at-Bounded k now n end time group callable s later f =
      push-Fits HasDuration (prospects k now) n _ s.task_holder later f

  cancel_groups_of-Bounded :
      (k now n : ℕ) (groups : List ℕ) (s : Scheduler C W)
      → Bounded k now n s.task_holder
      → Bounded k now n (cancel_groups_of groups s).task_holder
  unfolding cancel_groups_of cancel_group
  cancel_groups_of-Bounded k now n [] s f = f
  cancel_groups_of-Bounded k now n (group ∷ groups) s f =
      cancel_groups_of-Bounded k now n groups (cancel_group group s)
        (remove_if-Fits HasDuration (prospects k now) (is_in_group group) n s.task_holder f)

  -- A request that postpones adds nothing to what is left to do.
  pub fulfil-Bounded :
      (k n : ℕ) (request : Request C) (s : Scheduler C W)
      → Postpones request
      → Bounded k s.now n s.task_holder
      → Bounded k s.now n (fulfil request s).task_holder
  unfolding fulfil schedule async cancel_all cancel_group delay_all delay_group reschedule_all
      reschedule_group
  fulfil-Bounded k n (ask_schedule time group callable) s later f =
      let over : suc s.now - (s.now + time) ≡ 0 = omega arith in
      let nothing : tree k (suc s.now - (s.now + time)) ≡ 0 = ap (tree k) over in
      subst (λ m. Bounded k s.now m (schedule_at s.now time group callable s).task_holder)
        {x = tree k (suc s.now - (s.now + time)) + n} (omega (arith, nothing))
        (schedule_at-Bounded k s.now n s.now time group callable s later f)
  fulfil-Bounded k n (ask_async callable) s later f = f
  fulfil-Bounded k n ask_cancel_all s later f = (tt, omega arith)
  fulfil-Bounded k n (ask_cancel_group group) s later f =
      remove_if-Fits HasDuration (prospects k s.now) (is_in_group group) n s.task_holder f
  fulfil-Bounded k n (ask_cancel_groups_of groups) s later f =
      cancel_groups_of-Bounded k s.now n groups s f
  fulfil-Bounded k n (ask_delay_all duration) s later f =
      modify_if-Fits HasDuration (prospects k s.now) (delayed_by duration) n s.task_holder
        (delayed_by-Lightens k s.now duration) f
  fulfil-Bounded k n (ask_delay_group group duration) s later f =
      modify_if-Fits HasDuration (prospects k s.now) (group_delayed_by group duration) n
        s.task_holder (group_delayed_by-Lightens k s.now group duration) f
  fulfil-Bounded k n (ask_reschedule_all duration) s later f =
      modify_if-Fits HasDuration (prospects k s.now) (moved_to (s.now + duration)) n s.task_holder
        (moved_to-Lightens k s.now (s.now + duration) (omega arith)) f
  fulfil-Bounded k n (ask_reschedule_group group duration) s later f =
      modify_if-Fits HasDuration (prospects k s.now) (group_moved_to group (s.now + duration)) n
        s.task_holder (group_moved_to-Lightens k s.now group (s.now + duration) (omega arith)) f
