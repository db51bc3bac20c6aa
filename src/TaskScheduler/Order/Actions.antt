-- ===== src/TaskScheduler/Order/Actions.antt =====
-- What tasks ask for while they run keeps the order of the queue: the requests to a scheduler and
-- the operations of class TaskContext, of src/common/Utilities/TaskScheduler.h.
use warhead_discord.Prelude.{
  ℕ, ◌+◌, ◌≤◌, ◌≡◌, refl, ◌∙◌, Option, none, some, List, [], ◌∷◌, map, inl, inr, Bool-cases, arith,
  ◌==◌, OnOk, OnOk-bind,
}
use warhead_discord.TaskScheduler.{
  Task, Scheduler, is_in_group, insert_task, schedule_at, schedule, async, cancel_all, cancel_group,
  cancel_groups_of, delay_all, delay_group, reschedule_all, reschedule_group, delayed_by,
  group_delayed_by, moved_to, group_moved_to,
}
use warhead_discord.TaskScheduler.Context.{
  Request, ask_schedule, ask_async, ask_cancel_all, ask_cancel_group, ask_cancel_groups_of,
  ask_delay_all, ask_delay_group, ask_reschedule_all, ask_reschedule_group, Action, repeat_for,
  repeat, set_group, clear_group, schedule_after, ask, Context, shared, regroup, fulfil, fulfil_all,
  assert_on_consumed, repeated_task, repeat_with, put_group, act, act_all,
}
use warhead_discord.TaskScheduler.Order.{
  IsFrom, push-IsFrom, remove_if-IsFrom, modify_if-IsFrom, delayed_by-KeepsFrom,
  group_delayed_by-KeepsFrom, moved_to-KeepsFrom, group_moved_to-KeepsFrom,
}

module _ {C W : Type 0} where
  -- No task of the scheduler ends before `b`, they stand in order, and the clock shows `b` or more.
  abbrev pub Holds : ℕ → Scheduler C W → Type 0
  Holds b s = (b ≤ s.now) × IsFrom b s.task_holder

  schedule_at-Holds :
      (b end time : ℕ) (group : Option ℕ) (callable : C) (s : Scheduler C W)
      → b ≤ end
      → Holds b s
      → Holds b (schedule_at end time group callable s)
  unfolding schedule_at insert_task
  schedule_at-Holds b end time group callable s le (clock, q) =
      (clock, push-IsFrom b _ s.task_holder (omega arith) q)

  cancel_groups_of-Holds :
      (b : ℕ) (groups : List ℕ) (s : Scheduler C W)
      → Holds b s
      → Holds b (cancel_groups_of groups s)
  unfolding cancel_groups_of cancel_group
  cancel_groups_of-Holds b [] s h = h
  cancel_groups_of-Holds b (group ∷ groups) s (clock, q) =
      cancel_groups_of-Holds b groups (cancel_group group s)
        (clock, remove_if-IsFrom (is_in_group group) b s.task_holder q)

  pub fulfil-Holds :
      (b : ℕ) (request : Request C) (s : Scheduler C W) → Holds b s → Holds b (fulfil request s)
  unfolding fulfil schedule async cancel_all cancel_group delay_all delay_group reschedule_all
      reschedule_group
  fulfil-Holds b (ask_schedule time group callable) s h =
      schedule_at-Holds b s.now time group callable s h.0 h
  fulfil-Holds b (ask_async callable) s h = h
  fulfil-Holds b ask_cancel_all s (clock, q) = (clock, tt)
  fulfil-Holds b (ask_cancel_group group) s (clock, q) =
      (clock, remove_if-IsFrom (is_in_group group) b s.task_holder q)
  fulfil-Holds b (ask_cancel_groups_of groups) s h = cancel_groups_of-Holds b groups s h
  fulfil-Holds b (ask_delay_all duration) s (clock, q) = (
    clock,
    modify_if-IsFrom (delayed_by duration) b s.task_holder (delayed_by-KeepsFrom b duration) q,
  )
  fulfil-Holds b (ask_delay_group group duration) s (clock, q) = (
    clock,
    modify_if-IsFrom (group_delayed_by group duration) b s.task_holder
        (group_delayed_by-KeepsFrom b group duration) q,
  )
  fulfil-Holds b (ask_reschedule_all duration) s (clock, q) = (
    clock,
    modify_if-IsFrom (moved_to (s.now + duration)) b s.task_holder
        (moved_to-KeepsFrom b (s.now + duration) (omega arith)) q,
  )
  fulfil-Holds b (ask_reschedule_group group duration) s (clock, q) = (
    clock,
    modify_if-IsFrom (group_moved_to group (s.now + duration)) b s.task_holder
        (group_moved_to-KeepsFrom b group (s.now + duration) (omega arith)) q,
  )

  pub fulfil_all-Holds :
      (b : ℕ) (requests : List (Request C)) (s : Scheduler C W)
      → Holds b s
      → Holds b (fulfil_all requests s)
  unfolding fulfil_all
  fulfil_all-Holds b [] s h = h
  fulfil_all-Holds b (r ∷ rs) s h = fulfil_all-Holds b rs (fulfil r s) (fulfil-Holds b r s h)

  cancel_groups_of-now :
      (groups : List ℕ) (s : Scheduler C W) → (cancel_groups_of groups s).now ≡ s.now
  unfolding cancel_groups_of cancel_group
  cancel_groups_of-now [] s = refl
  cancel_groups_of-now (group ∷ groups) s = cancel_groups_of-now groups (cancel_group group s)

  -- Nothing a callable asks for moves the clock.
  pub fulfil-now : (request : Request C) (s : Scheduler C W) → (fulfil request s).now ≡ s.now
  unfolding fulfil schedule schedule_at insert_task async cancel_all cancel_group delay_all
      delay_group reschedule_all reschedule_group
  fulfil-now (ask_schedule time group callable) s = refl
  fulfil-now (ask_async callable) s = refl
  fulfil-now ask_cancel_all s = refl
  fulfil-now (ask_cancel_group group) s = refl
  fulfil-now (ask_cancel_groups_of groups) s = cancel_groups_of-now groups s
  fulfil-now (ask_delay_all duration) s = refl
  fulfil-now (ask_delay_group group duration) s = refl
  fulfil-now (ask_reschedule_all duration) s = refl
  fulfil-now (ask_reschedule_group group duration) s = refl

module _ {C : Type 0} where
  pub shared-from :
      (b c : ℕ) (queue : List (Task C)) (t : Task C)
      → b ≤ c
      → IsFrom c queue
      → b ≤ t.end
      → b ≤ (shared queue t).end
  unfolding shared
  shared-from b c [] t l q le = le
  shared-from b c (u ∷ us) t l (first, q) le =
      ground (arith, shared-from b u.end us t (omega arith) q le)

  pub map-regroup-IsFrom :
      (key : ℕ) (group : Option ℕ) (b : ℕ) (queue : List (Task C))
      → IsFrom b queue
      → IsFrom b (map (regroup key group) queue)
  unfolding regroup
  map-regroup-IsFrom key group b [] q = tt
  map-regroup-IsFrom key group b (u ∷ us) (first, q) = elim (Bool-cases (u.key == key)) [
    | inl e ↦ rw (regroup, e) (first, map-regroup-IsFrom key group u.end us q)
    | inr e ↦ rw (regroup, e) (first, map-regroup-IsFrom key group u.end us q)
  ]

module _ {C W : Type 0} where
  -- The same with the task of the context, for a clock that shows `now`.
  abbrev pub AreFrom : ℕ → ℕ → Context C × Scheduler C W → Type 0
  AreFrom b now (c, s) = (b ≤ c.task.end) × Holds b s × (s.now ≡ now)

  repeat_with-AreFrom :
      (b now duration : ℕ) (c : Context C) (s : Scheduler C W)
      → AreFrom b now (c, s)
      → OnOk (AreFrom b now) (repeat_with duration c s)
  unfolding repeat_with assert_on_consumed repeated_task insert_task
  repeat_with-AreFrom b now duration c s (le, (clock, q), same) = elim (Bool-cases c.consumed) [
    | inl e ↦ rw (repeat_with, e) tt
    | inr e ↦
        rw (repeat_with, e)
          (omega arith, (clock, push-IsFrom b _ s.task_holder (omega arith) q), same)
  ]

  pub act-AreFrom :
      (b now : ℕ) (action : Action C) (c : Context C) (s : Scheduler C W)
      → AreFrom b now (c, s)
      → OnOk (AreFrom b now) (act action c s)
  unfolding act put_group
  act-AreFrom b now (repeat_for duration) c s h = repeat_with-AreFrom b now duration c s h
  act-AreFrom b now repeat c s h = repeat_with-AreFrom b now c.task.duration c s h
  act-AreFrom b now (set_group group) c s (le, (clock, q), same) =
      (le, (clock, map-regroup-IsFrom c.task.key (some group) b s.task_holder q), same)
  act-AreFrom b now clear_group c s (le, (clock, q), same) =
      (le, (clock, map-regroup-IsFrom c.task.key none b s.task_holder q), same)
  act-AreFrom b now (schedule_after time group callable) c s (le, h, same) =
      (le, schedule_at-Holds b c.task.end time group callable s le h, same)
  act-AreFrom b now (ask request) c s (le, h, same) =
      let kept = fulfil-Holds b request s h in
      (
        shared-from b b (fulfil request s).task_holder c.task (omega arith) kept.1 le,
        kept,
        fulfil-now request s ∙ same,
      )

  pub act_all-AreFrom :
      (b now : ℕ) (actions : List (Action C)) (c : Context C) (s : Scheduler C W)
      → AreFrom b now (c, s)
      → OnOk (AreFrom b now) (act_all actions c s)
  unfolding act_all
  act_all-AreFrom b now [] c s h = h
  act_all-AreFrom b now (action ∷ actions) c s h =
      OnOk-bind {P = AreFrom b now} (AreFrom b now) (act action c s) _
        (act-AreFrom b now action c s h) λ (c', s') kept. act_all-AreFrom b now actions c' s' kept
