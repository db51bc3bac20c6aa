-- ===== src/TaskScheduler/Ending/Calls.antt =====
-- What the call for a task adds to the work of TaskScheduler::Dispatch, of
-- src/common/Utilities/TaskScheduler.cpp.
use warhead_discord.Prelude.{
  ℕ, zero, suc, ◌+◌, ◌-◌, ◌≤◌, ◌<◌, ◌≡◌, ap, sym, subst, Option, none, some, List, [], ◌∷◌, map,
  inl, inr, Bool-cases, arith, ◌==◌, OnOk, OnOk-bind, OnOk-and,
}
use warhead_discord.TaskScheduler.{Task, Scheduler, insert_task, schedule_at}
use warhead_discord.TaskScheduler.Context.{
  Request, Action, repeat_for, repeat, set_group, clear_group, schedule_after, ask, Context, shared,
  regroup, fulfil, assert_on_consumed, repeated_task, repeat_with, put_group, act, act_all,
}
use warhead_discord.TaskScheduler.Measure.{Each, total, push-Fits}
use warhead_discord.TaskScheduler.Order.Actions.{AreFrom, act-AreFrom}
use warhead_discord.TaskScheduler.Ending.{
  times, tree, tree-le, Postpones, MovesOn, HasDuration, prospects, Bounded, schedule_at-Bounded,
  fulfil-Bounded,
}

times_pred : (j n : ℕ) → 0 < j → times j n ≡ n + times (j - 1) n
times_pred zero n h = absurd (omega arith)
times_pred (suc j) n h = let e : j ≡ suc j - 1 = omega arith in ap (λ i. n + times i n) e

module _ {C : Type 0} where
  pub Bounded-le :
      (k now m n : ℕ) (queue : List (Task C))
      → m ≤ n
      → Bounded k now m queue
      → Bounded k now n queue
  Bounded-le k now m n queue l (each, le) = (each, omega arith)

  shared-HasDuration :
      (weigh : Task C → ℕ) (queue : List (Task C)) (t : Task C)
      → Each HasDuration weigh queue
      → HasDuration t
      → HasDuration (shared queue t)
  unfolding shared
  shared-HasDuration weigh [] t each p = p
  shared-HasDuration weigh (u ∷ us) t (q, each) p =
      ground (arith, shared-HasDuration weigh us t each p)

  regroup-Bounded :
      (k now n key : ℕ) (group : Option ℕ) (queue : List (Task C))
      → Bounded k now n queue
      → Bounded k now n (map (regroup key group) queue)
  unfolding regroup
  regroup-Bounded k now n key group [] f = f
  regroup-Bounded k now n key group (u ∷ us) ((p, each), le) =
      let (each', le') =
        regroup-Bounded k now (total HasDuration (prospects k now) us) key group us
          (each, omega arith) in
      elim (Bool-cases (u.key == key)) [
        | inl e ↦ rw (regroup, e) ((p, each'), omega arith)
        | inr e ↦ rw (regroup, e) ((p, each'), omega arith)
      ]

module _ {C W : Type 0} where
  -- The context's task takes its time, and `n` bounds the work of the queue.
  abbrev pub Works : ℕ → ℕ → ℕ → Context C × Scheduler C W → Type 0
  Works k now n (c, s) = HasDuration c.task × Bounded k now n s.task_holder

  abbrev pub Good : ℕ → ℕ → ℕ → ℕ → Context C × Scheduler C W → Type 0
  Good k b now n pair = Works k now n pair × AreFrom b now pair

  repeat_with-Works :
      (k b now n duration : ℕ) (c : Context C) (s : Scheduler C W)
      → 0 < duration
      → b ≤ c.task.end
      → Bounded k now n s.task_holder
      → OnOk (Works k now (tree k (now - b) + n)) (repeat_with duration c s)
  unfolding repeat_with assert_on_consumed repeated_task insert_task
  repeat_with-Works k b now n duration c s later le f = elim (Bool-cases c.consumed) [
    | inl e ↦ rw (repeat_with, e) tt
    | inr e ↦
        let behind = tree-le k (suc now - (c.task.end + duration)) (now - b) (omega arith) in
        rw (repeat_with, e)
          (
            later,
            Bounded-le k now _ (tree k (now - b) + n) _ (omega arith) (
                push-Fits HasDuration (prospects k now) n (repeated_task duration c.task)
                  s.task_holder later f),
          )
  ]

  repeat_with-Good :
      (k b now n duration : ℕ) (c : Context C) (s : Scheduler C W)
      → 0 < duration
      → Good k b now n (c, s)
      → OnOk (Good k b now (tree k (now - b) + n)) (repeat_with duration c s)
  unfolding act
  repeat_with-Good k b now n duration c s later ((p, f), from) =
      OnOk-and (Works k now (tree k (now - b) + n)) (AreFrom b now) (repeat_with duration c s)
        (repeat_with-Works k b now n duration c s later from.0 f)
        (act-AreFrom b now (repeat_for duration) c s from)

  schedule_after-Good :
      (k b now n time : ℕ) (group : Option ℕ) (callable : C) (c : Context C) (s : Scheduler C W)
      → 0 < time
      → Good k b now n (c, s)
      → Good k b now (tree k (now - b) + n) (c, schedule_at c.task.end time group callable s)
  unfolding act
  schedule_after-Good k b now n time group callable c s later ((p, f), from) =
      let behind = tree-le k (suc now - (c.task.end + time)) (now - b) (omega (arith, from.0)) in
      (
        (
          p,
          Bounded-le k now _ (tree k (now - b) + n)
              (schedule_at c.task.end time group callable s).task_holder (omega arith)
              (schedule_at-Bounded k now n c.task.end time group callable s later f),
        ),
        act-AreFrom b now (schedule_after time group callable) c s from,
      )

  put_group-Good :
      (k b now n : ℕ) (group : Option ℕ) (c : Context C) (s : Scheduler C W)
      → Good k b now n (c, s)
      → Good k b now n (put_group group c s)
  unfolding put_group act
  put_group-Good k b now n none c s ((p, f), from) = (
    (p, regroup-Bounded k now n c.task.key none s.task_holder f),
    act-AreFrom b now clear_group c s from,
  )
  put_group-Good k b now n (some group) c s ((p, f), from) = (
    (p, regroup-Bounded k now n c.task.key (some group) s.task_holder f),
    act-AreFrom b now (set_group group) c s from,
  )

  ask-Good :
      (k b now n : ℕ) (request : Request C) (c : Context C) (s : Scheduler C W)
      → Postpones request
      → Good k b now n (c, s)
      → OnOk (Good k b now n) (act (ask request) c s)
  unfolding act
  ask-Good k b now n request c s later ((p, f), from) =
      let (le, h, same) = from in
      let f' =
        subst (λ t. Bounded k t n (fulfil request s).task_holder) same
          (fulfil-Bounded k n request s later
            (subst (λ t. Bounded k t n s.task_holder) (sym same) f)) in
      (
        (shared-HasDuration (prospects k now) (fulfil request s).task_holder c.task f'.0 p, f'),
        act-AreFrom b now (ask request) c s from,
      )

  -- A call that moves on leaves the work that there was without it, and that of its new tasks.
  pub act_all-Good :
      (k b now j m n : ℕ) (actions : List (Action C)) (c : Context C) (s : Scheduler C W)
      → MovesOn j actions
      → m + times j (tree k (now - b)) ≤ n
      → Good k b now m (c, s)
      → OnOk (Good k b now n) (act_all actions c s)
  unfolding act_all act
  act_all-Good k b now j m n [] c s moves le ((p, f), from) =
      ((p, Bounded-le k now m n s.task_holder (omega arith) f), from)
  act_all-Good k b now j m n (repeat_for duration ∷ rest) c s (some_left, later, moves) le g =
      OnOk-bind (Good k b now n) (repeat_with duration c s) _
        (repeat_with-Good k b now m duration c s later g)
        λ (c', s') g'.
          act_all-Good k b now (j - 1) (tree k (now - b) + m) n rest c' s' moves
            (omega (arith, times_pred j (tree k (now - b)) some_left)) g'
  act_all-Good k b now j m n (repeat ∷ rest) c s (some_left, moves) le g =
      OnOk-bind (Good k b now n) (repeat_with c.task.duration c s) _
        (repeat_with-Good k b now m c.task.duration c s g.0.0 g)
        λ (c', s') g'.
          act_all-Good k b now (j - 1) (tree k (now - b) + m) n rest c' s' moves
            (omega (arith, times_pred j (tree k (now - b)) some_left)) g'
  act_all-Good k b now j m n (set_group group ∷ rest) c s moves le g =
      act_all-Good k b now j m n rest _ _ moves le (put_group-Good k b now m (some group) c s g)
  act_all-Good k b now j m n (clear_group ∷ rest) c s moves le g =
      act_all-Good k b now j m n rest _ _ moves le (put_group-Good k b now m none c s g)
  act_all-Good k b now j m n (schedule_after time group callable ∷ rest) c s
        (some_left, later, moves) le g =
      act_all-Good k b now (j - 1) (tree k (now - b) + m) n rest c
        (schedule_at c.task.end time group callable s) moves
        (omega (arith, times_pred j (tree k (now - b)) some_left))
        (schedule_after-Good k b now m time group callable c s later g)
  act_all-Good k b now j m n (ask request ∷ rest) c s (later, moves) le g =
      act_all-Good k b now j m n rest _ _ moves le (ask-Good k b now m request c s later g)
