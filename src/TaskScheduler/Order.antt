-- ===== src/TaskScheduler/Order.antt =====
-- The order of the task queue of src/common/Utilities/TaskScheduler.cpp: ascending by end, which
-- every operation of the queue and of a scheduler keeps.
pub mod Actions
pub mod Runs
use warhead_discord.Prelude.{
  ℕ, ◌+◌, ◌≤◌, ◌<◌, ◌≡◌, refl, ap, Bool, true, false, Option, none, some, List, [], ◌∷◌, map, inl,
  inr, Bool-cases, Option-cases, arith, ltb, if◌then◌else◌,
}
use warhead_discord.TaskScheduler.{
  Task, Scheduler, is_in_group, push, remove_if, untaken, cache_of, insert_all, modify_if,
  delayed_by, group_delayed_by, moved_to, group_moved_to, insert_task, schedule_at, schedule, async,
  cancel_all, cancel_group, cancel_groups_of, delay_all, delay_group, reschedule_all,
  reschedule_group,
}

module _ {C : Type 0} where
  -- Ascending by end, from `t` on.
  abbrev pub IsFrom : ℕ → List (Task C) → Type 0
  IsFrom t [] = Unit {0}
  IsFrom t (u ∷ us) = (t ≤ u.end) × IsFrom u.end us

  -- No task ends before `t`.
  abbrev pub AllFrom : ℕ → List (Task C) → Type 0
  AllFrom t [] = Unit {0}
  AllFrom t (u ∷ us) = (t ≤ u.end) × AllFrom t us

  pub IsFrom-le : (b t : ℕ) (queue : List (Task C)) → b ≤ t → IsFrom t queue → IsFrom b queue
  IsFrom-le b t [] le q = tt
  IsFrom-le b t (u ∷ us) le (first, q) = (omega arith, q)

  pub push-IsFrom :
      (b : ℕ) (t : Task C) (queue : List (Task C))
      → b ≤ t.end
      → IsFrom b queue
      → IsFrom b (push t queue)
  unfolding push
  push-IsFrom b t [] le q = (le, tt)
  push-IsFrom b t (u ∷ us) le (first, q) = elim (Bool-cases (ltb t.end u.end)) [
    | inl e ↦ rw (push, e) (le, (ground arith, q))
    | inr e ↦ rw (push, e) (first, push-IsFrom u.end t us (ground arith) q)
  ]

  pub insert_all-IsFrom :
      (b : ℕ) (ts queue : List (Task C))
      → AllFrom b ts
      → IsFrom b queue
      → IsFrom b (insert_all ts queue)
  unfolding insert_all
  insert_all-IsFrom b [] queue all q = q
  insert_all-IsFrom b (t ∷ ts) queue (le, all) q =
      insert_all-IsFrom b ts (push t queue) all (push-IsFrom b t queue le q)

  pub remove_if-IsFrom :
      (test : Task C → Bool) (b : ℕ) (queue : List (Task C))
      → IsFrom b queue
      → IsFrom b (remove_if test queue)
  unfolding remove_if
  remove_if-IsFrom test b [] q = tt
  remove_if-IsFrom test b (t ∷ ts) (first, q) = elim (Bool-cases (test t)) [
    | inl e ↦
        rw (remove_if, e)
          (IsFrom-le b t.end (remove_if test ts) first (remove_if-IsFrom test t.end ts q))
    | inr e ↦ rw (remove_if, e) (first, remove_if-IsFrom test t.end ts q)
  ]

  pub untaken-IsFrom :
      (change : Task C → Option (Task C)) (b : ℕ) (queue : List (Task C))
      → IsFrom b queue
      → IsFrom b (untaken change queue)
  unfolding untaken
  untaken-IsFrom change b [] q = tt
  untaken-IsFrom change b (t ∷ ts) (first, q) = elim (Option-cases (change t)) [
    | inl e ↦ rw (untaken, e) (first, untaken-IsFrom change t.end ts q)
    | inr (u, e) ↦
        rw (untaken, e)
          (IsFrom-le b t.end (untaken change ts) first (untaken-IsFrom change t.end ts q))
  ]

  -- A change that moves no task before `b`.
  abbrev pub KeepsFrom : ℕ → (Task C → Option (Task C)) → Type 0
  KeepsFrom b change = (t u : Task C) → change t ≡ some u → b ≤ t.end → b ≤ u.end

  cache_of-AllFrom :
      (change : Task C → Option (Task C)) (b t : ℕ) (queue : List (Task C))
      → KeepsFrom b change
      → b ≤ t
      → IsFrom t queue
      → AllFrom b (cache_of change queue)
  unfolding cache_of
  cache_of-AllFrom change b t [] keeps le q = tt
  cache_of-AllFrom change b t (u ∷ us) keeps le (first, q) =
      let rest = cache_of-AllFrom change b u.end us keeps (omega arith) q in
      elim (Option-cases (change u)) [
        | inl e ↦ rw (cache_of, e) rest
        | inr (v, e) ↦ rw (cache_of, e) (keeps u v e (omega arith), rest)
      ]

  pub modify_if-IsFrom :
      (change : Task C → Option (Task C)) (b : ℕ) (queue : List (Task C))
      → KeepsFrom b change
      → IsFrom b queue
      → IsFrom b (modify_if change queue)
  unfolding modify_if
  modify_if-IsFrom change b queue keeps q =
      insert_all-IsFrom b (cache_of change queue) (untaken change queue)
        (cache_of-AllFrom change b b queue keeps (omega arith) q) (untaken-IsFrom change b queue q)

  pub delayed_by-KeepsFrom : (b duration : ℕ) → KeepsFrom b (delayed_by duration)
  unfolding delayed_by
  delayed_by-KeepsFrom b duration t u e le = ground arith

  pub group_delayed_by-KeepsFrom :
      (b group duration : ℕ) → KeepsFrom b (group_delayed_by group duration)
  unfolding group_delayed_by
  group_delayed_by-KeepsFrom b group duration t u e le = ground arith

  pub moved_to-KeepsFrom : (b end : ℕ) → b ≤ end → KeepsFrom b (moved_to end)
  unfolding moved_to
  moved_to-KeepsFrom b end l t u e le = ground arith

  pub group_moved_to-KeepsFrom :
      (b group end : ℕ) → b ≤ end → KeepsFrom b (group_moved_to group end)
  unfolding group_moved_to
  group_moved_to-KeepsFrom b group end l t u e le = ground arith
