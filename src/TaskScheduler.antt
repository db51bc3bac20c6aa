-- ===== src/TaskScheduler.antt =====
-- The task scheduler of src/common/Utilities/TaskScheduler.h and TaskScheduler.cpp: its tasks, the
-- queue that holds them in order of their end, and what a scheduler is asked to do.
--
-- Times and durations are numbers of one unit, of which the server uses milliseconds; the steady
-- clock counts far below the range of its 64 bits, and no duration of the program is negative. A
-- callable is a value of a type of its own, and what its call does is a parameter, `Callbacks` of
-- TaskScheduler/Dispatch. A task that is shared between the queue and its context is one task with
-- a key, as its address, in both.
pub mod Context
pub mod Dispatch
pub mod Ending
pub mod Groups
pub mod Measure
pub mod Periods
pub mod Order
use warhead_discord.Prelude.{
  ℕ, ◌+◌, Bool, true, false, Option, none, some, List, [], ◌∷◌, ◌++◌, ltb, ◌==◌, if◌then◌else◌,
}

pub record Task (Callable : Type 0) : Type 0 where
  pub key : ℕ
  pub end : ℕ
  pub duration : ℕ
  pub group : Option ℕ
  pub repeated : ℕ
  pub callable : Callable

-- The validator answers by what holds in the program around the scheduler, its world.
pub record Scheduler (Callable World : Type 0) : Type 0 where
  pub now : ℕ
  pub task_holder : List (Task Callable)
  pub async_holder : List Callable
  pub predicate : World → Bool
  pub next_key : ℕ

abbrev pub empty_validator : {World : Type 0} → World → Bool
empty_validator world = true

abbrev pub is_group : Option ℕ → ℕ → Bool
is_group none group = false
is_group (some g) group = g == group

module _ {C : Type 0} where
  abbrev pub is_in_group : ℕ → Task C → Bool
  is_in_group group t = is_group t.group group

  -- The insertion of a multiset: behind the elements of the same end.
  unfoldable pub push : Task C → List (Task C) → List (Task C)
  push t [] = t ∷ []
  push t (u ∷ us) = let rest = push t us in if ltb t.end u.end then t ∷ u ∷ us else u ∷ rest

  unfoldable pub remove_if : (Task C → Bool) → List (Task C) → List (Task C)
  remove_if test [] = []
  remove_if test (t ∷ ts) = let rest = remove_if test ts in if test t then rest else t ∷ rest

  -- The filter of a modification changes the tasks it takes: the tasks that stay in the container,
  -- and the changed ones, which are taken out.
  unfoldable pub untaken : (Task C → Option (Task C)) → List (Task C) → List (Task C)
  untaken change [] = []
  untaken change (t ∷ ts) =
      let rest = untaken change ts in elim (change t) [ none ↦ t ∷ rest | some u ↦ rest ]

  unfoldable pub cache_of : (Task C → Option (Task C)) → List (Task C) → List (Task C)
  cache_of change [] = []
  cache_of change (t ∷ ts) =
      let rest = cache_of change ts in elim (change t) [ none ↦ rest | some u ↦ u ∷ rest ]

  unfoldable pub insert_all : List (Task C) → List (Task C) → List (Task C)
  unfolding push
  insert_all [] queue = queue
  insert_all (t ∷ ts) queue = insert_all ts (push t queue)

  unfoldable pub modify_if : (Task C → Option (Task C)) → List (Task C) → List (Task C)
  unfolding untaken cache_of insert_all
  modify_if change queue = insert_all (cache_of change queue) (untaken change queue)

  -- The filters of the four modifications.
  unfoldable pub delayed_by : ℕ → Task C → Option (Task C)
  delayed_by duration t = some (record t { end = t.end + duration })

  unfoldable pub group_delayed_by : ℕ → ℕ → Task C → Option (Task C)
  group_delayed_by group duration t =
      if is_in_group group t then some (record t { end = t.end + duration }) else none

  unfoldable pub moved_to : ℕ → Task C → Option (Task C)
  moved_to end t = some (record t { end = end })

  unfoldable pub group_moved_to : ℕ → ℕ → Task C → Option (Task C)
  group_moved_to group end t = if is_in_group group t then some (record t { end = end }) else none

module _ {C W : Type 0} where
  unfoldable pub new_scheduler : (W → Bool) → ℕ → Scheduler C W
  new_scheduler predicate now = record {
    now = now;
    task_holder = [];
    async_holder = [];
    predicate = predicate;
    next_key = 0;
  }

  unfoldable pub set_validator : (W → Bool) → Scheduler C W → Scheduler C W
  set_validator predicate s = record s { predicate = predicate }

  unfoldable pub clear_validator : Scheduler C W → Scheduler C W
  clear_validator s = record s { predicate = empty_validator }

  unfoldable pub insert_task : Task C → Scheduler C W → Scheduler C W
  unfolding push
  insert_task t s = record s { task_holder = push t s.task_holder }

  -- Both overloads of ScheduleAt, without a group and with one.
  unfoldable pub schedule_at : ℕ → ℕ → Option ℕ → C → Scheduler C W → Scheduler C W
  unfolding insert_task
  schedule_at end time group callable s =
      insert_task
        (record {
          key = s.next_key;
          end = end + time;
          duration = time;
          group = group;
          repeated = 0;
          callable = callable;
        })
        (record s { next_key = s.next_key + 1 })

  unfoldable pub schedule : ℕ → Option ℕ → C → Scheduler C W → Scheduler C W
  unfolding schedule_at
  schedule time group callable s = schedule_at s.now time group callable s

  unfoldable pub async : C → Scheduler C W → Scheduler C W
  async callable s = record s { async_holder = s.async_holder ++ callable ∷ [] }

  unfoldable pub cancel_all : Scheduler C W → Scheduler C W
  cancel_all s = record s { task_holder = []; async_holder = [] }

  unfoldable pub cancel_group : ℕ → Scheduler C W → Scheduler C W
  unfolding remove_if
  cancel_group group s = record s { task_holder = remove_if (is_in_group group) s.task_holder }

  unfoldable pub cancel_groups_of : List ℕ → Scheduler C W → Scheduler C W
  unfolding cancel_group
  cancel_groups_of [] s = s
  cancel_groups_of (group ∷ groups) s = cancel_groups_of groups (cancel_group group s)

  unfoldable pub delay_all : ℕ → Scheduler C W → Scheduler C W
  unfolding modify_if delayed_by
  delay_all duration s = record s { task_holder = modify_if (delayed_by duration) s.task_holder }

  unfoldable pub delay_group : ℕ → ℕ → Scheduler C W → Scheduler C W
  unfolding modify_if group_delayed_by
  delay_group group duration s = record s {
    task_holder = modify_if (group_delayed_by group duration) s.task_holder;
  }

  unfoldable pub reschedule_all : ℕ → Scheduler C W → Scheduler C W
  unfolding modify_if moved_to
  reschedule_all duration s = record s {
    task_holder = modify_if (moved_to (s.now + duration)) s.task_holder;
  }

  unfoldable pub reschedule_group : ℕ → ℕ → Scheduler C W → Scheduler C W
  unfolding modify_if group_moved_to
  reschedule_group group duration s = record s {
    task_holder = modify_if (group_moved_to group (s.now + duration)) s.task_holder;
  }
