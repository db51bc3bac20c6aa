-- ===== src/TaskScheduler/Groups.antt =====
-- The operations on groups of tasks, of src/common/Utilities/TaskScheduler.h and
-- TaskScheduler.cpp: which tasks they leave, take away and move.
use warhead_discord.Prelude.{
  ℕ, ◌+◌, ◌≤◌, ◌≡◌, refl, ap, ap₂, sym, ◌∙◌, subst, Bool, true, false, ◌||◌, Option, none, some,
  List, [], ◌∷◌, ◌++◌, map, inl, inr, Bool-cases, Option-cases, arith, ltb, if◌then◌else◌,
}
use mathlib.Core.List.Perm
use mathlib.Core.List.{Perm, perm_middle}
use warhead_discord.TaskScheduler.{
  Task, Scheduler, is_in_group, push, remove_if, untaken, cache_of, insert_all, modify_if,
  group_delayed_by, group_moved_to, cancel_group, cancel_groups_of, delay_group, reschedule_group,
}
use warhead_discord.TaskScheduler.Order.{
  IsFrom, modify_if-IsFrom, group_delayed_by-KeepsFrom, group_moved_to-KeepsFrom,
}

module _ {C : Type 0} where
  abbrev pub in_some_of : List ℕ → Task C → Bool
  in_some_of [] t = false
  in_some_of (group ∷ groups) t = is_in_group group t || in_some_of groups t

  remove_if_or :
      (p q : Task C → Bool) (queue : List (Task C))
      → remove_if q (remove_if p queue) ≡ remove_if (λ t. p t || q t) queue
  unfolding remove_if
  remove_if_or p q [] = refl
  remove_if_or p q (t ∷ ts) = elim (Bool-cases (p t)) [
    | inl taken ↦ rw (remove_if, taken) (remove_if_or p q ts)
    | inr stays ↦ elim (Bool-cases (q t)) [
      | inl taken ↦ rw (remove_if, stays, taken) (remove_if_or p q ts)
      | inr too ↦ rw (remove_if, stays, too) (ap (◌∷◌ t) (remove_if_or p q ts))
    ]
  ]

  remove_if_none : (queue : List (Task C)) → remove_if (λ t. false) queue ≡ queue
  unfolding remove_if
  remove_if_none [] = refl
  remove_if_none (t ∷ ts) = ap (◌∷◌ t) (remove_if_none ts)

  push-Perm : (t : Task C) (queue : List (Task C)) → Perm (push t queue) (t ∷ queue)
  unfolding push
  push-Perm t [] = Perm.rfl
  push-Perm t (u ∷ us) = elim (Bool-cases (ltb t.end u.end)) [
    | inl e ↦ rw (push, e) Perm.rfl
    | inr e ↦ rw (push, e) (Perm.trans (Perm.cons u (push-Perm t us)) (Perm.swap t u us))
  ]

  insert_all-Perm : (ts queue : List (Task C)) → Perm (insert_all ts queue) (ts ++ queue)
  unfolding insert_all
  insert_all-Perm [] queue = Perm.rfl
  insert_all-Perm (t ∷ ts) queue =
      Perm.trans (insert_all-Perm ts (push t queue))
        (Perm.trans (Perm.append_left ts (push-Perm t queue)) (perm_middle ts queue))

  -- A task as a modification leaves it.
  abbrev pub changed : (Task C → Option (Task C)) → Task C → Task C
  changed change t = elim (change t) [ none ↦ t | some u ↦ u ]

  parts-Perm :
      (change : Task C → Option (Task C)) (queue : List (Task C))
      → Perm (cache_of change queue ++ untaken change queue) (map (changed change) queue)
  unfolding cache_of untaken
  parts-Perm change [] = Perm.rfl
  parts-Perm change (t ∷ ts) = elim (Option-cases (change t)) [
    | inl e ↦
        rw (cache_of, untaken, changed, e)
          (Perm.trans (perm_middle (cache_of change ts) (untaken change ts))
            (Perm.cons t (parts-Perm change ts)))
    | inr (u, e) ↦ rw (cache_of, untaken, changed, e) (Perm.cons u (parts-Perm change ts))
  ]

  -- A modification loses no task and adds none.
  modify_if-Perm :
      (change : Task C → Option (Task C)) (queue : List (Task C))
      → Perm (modify_if change queue) (map (changed change) queue)
  unfolding modify_if
  modify_if-Perm change queue =
      Perm.trans (insert_all-Perm (cache_of change queue) (untaken change queue))
        (parts-Perm change queue)

  -- A task of the group with another end, and any other task as it is.
  abbrev pub with_end : (ℕ → ℕ) → ℕ → Task C → Task C
  with_end move group t = if is_in_group group t then record t { end = move t.end } else t

  map-cong :
      (f g : Task C → Task C) (queue : List (Task C))
      → ((t : Task C) → f t ≡ g t)
      → map f queue ≡ map g queue
  map-cong f g [] e = refl
  map-cong f g (t ∷ ts) e = ap₂ ◌∷◌ (e t) (map-cong f g ts e)

  chosen :
      (b : Bool) (t u : Task C)
      → (elim (if b then some u else none) [ none ↦ t | some v ↦ v ]) ≡ (if b then u else t)
  chosen true t u = refl
  chosen false t u = refl

  delayed :
      (group duration : ℕ) (t : Task C)
      → changed (group_delayed_by group duration) t ≡ with_end (λ end. end + duration) group t
  unfolding group_delayed_by
  delayed group duration t = chosen (is_in_group group t) t (record t { end = t.end + duration })

  moved :
      (group end : ℕ) (t : Task C)
      → changed (group_moved_to group end) t ≡ with_end (λ e. end) group t
  unfolding group_moved_to
  moved group end t = chosen (is_in_group group t) t (record t { end = end })

module _ {C W : Type 0} where
  -- The groups that are given are gone from the queue, and all other tasks are in it as they were,
  -- in the order they had; nothing else of the scheduler has changed.
  pub cancel_groups_of-task_holder :
      (groups : List ℕ) (s : Scheduler C W)
      → cancel_groups_of groups s
        ≡ record s { task_holder = remove_if (in_some_of groups) s.task_holder }
  unfolding cancel_groups_of cancel_group
  cancel_groups_of-task_holder [] s =
      ap (λ q. record s { task_holder = q }) (sym (remove_if_none s.task_holder))
  cancel_groups_of-task_holder (group ∷ groups) s =
      cancel_groups_of-task_holder groups (cancel_group group s)
      ∙ ap (λ q. record s { task_holder = q })
          (remove_if_or (is_in_group group) (in_some_of groups) s.task_holder)

  -- Delaying a group, and rescheduling one, moves the ends of the tasks of the group, of each by
  -- the duration or to the duration from now on, and loses, adds and changes no task besides; the
  -- queue is in order afterwards as it was before.
  pub delay_group-reschedule_group :
      (b group duration : ℕ) (s : Scheduler C W)
      → b ≤ s.now
      → IsFrom b s.task_holder
      → Perm
          (delay_group group duration s).task_holder
          (map (with_end (λ end. end + duration) group) s.task_holder)
        × IsFrom b (delay_group group duration s).task_holder
        × Perm
            (reschedule_group group duration s).task_holder
            (map (with_end (λ end. s.now + duration) group) s.task_holder)
        × IsFrom b (reschedule_group group duration s).task_holder
  unfolding delay_group reschedule_group
  delay_group-reschedule_group b group duration s le q = (
    subst (Perm _)
        (map-cong (changed (group_delayed_by group duration)) _ s.task_holder
          (delayed group duration))
        (modify_if-Perm (group_delayed_by group duration) s.task_holder),
    modify_if-IsFrom (group_delayed_by group duration) b s.task_holder
        (group_delayed_by-KeepsFrom b group duration) q,
    subst (Perm _)
        (map-cong (changed (group_moved_to group (s.now + duration))) _ s.task_holder
          (moved group (s.now + duration)))
        (modify_if-Perm (group_moved_to group (s.now + duration)) s.task_holder),
    modify_if-IsFrom (group_moved_to group (s.now + duration)) b s.task_holder
        (group_moved_to-KeepsFrom b group (s.now + duration) (omega arith)) q,
  )
