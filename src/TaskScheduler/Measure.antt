-- ===== src/TaskScheduler/Measure.antt =====
-- Measures of the task queue of src/common/Utilities/TaskScheduler.cpp: a property of every task,
-- and a sum over the tasks, through the operations of the queue.
use warhead_discord.Prelude.{
  ℕ, ◌+◌, ◌-◌, ◌≤◌, ◌≡◌, Bool, Option, some, List, [], ◌∷◌, inl, inr, Bool-cases, Option-cases,
  arith, ltb,
}
use warhead_discord.TaskScheduler.{Task, push, remove_if, untaken, cache_of, insert_all, modify_if}

module _ {C : Type 0} (P : Task C → Type 0) (weigh : Task C → ℕ) where
  -- Every task has the property.
  abbrev pub Each : List (Task C) → Type 0
  Each [] = Unit {0}
  Each (t ∷ ts) = P t × Each ts

  abbrev pub total : List (Task C) → ℕ
  total [] = 0
  total (t ∷ ts) = weigh t + total ts

  -- Every task has the property, and together they weigh `n` at most.
  abbrev pub Fits : ℕ → List (Task C) → Type 0
  Fits n queue = Each queue × (total queue ≤ n)

  -- A change that keeps the property and makes no task heavier.
  abbrev pub Lightens : (Task C → Option (Task C)) → Type 0
  Lightens change = (t u : Task C) → change t ≡ some u → P t → P u × (weigh u ≤ weigh t)

  pub push-Fits :
      (n : ℕ) (t : Task C) (queue : List (Task C))
      → P t
      → Fits n queue
      → Fits (weigh t + n) (push t queue)
  unfolding push
  push-Fits n t [] p (each, le) = ((p, tt), omega arith)
  push-Fits n t (u ∷ us) p ((q, each), le) = elim (Bool-cases (ltb t.end u.end)) [
    | inl e ↦ rw (push, e) ((p, (q, each)), omega arith)
    | inr e ↦
        let (each', le') = push-Fits (total us) t us p (each, omega arith) in
        rw (push, e) ((q, each'), omega arith)
  ]

  pub insert_all-Fits :
      (n : ℕ) (ts queue : List (Task C))
      → Each ts
      → Fits n queue
      → Fits (total ts + n) (insert_all ts queue)
  unfolding insert_all
  insert_all-Fits n [] queue all (each, le) = (each, omega arith)
  insert_all-Fits n (t ∷ ts) queue (p, all) f =
      let (each, le) =
        insert_all-Fits (weigh t + n) ts (push t queue) all (push-Fits n t queue p f) in
      (each, omega arith)

  pub remove_if-Fits :
      (test : Task C → Bool) (n : ℕ) (queue : List (Task C))
      → Fits n queue
      → Fits n (remove_if test queue)
  unfolding remove_if
  remove_if-Fits test n [] f = f
  remove_if-Fits test n (t ∷ ts) ((p, each), le) =
      let (each', le') = remove_if-Fits test (total ts) ts (each, omega arith) in
      elim (Bool-cases (test t)) [
        | inl e ↦ rw (remove_if, e) (each', omega arith)
        | inr e ↦ rw (remove_if, e) ((p, each'), omega arith)
      ]

  untaken-Fits :
      (change : Task C → Option (Task C)) (queue : List (Task C))
      → Lightens change
      → Each queue
      → Each (cache_of change queue)
        × Fits (total queue - total (cache_of change queue)) (untaken change queue)
        × (total (cache_of change queue) ≤ total queue)
  unfolding untaken cache_of
  untaken-Fits change [] lighter each = (tt, (tt, omega arith), omega arith)
  untaken-Fits change (t ∷ ts) lighter (p, each) =
      let (cached, (stay, le), less) = untaken-Fits change ts lighter each in
      elim (Option-cases (change t)) [
        | inl e ↦ rw (untaken, cache_of, e) (cached, ((p, stay), omega arith), omega arith)
        | inr (u, e) ↦
            let (q, light) = lighter t u e p in
            rw (untaken, cache_of, e) ((q, cached), (stay, omega arith), omega arith)
      ]

  pub modify_if-Fits :
      (change : Task C → Option (Task C)) (n : ℕ) (queue : List (Task C))
      → Lightens change
      → Fits n queue
      → Fits n (modify_if change queue)
  unfolding modify_if
  modify_if-Fits change n queue lighter (each, le) =
      let (cached, stay, less) = untaken-Fits change queue lighter each in
      let (each', le') =
        insert_all-Fits _ (cache_of change queue) (untaken change queue) cached stay in
      (each', omega arith)
