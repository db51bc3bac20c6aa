-- ===== src/TaskScheduler/Periods/Both.antt =====
-- One dispatching of the two tasks of the server's scheduler, of src/server/Discord/Discord.cpp.
use warhead_discord.Prelude.{
  ℕ, zero, suc, ◌+◌, ◌-◌, ◌*◌, ◌≤◌, ◌<◌, ◌≡◌, refl, ap, sym, ◌∙◌, subst, Bool, true, false, ok,
  List, [], ◌∷◌, inl, inr, Bool-cases, arith, ltb, lt→ltb, le→ltb,
}
use warhead_discord.TaskScheduler.{Task, Scheduler, push}
use warhead_discord.TaskScheduler.Dispatch.{Callbacks, Outcome, completed, invoke, run_tasks}
use warhead_discord.TaskScheduler.Periods.{ServerTask, Counts, server_calls}
use warhead_discord.TaskScheduler.Periods.Tasks.{
  keep_task, diff_task, both, server_at, counts, keep_invoked, diff_invoked,
}

module _ {C W : Type 0} where
  run_tasks_wait :
      (calls : Callbacks C W) (fuel : ℕ) (t : Task C) (later : List (Task C)) (s : Scheduler C W)
      (world : W)
      → s.now < t.end
      → run_tasks calls fuel (t ∷ later) s world ≡ completed s world
  unfolding run_tasks
  run_tasks_wait calls zero t later s world wait = rw (run_tasks, lt→ltb s.now t.end wait) refl
  run_tasks_wait calls (suc fuel) t later s world wait =
      rw (run_tasks, lt→ltb s.now t.end wait) refl

  run_tasks_due :
      (calls : Callbacks C W) (fuel : ℕ) (t : Task C) (later : List (Task C)) (s s' : Scheduler C W)
      (world after : W)
      → t.end ≤ s.now
      → invoke calls t (record s { task_holder = later }) world ≡ ok (s', after)
      → s'.predicate after ≡ true
      → run_tasks calls (suc fuel) (t ∷ later) s world
        ≡ run_tasks calls fuel s'.task_holder s' after
  unfolding run_tasks
  run_tasks_due calls fuel t later s s' world after due call valid =
      rw (run_tasks, le→ltb s.now t.end due, call, valid) refl

-- The first of the two ends no later than the second.
abbrev pub InOrder : Bool → ℕ → ℕ → ℕ → Type 0
InOrder true start a b = start + 1800000 * suc a ≤ start + 15000 + 300000 * b
InOrder false start a b = start + 15000 + 300000 * b ≤ start + 1800000 * suc a

-- At `now` neither has run before its time, and neither is late.
abbrev pub NoneEarly : ℕ → ℕ → ℕ → ℕ → Type 0
NoneEarly start now a b = (start + 1800000 * a ≤ now) × (start + 300000 * b ≤ now + 285000)

abbrev pub NoneLate : ℕ → ℕ → ℕ → ℕ → Type 0
NoneLate start now a b = (now < start + 1800000 * suc a) × (now < start + 15000 + 300000 * b)

pub keep_pushed :
    (start a b : ℕ)
    → (order : Bool) × (push (keep_task start (suc a)) (diff_task start b ∷ [])
        ≡ both order start (suc a) b)
      × InOrder order start (suc a) b
unfolding push
keep_pushed start a b =
    elim (Bool-cases (ltb (start + 1800000 * suc (suc a)) (start + 15000 + 300000 * b))) [
      | inl e ↦ (true, rw (push, e) refl, ground arith)
      | inr e ↦ (false, rw (push, e) refl, ground arith)
    ]

pub diff_pushed :
    (start a b : ℕ)
    → (order : Bool) × (push (diff_task start (suc b)) (keep_task start a ∷ [])
        ≡ both order start a (suc b))
      × InOrder order start a (suc b)
unfolding push
diff_pushed start a b =
    elim (Bool-cases (ltb (start + 15000 + 300000 * suc b) (start + 1800000 * suc a))) [
      | inl e ↦ (false, rw (push, e) refl, ground arith)
      | inr e ↦ (true, rw (push, e) refl, ground arith)
    ]

-- What a dispatching comes to.
abbrev pub CatchesUp : ℕ → ℕ → Outcome ServerTask Counts → Type 0
CatchesUp start now outcome =
    (a b : ℕ) × (order : Bool) × (outcome
      ≡ completed (server_at now (both order start a b)) (counts a b))
    × InOrder order start a b
    × NoneEarly start now a b
    × NoneLate start now a b

abbrev pub work : ℕ → ℕ → ℕ → ℕ → ℕ
work start now a b =
    (suc now - (start + 1800000 * suc a)) + (suc now - (start + 15000 + 300000 * b))

pub keep_runs :
    (fuel start now a b : ℕ) (order : Bool)
    → start + 1800000 * suc a ≤ now
    → push (keep_task start (suc a)) (diff_task start b ∷ []) ≡ both order start (suc a) b
    → run_tasks server_calls
        (suc fuel)
        (both true start a b)
        (server_at now (both true start a b))
        (counts a b)
      ≡ run_tasks server_calls fuel
          (both order start (suc a) b)
          (server_at now (both order start (suc a) b))
          (counts (suc a) b)
keep_runs fuel start now a b order due e =
    run_tasks_due server_calls fuel (keep_task start a) (diff_task start b ∷ []) _ _ (counts a b)
      (counts (suc a) b) due (keep_invoked now start a b) refl
    ∙ ap (λ q. run_tasks server_calls fuel q (server_at now q) (counts (suc a) b)) e

pub diff_runs :
    (fuel start now a b : ℕ) (order : Bool)
    → start + 15000 + 300000 * b ≤ now
    → push (diff_task start (suc b)) (keep_task start a ∷ []) ≡ both order start a (suc b)
    → run_tasks server_calls
        (suc fuel)
        (both false start a b)
        (server_at now (both false start a b))
        (counts a b)
      ≡ run_tasks server_calls fuel
          (both order start a (suc b))
          (server_at now (both order start a (suc b)))
          (counts a (suc b))
diff_runs fuel start now a b order due e =
    run_tasks_due server_calls fuel (diff_task start b) (keep_task start a ∷ []) _ _ (counts a b)
      (counts a (suc b)) due (diff_invoked now start a b) refl
    ∙ ap (λ q. run_tasks server_calls fuel q (server_at now q) (counts a (suc b))) e

-- A dispatching that has nothing to do.
pub both_wait :
    (fuel start now a b : ℕ) (order : Bool)
    → InOrder order start a b
    → NoneEarly start now a b
    → NoneLate start now a b
    → CatchesUp start now (
        run_tasks server_calls fuel
          (both order start a b)
          (server_at now (both order start a b))
          (counts a b))
both_wait fuel start now a b true o early (keep, diff) = (
  a,
  b,
  true,
  run_tasks_wait server_calls fuel (keep_task start a) (diff_task start b ∷ []) _ (counts a b) keep,
  o,
  early,
  (keep, diff),
)
both_wait fuel start now a b false o early (keep, diff) = (
  a,
  b,
  false,
  run_tasks_wait server_calls fuel (diff_task start b) (keep_task start a ∷ []) _ (counts a b) diff,
  o,
  early,
  (keep, diff),
)

pub nothing_left : (start now a b : ℕ) → work start now a b ≤ 0 → NoneLate start now a b
nothing_left start now a b le = (omega arith, omega arith)

pub run_both :
    (fuel start now a b : ℕ) (order : Bool)
    → InOrder order start a b
    → NoneEarly start now a b
    → work start now a b ≤ fuel
    → CatchesUp start now (
        run_tasks server_calls fuel
          (both order start a b)
          (server_at now (both order start a b))
          (counts a b))
run_both zero start now a b order o early le =
    both_wait 0 start now a b order o early (nothing_left start now a b le)
run_both (suc fuel) start now a b true o (ea, eb) le =
    elim (Bool-cases (ltb now (start + 1800000 * suc a))) [
      | inl wait ↦
          let time : now < start + 1800000 * suc a = ground arith in
          both_wait (suc fuel) start now a b true o (ea, eb) (time, omega arith)
      | inr due ↦
          let time : start + 1800000 * suc a ≤ now = ground arith in
          let (order, e, o') = keep_pushed start a b in
          subst (CatchesUp start now) (sym (keep_runs fuel start now a b order time e))
            (run_both fuel start now (suc a) b order o' (time, eb) (omega arith))
    ]
run_both (suc fuel) start now a b false o (ea, eb) le =
    elim (Bool-cases (ltb now (start + 15000 + 300000 * b))) [
      | inl wait ↦
          let time : now < start + 15000 + 300000 * b = ground arith in
          both_wait (suc fuel) start now a b false o (ea, eb) (omega arith, time)
      | inr due ↦
          let time : start + 15000 + 300000 * b ≤ now = ground arith in
          let (order, e, o') = diff_pushed start a b in
          subst (CatchesUp start now) (sym (diff_runs fuel start now a b order time e))
            (run_both fuel start now a (suc b) order o' (ea, omega arith) (omega arith))
    ]
