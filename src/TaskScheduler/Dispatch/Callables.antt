-- ===== src/TaskScheduler/Dispatch/Callables.antt =====
-- The asynchronous callables of TaskScheduler::Dispatch, of
-- src/common/Utilities/TaskScheduler.cpp: what becomes of a callable that cancels everything.
use warhead_discord.Prelude.{ℕ, suc, ◌≡◌, refl, ap, ◌∙◌, true, List, [], ◌∷◌, ◌++◌, err, fault}
use warhead_discord.TaskScheduler.{Scheduler, cancel_all}
use warhead_discord.TaskScheduler.Context.{Request, ask_cancel_all, fulfil, fulfil_all}
use warhead_discord.TaskScheduler.Dispatch.{
  Callbacks, go_on, failed, pop_async, run_async, process_asyncs, dispatch,
}

module _ {C W : Type 0} where
  fulfil_all-append :
      (first later : List (Request C)) (s : Scheduler C W)
      → fulfil_all (first ++ later) s ≡ fulfil_all later (fulfil_all first s)
  unfolding fulfil_all
  fulfil_all-append [] later s = refl
  fulfil_all-append (r ∷ rs) later s = fulfil_all-append rs later (fulfil r s)

  run_async_cancelled :
      (calls : Callbacks C W) (callable : C) (before : List (Request C)) (s : Scheduler C W)
      (world : W)
      → (calls.on_async callable world).0 ≡ before ++ ask_cancel_all ∷ []
      → run_async calls callable s world ≡ err fault
  unfolding run_async pop_async fulfil_all fulfil cancel_all
  run_async_cancelled calls callable before s world e =
      rw (run_async, e, fulfil_all-append before (ask_cancel_all ∷ []) s) refl

  -- A callable whose last request is to cancel everything empties the queue that it stands in
  -- itself, and the dispatching then takes the front of an empty queue, which is left undefined:
  -- whatever else the callable asks for before, and whatever stands behind it.
  pub dispatch-cancel_all :
      (calls : Callbacks C W) (fuel : ℕ) (callback : W → List (Request C) × W) (callable : C)
      (later : List C) (before : List (Request C)) (s : Scheduler C W) (world : W)
      → s.predicate world ≡ true
      → s.async_holder ≡ callable ∷ later
      → (calls.on_async callable world).0 ≡ before ++ ask_cancel_all ∷ []
      → dispatch calls (suc fuel) callback s world ≡ failed fault
  unfolding dispatch process_asyncs
  dispatch-cancel_all calls fuel callback callable later before s world valid holder e =
      let asyncs : process_asyncs calls (suc fuel) s.async_holder s world ≡ failed fault =
        ap (λ queue. process_asyncs calls (suc fuel) queue s world) holder
        ∙ ap (λ result. go_on result λ s' after. process_asyncs calls fuel s'.async_holder s' after)
            (run_async_cancelled calls callable before s world e) in
      simp (dispatch, valid, asyncs) refl
