-- ===== src/Slippy/Postgres/Quiescence.antt =====
-- slippy/postgres_store.go: the run of a slip, as the claim state and the whole row tell it.
use go_lib_my_carrier.Base.{
  ◌≡◌, refl, ◌∙◌, ap, ◌||◌, inl, inr, Bool-cases, some, Option-cases, String, ◌==◌, List, [], ◌∷◌,
  Assoc, lookup, insert, any, arith, eq_iff,
}
use go_lib_my_carrier.Slippy.Types.{Step, StateHistoryEntry}
use go_lib_my_carrier.Slippy.Claim.Decide.{run_in_flight, step_in_flight}
use go_lib_my_carrier.Slippy.Pipeline.Config.{PipelineConfig}
use go_lib_my_carrier.Slippy.Postgres.State.{Row, StepDetail}
use go_lib_my_carrier.Slippy.Postgres.Columns.{
  merge_detail, adjust_step, merge_step_details, StepTiming, fill_timing, fill_timings,
  history_timing, reconstruct_step_timing, steps_from_statuses, populate, claim_state,
}

-- A step that is changed in its place without a change of its status.
any-insert :
    (name : String) (old new : Step) (steps : Assoc Step)
    → lookup name steps ≡ some old
    → new.status ≡ old.status
    → any step_in_flight (insert name new steps) ≡ any step_in_flight steps
unfolding lookup insert
any-insert name old new [] found same = cc
any-insert name old new ((key, step) ∷ steps) found same = elim (Bool-cases (key == name)) [
  | inl here ↦
      let e : step ≡ old = ground (arith, rw here at found) in
      let k : key ≡ name = (eq_iff key name).0 here in rw (here, e, k, same) refl
  | inr later ↦ rw later (
      ap (λ rest. step_in_flight (key, step) || rest)
        (any-insert name old new steps (rw later at found) same))
]

any-adjust :
    (name : String) (f : Step → Step) (steps : Assoc Step)
    → ((step : Step) → (f step).status ≡ step.status)
    → any step_in_flight (adjust_step name f steps) ≡ any step_in_flight steps
any-adjust name f steps keeps = elim (Option-cases (lookup name steps)) [
  | inl absent ↦ rw absent refl
  | inr (step, found) ↦ rw found (any-insert name step (f step) steps found (keeps step))
]

any-merge :
    (details : Assoc StepDetail) (steps : Assoc Step)
    → any step_in_flight (merge_step_details details steps) ≡ any step_in_flight steps
unfolding merge_step_details
any-merge [] steps = refl
any-merge ((name, detail) ∷ details) steps =
    any-merge details (adjust_step name (merge_detail detail) steps)
    ∙ any-adjust name (merge_detail detail) steps (λ step. refl)

any-fill :
    (timings : Assoc StepTiming) (steps : Assoc Step)
    → any step_in_flight (fill_timings timings steps) ≡ any step_in_flight steps
unfolding fill_timings
any-fill [] steps = refl
any-fill ((name, timing) ∷ timings) steps =
    any-fill timings (adjust_step name (fill_timing timing) steps)
    ∙ any-adjust name (fill_timing timing) steps (λ step. refl)

any-reconstruct :
    (history : List StateHistoryEntry) (steps : Assoc Step)
    → any step_in_flight (reconstruct_step_timing history steps) ≡ any step_in_flight steps
unfolding reconstruct_step_timing
any-reconstruct history steps = any-fill (history_timing history []) steps

-- The columns that a claim reads under the lock say of every row whether its run is in flight as
-- the whole row does.
pub run_in_flight-claim_state :
    (config : PipelineConfig) (id : String) (row : Row)
    → run_in_flight (claim_state config id row) ≡ run_in_flight (populate config row)
unfolding run_in_flight claim_state populate
run_in_flight-claim_state config id row =
    let steps = steps_from_statuses config.steps row.step_statuses [] in
    rw
      (
        any-reconstruct row.state_history (merge_step_details row.step_details steps),
        any-merge row.step_details steps,
      )
      refl
