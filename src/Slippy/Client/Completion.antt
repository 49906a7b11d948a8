-- ===== src/Slippy/Client/Completion.antt =====
-- slippy/executor.go: `checkPipelineCompletion`, and the step methods of steps.go that end in it.
pub mod Verdict
use go_lib_my_carrier.Base.{
  ℕ, Bool, true, false, not, ◌&&◌, ◌||◌, Option, none, some, String, ◌==◌, List, [], ◌∷◌, ◌++◌,
  Assoc, lookup, get_or, insert, concat, is_empty, any, map, Result, ok, err, if◌then◌else◌,
}
use go_lib_my_carrier.Slippy.Errors.{Error, sentinel, wrap, step_error, message, Sentinel}
use go_lib_my_carrier.Slippy.Status.{
  SlipStatus, StepStatus, slip_status_eq, step_status_eq, step_is_terminal,
}
use go_lib_my_carrier.Slippy.Types.{Slip, Step, zero_step}
use go_lib_my_carrier.Slippy.Client.Interface.{SlipStore}
use go_lib_my_carrier.Slippy.Client.Base.{update_slip_status}
use go_lib_my_carrier.Slippy.Client.Steps.{
  write_step, reset_steps_to_pending, canary_skips_to_reset,
}

-- Failed, error and timeout are primary failures; aborted is a cascade of one.
abbrev pub is_primary_failure : StepStatus → Bool
is_primary_failure StepStatus.failed = true
is_primary_failure StepStatus.error = true
is_primary_failure StepStatus.timeout = true
is_primary_failure _ = false

abbrev pub is_cascade_failure : StepStatus → Bool
is_cascade_failure status = step_status_eq status StepStatus.aborted

-- The names of the steps whose status passes a test.
unfoldable pub names_with : (StepStatus → Bool) → Assoc Step → List String
names_with test [] = []
names_with test ((name, step) ∷ steps) =
    let rest = names_with test steps in if test step.status then name ∷ rest else rest

abbrev pub primary_failures : Slip → List String
primary_failures slip = names_with is_primary_failure slip.steps

abbrev pub cascade_failures : Slip → List String
cascade_failures slip = names_with is_cascade_failure slip.steps

-- The resets of the canary skips, with their messages.
unfoldable pub canary_resets : Assoc String → Assoc String
canary_resets [] = []
canary_resets ((name, reason) ∷ rest) =
    insert name (concat ("reset: canary retried after " ∷ reason ∷ [])) (canary_resets rest)

-- The resets of the aborted steps, added to others.
unfoldable pub cascade_resets : List String → Assoc String → Assoc String
cascade_resets [] resets = resets
cascade_resets (name ∷ names) resets =
    cascade_resets names (insert name "reset: upstream failure resolved" resets)

abbrev is_step_completed : Option Step → Bool
is_step_completed none = false
is_step_completed (some step) = step_status_eq step.status StepStatus.completed

abbrev pub steady_state_completed : Slip → Bool
steady_state_completed slip = is_step_completed (lookup "prod_steady_state" slip.steps)

-- What `checkPipelineCompletion` returns.
pub record Completion : Type 0 where
  pub completed : Bool
  pub status : SlipStatus
  pub error : Option Error

abbrev pub settled : Bool → SlipStatus → Completion
settled completed status = record { completed = completed; status = status; error = none }

-- A status that no completion check changes, and what is returned for it.
abbrev pub final_status : SlipStatus → Option Completion
final_status SlipStatus.completed = some (settled true SlipStatus.completed)
final_status SlipStatus.abandoned = some (settled false SlipStatus.abandoned)
final_status SlipStatus.promoted = some (settled false SlipStatus.promoted)
final_status _ = none

abbrev pub status_error : Option Error → Option Error
status_error none = none
status_error (some e) =
    some (wrap "" (sentinel Sentinel.slip_status_update_failed) (concat (": " ∷ message e ∷ [])))

module _ (S : SlipStore) where
  open S use {State, load as store_load}

  -- The write of the overall status, and what is returned with it.
  abbrev pub conclude : ℕ → String → Bool → SlipStatus → State → State × Completion
  conclude now id completed status s =
      let (s', e) = update_slip_status S now id status s in
      (s', record { completed = completed; status = status; error = status_error e })

  -- The recovery of a failed slip with no primary failure left: back to in_progress, unless a reset
  -- failed.
  abbrev pub recovered : ℕ → String → State × List String → State × Completion
  recovered now id (s, failures) =
      if is_empty failures
      then conclude now id false SlipStatus.in_progress s
      else (s, settled false SlipStatus.failed)

  -- The part of `checkPipelineCompletion` after the switch on the slip's own status.
  unfoldable pub complete_steps : ℕ → String → Slip → State → State × Completion
  complete_steps now id slip s =
      let resets = canary_resets (canary_skips_to_reset slip) in
      if not (is_empty (primary_failures slip))
      then conclude now id false SlipStatus.failed (reset_steps_to_pending S now id resets s).0
      else if steady_state_completed slip
      then conclude now id true SlipStatus.completed s
      else if slip_status_eq slip.status SlipStatus.failed
      then recovered now id
          (reset_steps_to_pending S now id (cascade_resets (cascade_failures slip) resets) s)
      else ((reset_steps_to_pending S now id resets s).0, settled false slip.status)

  abbrev pub complete_unless : Option Completion → State → State × Completion → State × Completion
  complete_unless none s k = k
  complete_unless (some c) s k = (s, c)

  abbrev pub complete_loaded : ℕ → String → State → Result Error Slip → State × Completion
  complete_loaded now id s (err e) = (
    s,
    record {
      completed = false;
      status = SlipStatus.unset;
      error = some (
          wrap "" (sentinel Sentinel.slip_not_found)
            (concat (": failed to load slip for completion check: " ∷ message e ∷ [])));
    },
  )
  complete_loaded now id s (ok slip) =
      complete_unless (final_status slip.status) s (complete_steps now id slip s)

  -- `checkPipelineCompletion`.
  unfoldable pub check_pipeline_completion : ℕ → String → State → State × Completion
  check_pipeline_completion now id s = complete_loaded now id s (store_load id s)

  -- A step write that succeeded, followed by a completion check if it is a terminal event of a
  -- pipeline step. The check's error is only logged.
  abbrev pub check_after : ℕ → String → Bool → State × Option Error → State × Option Error
  check_after now id ends (s, some e) = (s, some e)
  check_after now id ends (s, none) =
      if ends then ((check_pipeline_completion now id s).0, none) else (s, none)

  -- `updateStep`.
  unfoldable pub update_step :
      ℕ → String → String → String → StepStatus → String → String → State → State × Option Error
  update_step now id step_name component_name status msg claimed_by s =
      check_after now id (step_is_terminal status && component_name == "")
        (write_step S now id step_name component_name status msg claimed_by s)

  -- `UpdateStepWithStatus`.
  unfoldable pub update_step_with_status :
      ℕ → String → String → String → StepStatus → String → State → State × Option Error
  unfolding update_step
  update_step_with_status now id step_name component_name status msg s =
      update_step now id step_name component_name status msg "" s

  -- `CompleteStep`.
  unfoldable pub complete_step : ℕ → String → String → String → State → State × Option Error
  unfolding update_step_with_status
  complete_step now id step_name component_name s =
      update_step_with_status now id step_name component_name StepStatus.completed
        "step completed successfully" s

  -- `FailStep`.
  unfoldable pub fail_step : ℕ → String → String → String → String → State → State × Option Error
  unfolding update_step_with_status
  fail_step now id step_name component_name reason s =
      update_step_with_status now id step_name component_name StepStatus.failed reason s

  -- `StartStep`.
  unfoldable pub start_step : ℕ → String → String → String → String → State → State × Option Error
  unfolding update_step
  start_step now id step_name component_name claimed_by s =
      update_step now id step_name component_name StepStatus.running "step started" claimed_by s

  -- `HoldStep`.
  unfoldable pub hold_step : ℕ → String → String → String → String → State → State × Option Error
  unfolding update_step_with_status
  hold_step now id step_name component_name waiting_for s =
      update_step_with_status now id step_name component_name StepStatus.held
        (concat ("waiting for: " ∷ waiting_for ∷ [])) s

  -- `AbortStep`.
  unfoldable pub abort_step : ℕ → String → String → String → String → State → State × Option Error
  unfolding update_step_with_status
  abort_step now id step_name component_name reason s =
      update_step_with_status now id step_name component_name StepStatus.aborted reason s

  -- `TimeoutStep`.
  unfoldable pub timeout_step : ℕ → String → String → String → String → State → State × Option Error
  unfolding update_step_with_status
  timeout_step now id step_name component_name reason s =
      update_step_with_status now id step_name component_name StepStatus.timeout reason s

  -- `UpdateComponentBuildStatus` and `UpdateComponentTestStatus`.
  unfoldable pub update_component_build_status :
      ℕ → String → String → StepStatus → String → State → State × Option Error
  unfolding update_step_with_status
  update_component_build_status now id component_name status msg s =
      update_step_with_status now id "build" component_name status msg s

  unfoldable pub update_component_test_status :
      ℕ → String → String → StepStatus → String → State → State × Option Error
  unfolding update_step_with_status
  update_component_test_status now id component_name status msg s =
      update_step_with_status now id "unit_test" component_name status msg s

  -- `skipGuardedSteps`
  abbrev pub is_skip_guarded : String → Bool
  is_skip_guarded name =
      any (λ n. n == name)
        ("prod_canary" ∷ "preprod_rollback_test" ∷ "prod_deploy" ∷ "prod_tests" ∷ [])

  abbrev skip_loaded :
      String
      → String
      → String
      → Result Error Slip
      → State
      → State × Option Error
      → State × Option Error
  skip_loaded id step_name component_name (err e) s k =
      (s, some (step_error "skip" id step_name component_name e))
  skip_loaded id step_name component_name (ok slip) s k =
      if step_status_eq (get_or step_name zero_step slip.steps).status StepStatus.failed
      then (
        s,
        some (
            step_error "skip" id step_name component_name
              (sentinel Sentinel.skip_over_failed_canary)),
      )
      else k

  -- `SkipStep`: a failed canary or prod deploy step is never overwritten.
  unfoldable pub skip_step : ℕ → String → String → String → String → State → State × Option Error
  unfolding update_step_with_status
  skip_step now id step_name component_name reason s =
      let write =
        update_step_with_status now id step_name component_name StepStatus.skipped reason s in
      if is_skip_guarded step_name
      then skip_loaded id step_name component_name (store_load id s) s write
      else write
