-- ===== src/Tests/Client.antt =====
-- Runs of the client's theorems over the in-memory store.
use mathlib.Core.List.Perm
use go_lib_my_carrier.Slippy.Client.History.{recent}
use go_lib_my_carrier.Slippy.Client.History.Recent.{recent_lem}
use go_lib_my_carrier.Slippy.Client.Hold.{prerequisite_error}
use go_lib_my_carrier.Slippy.Client.Hold.Ends.{hold_result-timeout}
use go_lib_my_carrier.Slippy.Types.{StateHistoryEntry}
use go_lib_my_carrier.Base.{
  ℕ, length, ◌++◌, ◌≡◌, ◌↔◌, ◌⊎◌, refl, true, false, none, some, String, List, [], ◌∷◌, Assoc,
  lookup, ok,
}
use go_lib_my_carrier.Slippy.Status.{SlipStatus, StepStatus, PrereqStatus}
use go_lib_my_carrier.Slippy.Types.{ComponentStepData}
use go_lib_my_carrier.Slippy.Aggregate.{compute_aggregate_status}
use go_lib_my_carrier.Slippy.Aggregate.Spec.{
  compute_aggregate_status_lem, compute_aggregate_status-perm,
}
use go_lib_my_carrier.Slippy.Claim.Decide.{decide_claim}
use go_lib_my_carrier.Slippy.Claim.Outcome.{decide_claim_lem}
use go_lib_my_carrier.Slippy.Client.Base.{default_config}
use go_lib_my_carrier.Slippy.Client.InMemory.{in_memory, in_memory-IsSlipStore}
use go_lib_my_carrier.Slippy.Client.Prereqs.{check_prerequisites, get_prereq_status, trim_space}
use go_lib_my_carrier.Slippy.Client.Prereqs.Verdict.{
  check_prerequisites-status, check_prerequisites-failed,
}
use go_lib_my_carrier.Slippy.Store.State.{MockStore}
use go_lib_my_carrier.Slippy.Store.Reads.{load}
use go_lib_my_carrier.Slippy.Client.Completion.{
  check_pipeline_completion, update_step, primary_failures, steady_state_completed, complete_steps,
}
use go_lib_my_carrier.Slippy.Client.Completion.Verdict.{check_pipeline_completion-status, status_of}
use go_lib_my_carrier.Slippy.Client.Hold.{wait_loop, wait_for_prerequisites, cancelled_error, Poll}
use go_lib_my_carrier.Slippy.Client.Hold.Rounds.{AreMet, wait_loop-HasEnded, HasEnded}
use go_lib_my_carrier.Slippy.Client.Hold.Ends.{wait_for_prerequisites-met, hold_result-cancelled}
use go_lib_my_carrier.Slippy.Client.Waiting.{HoldOutcome, hold_result}
use go_lib_my_carrier.Tests.Data.{running_slip, three_slips, hold_options, show_duration, poll_at}

decide_claim_lem_example :
    (decide_claim SlipStatus.failed SlipStatus.unset false []
      ≡ ok (record { prior = SlipStatus.failed; write = true }))
    ↔ ((false ≡ false) × (true ≡ true) × (true ≡ true))
decide_claim_lem_example = decide_claim_lem SlipStatus.failed SlipStatus.unset false []

abbrev component_at : String → StepStatus → ComponentStepData
component_at name status = record {
  component = name;
  dockerfile_path = "";
  status = status;
  started_at = none;
  completed_at = none;
  actor = "";
  error = "";
  image_tag = "";
}

abbrev two_components : List ComponentStepData
two_components =
    component_at "api" StepStatus.completed ∷ component_at "web" StepStatus.pending ∷ []

abbrev two_swapped : List ComponentStepData
two_swapped = component_at "web" StepStatus.pending ∷ component_at "api" StepStatus.completed ∷ []

compute_aggregate_status_lem_example : compute_aggregate_status two_components ≡ StepStatus.running
compute_aggregate_status_lem_example = compute_aggregate_status_lem two_components

compute_aggregate_status-perm_example :
    compute_aggregate_status two_components ≡ compute_aggregate_status two_swapped
compute_aggregate_status-perm_example =
    compute_aggregate_status-perm two_components two_swapped (Perm.swap _ _ [])

check_pipeline_completion-status_example :
    status_of (load "b" (check_pipeline_completion in_memory 7 "b" three_slips).0)
    ≡ some (check_pipeline_completion in_memory 7 "b" three_slips).1.status
unfolding load lookup check_pipeline_completion complete_steps
    go_lib_my_carrier.Slippy.Client.Completion.names_with
    go_lib_my_carrier.Slippy.Client.Base.update_slip_status
    go_lib_my_carrier.Slippy.Store.Claims.update_slip_status
    go_lib_my_carrier.Slippy.Client.Steps.reset_steps_to_pending
    go_lib_my_carrier.Slippy.Client.Completion.canary_resets
    go_lib_my_carrier.Slippy.Client.Steps.canary_skips_to_reset
check_pipeline_completion-status_example =
    check_pipeline_completion-status in_memory in_memory-IsSlipStore 7 "b" three_slips running_slip
      refl refl

check_prerequisites-status_example :
    (check_prerequisites none running_slip (" build " ∷ "" ∷ []) "").status ≡ PrereqStatus.failed
unfolding trim_space get_prereq_status lookup
check_prerequisites-status_example =
    check_prerequisites-status none running_slip "" (" build " ∷ "" ∷ [])

check_prerequisites-failed_example :
    (check_prerequisites none running_slip (" build " ∷ "" ∷ []) "").failed_prereqs ≡ "build" ∷ []
unfolding trim_space get_prereq_status lookup
check_prerequisites-failed_example =
    check_prerequisites-failed none running_slip "" (" build " ∷ "" ∷ [])

wait_loop-HasEnded_example : HasEnded in_memory default_config show_duration hold_options 10 (
    wait_loop in_memory default_config show_duration hold_options 10
      (poll_at 5 ∷ poll_at 12 ∷ [])
      three_slips)
wait_loop-HasEnded_example =
    wait_loop-HasEnded in_memory default_config show_duration hold_options 10
      (poll_at 5 ∷ poll_at 12 ∷ []) three_slips refl

wait_for_prerequisites-met_example :
    (false ≡ true)
    ⊎ AreMet in_memory default_config hold_options
        (wait_for_prerequisites in_memory default_config show_duration 0 hold_options
          (poll_at 5 ∷ [])
          three_slips).0
unfolding wait_for_prerequisites load lookup check_prerequisites
wait_for_prerequisites-met_example =
    wait_for_prerequisites-met in_memory default_config show_duration 0 hold_options
      (poll_at 5 ∷ []) three_slips refl

abbrev cancelled_poll : Poll MockStore
cancelled_poll = record (poll_at 5) { cancelled = true }

hold_result-cancelled_example :
    (hold_result in_memory default_config show_duration hold_options three_slips
      (some cancelled_error)).outcome
    ≡ HoldOutcome.failed
unfolding wait_loop
hold_result-cancelled_example =
    hold_result-cancelled in_memory default_config show_duration hold_options 10 cancelled_poll []
      three_slips three_slips (some cancelled_error) refl refl

abbrev entry_at : ℕ → StateHistoryEntry
entry_at now = record {
  step = "build";
  component = "";
  status = StepStatus.running;
  timestamp = now;
  actor = "";
  message = "";
  claimed_by = "";
}

abbrev two_entries : List StateHistoryEntry
two_entries = entry_at 1 ∷ entry_at 2 ∷ []

hold_result-timeout_example :
    ((hold_result in_memory default_config show_duration hold_options three_slips
        (some (prerequisite_error ("timeout_check" ∷ [])))).outcome
      ≡ HoldOutcome.timeout)
    × ((hold_result in_memory default_config show_duration hold_options three_slips
          (some (prerequisite_error ("timeout_check" ∷ [])))).failed_prereqs
        ≡ [])
unfolding go_lib_my_carrier.Base.contains
hold_result-timeout_example =
    hold_result-timeout in_memory default_config show_duration hold_options ("timeout_check" ∷ [])
      three_slips refl

recent_lem_example :
    (before : List StateHistoryEntry) × (two_entries ≡ before ++ recent 1 two_entries)
    × (length (recent 1 two_entries) ≡ 1)
recent_lem_example = recent_lem 1 two_entries refl
