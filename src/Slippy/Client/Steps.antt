-- ===== src/Slippy/Client/Steps.antt =====
-- slippy/steps.go: a step write with its history entry, and the canary resets of executor.go that
-- make such writes.
use text.Mathlib.Text.{starts_with}
use go_lib_my_carrier.Base.{
  ℕ, Bool, false, ◌&&◌, Option, none, some, String, ◌==◌, List, [], ◌∷◌, Assoc, lookup, get_or,
  insert, any, if◌then◌else◌,
}
use go_lib_my_carrier.Slippy.Errors.{Error, step_error, plain}
use go_lib_my_carrier.Slippy.Status.{StepStatus, step_status_eq, step_is_success}
use go_lib_my_carrier.Slippy.Types.{Slip, Step, zero_step, StateHistoryEntry}
use go_lib_my_carrier.Slippy.Claim.Marker.{library_actor}
use go_lib_my_carrier.Slippy.Pipeline.Config.{PipelineConfig, get_aggregate_step}
use go_lib_my_carrier.Slippy.Client.Interface.{SlipStore}
use go_lib_my_carrier.Slippy.Client.Base.{wrapping}

-- The entry of `updateStep`.
abbrev pub step_entry : ℕ → String → String → StepStatus → String → String → StateHistoryEntry
step_entry now step_name component_name status message claimed_by = record {
  step = step_name;
  component = component_name;
  status = status;
  timestamp = now;
  actor = library_actor;
  message = message;
  claimed_by = claimed_by;
}

-- `latestStepEntry`: the newest entry of a step, not of a component.
unfoldable pub latest_step_entry : List StateHistoryEntry → String → Option StateHistoryEntry
latest_step_entry [] name = none
latest_step_entry (e ∷ es) name = elim (latest_step_entry es name) [
  | some later ↦ some later
  | none ↦ if e.step == name && e.component == "" then some e else none
]

-- `canarySkipReasons`
abbrev pub canary_skip_reasons : List String
canary_skip_reasons =
    "canary_abort" ∷ "timeout" ∷ "sync_failed" ∷ "watch_lost" ∷ "deploy_failed"
    ∷ "release_deadline_insufficient" ∷ []

-- `isCanarySkipReason`.
unfoldable pub is_canary_skip_reason : String → String → Bool
is_canary_skip_reason step_name reason =
    if step_name == "prod_alert_gate"
    then starts_with reason "canary_not_promoted:"
    else any (λ r. r == reason) canary_skip_reasons

abbrev skip_message : String → Option StateHistoryEntry → Option String
skip_message step_name none = none
skip_message step_name (some entry) =
    if step_status_eq entry.status StepStatus.skipped
      && is_canary_skip_reason step_name entry.message
    then some entry.message
    else none

-- The message of a step's skip, if the step is skipped by a canary that did not promote.
unfoldable pub canary_skip : Slip → String → Option String
unfolding latest_step_entry is_canary_skip_reason
canary_skip slip step_name =
    if step_status_eq (get_or step_name zero_step slip.steps).status StepStatus.skipped
    then skip_message step_name (latest_step_entry slip.state_history step_name)
    else none

abbrev add_reset : String → Option String → Assoc String → Assoc String
add_reset step_name none resets = resets
add_reset step_name (some message) resets = insert step_name message resets

abbrev canary_succeeded : Option Step → Bool
canary_succeeded none = false
canary_succeeded (some canary) = step_is_success canary.status

-- `canarySkipsToReset`: the skips that a canary which has since succeeded left behind.
unfoldable pub canary_skips_to_reset : Slip → Assoc String
unfolding canary_skip
canary_skips_to_reset slip =
    if canary_succeeded (lookup "prod_canary" slip.steps)
    then add_reset "prod_alert_gate" (canary_skip slip "prod_alert_gate") (
        add_reset "prod_tests" (canary_skip slip "prod_tests")
          (add_reset "prod_deploy" (canary_skip slip "prod_deploy") []))
    else []

module _ (S : SlipStore) where
  open S use {
    State, load as store_load, update_step_with_history as store_step,
    set_component_image_tag as store_tag,
  }

  -- `updateStep` up to its completion check: the write, with its error wrapped.
  unfoldable pub write_step :
      ℕ → String → String → String → StepStatus → String → String → State → State × Option Error
  write_step now id step_name component_name status message claimed_by s =
      let (s', e) =
        store_step id step_name component_name status
          (step_entry now step_name component_name status message claimed_by) s in
      (s', wrapping (step_error "update" id step_name component_name) e)

  -- The outcome of one reset, added to the failures.
  abbrev pub with_failure : String → Option Error → List String → List String
  with_failure step_name none failures = failures
  with_failure step_name (some e) failures = step_name ∷ failures

  -- `resetStepsToPending`. Its writes set pending, which is not terminal, so that
  -- `UpdateStepWithStatus` makes no completion check and is `write_step` there.
  unfoldable pub reset_steps_to_pending : ℕ → String → Assoc String → State → State × List String
  unfolding write_step
  reset_steps_to_pending now id [] s = (s, [])
  reset_steps_to_pending now id ((step_name, message) ∷ resets) s =
      let (s', e) = write_step now id step_name "" StepStatus.pending message "" s in
      let (s'', failures) = reset_steps_to_pending now id resets s' in
      (s'', with_failure step_name e failures)

  abbrev image_tag_error : String → String → String → Option Error
  image_tag_error id component_name m =
      some (step_error "set image tag" id "build" component_name (plain m))

  -- `SetComponentImageTag`.
  unfoldable pub set_component_image_tag :
      Option PipelineConfig → String → String → String → State → State × Option Error
  set_component_image_tag none id component_name image_tag s =
      (s, image_tag_error id component_name "no pipeline config set")
  set_component_image_tag (some config) id component_name image_tag s =
      if get_aggregate_step config "build" == ""
      then (
        s,
        image_tag_error id component_name "no step configured to aggregate 'build' components",
      )
      else let (s', e) = store_tag id "build" component_name image_tag s in
        (s', wrapping (step_error "set image tag" id "build" component_name) e)
