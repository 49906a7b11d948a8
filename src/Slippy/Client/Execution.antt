-- ===== src/Slippy/Client/Execution.antt =====
-- slippy/executor.go: what runs before and after a step.
use go_lib_my_carrier.Base.{
  ℕ, Bool, Option, none, some, String, ◌==◌, List, [], ◌∷◌, concat, show_list, is_empty, Result, ok,
  err, if◌then◌else◌,
}
use go_lib_my_carrier.Slippy.Errors.{Error, wrap, message}
use go_lib_my_carrier.Slippy.Status.{SlipStatus, StepStatus}
use go_lib_my_carrier.Slippy.Client.Interface.{SlipStore}
use go_lib_my_carrier.Slippy.Client.Base.{Config, apply_hold_defaults}
use go_lib_my_carrier.Slippy.Client.Completion.{
  Completion, check_pipeline_completion, complete_step, fail_step, start_step,
}
use go_lib_my_carrier.Slippy.Client.Hold.{HoldOptions, ShowDuration, Poll}
use go_lib_my_carrier.Slippy.Client.Waiting.{HoldOutcome, HoldResult, wait_with_result}
use go_lib_my_carrier.Slippy.Client.Resolve.{GitHub, ResolveResult, resolve_slip}

pub data PreExecutionOutcome : Type 0 where
  proceed abort timeout no_slip : PreExecutionOutcome

pub record PreExecutionOptions : Type 0 where
  pub repository : String
  pub branch : String
  pub ref : String
  pub image_tag : String
  pub step_name : String
  pub component_name : String
  pub claimed_by : String
  pub prerequisites : List String
  pub hold_timeout : ℕ
  pub poll_interval : ℕ

pub record PreExecutionResult : Type 0 where
  pub outcome : PreExecutionOutcome
  pub correlation_id : String
  pub resolved_by : String
  pub matched_commit : String
  pub message : String

pub record PostExecutionOptions : Type 0 where
  pub correlation_id : String
  pub step_name : String
  pub component_name : String
  pub workflow_succeeded : Bool
  pub failure_message : String

pub record PostExecutionResult : Type 0 where
  pub step_status : StepStatus
  pub slip_status : SlipStatus
  pub slip_completed : Bool

abbrev pub proceed_result : PreExecutionResult → PreExecutionResult
proceed_result r = record r {
  outcome = PreExecutionOutcome.proceed;
  message = "prerequisites satisfied, step started";
}

abbrev resolved : ResolveResult → PreExecutionResult
resolved r = record {
  outcome = PreExecutionOutcome.proceed;
  correlation_id = r.slip.correlation_id;
  resolved_by = r.resolved_by;
  matched_commit = r.matched_commit;
  message = "";
}

-- The switch on the outcome of a wait that ended in an error.
abbrev pub not_held : PreExecutionResult → HoldResult → Error → PreExecutionResult
not_held r h e = elim h.outcome [
  | HoldOutcome.proceeded ↦ record r { outcome = PreExecutionOutcome.abort; message = message e }
  | HoldOutcome.timeout ↦ record r { outcome = PreExecutionOutcome.timeout; message = h.message }
  | HoldOutcome.failed ↦ record r {
    outcome = PreExecutionOutcome.abort;
    message = concat ("prerequisites failed: " ∷ show_list h.failed_prereqs ∷ []);
  }
  | HoldOutcome.cancelled ↦ record r {
    outcome = PreExecutionOutcome.abort;
    message = "operation cancelled";
  }
]

abbrev pub failed_unless : String → String
failed_unless m = if m == "" then "workflow failed" else m

-- What a call returns: a result, an error, or both.
abbrev pub Returned : Type 0 → Type 0
Returned A = Option A × Option Error

module _ (S : SlipStore) (G : GitHub) (config : Config) (show : ShowDuration) where
  open S use {State}

  abbrev pub started :
      PreExecutionOptions
      → PreExecutionResult
      → State × Option Error
      → State × Returned PreExecutionResult
  started opts r (s, none) = (s, (some (proceed_result r), none))
  started opts r (s, some e) =
      (s, (none, some (wrap (concat ("failed to start step " ∷ opts.step_name ∷ ": " ∷ [])) e "")))

  -- The end of `RunPreExecution`: the step is started.
  abbrev pub start :
      ℕ → PreExecutionOptions → PreExecutionResult → State → State × Returned PreExecutionResult
  start now opts r s =
      started opts r
        (start_step S now r.correlation_id opts.step_name opts.component_name opts.claimed_by s)

  -- After the wait; none if the rounds end before the wait does.
  abbrev pub waited :
      ℕ
      → PreExecutionOptions
      → PreExecutionResult
      → State × Option (HoldResult × Option Error)
      → State × Option (Returned PreExecutionResult)
  waited now opts r (s, none) = (s, none)
  waited now opts r (s, some (h, some e)) = (s, some (some (not_held r h e), some e))
  waited now opts r (s, some (h, none)) = let (s', out) = start now opts r s in (s', some out)

  abbrev pub hold_options : PreExecutionOptions → String → HoldOptions
  hold_options opts id =
      let (hold_timeout, poll_interval) =
        apply_hold_defaults config opts.hold_timeout opts.poll_interval in
      record {
        correlation_id = id;
        prerequisites = opts.prerequisites;
        component_name = opts.component_name;
        timeout = hold_timeout;
        poll_interval = poll_interval;
        step_name = opts.step_name;
      }

  abbrev pub pre_resolved :
      ℕ
      → PreExecutionOptions
      → List (Poll State)
      → State
      → Result Error ResolveResult
      → State × Option (Returned PreExecutionResult)
  pre_resolved now opts polls s (err e) = (
    s,
    some (
        if config.shadow_mode
        then (
          some (record {
            outcome = PreExecutionOutcome.no_slip;
            correlation_id = "";
            resolved_by = "";
            matched_commit = "";
            message = "shadow mode - no slip found but proceeding";
          }),
          none,
        )
        else (none, some (wrap "failed to resolve slip: " e ""))),
  )
  pre_resolved now opts polls s (ok found) =
      let r = resolved found in
      if is_empty opts.prerequisites
      then (let (s', out) = start now opts r s in (s', some out))
      else waited now opts r
          (wait_with_result S config show now (hold_options opts r.correlation_id) polls s)

  -- `RunPreExecution`.
  unfoldable pub run_pre_execution :
      ℕ
      → PreExecutionOptions
      → List (Poll State)
      → State
      → State × Option (Returned PreExecutionResult)
  run_pre_execution now opts polls s = pre_resolved now opts polls s (
      resolve_slip S G config
        (record {
          repository = opts.repository;
          branch = opts.branch;
          ref = opts.ref;
          image_tag = opts.image_tag;
          ancestry_depth = config.ancestry_depth;
        })
        s)

module _ (S : SlipStore) where
  open S use {State}

  abbrev post_error : Option Error → Option Error
  post_error none = none
  post_error (some e) =
      some (wrap "post-execution completed but pipeline status update failed: " e "")

  abbrev pub post_checked : StepStatus → State × Completion → State × Returned PostExecutionResult
  post_checked status (s, c) = (
    s,
    (
      some (record { step_status = status; slip_status = c.status; slip_completed = c.completed }),
      post_error c.error,
    ),
  )

  abbrev pub post_written :
      ℕ → String → StepStatus → State × Option Error → State × Returned PostExecutionResult
  post_written now id status (s, some e) = (s, (none, some e))
  post_written now id status (s, none) = post_checked status (check_pipeline_completion S now id s)

  -- `RunPostExecution`.
  unfoldable pub run_post_execution :
      ℕ → PostExecutionOptions → State → State × Returned PostExecutionResult
  run_post_execution now opts s =
      if opts.workflow_succeeded
      then post_written now opts.correlation_id StepStatus.completed
          (complete_step S now opts.correlation_id opts.step_name opts.component_name s)
      else post_written now opts.correlation_id StepStatus.failed (
          fail_step S now opts.correlation_id opts.step_name opts.component_name
            (failed_unless opts.failure_message) s)
