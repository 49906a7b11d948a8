-- ===== src/Slippy/Postgres/Columns.antt =====
-- slippy/postgres_store.go: between a slip and its row.
use go_lib_my_carrier.Base.{
  ℕ, Bool, true, false, ◌&&◌, ◌||◌, not, Option, none, some, String, ◌==◌, List, [], ◌∷◌, Assoc,
  lookup, get_or, insert, map, nat_eq, if◌then◌else◌,
}
use go_lib_my_carrier.Slippy.Status.{
  SlipStatus, StepStatus, slip_status_eq, step_status_eq, step_is_terminal,
}
use go_lib_my_carrier.Slippy.Types.{
  Slip, Step, zero_step, ComponentStepData, StateHistoryEntry, is_nil,
}
use go_lib_my_carrier.Slippy.Pipeline.Config.{StepConfig, PipelineConfig, get_aggregate_steps}
use go_lib_my_carrier.Slippy.Postgres.State.{Row, StepDetail, ComponentState}

-- A step with none of the fields that `step_details` holds.
abbrev has_details : Step → Bool
has_details step =
    not (is_nil step.started_at)
    || not (is_nil step.completed_at)
    || not (step.actor == "")
    || not (step.error == "")
    || not (step.held_reason == "")

abbrev detail_of : Step → StepDetail
detail_of step = record {
  started_at = step.started_at;
  completed_at = step.completed_at;
  actor = step.actor;
  error = step.error;
  held_reason = step.held_reason;
}

-- `buildStepDetailsMap`.
unfoldable pub build_step_details : Assoc Step → Assoc StepDetail
build_step_details [] = []
build_step_details ((name, step) ∷ steps) =
    let rest = build_step_details steps in
    if has_details step then (name, detail_of step) ∷ rest else rest

-- `v` if it is there, and else what was.
abbrev pub or_else {ℓ} : {A : Type ℓ} → Option A → Option A → Option A
or_else none old = old
or_else (some a) old = some a

abbrev pub text_or : String → String → String
text_or s old = if s == "" then old else s

abbrev pub merge_detail : StepDetail → Step → Step
merge_detail d step = record step {
  started_at = or_else d.started_at step.started_at;
  completed_at = or_else d.completed_at step.completed_at;
  actor = text_or d.actor step.actor;
  error = text_or d.error step.error;
  held_reason = text_or d.held_reason step.held_reason;
}

abbrev pub adjust_found : String → (Step → Step) → Assoc Step → Option Step → Assoc Step
adjust_found name f steps none = steps
adjust_found name f steps (some step) = insert name (f step) steps

-- `step, ok := steps[name]; if ok { …; steps[name] = step }`
abbrev pub adjust_step : String → (Step → Step) → Assoc Step → Assoc Step
adjust_step name f steps = adjust_found name f steps (lookup name steps)

-- `mergeStepDetailsJSON`.
unfoldable pub merge_step_details : Assoc StepDetail → Assoc Step → Assoc Step
merge_step_details [] steps = steps
merge_step_details ((name, d) ∷ details) steps =
    merge_step_details details (adjust_step name (merge_detail d) steps)

-- The times of a step that its history tells.
pub record StepTiming : Type 0 where
  pub started_at : Option ℕ
  pub completed_at : Option ℕ

abbrev no_timing : StepTiming
no_timing = record { started_at = none; completed_at = none }

-- The first loop of `reconstructStepTimingFromHistory`: the first running and the first terminal
-- entry of each step.
abbrev observe_entry : StateHistoryEntry → Assoc StepTiming → Assoc StepTiming
observe_entry entry timings =
    if not (entry.component == "")
    then timings
    else let timing = get_or entry.step no_timing timings in
      insert entry.step
        (record {
          started_at =
              if step_status_eq entry.status StepStatus.running && is_nil timing.started_at
              then some entry.timestamp
              else timing.started_at;
          completed_at =
              if step_is_terminal entry.status && is_nil timing.completed_at
              then some entry.timestamp
              else timing.completed_at;
        })
        timings

unfoldable pub history_timing : List StateHistoryEntry → Assoc StepTiming → Assoc StepTiming
history_timing [] timings = timings
history_timing (entry ∷ entries) timings = history_timing entries (observe_entry entry timings)

-- Only a missing time is filled in.
abbrev pub fill_timing : StepTiming → Step → Step
fill_timing timing step = record step {
  started_at = or_else step.started_at timing.started_at;
  completed_at = or_else step.completed_at timing.completed_at;
}

unfoldable pub fill_timings : Assoc StepTiming → Assoc Step → Assoc Step
fill_timings [] steps = steps
fill_timings ((name, timing) ∷ timings) steps =
    fill_timings timings (adjust_step name (fill_timing timing) steps)

-- `reconstructStepTimingFromHistory`. On an empty history the loops do nothing.
unfoldable pub reconstruct_step_timing : List StateHistoryEntry → Assoc Step → Assoc Step
unfolding history_timing fill_timings
reconstruct_step_timing history steps = fill_timings (history_timing history []) steps

-- `stepsFromStatuses`, over the status columns of the row.
unfoldable pub steps_from_statuses : List StepConfig → Assoc StepStatus → Assoc Step → Assoc Step
steps_from_statuses [] statuses steps = steps
steps_from_statuses (config ∷ configs) statuses steps = steps_from_statuses configs statuses (
    insert config.name
      (record zero_step { status = get_or config.name StepStatus.pending statuses }) steps)

-- `aggregateColumns`.
unfoldable pub aggregate_columns : PipelineConfig → List String
unfolding get_aggregate_steps
aggregate_columns config = map (λ (step : StepConfig). step.name) (get_aggregate_steps config)

-- `decodeAggregates`.
unfoldable pub decode_aggregates :
    List String
    → Assoc (List ComponentStepData)
    → Assoc (List ComponentStepData)
    → Assoc (List ComponentStepData)
decode_aggregates [] raw aggregates = aggregates
decode_aggregates (column ∷ columns) raw aggregates =
    decode_aggregates columns raw (insert column (get_or column [] raw) aggregates)

-- `ClaimedFrom` of a column that may be NULL.
abbrev pub claimed_from_of : Option SlipStatus → SlipStatus
claimed_from_of none = SlipStatus.unset
claimed_from_of (some status) = status

-- `populate`.
unfoldable pub populate : PipelineConfig → Row → Slip
unfolding merge_step_details reconstruct_step_timing steps_from_statuses aggregate_columns
    decode_aggregates
populate config row = record {
  correlation_id = row.correlation_id;
  repository = row.repository;
  branch = row.branch;
  commit_sha = row.commit_sha;
  created_at = row.created_at;
  updated_at = row.updated_at;
  status = row.status;
  claimed_from = claimed_from_of row.claimed_from;
  steps =
      reconstruct_step_timing row.state_history (
        merge_step_details row.step_details
          (steps_from_statuses config.steps row.step_statuses []));
  aggregates = decode_aggregates (aggregate_columns config) row.aggregates [];
  state_history = row.state_history;
  ancestry = [];
}

-- The part of the slip that `loadClaimStateTx` reads.
unfoldable pub claim_state : PipelineConfig → String → Row → Slip
unfolding steps_from_statuses aggregate_columns decode_aggregates
claim_state config id row = record {
  correlation_id = id;
  repository = "";
  branch = "";
  commit_sha = "";
  created_at = 0;
  updated_at = 0;
  status = row.status;
  claimed_from = claimed_from_of row.claimed_from;
  steps = steps_from_statuses config.steps row.step_statuses [];
  aggregates = decode_aggregates (aggregate_columns config) row.aggregates [];
  state_history = [];
  ancestry = [];
}

abbrev pub pending_if_unset : StepStatus → StepStatus
pending_if_unset status =
    if step_status_eq status StepStatus.unset then StepStatus.pending else status

-- The step columns that `slipValues` gives, written over those of the row.
unfoldable pub step_values : List StepConfig → Assoc Step → Assoc StepStatus → Assoc StepStatus
step_values [] steps columns = columns
step_values (config ∷ configs) steps columns =
    step_values configs steps
      (insert config.name (pending_if_unset (get_or config.name zero_step steps).status) columns)

-- The aggregate columns that `slipValues` gives; a missing aggregate is stored as an empty list.
unfoldable pub aggregate_values :
    List String
    → Assoc (List ComponentStepData)
    → Assoc (List ComponentStepData)
    → Assoc (List ComponentStepData)
aggregate_values [] aggregates columns = columns
aggregate_values (column ∷ rest) aggregates columns =
    aggregate_values rest aggregates (insert column (get_or column [] aggregates) columns)

-- A row that no INSERT has given values yet: the columns' defaults.
abbrev pub default_row : Row
default_row = record {
  correlation_id = "";
  repository = "";
  branch = "";
  commit_sha = "";
  created_at = 0;
  updated_at = 0;
  status = SlipStatus.pending;
  step_details = [];
  state_history = [];
  step_statuses = [];
  aggregates = [];
  claimed_from = none;
}

-- `slipValues` written over a row, which keeps `claimed_from`: the columns that INSERT, its conflict
-- arm and UPDATE set. For a create the zero creation time is now.
unfoldable pub slip_values : PipelineConfig → Bool → ℕ → Slip → Row → Row
unfolding build_step_details step_values aggregate_values aggregate_columns
slip_values config for_create now slip row = record {
  correlation_id = slip.correlation_id;
  repository = slip.repository;
  branch = slip.branch;
  commit_sha = slip.commit_sha;
  created_at = if for_create && nat_eq slip.created_at 0 then now else slip.created_at;
  updated_at = now;
  status = if slip_status_eq slip.status SlipStatus.unset then SlipStatus.pending else slip.status;
  step_details = build_step_details slip.steps;
  state_history = slip.state_history;
  step_statuses = step_values config.steps slip.steps row.step_statuses;
  aggregates = aggregate_values (aggregate_columns config) slip.aggregates row.aggregates;
  claimed_from = row.claimed_from;
}

-- Whether a row of slip_component_states names who runs a step of the slip: the WHERE of
-- `applyClaimants`.
abbrev pub names_claimant : String → ComponentState → Bool
names_claimant id state =
    state.correlation_id == id
    && (state.component == "")
    && step_status_eq state.status StepStatus.running
    && not (elim state.claimed_by [ none ↦ true | some claimed_by ↦ false ])

abbrev claimed_by_of : Option String → String
claimed_by_of none = ""
claimed_by_of (some claimed_by) = claimed_by

abbrev pub claim_step : ComponentState → Step → Step
claim_step state step =
    if step_status_eq step.status StepStatus.running
    then record step { claimed_by = claimed_by_of state.claimed_by }
    else step

-- `applyClaimants` for one slip.
unfoldable pub apply_claimants : String → List ComponentState → Assoc Step → Assoc Step
apply_claimants id [] steps = steps
apply_claimants id (state ∷ states) steps =
    apply_claimants id states
      (if names_claimant id state then adjust_step state.step (claim_step state) steps else steps)
