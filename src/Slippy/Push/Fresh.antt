-- ===== src/Slippy/Push/Fresh.antt =====
-- slippy/push.go: the slip that a push creates (`initializeSlipForPush`), and the marker of a reset.
pub mod Idle
use text.Mathlib.Text.{starts_with}
use go_lib_my_carrier.Base.{
  ℕ, Bool, true, false, not, ◌&&◌, ◌||◌, Option, none, some, String, ◌==◌, List, [], ◌∷◌, ◌++◌, map,
  Assoc, lookup, insert, any, is_empty, concat, short_sha, if◌then◌else◌,
}
use go_lib_my_carrier.Slippy.Status.{SlipStatus, StepStatus, slip_status_text}
use go_lib_my_carrier.Slippy.Types.{
  Slip, Step, zero_step, ComponentStepData, ComponentDefinition, StateHistoryEntry, AncestryEntry,
}
use go_lib_my_carrier.Slippy.Claim.Marker.{push_parsed_step, library_actor}
use go_lib_my_carrier.Slippy.Pipeline.Config.{StepConfig, PipelineConfig, aggregates_components}
use go_lib_my_carrier.Slippy.Push.Options.{PushOptions, dispatches_nothing}

abbrev pub running_step : ℕ → Step
running_step now = record zero_step { status = StepStatus.running; started_at = some now }

abbrev pub pending_step : Step
pending_step = record zero_step { status = StepStatus.pending }

-- Whether the push has components that its dispatch will run.
abbrev pub has_components : PushOptions → Bool
has_components o = not (is_empty o.components) && not (dispatches_nothing o)

-- The first step starts at once, unless it aggregates components that no dispatch will report.
abbrev pub first_step : ℕ → PushOptions → StepConfig → Step
first_step now o config =
    if not (aggregates_components config) || has_components o
    then running_step now
    else pending_step

abbrev pub pending_component : ComponentDefinition → ComponentStepData
pending_component definition = record {
  component = definition.name;
  dockerfile_path = "";
  status = StepStatus.pending;
  started_at = none;
  completed_at = none;
  actor = "";
  error = "";
  image_tag = "";
}

abbrev pub component_rows : PushOptions → List ComponentStepData
component_rows o = if dispatches_nothing o then [] else map pending_component o.components

-- The tables that the loop over the configured steps fills.
pub record Tables : Type 0 where
  pub steps : Assoc Step
  pub aggregates : Assoc (List ComponentStepData)

abbrev pub add_step : PushOptions → Step → StepConfig → Tables → Tables
add_step o step config t = record {
  steps = insert config.name step t.steps;
  aggregates =
      if aggregates_components config
      then insert config.name (component_rows o) t.aggregates
      else t.aggregates;
}

-- The rest of the loop: every later step is pending.
unfoldable pub add_steps : PushOptions → List StepConfig → Tables → Tables
add_steps o [] t = t
add_steps o (config ∷ configs) t = add_steps o configs (add_step o pending_step config t)

abbrev pub no_tables : Tables
no_tables = record { steps = []; aggregates = [] }

-- The tables and the name of the first step.
abbrev pub configured : ℕ → PushOptions → List StepConfig → Tables × String
configured now o [] = (no_tables, "")
configured now o (config ∷ configs) =
    (add_steps o configs (add_step o (first_step now o config) config no_tables), config.name)

unfoldable pub initial_tables : ℕ → PushOptions → Option PipelineConfig → Tables × String
unfolding add_steps
initial_tables now o (some config) = configured now o config.steps
initial_tables now o none = (
  record { steps = (push_parsed_step, running_step now) ∷ []; aggregates = [] },
  push_parsed_step,
)

abbrev status_or_pending : Option Step → StepStatus
status_or_pending none = StepStatus.pending
status_or_pending (some step) = step.status

abbrev pub slip_of_tables : ℕ → PushOptions → List AncestryEntry → Tables × String → Slip
slip_of_tables now o ancestry (t, first) = record {
  correlation_id = o.correlation_id;
  repository = o.repository;
  branch = o.branch;
  commit_sha = o.commit_sha;
  created_at = now;
  updated_at = now;
  status = SlipStatus.in_progress;
  claimed_from = SlipStatus.unset;
  steps = t.steps;
  aggregates = t.aggregates;
  state_history =
      record {
        step = first;
        component = "";
        status = status_or_pending (lookup first t.steps);
        timestamp = now;
        actor = library_actor;
        message = "processing push event";
        claimed_by = "";
      }
      ∷ [];
  ancestry = ancestry;
}

-- `initializeSlipForPush`.
unfoldable pub initialize_slip_for_push :
    ℕ → Option PipelineConfig → PushOptions → List AncestryEntry → Slip
unfolding initial_tables
initialize_slip_for_push now config o ancestry =
    slip_of_tables now o ancestry (initial_tables now o config)

abbrev pub reset_marker_message_prefix : String
reset_marker_message_prefix = "reset in place after "

abbrev is_reset_marker : StateHistoryEntry → Bool
is_reset_marker e = e.step == push_parsed_step && starts_with e.message reset_marker_message_prefix

-- `appendResetMarker`: at most one such marker.
unfoldable pub append_reset_marker : ℕ → Slip → Slip → String → Slip
append_reset_marker now slip prior commit_sha =
    if any is_reset_marker slip.state_history then slip else record slip {
      state_history =
          slip.state_history
          ++ record {
            step = push_parsed_step;
            component = "";
            status = StepStatus.running;
            timestamp = now;
            actor = library_actor;
            message = concat (
                reset_marker_message_prefix
                ∷ slip_status_text prior.status
                ∷ " attempt for commit "
                ∷ short_sha commit_sha
                ∷ []);
            claimed_by = "";
          }
            ∷ [];
    }

-- `dropSelfAncestorLink`: its early returns give what the filter gives.
unfoldable pub drop_self_ancestor_link : List AncestryEntry → String → List AncestryEntry
drop_self_ancestor_link [] id = []
drop_self_ancestor_link (entry ∷ entries) id =
    let rest = drop_self_ancestor_link entries id in
    if id == "" then entry ∷ entries else if entry.correlation_id == id then rest else entry ∷ rest
