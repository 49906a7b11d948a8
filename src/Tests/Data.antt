-- ===== src/Tests/Data.antt =====
-- Slips, stores and options that the runs share.
use go_lib_my_carrier.Base.{ℕ, Bool, true, false, none, String, List, [], ◌∷◌, Assoc}
use go_lib_my_carrier.Slippy.Status.{SlipStatus, StepStatus}
use go_lib_my_carrier.Slippy.Types.{Slip, Step, zero_step}
use go_lib_my_carrier.Slippy.Pipeline.Config.{StepConfig, PipelineConfig}
use go_lib_my_carrier.Slippy.Store.State.{MockStore, no_faults}
use go_lib_my_carrier.Slippy.Client.Hold.{HoldOptions, Poll, ShowDuration}
use go_lib_my_carrier.Slippy.Push.Options.{PushOptions, DispatchIntent}

abbrev pub step_at : StepStatus → Step
step_at status = record zero_step { status = status }

abbrev pub slip_with : String → SlipStatus → Assoc Step → Slip
slip_with id status steps = record {
  correlation_id = id;
  repository = "org/repo";
  branch = "main";
  commit_sha = "abc1234";
  created_at = 1;
  updated_at = 1;
  status = status;
  claimed_from = SlipStatus.unset;
  steps = steps;
  aggregates = [];
  state_history = [];
  ancestry = [];
}

abbrev pub completed_slip : Slip
completed_slip = slip_with "a" SlipStatus.completed (("build", step_at StepStatus.completed) ∷ [])

abbrev pub running_slip : Slip
running_slip = slip_with "b" SlipStatus.in_progress (("build", step_at StepStatus.failed) ∷ [])

abbrev pub abandoned_slip : Slip
abandoned_slip = slip_with "c" SlipStatus.abandoned []

abbrev pub store_of : Assoc Slip → MockStore
store_of slips = record {
  slips = slips;
  repave_error = none;
  repave_went_live_status = [];
  faults = no_faults;
}

abbrev pub three_slips : MockStore
three_slips = store_of (("a", completed_slip) ∷ ("b", running_slip) ∷ ("c", abandoned_slip) ∷ [])

abbrev pub push_options : PushOptions
push_options = record {
  correlation_id = "d";
  repository = "org/repo";
  branch = "main";
  commit_sha = "def5678";
  commit_message = "";
  components = record { name = "api"; dockerfile_path = "" } ∷ [];
  dispatch = DispatchIntent.something;
}

abbrev pub step_config : String → List String → String → Bool → StepConfig
step_config name prerequisites aggregates is_gate = record {
  name = name;
  description = "";
  prerequisites = prerequisites;
  aggregates = aggregates;
  is_gate = is_gate;
  order = 0;
}

abbrev pub three_steps : List StepConfig
three_steps =
    step_config "push_parsed" [] "" false
    ∷ step_config "build_all" ("push_parsed" ∷ []) "build" true
    ∷ step_config "deploy" ("build_all" ∷ []) "" false
    ∷ []

abbrev pub raw_pipeline : PipelineConfig
raw_pipeline = record {
  version = "1";
  name = "main";
  description = "";
  steps = three_steps;
  steps_by_name = [];
  aggregate_map = [];
  gate_steps = [];
  config_hash = "";
}

abbrev pub hold_options : HoldOptions
hold_options = record {
  correlation_id = "a";
  prerequisites = "build" ∷ [];
  component_name = "";
  timeout = 10;
  poll_interval = 5;
  step_name = "";
}

abbrev pub show_duration : ShowDuration
show_duration n = "10s"

abbrev pub poll_at : ℕ → Poll MockStore
poll_at now = record { cancelled = false; others = λ m. m; now = now; cancelled_waiting = false }
