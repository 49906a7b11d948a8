-- ===== src/Slippy/Aggregate.antt =====
-- slippy/aggregate_status.go: the status of an aggregate step from those of its components.
pub mod Spec
use go_lib_my_carrier.Base.{Bool, true, false, ◌||◌, List, [], ◌∷◌, if◌then◌else◌}
use go_lib_my_carrier.Slippy.Status.{StepStatus, step_is_failure, step_is_success, step_is_running}
use go_lib_my_carrier.Slippy.Types.{ComponentStepData}

-- The four flags of the loop.
pub record Flags : Type 0 where
  pub all_completed : Bool
  pub any_running : Bool
  pub any_completed : Bool
  pub any_failed : Bool

abbrev pub initial : Flags
initial = record {
  all_completed = true;
  any_running = false;
  any_completed = false;
  any_failed = false;
}

-- One turn of the loop.
unfoldable pub observe : Flags → ComponentStepData → Flags
observe f c = record {
  all_completed = if step_is_success c.status then f.all_completed else false;
  any_running = if step_is_running c.status then true else f.any_running;
  any_completed = if step_is_success c.status then true else f.any_completed;
  any_failed = if step_is_failure c.status then true else f.any_failed;
}

unfoldable pub scan : Flags → List ComponentStepData → Flags
unfolding observe
scan f [] = f
scan f (c ∷ cs) = scan (observe f c) cs

-- The switch after the loop.
abbrev pub verdict : Flags → StepStatus
verdict f =
    if f.any_failed
    then StepStatus.failed
    else if f.all_completed
    then StepStatus.completed
    else if f.any_running || f.any_completed
    then StepStatus.running
    else StepStatus.pending

-- `computeAggregateStatus`.
unfoldable pub compute_aggregate_status : List ComponentStepData → StepStatus
unfolding scan
compute_aggregate_status cs = verdict (scan initial cs)
