-- ===== src/Slippy/Aggregate/Spec.antt =====
-- slippy/aggregate_status.go: what the loop over the components computes.
use go_lib_my_carrier.Base.{
  ◌≡◌, ◌||◌, ◌&&◌, List, [], ◌∷◌, arith, any, all, Perm, any-perm, all-perm, if◌then◌else◌, Bool,
}
use go_lib_my_carrier.Slippy.Status.{StepStatus, step_is_failure, step_is_success, step_is_running}
use go_lib_my_carrier.Slippy.Types.{ComponentStepData}
use go_lib_my_carrier.Slippy.Aggregate.{Flags, initial, observe, scan, compute_aggregate_status}

abbrev has_failed : List ComponentStepData → Bool
has_failed = any (λ (c : ComponentStepData). step_is_failure c.status)

abbrev has_succeeded : List ComponentStepData → Bool
has_succeeded = any (λ (c : ComponentStepData). step_is_success c.status)

abbrev has_running : List ComponentStepData → Bool
has_running = any (λ (c : ComponentStepData). step_is_running c.status)

abbrev all_succeeded : List ComponentStepData → Bool
all_succeeded = all (λ (c : ComponentStepData). step_is_success c.status)

-- The flags that the loop ends with, from those it began with.
scan_flags :
    (f : Flags) (cs : List ComponentStepData)
    → scan f cs ≡ record {
      all_completed = f.all_completed && all_succeeded cs;
      any_running = f.any_running || has_running cs;
      any_completed = f.any_completed || has_succeeded cs;
      any_failed = f.any_failed || has_failed cs;
    }
unfolding scan
scan_flags f [] = ground arith
scan_flags f (c ∷ cs) = ground (arith, scan_flags (observe f c) cs)

-- The aggregate is failed if some component failed, else completed if every component succeeded,
-- else running if some component runs, is held or has succeeded, and pending otherwise.
pub compute_aggregate_status_lem :
    (cs : List ComponentStepData)
    → compute_aggregate_status cs ≡ (
        if has_failed cs
        then StepStatus.failed
        else if all_succeeded cs
        then StepStatus.completed
        else if has_running cs || has_succeeded cs
        then StepStatus.running
        else StepStatus.pending)
unfolding compute_aggregate_status
compute_aggregate_status_lem cs = ground (arith, scan_flags initial cs)

-- The status of an aggregate does not depend on the order in which its components are listed.
pub compute_aggregate_status-perm :
    (cs ds : List ComponentStepData)
    → Perm cs ds
    → compute_aggregate_status cs ≡ compute_aggregate_status ds
compute_aggregate_status-perm cs ds h = ground (
  arith,
  compute_aggregate_status_lem cs,
  compute_aggregate_status_lem ds,
  any-perm (λ (c : ComponentStepData). step_is_failure c.status) cs ds h,
  any-perm (λ (c : ComponentStepData). step_is_success c.status) cs ds h,
  any-perm (λ (c : ComponentStepData). step_is_running c.status) cs ds h,
  all-perm (λ (c : ComponentStepData). step_is_success c.status) cs ds h,
)
