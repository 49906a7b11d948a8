-- ===== src/Slippy/Status/Step.antt =====
-- slippy/status.go: `StepStatus`.
use go_lib_my_carrier.Base.{ℕ, Bool, true, false, ◌||◌, nat_eq, String}

pub data StepStatus : Type 0 where
  unset pending held running completed failed error aborted timeout skipped : StepStatus

abbrev pub step_status_text : StepStatus → String
step_status_text unset = ""
step_status_text pending = "pending"
step_status_text held = "held"
step_status_text running = "running"
step_status_text completed = "completed"
step_status_text failed = "failed"
step_status_text error = "error"
step_status_text aborted = "aborted"
step_status_text timeout = "timeout"
step_status_text skipped = "skipped"

abbrev step_status_index : StepStatus → ℕ
step_status_index unset = 0
step_status_index pending = 1
step_status_index held = 2
step_status_index running = 3
step_status_index completed = 4
step_status_index failed = 5
step_status_index error = 6
step_status_index aborted = 7
step_status_index timeout = 8
step_status_index skipped = 9

-- `==` on step statuses.
abbrev pub step_status_eq : StepStatus → StepStatus → Bool
step_status_eq a b = nat_eq (step_status_index a) (step_status_index b)

-- `StepStatus.IsTerminal`.
abbrev pub step_is_terminal : StepStatus → Bool
step_is_terminal completed = true
step_is_terminal failed = true
step_is_terminal error = true
step_is_terminal aborted = true
step_is_terminal timeout = true
step_is_terminal skipped = true
step_is_terminal _ = false

-- `StepStatus.IsSuccess`.
abbrev pub step_is_success : StepStatus → Bool
step_is_success s = step_status_eq s completed || step_status_eq s skipped

-- `StepStatus.IsFailure`.
abbrev pub step_is_failure : StepStatus → Bool
step_is_failure failed = true
step_is_failure error = true
step_is_failure aborted = true
step_is_failure timeout = true
step_is_failure _ = false

-- `StepStatus.IsRunning`: a held step counts as running.
abbrev pub step_is_running : StepStatus → Bool
step_is_running s = step_status_eq s running || step_status_eq s held

-- `StepStatus.IsPending`.
abbrev pub step_is_pending : StepStatus → Bool
step_is_pending s = step_status_eq s pending
