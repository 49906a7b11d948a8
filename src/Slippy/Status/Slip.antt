-- ===== src/Slippy/Status/Slip.antt =====
-- slippy/status.go: `SlipStatus` and `PrereqStatus`.
use go_lib_my_carrier.Base.{ℕ, Bool, true, false, not, ◌&&◌, nat_eq, String}

pub data SlipStatus : Type 0 where
  unset pending in_progress completed failed compensating compensated abandoned promoted :
      SlipStatus

-- The text of a status, as `String()` gives it.
abbrev pub slip_status_text : SlipStatus → String
slip_status_text unset = ""
slip_status_text pending = "pending"
slip_status_text in_progress = "in_progress"
slip_status_text completed = "completed"
slip_status_text failed = "failed"
slip_status_text compensating = "compensating"
slip_status_text compensated = "compensated"
slip_status_text abandoned = "abandoned"
slip_status_text promoted = "promoted"

-- The place of a status among the constants, by which `==` is decided.
abbrev slip_status_index : SlipStatus → ℕ
slip_status_index unset = 0
slip_status_index pending = 1
slip_status_index in_progress = 2
slip_status_index completed = 3
slip_status_index failed = 4
slip_status_index compensating = 5
slip_status_index compensated = 6
slip_status_index abandoned = 7
slip_status_index promoted = 8

-- `==` on slip statuses.
abbrev pub slip_status_eq : SlipStatus → SlipStatus → Bool
slip_status_eq a b = nat_eq (slip_status_index a) (slip_status_index b)

-- `SlipStatus.IsTerminal`: a failed slip is not terminal, since a retry can recover it.
abbrev pub slip_is_terminal : SlipStatus → Bool
slip_is_terminal completed = true
slip_is_terminal compensated = true
slip_is_terminal abandoned = true
slip_is_terminal promoted = true
slip_is_terminal _ = false

-- `SlipStatus.IsLive`.
abbrev pub slip_is_live : SlipStatus → Bool
slip_is_live s = not (slip_is_terminal s) && not (slip_status_eq s failed)

pub data PrereqStatus : Type 0 where
  completed running failed : PrereqStatus
