-- ===== src/Slippy/Client/Interface.antt =====
-- slippy/interfaces.go: the part of `SlipStore` that the client's methods call, as operations on a
-- state, and the laws of its two targeted writes. A store's clock reading is the argument `now`.
use go_lib_my_carrier.Base.{
  ℕ, ◌≡◌, Bool, Option, none, some, String, ◌==◌, List, Result, ok, err, if◌then◌else◌,
}
use go_lib_my_carrier.Slippy.Errors.{Error}
use go_lib_my_carrier.Slippy.Status.{SlipStatus, StepStatus}
use go_lib_my_carrier.Slippy.Types.{Slip, SlipWithCommit, StateHistoryEntry, AncestryEntry}
use go_lib_my_carrier.Slippy.Claim.Decide.{ClaimOutcome, ReleaseOutcome}
use go_lib_my_carrier.Slippy.Store.Writes.{step_recorded}
use go_lib_my_carrier.Slippy.Store.Claims.{status_written}

pub record SlipStore : Type 1 where
  pub State : Type 0
  pub load : String → State → Result Error Slip
  pub load_by_commit : String → String → State → Result Error Slip
  pub find_by_commits : String → List String → State → Result Error SlipWithCommit
  pub find_all_by_commits : String → List String → State → Result Error (List SlipWithCommit)
  pub create : Slip → State → State × Option Error
  pub append_history : String → StateHistoryEntry → State → State × Option Error
  pub update_step_with_history :
      String → String → String → StepStatus → StateHistoryEntry → State → State × Option Error
  pub set_component_image_tag : String → String → String → String → State → State × Option Error
  pub update_slip_status : ℕ → String → SlipStatus → State → State × Option Error
  pub claim_slip :
      ℕ → String → List SlipStatus → String → String → State → State × Result Error ClaimOutcome
  pub release_claim : ℕ → String → String → String → State → State × Result Error ReleaseOutcome
  pub reset_slip_in_place : Option Slip → State → State × Option Error
  pub repave : ℕ → String → Option Slip → Option AncestryEntry → State → State × Option Error
  pub insert_ancestry_link : Slip → AncestryEntry → State → State × Option Error

-- A change of the slip that a read returns; an error stays as it is.
abbrev pub on_slip : (Slip → Slip) → Result Error Slip → Result Error Slip
on_slip f (ok slip) = ok (f slip)
on_slip f (err e) = err e

-- What a read of `j` gives after a write of `id` that succeeded, or failed and changed nothing.
abbrev pub reads_after : Option Error → Bool → (Slip → Slip) → Result Error Slip → Result Error Slip
reads_after (some e) same f r = r
reads_after none same f r = if same then on_slip f r else r

-- The laws: a targeted write changes the row of its ID as stated and no other, and one that fails
-- changes nothing.
pub record IsSlipStore (S : SlipStore) : Type 0 where
  pub load-update_slip_status :
      (now : ℕ) (id j : String) (status : SlipStatus) (s : S.State)
      → S.load j (S.update_slip_status now id status s).0
        ≡ reads_after
            (S.update_slip_status now id status s).1
            (id == j)
            (status_written now status)
            (S.load j s)
  pub load-update_step_with_history :
      (id j step component : String) (status : StepStatus) (entry : StateHistoryEntry) (s : S.State)
      → S.load j (S.update_step_with_history id step component status entry s).0
        ≡ reads_after
            (S.update_step_with_history id step component status entry s).1
            (id == j)
            (step_recorded step component status entry)
            (S.load j s)
