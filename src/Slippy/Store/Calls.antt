-- ===== src/Slippy/Store/Calls.antt =====
-- slippytest/mock_store.go: the calls that change rows, as data, so that an interleaving of callers
-- is a list of calls.
use go_lib_my_carrier.Base.{ℕ, Option, String, List, [], ◌∷◌}
use go_lib_my_carrier.Slippy.Status.{SlipStatus, StepStatus}
use go_lib_my_carrier.Slippy.Types.{Slip, StateHistoryEntry}
use go_lib_my_carrier.Slippy.Store.State.{MockStore}
use go_lib_my_carrier.Slippy.Store.Writes
use go_lib_my_carrier.Slippy.Store.Claims

pub data Call : Type 0 where
  create update : Slip → Call
  update_step : String → String → String → StepStatus → Call
  update_component_status : String → String → String → StepStatus → Call
  append_history : String → StateHistoryEntry → Call
  update_step_with_history : String → String → String → StepStatus → StateHistoryEntry → Call
  set_component_image_tag : String → String → String → String → Call
  update_slip_status : ℕ → String → SlipStatus → Call
  claim_slip : ℕ → String → List SlipStatus → String → String → Call
  release_claim : ℕ → String → String → String → Call
  reset_slip_in_place : Option Slip → Call
  repave : ℕ → String → Option Slip → Call

-- The store after a call.
unfoldable pub perform : Call → MockStore → MockStore
perform (create slip) m = (Writes.create slip m).0
perform (update slip) m = (Writes.update slip m).0
perform (update_step id step component status) m = (Writes.update_step id step component status m).0
perform (update_component_status id component step_type status) m =
    (Writes.update_component_status id component step_type status m).0
perform (append_history id entry) m = (Writes.append_history id entry m).0
perform (update_step_with_history id step component status entry) m =
    (Writes.update_step_with_history id step component status entry m).0
perform (set_component_image_tag id step component tag) m =
    (Writes.set_component_image_tag id step component tag m).0
perform (update_slip_status now id status) m = (Claims.update_slip_status now id status m).0
perform (claim_slip now id expected claimed_by reason) m =
    (Claims.claim_slip now id expected claimed_by reason m).0
perform (release_claim now id released_by reason) m =
    (Claims.release_claim now id released_by reason m).0
perform (reset_slip_in_place slip) m = (Claims.reset_slip_in_place slip m).0
perform (repave now old_id slip) m = (Claims.repave now old_id slip m).0

unfoldable pub perform_all : List Call → MockStore → MockStore
unfolding perform
perform_all [] m = m
perform_all (c ∷ cs) m = perform_all cs (perform c m)
