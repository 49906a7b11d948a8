-- ===== src/Slippy/Claim/Decide.antt =====
-- slippy/claim.go: whether a run is in flight, and the decisions on claim, release and reset.
use go_lib_my_carrier.Base.{
  Bool, true, false, ◌&&◌, ◌||◌, not, List, [], ◌∷◌, String, ◌==◌, Option, none, some, any,
  is_empty, concat, join, map, if◌then◌else◌, Result, ok, err,
}
use go_lib_my_carrier.Slippy.Errors.{Error, sentinel, wrap, Sentinel}
use go_lib_my_carrier.Slippy.Status.{SlipStatus, slip_status_eq, slip_status_text, step_is_running}
use go_lib_my_carrier.Slippy.Types.{Slip, Step, ComponentStepData}
use go_lib_my_carrier.Slippy.Claim.Marker.{push_parsed_step}

-- `slices.Contains(expected, status)`.
abbrev pub contains_status : List SlipStatus → SlipStatus → Bool
contains_status expected status = any (λ s. slip_status_eq s status) expected

abbrev pub step_in_flight : String × Step → Bool
step_in_flight (name, step) = not (name == push_parsed_step) && step_is_running step.status

abbrev pub component_in_flight : ComponentStepData → Bool
component_in_flight c = step_is_running c.status

abbrev pub aggregate_in_flight : String × List ComponentStepData → Bool
aggregate_in_flight (name, components) =
    not (name == push_parsed_step) && any component_in_flight components

-- `RunInFlight` for a slip that is not nil: a loop over the steps, then one over the aggregates,
-- each left at the first running or held entry outside push_parsed.
unfoldable pub run_in_flight : Slip → Bool
run_in_flight slip = any step_in_flight slip.steps || any aggregate_in_flight slip.aggregates

pub record ClaimDecision : Type 0 where
  pub prior : SlipStatus
  pub write : Bool

-- What `%v` prints of the expected statuses.
abbrev show_statuses : List SlipStatus → String
show_statuses expected = concat ("[" ∷ join " " (map slip_status_text expected) ∷ "]" ∷ [])

-- `DecideClaim`.
unfoldable pub decide_claim :
    SlipStatus → SlipStatus → Bool → List SlipStatus → Result Error ClaimDecision
decide_claim status claimed_from in_flight expected =
    if slip_status_eq status SlipStatus.unset
    then err (wrap "slip has no status: " (sentinel Sentinel.claim_precondition_failed) "")
    else if not (is_empty expected) && not (contains_status expected status)
    then err (
        wrap
          (concat
            ("status " ∷ slip_status_text status ∷ " not in " ∷ show_statuses expected ∷ ": " ∷ []))
          (sentinel Sentinel.claim_precondition_failed) "")
    else if not (slip_status_eq claimed_from SlipStatus.unset)
    then ok (record { prior = claimed_from; write = false })
    else if in_flight && not (contains_status expected status)
    then err (
        wrap
          (concat (
            "a step or component is in flight at status "
            ∷ slip_status_text status
            ∷ "; name "
            ∷ slip_status_text status
            ∷ " in expected to adopt a run: "
            ∷ []))
          (sentinel Sentinel.claim_precondition_failed) "")
    else ok (record { prior = status; write = true })

-- `DecideRelease`, for a pointer that may be nil.
unfoldable pub decide_release : Option Slip → Result Error Bool
unfolding run_in_flight
decide_release none = err (sentinel Sentinel.slip_not_found)
decide_release (some slip) =
    if slip_status_eq slip.claimed_from SlipStatus.unset
    then err (sentinel Sentinel.not_claimed)
    else if run_in_flight slip
    then ok false
    else ok true

-- `DecideReset`: none lets the reset go on.
unfoldable pub decide_reset : SlipStatus → Bool → Option Error
decide_reset claimed_from in_flight =
    if slip_status_eq claimed_from SlipStatus.unset
    then none
    else if in_flight
    then some (
        wrap
          (concat (
            "a step or component is in flight under the claim taken out of "
            ∷ slip_status_text claimed_from
            ∷ ": "
            ∷ []))
          (sentinel Sentinel.slip_claimed) "")
    else some (
        wrap
          (concat (
            "the row is claimed out of "
            ∷ slip_status_text claimed_from
            ∷ "; its run has not reported a step yet, which is not evidence that nothing was dispatched: "
            ∷ []))
          (sentinel Sentinel.slip_claimed) "")

pub record ClaimOutcome : Type 0 where
  pub claimed : Bool
  pub prior : SlipStatus
  pub in_flight : Bool

pub record ReleaseOutcome : Type 0 where
  pub released : Bool
  pub status : SlipStatus
