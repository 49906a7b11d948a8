-- ===== src/Slippy/Claim/Outcome.antt =====
-- slippy/claim.go: what the decisions on claim, release and reset come to.
use go_lib_my_carrier.Base.{◌≡◌, ◌↔◌, Bool, true, false, not, ◌&&◌, ◌||◌, List, arith, ok, is_empty}
use go_lib_my_carrier.Slippy.Status.{SlipStatus, slip_status_eq}
use go_lib_my_carrier.Slippy.Claim.Decide.{contains_status, decide_claim}

-- The claim is taken, with the status as its prior one, exactly when the slip has a status, no claim
-- stands, and the status is among the expected ones, which may be none unless the run is in flight.
pub decide_claim_lem :
    (status claimed_from : SlipStatus) (in_flight : Bool) (expected : List SlipStatus)
    → (decide_claim status claimed_from in_flight expected
        ≡ ok (record { prior = status; write = true }))
      ↔ ((slip_status_eq status SlipStatus.unset ≡ false)
          × (slip_status_eq claimed_from SlipStatus.unset ≡ true)
          × ((contains_status expected status || (is_empty expected && not in_flight)) ≡ true))
unfolding decide_claim
decide_claim_lem status claimed_from in_flight expected = ground arith
