-- ===== src/Slippy/Store/Agreement.antt =====
-- slippytest/mock_store.go: every call keeps the claim column and the history markers in agreement.
use go_lib_my_carrier.Base.{
  ℕ, ◌≡◌, refl, Bool, true, false, Option, none, some, String, List, arith, Values, Values-insert,
  Result, ok, err, Bool-cases, inl, inr,
}
use go_lib_my_carrier.Slippy.Errors.{Error}
use go_lib_my_carrier.Slippy.Status.{SlipStatus, StepStatus}
use go_lib_my_carrier.Slippy.Types.{Slip, StateHistoryEntry}
use go_lib_my_carrier.Slippy.Claim.Marker.{
  claim_marker, release_marker, guard_reserved_step_write, library_actor,
}
use go_lib_my_carrier.Slippy.Claim.Decide.{
  decide_claim, decide_release, decide_reset, run_in_flight, ClaimDecision,
}
use go_lib_my_carrier.Slippy.Store.State.{MockStore}
use go_lib_my_carrier.Slippy.Store.Writes.{
  component_written, append_entry, tag_found, has_component_anywhere, tagged, pluralize,
}
use go_lib_my_carrier.Slippy.Store.Claims.{
  is_claim, status_written, claim_written, release_written, claim_decided, claim_found,
  release_decided, release_found, reset_row, reset_decided, reset_found,
}
use go_lib_my_carrier.Slippy.Store.Invariant.{claim_open, Agrees, claim_open-append, guarded_entry}

-- The rows of a store agree with their histories.
abbrev pub AllAgree : MockStore → Type 0
AllAgree m = Values Agrees m.slips

pub component_written-Agrees :
    (name column : String) (status : StepStatus) (slip : Slip)
    → Agrees slip
    → Agrees (component_written name column status slip)
component_written-Agrees name column status slip h = ground arith

pub append_entry-Agrees :
    (step_name : String) (e : StateHistoryEntry) (slip : Slip)
    → guard_reserved_step_write step_name (some e) ≡ none
    → Agrees slip
    → Agrees (append_entry e slip)
append_entry-Agrees step_name e slip g h =
    ground (arith, guarded_entry step_name e g, claim_open-append slip.state_history false e)

pub status_written-Agrees :
    (now : ℕ) (status : SlipStatus) (slip : Slip)
    → Agrees slip
    → Agrees (status_written now status slip)
unfolding release_marker
status_written-Agrees now status slip h = ground (
  arith,
  claim_open-append slip.state_history false
      (release_marker now status library_actor "claim ended by a terminal status write"),
)

release_written-Agrees :
    (now : ℕ) (by reason : String) (slip : Slip) → Agrees (release_written now by reason slip)
unfolding release_marker
release_written-Agrees now by reason slip =
    claim_open-append slip.state_history false (release_marker now slip.status by reason)

claim_written-Agrees :
    (now : ℕ) (prior : SlipStatus) (by reason : String) (slip : Slip)
    → is_claim prior ≡ true
    → Agrees (claim_written now prior by reason slip)
unfolding claim_marker
claim_written-Agrees now prior by reason slip h =
    ground (arith, claim_open-append slip.state_history false (claim_marker now prior by reason))

-- A decision to write takes the claim out of a status that is one.
decide_claim-writes :
    (status claimed_from : SlipStatus) (in_flight : Bool) (expected : List SlipStatus)
    {d : ClaimDecision}
    → decide_claim status claimed_from in_flight expected ≡ ok d
    → d.write ≡ true
    → is_claim d.prior ≡ true
unfolding decide_claim
decide_claim-writes status claimed_from in_flight expected h w = ground arith

module _ (m : MockStore) (h : AllAgree m) where
  claim_decided-AllAgree :
      (now : ℕ) (id by reason : String) (slip : Slip) (r : Result Error ClaimDecision)
      → ((d : ClaimDecision) → r ≡ ok d → d.write ≡ true → is_claim d.prior ≡ true)
      → AllAgree (claim_decided now id by reason slip m r).0
  claim_decided-AllAgree now id by reason slip (err e) sound = h
  claim_decided-AllAgree now id by reason slip (ok d) sound = elim (Bool-cases d.write) [
    | inl w ↦ rw w (
        Values-insert Agrees id (claim_written now d.prior by reason slip) m.slips
          (claim_written-Agrees now d.prior by reason slip (sound d refl w)) h)
    | inr k ↦ rw k h
  ]

  pub claim_found-AllAgree :
      (now : ℕ) (id : String) (expected : List SlipStatus) (by reason : String) (o : Option Slip)
      → AllAgree (claim_found now id expected by reason m o).0
  claim_found-AllAgree now id expected by reason none = h
  claim_found-AllAgree now id expected by reason (some slip) =
      claim_decided-AllAgree now id by reason slip
        (decide_claim slip.status slip.claimed_from (run_in_flight slip) expected)
        (λ d. decide_claim-writes slip.status slip.claimed_from (run_in_flight slip) expected)

  release_decided-AllAgree :
      (now : ℕ) (id by reason : String) (slip : Slip) (r : Result Error Bool)
      → AllAgree (release_decided now id by reason slip m r).0
  release_decided-AllAgree now id by reason slip (err e) = h
  release_decided-AllAgree now id by reason slip (ok false) = h
  release_decided-AllAgree now id by reason slip (ok true) =
      Values-insert Agrees id (release_written now by reason slip) m.slips
        (release_written-Agrees now by reason slip) h

  pub release_found-AllAgree :
      (now : ℕ) (id by reason : String) (o : Option Slip)
      → AllAgree (release_found now id by reason m o).0
  release_found-AllAgree now id by reason none = h
  release_found-AllAgree now id by reason (some slip) =
      release_decided-AllAgree now id by reason slip (decide_release (some slip))

  module _ (slip : Slip) (closed : claim_open false slip.state_history ≡ false) where
    reset_row-AllAgree : AllAgree (reset_row slip m)
    reset_row-AllAgree = Values-insert Agrees slip.correlation_id _ m.slips closed h

    reset_decided-AllAgree : (o : Option Error) → AllAgree (reset_decided slip m o).0
    reset_decided-AllAgree none = reset_row-AllAgree
    reset_decided-AllAgree (some e) = h

    pub reset_found-AllAgree : (o : Option Slip) → AllAgree (reset_found slip m o).0
    reset_found-AllAgree none = reset_row-AllAgree
    reset_found-AllAgree (some existing) =
        reset_decided-AllAgree (decide_reset existing.claimed_from (run_in_flight existing))

  pub tag_found-AllAgree :
      (id step component tag : String) (o : Option Slip)
      → ((slip : Slip) → o ≡ some slip → Agrees slip)
      → AllAgree (tag_found id step component tag m o).0
  tag_found-AllAgree id step component tag none row = h
  tag_found-AllAgree id step component tag (some slip) row =
      elim (Bool-cases (has_component_anywhere component slip.aggregates)) [
        | inl found ↦ rw found (
            Values-insert Agrees id (tagged (pluralize step) component tag slip) m.slips
              (row slip refl) h)
        | inr missing ↦ rw missing h
      ]
