-- ===== src/Slippy/Store/Claims.antt =====
-- slippytest/mock_store.go: the writes that the claim takes part in: the status write, claim,
-- release, the reset in place and the repave. `time.Now()` is the argument `now`.
use go_lib_my_carrier.Base.{
  ℕ, Bool, true, false, ◌||◌, not, Option, none, some, String, ◌==◌, List, [], ◌∷◌, lookup, erase,
  concat, Result, ok, err, if◌then◌else◌,
}
use go_lib_my_carrier.Slippy.Errors.{Error, sentinel, wrap, Sentinel}
use go_lib_my_carrier.Slippy.Status.{
  SlipStatus, StepStatus, slip_status_eq, slip_is_live, slip_is_terminal,
}
use go_lib_my_carrier.Slippy.Types.{Slip}
use go_lib_my_carrier.Slippy.Claim.Marker.{
  claim_marker, release_marker, push_parsed_step, library_actor,
}
use go_lib_my_carrier.Slippy.Claim.Decide.{
  run_in_flight, decide_claim, decide_release, decide_reset, ClaimDecision, ClaimOutcome,
  ReleaseOutcome,
}
use go_lib_my_carrier.Slippy.Store.State.{
  MockStore, unless, unless_result, put, change_row, deep_copy_slip,
}
use go_lib_my_carrier.Slippy.Store.Writes.{kept_claim, append_entry}

-- `ClaimedFrom != ""`.
abbrev pub is_claim : SlipStatus → Bool
is_claim status = not (slip_status_eq status SlipStatus.unset)

abbrev pub is_claimed : Slip → Bool
is_claimed slip = is_claim slip.claimed_from

-- The row after `UpdateSlipStatus`: a terminal status ends the claim and leaves a marker.
abbrev pub status_written : ℕ → SlipStatus → Slip → Slip
status_written now status slip =
    let written = record slip { status = status } in
    if slip_is_terminal status
    then record (if is_claimed slip
        then append_entry
            (release_marker now status library_actor "claim ended by a terminal status write")
            written
        else written) { claimed_from = SlipStatus.unset }
    else written

-- `UpdateSlipStatus`.
unfoldable pub update_slip_status : ℕ → String → SlipStatus → MockStore → MockStore × Option Error
update_slip_status now id status m =
    unless m.faults.update_slip_status_error m (change_row id (status_written now status) m)

abbrev pub claim_written : ℕ → SlipStatus → String → String → Slip → Slip
claim_written now prior claimed_by reason slip =
    record (append_entry (claim_marker now prior claimed_by reason) slip) { claimed_from = prior }

-- What `ClaimSlip` does with the decision.
abbrev pub claim_decided :
    ℕ
    → String
    → String
    → String
    → Slip
    → MockStore
    → Result Error ClaimDecision
    → MockStore × Result Error ClaimOutcome
claim_decided now id claimed_by reason slip m (err e) =
    (m, err (wrap (concat ("claim " ∷ id ∷ ": " ∷ [])) e ""))
claim_decided now id claimed_by reason slip m (ok d) = (
  (if d.write then put id (claim_written now d.prior claimed_by reason slip) m else m),
  ok (record { claimed = d.write; prior = d.prior; in_flight = run_in_flight slip }),
)

abbrev pub claim_found :
    ℕ
    → String
    → List SlipStatus
    → String
    → String
    → MockStore
    → Option Slip
    → MockStore × Result Error ClaimOutcome
claim_found now id expected claimed_by reason m none = (m, err (sentinel Sentinel.slip_not_found))
claim_found now id expected claimed_by reason m (some slip) =
    claim_decided now id claimed_by reason slip m
      (decide_claim slip.status slip.claimed_from (run_in_flight slip) expected)

-- `ClaimSlip`.
unfoldable pub claim_slip :
    ℕ
    → String
    → List SlipStatus
    → String
    → String
    → MockStore
    → MockStore × Result Error ClaimOutcome
claim_slip now id expected claimed_by reason m =
    unless_result m.faults.claim_slip_error m
      (claim_found now id expected claimed_by reason m (lookup id m.slips))

abbrev pub release_written : ℕ → String → String → Slip → Slip
release_written now released_by reason slip =
    append_entry (release_marker now slip.status released_by reason)
      (record slip { claimed_from = SlipStatus.unset })

-- What `ReleaseClaim` does with the decision.
abbrev pub release_decided :
    ℕ
    → String
    → String
    → String
    → Slip
    → MockStore
    → Result Error Bool
    → MockStore × Result Error ReleaseOutcome
release_decided now id released_by reason slip m (err e) =
    (m, err (wrap (concat ("release " ∷ id ∷ ": " ∷ [])) e ""))
release_decided now id released_by reason slip m (ok release) =
    if release
    then (
      put id (release_written now released_by reason slip) m,
      ok (record { released = true; status = slip.status }),
    )
    else (m, ok (record { released = false; status = slip.status }))

abbrev pub release_found :
    ℕ → String → String → String → MockStore → Option Slip → MockStore × Result Error ReleaseOutcome
release_found now id released_by reason m none = (m, err (sentinel Sentinel.slip_not_found))
release_found now id released_by reason m (some slip) =
    release_decided now id released_by reason slip m (decide_release (some slip))

-- `ReleaseClaim`.
unfoldable pub release_claim :
    ℕ → String → String → String → MockStore → MockStore × Result Error ReleaseOutcome
release_claim now id released_by reason m =
    unless_result m.faults.release_claim_error m
      (release_found now id released_by reason m (lookup id m.slips))

-- The row that a reset stores: the caller's, unclaimed.
abbrev pub reset_row : Slip → MockStore → MockStore
reset_row slip m =
    put slip.correlation_id (record (deep_copy_slip slip) { claimed_from = SlipStatus.unset }) m

abbrev pub reset_decided : Slip → MockStore → Option Error → MockStore × Option Error
reset_decided slip m none = (reset_row slip m, none)
reset_decided slip m (some e) =
    (m, some (wrap (concat ("reset " ∷ slip.correlation_id ∷ " in place: " ∷ [])) e ""))

abbrev pub reset_found : Slip → MockStore → Option Slip → MockStore × Option Error
reset_found slip m none = (reset_row slip m, none)
reset_found slip m (some existing) =
    reset_decided slip m (decide_reset existing.claimed_from (run_in_flight existing))

-- `ResetSlipInPlace`, for a pointer that may be nil.
unfoldable pub reset_slip_in_place : Option Slip → MockStore → MockStore × Option Error
reset_slip_in_place none m = (
  m,
  some (
      wrap "" (sentinel Sentinel.invalid_configuration)
        ": ResetSlipInPlace requires a successor slip"),
)
reset_slip_in_place (some slip) m =
    unless m.faults.reset_in_place_error m (reset_found slip m (lookup slip.correlation_id m.slips))

abbrev pub set_status_of : String → SlipStatus → MockStore → Option Slip → MockStore
set_status_of id new_status m none = m
set_status_of id new_status m (some slip) = put id (record slip { status = new_status }) m

-- The branch of `Repave` with an injected error: the old row may go live, once.
abbrev pub repave_injected : String → MockStore → Option SlipStatus → MockStore
repave_injected old_id m none = m
repave_injected old_id m (some new_status) =
    set_status_of old_id new_status
      (record m { repave_went_live_status = erase old_id m.repave_went_live_status })
      (lookup old_id m.slips)

-- The successor that `Repave` stores: never with a claim of the caller, and with a marker if a row
-- was removed.
abbrev pub successor : ℕ → String → Bool → Slip → MockStore → Slip
successor now old_id removed_old new_slip m =
    let stored = record (deep_copy_slip new_slip) {
      claimed_from = kept_claim (lookup new_slip.correlation_id m.slips);
    } in
    if removed_old
    then append_entry
        (record {
          step = push_parsed_step;
          component = "";
          status = StepStatus.running;
          timestamp = now;
          actor = library_actor;
          message = concat ("repaved " ∷ old_id ∷ " for commit " ∷ new_slip.commit_sha ∷ []);
          claimed_by = "";
        })
        stored
    else stored

-- The end of `Repave` on inputs that are fine: the old row, if it is there and neither live nor
-- claimed, is removed, and the successor is stored.
abbrev pub repave_found : ℕ → String → Slip → MockStore → Option Slip → MockStore × Option Error
repave_found now old_id new_slip m none =
    (put new_slip.correlation_id (successor now old_id false new_slip m) m, none)
repave_found now old_id new_slip m (some slip) =
    if slip_is_live slip.status || is_claimed slip
    then (m, some (sentinel Sentinel.slip_went_live))
    else let without = record m { slips = erase old_id m.slips } in
      (put new_slip.correlation_id (successor now old_id true new_slip without) without, none)

abbrev pub repave_checked : ℕ → String → Option Slip → MockStore → MockStore × Option Error
repave_checked now old_id none m = (
  m,
  some (wrap "" (sentinel Sentinel.invalid_configuration) ": Repave requires a successor slip"),
)
repave_checked now old_id (some slip) m =
    if old_id == slip.correlation_id
    then (
      m,
      some (
          wrap "" (sentinel Sentinel.invalid_configuration) (
            concat
              (": Repave successor " ∷ slip.correlation_id ∷ " is the slip being repaved" ∷ []))),
    )
    else repave_found now old_id slip m (lookup old_id m.slips)

abbrev pub repave_unless :
    ℕ → String → Option Slip → MockStore → Option Error → MockStore × Option Error
repave_unless now old_id new_slip m (some e) =
    (repave_injected old_id m (lookup old_id m.repave_went_live_status), some e)
repave_unless now old_id new_slip m none = repave_checked now old_id new_slip m

-- `Repave`. The parent link is only recorded, and is left out.
unfoldable pub repave : ℕ → String → Option Slip → MockStore → MockStore × Option Error
repave now old_id new_slip m = repave_unless now old_id new_slip m m.repave_error
