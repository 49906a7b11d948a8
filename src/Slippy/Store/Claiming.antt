-- ===== src/Slippy/Store/Claiming.antt =====
-- slippytest/mock_store.go: claims and releases in sequence.
use go_lib_my_carrier.Base.{
  ℕ, ◌≡◌, refl, Bool, true, false, Option, none, some, String, List, [], ◌∷◌, ◌++◌, arith, lookup,
  lookup-insert, Result, ok, err, eq_refl,
}
use go_lib_my_carrier.Slippy.Errors.{Error}
use go_lib_my_carrier.Slippy.Status.{SlipStatus}
use go_lib_my_carrier.Slippy.Types.{Slip}
use go_lib_my_carrier.Slippy.Claim.Marker.{claim_marker, release_marker}
use go_lib_my_carrier.Slippy.Claim.Decide.{
  decide_claim, decide_release, run_in_flight, ClaimDecision, ClaimOutcome,
}
use go_lib_my_carrier.Slippy.Store.State.{MockStore, put, unless_result}
use go_lib_my_carrier.Slippy.Store.Claims.{
  is_claim, is_claimed, claim_written, claim_decided, claim_found, claim_slip, release_written,
  release_claim,
}

abbrev outcome_claimed : Result Error ClaimOutcome → Bool
outcome_claimed (ok o) = o.claimed
outcome_claimed (err e) = false

decide_claim-claimed :
    (status claimed_from : SlipStatus) (in_flight : Bool) (expected : List SlipStatus)
    (d : ClaimDecision)
    → is_claim claimed_from ≡ true
    → decide_claim status claimed_from in_flight expected ≡ ok d
    → d.write ≡ false
unfolding decide_claim
decide_claim-claimed status claimed_from in_flight expected d c h = ground arith

claim_decided-same :
    (now : ℕ) (id by reason : String) (slip : Slip) (m : MockStore) (r : Result Error ClaimDecision)
    → ((d : ClaimDecision) → r ≡ ok d → d.write ≡ false)
    → (claim_decided now id by reason slip m r).0 ≡ m
claim_decided-same now id by reason slip m (err e) h = refl
claim_decided-same now id by reason slip m (ok d) h = rw (h d refl) refl

unless_result-same :
    {A : Type 0} (e : Option Error) (m : MockStore) (k : MockStore × Result Error A)
    → k.0 ≡ m
    → (unless_result e m k).0 ≡ m
unless_result-same none m k h = h
unless_result-same (some e) m k h = refl

-- A claim of a row that is claimed writes nothing.
claim_slip-claimed :
    (now : ℕ) (id : String) (expected : List SlipStatus) (by reason : String) (m : MockStore)
    (slip : Slip)
    → lookup id m.slips ≡ some slip
    → is_claimed slip ≡ true
    → (claim_slip now id expected by reason m).0 ≡ m
unfolding claim_slip
claim_slip-claimed now id expected by reason m slip found c =
    let r = decide_claim slip.status slip.claimed_from (run_in_flight slip) expected in
    unless_result-same m.faults.claim_slip_error m _ (
      rw found (
        claim_decided-same now id by reason slip m r (λ d.
          decide_claim-claimed slip.status slip.claimed_from (run_in_flight slip) expected d c)))

-- The decision to write, for the status that the claim is taken out of.
decide_claim-prior :
    (status claimed_from : SlipStatus) (in_flight : Bool) (expected : List SlipStatus)
    (d : ClaimDecision)
    → decide_claim status claimed_from in_flight expected ≡ ok d
    → d.write ≡ true
    → (is_claim status ≡ true) × (claimed_from ≡ SlipStatus.unset) × (d.prior ≡ status)
unfolding decide_claim
decide_claim-prior status claimed_from in_flight expected d h w = ground arith

decide_release-idle :
    (slip : Slip)
    → is_claimed slip ≡ true
    → run_in_flight slip ≡ false
    → decide_release (some slip) ≡ ok true
unfolding decide_release
decide_release-idle slip c idle = ground (arith, c, idle)

-- A claim of a run that is not in flight is released.
release_claim-idle :
    (now : ℕ) (id by reason : String) (m : MockStore) (slip : Slip)
    → lookup id m.slips ≡ some slip
    → is_claimed slip ≡ true
    → run_in_flight slip ≡ false
    → m.faults.release_claim_error ≡ none
    → (release_claim now id by reason m).0 ≡ put id (release_written now by reason slip) m
unfolding release_claim
release_claim-idle now id by reason m slip found c idle healthy =
    rw healthy (rw found (rw (decide_release-idle slip c idle) refl))

module _ (now : ℕ) (id : String) (expected : List SlipStatus) (by reason : String)
    (m : MockStore) where
  unless_result-claimed :
      (e : Option Error) (k : MockStore × Result Error ClaimOutcome)
      → outcome_claimed (unless_result e m k).1 ≡ true
      → unless_result e m k ≡ k
  unless_result-claimed none k h = refl
  unless_result-claimed (some e) k h = cc

  -- What a claim that is taken has found and done.
  abbrev Taken : MockStore → Type 0
  Taken m' =
      (slip : Slip) × (lookup id m.slips ≡ some slip)
      × (is_claim slip.status ≡ true)
      × (slip.claimed_from ≡ SlipStatus.unset)
      × (m' ≡ put id (claim_written now slip.status by reason slip) m)

  decided_row :
      (slip : Slip) (r : Result Error ClaimDecision)
      → lookup id m.slips ≡ some slip
      → ((d : ClaimDecision)
          → r ≡ ok d
          → d.write ≡ true
          → (is_claim slip.status ≡ true)
            × (slip.claimed_from ≡ SlipStatus.unset)
            × (d.prior ≡ slip.status))
      → outcome_claimed (claim_decided now id by reason slip m r).1 ≡ true
      → Taken (claim_decided now id by reason slip m r).0
  decided_row slip (err e) found sound h = cc
  decided_row slip (ok d) found sound h =
      let (status, unclaimed, prior) = sound d refl h in
      (slip, found, status, unclaimed, rw h (rw prior refl))

  found_row :
      (o : Option Slip)
      → lookup id m.slips ≡ o
      → outcome_claimed (claim_found now id expected by reason m o).1 ≡ true
      → Taken (claim_found now id expected by reason m o).0
  found_row none found h = cc
  found_row (some slip) found h =
      decided_row slip (decide_claim slip.status slip.claimed_from (run_in_flight slip) expected)
        found (decide_claim-prior slip.status slip.claimed_from (run_in_flight slip) expected) h

  -- A claim that is taken leaves a claimed row.
  claim_slip-row :
      outcome_claimed (claim_slip now id expected by reason m).1 ≡ true
      → Taken (claim_slip now id expected by reason m).0
  unfolding claim_slip
  claim_slip-row taken =
      let k = claim_found now id expected by reason m (lookup id m.slips) in
      let same = unless_result-claimed m.faults.claim_slip_error k taken in
      rw same (found_row (lookup id m.slips) refl (rw (← same) taken))

  claim_slip-found :
      outcome_claimed (claim_slip now id expected by reason m).1 ≡ true
      → (slip : Slip) → lookup id m.slips ≡ some slip
      → (slip.claimed_from ≡ SlipStatus.unset)
        × (is_claim slip.status ≡ true)
        × ((claim_slip now id expected by reason m).0
            ≡ put id (claim_written now slip.status by reason slip) m)
  claim_slip-found taken slip here =
      let (row, found, status, unclaimed, after) = claim_slip-row taken in
      let same : row ≡ slip = cc (found, here) in rw (← same) (unclaimed, status, after)

  lookup-put : (slip : Slip) → lookup id (put id slip m).slips ≡ some slip
  lookup-put slip = rw (lookup-insert id id slip m.slips) (rw (eq_refl id) refl)

  -- After a claim that is taken, no other claim of the slip writes anything, whatever it expects.
  pub claim_slip-again :
      (now' : ℕ) (expected' : List SlipStatus) (by' reason' : String)
      → outcome_claimed (claim_slip now id expected by reason m).1 ≡ true
      → (claim_slip now' id expected' by' reason' (claim_slip now id expected by reason m).0).0
        ≡ (claim_slip now id expected by reason m).0
  claim_slip-again now' expected' by' reason' taken =
      let (slip, found, status, unclaimed, after) = claim_slip-row taken in
      claim_slip-claimed now' id expected' by' reason' (claim_slip now id expected by reason m).0
        (claim_written now slip.status by reason slip) (rw after (lookup-put _)) status

  -- A claim that is taken on a run that is not in flight, and then released without an injected
  -- error, leaves the slip as it was, unclaimed, with the two markers at the end of its history.
  pub claim_slip-release_claim :
      (now' : ℕ) (by' reason' : String) (slip : Slip)
      → outcome_claimed (claim_slip now id expected by reason m).1 ≡ true
      → lookup id m.slips ≡ some slip
      → run_in_flight slip ≡ false
      → m.faults.release_claim_error ≡ none
      → lookup id
          (release_claim now' id by' reason' (claim_slip now id expected by reason m).0).0.slips
        ≡ some (record slip {
          state_history =
              (slip.state_history ++ claim_marker now slip.status by reason ∷ [])
              ++ release_marker now' slip.status by' reason' ∷ [];
        })
  unfolding run_in_flight
  claim_slip-release_claim now' by' reason' slip taken here idle healthy =
      let (unclaimed, status, after) = claim_slip-found taken slip here in
      let row = claim_written now slip.status by reason slip in
      let claimed : MockStore = put id row m in
      rw after (
        rw (release_claim-idle now' id by' reason' claimed row (lookup-put row) status idle healthy)
          (rw (lookup-insert id id (release_written now' by' reason' row) claimed.slips)
            (rw (eq_refl id) (rw (← unclaimed) refl))))
