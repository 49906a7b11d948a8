-- ===== src/Tests/Store.antt =====
-- Runs of the store's theorems.
use go_lib_my_carrier.Base.{◌≡◌, refl, some, List, [], ◌∷◌, lookup}
use go_lib_my_carrier.Slippy.Status.{SlipStatus}
use go_lib_my_carrier.Slippy.Types.{SlipWithCommit}
use go_lib_my_carrier.Slippy.Claim.Marker.{claim_marker, release_marker}
use go_lib_my_carrier.Slippy.Claim.Decide.{decide_claim, run_in_flight}
use go_lib_my_carrier.Slippy.Store.Rows.{
  rows_for_commit, tie_break, insert_sorted, sort, find_order,
}
use go_lib_my_carrier.Slippy.Store.Claims.{claim_slip, release_claim}
use go_lib_my_carrier.Slippy.Store.Reads.{find_by_commits, find_in, first_current}
use go_lib_my_carrier.Slippy.Store.Calls.{Call, perform_all}
use go_lib_my_carrier.Slippy.Store.Agreement.{AllAgree}
use go_lib_my_carrier.Slippy.Store.History.{perform_all-AllAgree}
use go_lib_my_carrier.Slippy.Store.Claiming.{claim_slip-again, claim_slip-release_claim}
use go_lib_my_carrier.Slippy.Store.Selection.{find_by_commits_sound, IsFound}
use go_lib_my_carrier.Tests.Data.{completed_slip, three_slips, store_of}

-- A slip is created, claimed, released, and reset in place.
abbrev calls : List Call
calls =
    Call.create completed_slip
    ∷ Call.claim_slip 2 "a" (SlipStatus.completed ∷ []) "deployer" "promote"
    ∷ Call.release_claim 3 "a" "deployer" "done"
    ∷ Call.reset_slip_in_place (some completed_slip)
    ∷ []

perform_all-AllAgree_example : AllAgree (perform_all calls (store_of []))
unfolding lookup
perform_all-AllAgree_example =
    perform_all-AllAgree calls (store_of []) (refl, (tt, (tt, (refl, tt)))) tt

claim_slip-again_example :
    (claim_slip 4 "a" [] "other" "again"
      (claim_slip 2 "a" (SlipStatus.completed ∷ []) "deployer" "promote" three_slips).0).0
    ≡ (claim_slip 2 "a" (SlipStatus.completed ∷ []) "deployer" "promote" three_slips).0
unfolding claim_slip decide_claim lookup run_in_flight
claim_slip-again_example =
    claim_slip-again 2 "a" (SlipStatus.completed ∷ []) "deployer" "promote" three_slips 4 [] "other"
      "again" refl

claim_slip-release_claim_example :
    lookup "a"
      (release_claim 5 "a" "deployer" "done"
        (claim_slip 2 "a" (SlipStatus.completed ∷ []) "deployer" "promote" three_slips).0).0.slips
    ≡ some (record completed_slip {
      state_history =
          claim_marker 2 SlipStatus.completed "deployer" "promote"
          ∷ release_marker 5 SlipStatus.completed "deployer" "done"
          ∷ [];
    })
unfolding claim_slip decide_claim lookup run_in_flight
claim_slip-release_claim_example =
    claim_slip-release_claim 2 "a" (SlipStatus.completed ∷ []) "deployer" "promote" three_slips 5
      "deployer" "done" completed_slip refl refl refl refl

abbrev found_b : SlipWithCommit
found_b = record { slip = completed_slip; matched_commit = "abc1234" }

find_by_commits_sound_example : IsFound "org/repo" three_slips ("fff" ∷ "abc1234" ∷ []) found_b
unfolding find_by_commits find_in first_current find_order sort insert_sorted tie_break
    rows_for_commit
find_by_commits_sound_example =
    find_by_commits_sound "org/repo" three_slips ("fff" ∷ "abc1234" ∷ []) found_b refl
