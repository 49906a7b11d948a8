-- ===== src/Tests/Push.antt =====
-- Runs of the theorems on a push.
use go_lib_my_carrier.Base.{
  inl, inr, arith, eq_iff, ◌≡◌, refl, false, none, some, String, List, [], ◌∷◌, err,
}
use go_lib_my_carrier.Slippy.Errors.{plain}
use go_lib_my_carrier.Slippy.Types.{Slip, SlipWithCommit}
use go_lib_my_carrier.Slippy.Claim.Decide.{run_in_flight}
use go_lib_my_carrier.Slippy.Store.Reads.{load}
use go_lib_my_carrier.Slippy.Client.InMemory.{in_memory, in_memory-IsSlipStore}
use go_lib_my_carrier.Slippy.Client.Resolve.{GitHub}
use go_lib_my_carrier.Slippy.Push.Fresh.{initialize_slip_for_push}
use go_lib_my_carrier.Slippy.Push.Fresh.Idle.{initialize_slip_for_push-idle}
use go_lib_my_carrier.Slippy.Push.Persist.{persist_slip_for_push}
use go_lib_my_carrier.Slippy.Push.Persist.Ends.{persist_slip_for_push-Ends, Ends}
use go_lib_my_carrier.Slippy.Push.Ancestors.{treat_all, no_progress}
use go_lib_my_carrier.Slippy.Push.Ancestors.Ended.{IsFirst, treat_all-one}
use go_lib_my_carrier.Tests.Data.{
  completed_slip, running_slip, abandoned_slip, three_slips, push_options, raw_pipeline,
}

abbrev no_github : GitHub
no_github = record {
  get_commit_ancestry = λ owner repo ref depth. err (plain "offline");
  get_pr_head_commit = λ owner repo number. err (plain "offline");
}

abbrev found_at : String → Slip → SlipWithCommit
found_at commit slip = record { slip = slip; matched_commit = commit }

abbrev ancestors : List SlipWithCommit
ancestors =
    found_at "abc1234" abandoned_slip
    ∷ found_at "abc1234" (record running_slip { correlation_id = "a"; branch = "feature" })
    ∷ found_at "abc1234" running_slip
    ∷ []

-- Running, but of another branch than the push.
not-IsFirst : ¬ IsFirst push_options false ancestors "a"
not-IsFirst (inl (may, e)) = ground (arith, eq_iff "c" "a")
not-IsFirst (inr (ended, inl ((open_, inl squash), e))) = cc
not-IsFirst (inr (ended, inl ((open_, inr (inl same)), e))) =
    ground (arith, eq_iff "feature" "main")
not-IsFirst (inr (ended, inl ((open_, inr (inr (inl same))), e))) =
    ground (arith, eq_iff "feature" "")
not-IsFirst (inr (ended, inl ((open_, inr (inr (inr same))), e))) = ground (arith, eq_iff "main" "")
not-IsFirst (inr (ended, inr (crossed, inl (may, e)))) = ground (arith, eq_iff "b" "a")
not-IsFirst (inr (ended, inr (crossed, inr (apart, none_left)))) = absurd none_left

treat_all-one_example :
    load "a"
      (treat_all in_memory no_github 9 push_options false ancestors (three_slips, no_progress)).0
    ≡ load "a" three_slips
treat_all-one_example =
    treat_all-one in_memory in_memory-IsSlipStore no_github 9 push_options false ancestors
      three_slips no_progress "a" refl not-IsFirst

persist_slip_for_push-Ends_example : Ends in_memory 9 (
    persist_slip_for_push in_memory 9
      (some completed_slip)
      push_options
      running_slip
      none
      three_slips
      [])
persist_slip_for_push-Ends_example =
    persist_slip_for_push-Ends in_memory 9 (some completed_slip) push_options running_slip none
      three_slips []

initialize_slip_for_push-idle_example :
    run_in_flight (initialize_slip_for_push 9 (some raw_pipeline) push_options []) ≡ false
initialize_slip_for_push-idle_example =
    initialize_slip_for_push-idle 9 (some raw_pipeline) push_options [] refl
