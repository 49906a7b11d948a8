-- ===== src/Tests/Rollbacks.antt =====
-- Runs of the theorems on the records of rollbacks.
use go_lib_my_carrier.Base.{◌≡◌, refl, false, none, some, List, [], ◌∷◌}
use go_lib_my_carrier.Slippy.Postgres.Rollbacks.{RollbackRecord, Fault}
use go_lib_my_carrier.Slippy.Postgres.Rollbacks.Kept.{
  Call, find_record, record_all, record_all-kept,
}

abbrev reverted : RollbackRecord
reverted = record {
  id = 1;
  correlation_id = "a";
  workflow = "rollback-a";
  recorded_at = 5;
  environment = "prod";
  reason = "";
  source = "";
  rollout_phase = "";
  pod_hash = "";
  gitops_repo = "";
  gitops_commit = "";
  revert_commit = "";
  status = "success";
  forced = false;
  message = "";
  outcome = "";
}

-- A failure is reported for the same workflow, and a record of an unknown slip.
abbrev calls : List Call
calls =
    record { now = 7; next_id = 2; new = record reverted { status = "failed" }; fault = none }
    ∷ record {
      now = 8;
      next_id = 3;
      new = record reverted { correlation_id = "z" };
      fault = some Fault.no_slip;
    }
    ∷ []

record_all-kept_example :
    find_record "a" "rollback-a" (record_all calls (reverted ∷ [])) ≡ some reverted
unfolding find_record
record_all-kept_example = record_all-kept calls "a" "rollback-a" reverted (reverted ∷ []) refl refl
