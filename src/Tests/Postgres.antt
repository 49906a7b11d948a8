-- ===== src/Tests/Postgres.antt =====
-- Runs of the theorems on a small database.
use go_lib_my_carrier.Base.{
  ◌≡◌, refl, true, false, none, some, [], ◌∷◌, ◌-◌, ◌<◌, ℕ, lookup, ok, arith, ap, Option, ◌*◌,
}
use go_lib_my_carrier.Slippy.Status.{SlipStatus, StepStatus}
use go_lib_my_carrier.Slippy.Postgres.Gate.{Environment}
use go_lib_my_carrier.Slippy.Postgres.State.{Row, ComponentState, Database, Driver}
use go_lib_my_carrier.Slippy.Postgres.Columns.{default_row}
use go_lib_my_carrier.Slippy.Claim.Decide.{run_in_flight}
use go_lib_my_carrier.Slippy.Store.Claims
use go_lib_my_carrier.Slippy.Postgres.Gate.{freshness_window}
use go_lib_my_carrier.Slippy.Postgres.Columns.{claim_state, populate}
use go_lib_my_carrier.Slippy.Postgres.Steps.{update_step_tx}
use go_lib_my_carrier.Slippy.Postgres.Writes.{create, claim_slip}
use go_lib_my_carrier.Slippy.Postgres.Repave.{repave}
use go_lib_my_carrier.Slippy.Postgres.Reads.{load_by_commit}
use go_lib_my_carrier.Slippy.Postgres.Events.{find_state, millisecond}
use go_lib_my_carrier.Slippy.Postgres.Freshness.{update_step_tx-fresh}
use go_lib_my_carrier.Slippy.Postgres.Retry.{update_step_tx-late}
use go_lib_my_carrier.Slippy.Postgres.Repaving.{repave-live}
use go_lib_my_carrier.Slippy.Postgres.Selection.{ReadsLive, load_by_commit_newest}
use go_lib_my_carrier.Slippy.Postgres.Quiescence.{run_in_flight-claim_state}
use go_lib_my_carrier.Slippy.Postgres.Refinement.{Agrees, view, claim_slip-Agrees}
use go_lib_my_carrier.Slippy.Postgres.RoundTrip.{load-create}
use go_lib_my_carrier.Tests.Data.{raw_pipeline, completed_slip}

abbrev quiet_at : ℕ → Driver
quiet_at now = record {
  fault = λ s. none;
  commit_lands = false;
  now = now;
  clock = now;
  environment = record { gate_enabled = none; freshness_window_ms = some "500" };
}

abbrev completed_row : Row
completed_row = record default_row {
  correlation_id = "a";
  repository = "Org/Repo";
  commit_sha = "abc1234";
  status = SlipStatus.completed;
  updated_at = 9;
}

abbrev live_row : Row
live_row = record default_row {
  correlation_id = "b";
  repository = "org/repo";
  commit_sha = "abc1234";
  status = SlipStatus.in_progress;
  updated_at = 5;
}

abbrev completed_build : ComponentState
completed_build = record {
  correlation_id = "b";
  step = "build";
  component = "api";
  status = StepStatus.completed;
  message = "";
  image_tag = "";
  claimed_by = none;
  updated_at = 1000;
}

abbrev small_database : Database
small_database = record {
  rows = ("a", completed_row) ∷ ("b", live_row) ∷ [];
  component_states = completed_build ∷ [];
  links = [];
  has_unique_index = false;
}

abbrev empty_database : Database
empty_database = record { rows = []; component_states = []; links = []; has_unique_index = true }

abbrev written_at : Option ComponentState → ℕ
written_at none = 0
written_at (some state) = state.updated_at

late_build :
    (old : ComponentState)
    → find_state "b" "build" "api" small_database.component_states ≡ some old
    → 3600000 * millisecond < 4000000000000 - old.updated_at
unfolding find_state
late_build old h =
    let e : completed_build.updated_at ≡ old.updated_at = ap written_at h in omega (arith, e)

update_step_tx-fresh_example :
    (update_step_tx raw_pipeline
      (quiet_at 2000)
      "b"
      "build"
      "api"
      StepStatus.running
      none
      small_database).0
    ≡ small_database
unfolding find_state go_lib_my_carrier.Slippy.Postgres.Gate.gate_enabled freshness_window
update_step_tx-fresh_example =
    (update_step_tx-fresh raw_pipeline (quiet_at 2000) "b" "build" "api" StepStatus.running none
      small_database completed_build refl refl refl refl (omega arith) refl).0

update_step_tx-late_example :
    (update_step_tx raw_pipeline
      (quiet_at 4000000000000)
      "b"
      "build"
      "api"
      StepStatus.running
      none
      small_database).1
    ≡ ok tt
unfolding lookup go_lib_my_carrier.Slippy.Claim.Marker.guard_reserved_step_write
update_step_tx-late_example =
    (update_step_tx-late raw_pipeline (quiet_at 4000000000000) "b" "build" "api" StepStatus.running
      none small_database (λ s. refl) (live_row, refl) refl late_build).0

repave-live_example :
    (repave raw_pipeline (quiet_at 3) "b" (some completed_slip) none small_database).0
    ≡ small_database
unfolding lookup
repave-live_example =
    (repave-live raw_pipeline (quiet_at 3) "b" (some completed_slip) none small_database live_row
      refl refl).0

load_by_commit_newest_example :
    ReadsLive raw_pipeline small_database "ORG/repo" "abc1234" 5
      (load_by_commit raw_pipeline (quiet_at 3) "ORG/repo" "abc1234" small_database)
unfolding lookup
load_by_commit_newest_example =
    load_by_commit_newest raw_pipeline (quiet_at 3) "ORG/repo" "abc1234" small_database "b" live_row
      (λ s. refl) refl refl refl

run_in_flight-claim_state_example :
    run_in_flight (claim_state raw_pipeline "b" live_row)
    ≡ run_in_flight (populate raw_pipeline live_row)
run_in_flight-claim_state_example = run_in_flight-claim_state raw_pipeline "b" live_row

claim_slip-Agrees_example :
    Agrees "a"
      (claim_slip raw_pipeline (quiet_at 7) "a" [] "deployer" "promote" small_database)
      (Claims.claim_slip 7 "a" [] "deployer" "promote" (view raw_pipeline small_database))
claim_slip-Agrees_example =
    claim_slip-Agrees raw_pipeline (quiet_at 7) "a" [] "deployer" "promote" small_database
      (λ s. refl)

load-create_example : (create raw_pipeline (quiet_at 7) completed_slip small_database).1 ≡ ok tt
unfolding go_lib_my_carrier.Slippy.Postgres.Writes.is_duplicate
load-create_example =
    (load-create raw_pipeline (quiet_at 7) completed_slip small_database (λ s. refl) refl).0
