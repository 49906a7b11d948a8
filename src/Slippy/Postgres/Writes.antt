-- ===== src/Slippy/Postgres/Writes.antt =====
-- slippy/postgres_store.go, slippy/postgres_store_updates.go: the writes of a whole row, the status
-- write, claim, release and reset in place. Where the code tests the claim of a row, an empty text
-- counts as NULL.
use go_lib_my_carrier.Base.{
  ℕ, Bool, true, false, ◌&&◌, not, Option, none, some, String, ◌==◌, List, [], ◌∷◌, lookup, insert,
  any, concat, lower_codes, codes_eq, Result, ok, err, if◌then◌else◌,
}
use go_lib_my_carrier.Slippy.Errors.{Error, sentinel, wrap, is, Sentinel}
use go_lib_my_carrier.Slippy.Status.{SlipStatus, slip_status_eq, slip_is_terminal}
use go_lib_my_carrier.Slippy.Types.{Slip}
use go_lib_my_carrier.Slippy.Claim.Marker.{claim_marker, release_marker, library_actor}
use go_lib_my_carrier.Slippy.Claim.Decide.{
  run_in_flight, decide_claim, decide_release, decide_reset, ClaimDecision, ClaimOutcome,
  ReleaseOutcome,
}
use go_lib_my_carrier.Slippy.Pipeline.Config.{PipelineConfig}
use go_lib_my_carrier.Slippy.Postgres.State.{
  Row, Database, Statement, Driver, Tx, pure, done, raise, ◌>>=◌, ◌>>◌, attempt, update_row,
  not_found_unless, in_tx, alone,
}
use go_lib_my_carrier.Slippy.Postgres.Columns.{
  slip_values, default_row, claim_state, claimed_from_of,
}
use go_lib_my_carrier.Slippy.Postgres.Steps.{lock_slip, append_history_tx, Answer}

-- The expression of the unique index, on a row of another slip.
abbrev pub same_commit : String → String → String → String × Row → Bool
same_commit id repository commit_sha (key, row) =
    not (key == id)
    && codes_eq (lower_codes row.repository) (lower_codes repository)
    && (row.commit_sha == commit_sha)

-- Whether a write of the slip's row breaks the unique index.
unfoldable pub is_duplicate : Slip → Database → Bool
is_duplicate slip db =
    db.has_unique_index
    && any (same_commit slip.correlation_id slip.repository slip.commit_sha) db.rows

abbrev pub base_row : Option Row → Row
base_row none = default_row
base_row (some row) = row

-- The upsert of `buildCreateQuery`, with `mapCreateError` on a broken index.
abbrev pub insert_row : PipelineConfig → Driver → Slip → Bool → Tx (Unit {0})
insert_row config d slip true db = err (
    wrap (concat ("create slip " ∷ slip.correlation_id ∷ ": " ∷ []))
      (sentinel Sentinel.duplicate_slip) "")
insert_row config d slip false db = ok (
  tt,
  record db {
    rows =
        insert slip.correlation_id
          (slip_values config true d.clock slip (base_row (lookup slip.correlation_id db.rows)))
          db.rows;
  },
)

-- `createTx`.
unfoldable pub create_tx : PipelineConfig → Driver → Slip → Tx (Unit {0})
unfolding slip_values is_duplicate
create_tx config d slip =
    attempt d Statement.insert_slip
      (concat ("failed to create slip " ∷ slip.correlation_id ∷ ": " ∷ []))
    >> λ db. insert_row config d slip (is_duplicate slip db) db

-- `Create`: the same statement outside a transaction.
unfoldable pub create : PipelineConfig → Driver → Slip → Database → Answer
unfolding create_tx
create config d slip = alone (create_tx config d slip)

-- Postgres's own error for a broken unique index, which `Update` does not translate.
abbrev pub unique_violation : Error
unique_violation = Error.plain "duplicate key value violates unique constraint"

abbrev pub update_values : PipelineConfig → Driver → Slip → Bool → Tx (Unit {0})
update_values config d slip true =
    raise (
      wrap (concat ("failed to update slip " ∷ slip.correlation_id ∷ ": " ∷ [])) unique_violation
        "")
update_values config d slip false =
    update_row slip.correlation_id (slip_values config false d.clock slip) >>= not_found_unless

-- `Update`: the full-row write, which keeps `claimed_from`.
unfoldable pub update : PipelineConfig → Driver → Slip → Database → Answer
unfolding lock_slip slip_values is_duplicate
update config d slip = in_tx d (
    lock_slip d slip.correlation_id
    >> attempt d Statement.update_slip
        (concat ("failed to update slip " ∷ slip.correlation_id ∷ ": " ∷ []))
    >> λ db. update_values config d slip (is_duplicate slip db) db)

abbrev pub set_status : ℕ → SlipStatus → Row → Row
set_status now status row = record row { status = status; updated_at = now }

abbrev pub end_claim : ℕ → SlipStatus → Row → Row
end_claim now status row = record row { status = status; claimed_from = none; updated_at = now }

abbrev pub is_claimed_row : Row → Bool
is_claimed_row row = not (slip_status_eq (claimed_from_of row.claimed_from) SlipStatus.unset)

-- The marker of a claim that the status write has ended.
abbrev pub mark_ended : Driver → String → SlipStatus → Bool → Tx (Unit {0})
mark_ended d id status false = done
mark_ended d id status true =
    append_history_tx d id
      (release_marker d.clock status library_actor "claim ended by a terminal status write")

abbrev pub end_found : Driver → String → SlipStatus → Option Row → Tx (Unit {0})
end_found d id status none = raise (sentinel Sentinel.slip_not_found)
end_found d id status (some row) =
    attempt d Statement.write_status (concat ("failed to update status for " ∷ id ∷ ": " ∷ []))
    >> (update_row id (end_claim d.now status) >> done)
    >> mark_ended d id status (is_claimed_row row)

-- The transaction of a terminal status.
abbrev pub end_body : Driver → String → SlipStatus → Tx (Unit {0})
end_body d id status =
    attempt d Statement.read_claim (concat ("failed to read the claim for " ∷ id ∷ ": " ∷ []))
    >> λ db. end_found d id status (lookup id db.rows) db

-- The single statement of another status.
abbrev pub set_status_body : Driver → String → SlipStatus → Tx (Unit {0})
set_status_body d id status =
    attempt d Statement.write_status (concat ("failed to update status for " ∷ id ∷ ": " ∷ []))
    >> (update_row id (set_status d.now status) >>= not_found_unless)

-- `UpdateSlipStatus`.
unfoldable pub update_slip_status : Driver → String → SlipStatus → Database → Answer
unfolding append_history_tx
update_slip_status d id status db =
    if not (slip_is_terminal status)
    then alone (set_status_body d id status) db
    else in_tx d (end_body d id status) db

abbrev pub claim_found : PipelineConfig → String → Option Row → Tx Slip
claim_found config id none = raise (sentinel Sentinel.slip_not_found)
claim_found config id (some row) = pure (claim_state config id row)

-- `loadClaimStateTx`.
unfoldable pub load_claim_state_tx : PipelineConfig → Driver → String → Tx Slip
unfolding claim_state
load_claim_state_tx config d id =
    attempt d Statement.load_claim_state
      (concat ("failed to load claim state for slip " ∷ id ∷ ": " ∷ []))
    >> λ db. claim_found config id (lookup id db.rows) db

abbrev pub set_claim : ℕ → SlipStatus → Row → Row
set_claim now prior row = record row { claimed_from = some prior; updated_at = now }

abbrev pub clear_claim : ℕ → Row → Row
clear_claim now row = record row { claimed_from = none; updated_at = now }

abbrev pub claim_decided :
    Driver → String → String → String → Bool → Result Error ClaimDecision → Tx ClaimOutcome
claim_decided d id claimed_by reason in_flight (err e) =
    raise (wrap (concat ("claim " ∷ id ∷ ": " ∷ [])) e "")
claim_decided d id claimed_by reason in_flight (ok decision) =
    let outcome : ClaimOutcome = record {
      claimed = decision.write;
      prior = decision.prior;
      in_flight = in_flight;
    } in
    if not decision.write
    then pure outcome
    else append_history_tx d id (claim_marker d.clock decision.prior claimed_by reason)
      >> attempt d Statement.write_claim (concat ("claim " ∷ id ∷ ": claim write: " ∷ []))
      >> update_row id (set_claim d.now decision.prior)
      >> pure outcome

-- The transaction of a claim.
unfoldable pub claim_body :
    PipelineConfig → Driver → String → List SlipStatus → String → String → Tx ClaimOutcome
unfolding load_claim_state_tx append_history_tx
claim_body config d id expected claimed_by reason =
    load_claim_state_tx config d id >>= λ (slip : Slip).
    claim_decided d id claimed_by reason (run_in_flight slip)
      (decide_claim slip.status slip.claimed_from (run_in_flight slip) expected)

-- `ClaimSlip`.
unfoldable pub claim_slip :
    PipelineConfig
    → Driver
    → String
    → List SlipStatus
    → String
    → String
    → Database
    → Database × Result Error ClaimOutcome
unfolding claim_body
claim_slip config d id expected claimed_by reason =
    in_tx d (claim_body config d id expected claimed_by reason)

abbrev pub release_decided :
    Driver → String → String → String → SlipStatus → Result Error Bool → Tx ReleaseOutcome
release_decided d id released_by reason status (err e) =
    raise (wrap (concat ("release " ∷ id ∷ ": " ∷ [])) e "")
release_decided d id released_by reason status (ok false) =
    pure (record { released = false; status = status })
release_decided d id released_by reason status (ok true) =
    attempt d Statement.clear_claim (concat ("release " ∷ id ∷ ": clear: " ∷ []))
    >> update_row id (clear_claim d.now)
    >> append_history_tx d id (release_marker d.clock status released_by reason)
    >> pure (record { released = true; status = status })

-- The transaction of a release.
unfoldable pub release_body : PipelineConfig → Driver → String → String → String → Tx ReleaseOutcome
unfolding load_claim_state_tx append_history_tx
release_body config d id released_by reason = load_claim_state_tx config d id >>= λ (slip : Slip).
    release_decided d id released_by reason slip.status (decide_release (some slip))

-- `ReleaseClaim`.
unfoldable pub release_claim :
    PipelineConfig
    → Driver
    → String
    → String
    → String
    → Database
    → Database × Result Error ReleaseOutcome
unfolding release_body
release_claim config d id released_by reason = in_tx d (release_body config d id released_by reason)

abbrev pub reset_decided : PipelineConfig → Driver → Slip → Option Error → Tx (Unit {0})
reset_decided config d slip none = create_tx config d slip
reset_decided config d slip (some e) =
    raise (wrap (concat ("reset " ∷ slip.correlation_id ∷ " in place: " ∷ [])) e "")

abbrev pub reset_loaded :
    PipelineConfig → Driver → Slip → Result Error (Slip × Database) → Tx (Unit {0})
reset_loaded config d slip (err e) db =
    if is Sentinel.slip_not_found e then create_tx config d slip db else err e
reset_loaded config d slip (ok (prior, later)) db =
    reset_decided config d slip (decide_reset prior.claimed_from (run_in_flight prior)) later

-- `ResetSlipInPlace`, for a pointer that may be nil.
unfoldable pub reset_slip_in_place : PipelineConfig → Driver → Option Slip → Database → Answer
unfolding load_claim_state_tx create_tx
reset_slip_in_place config d none db = (
  db,
  err (
      wrap "" (sentinel Sentinel.invalid_configuration)
        ": ResetSlipInPlace requires a successor slip"),
)
reset_slip_in_place config d (some slip) db =
    in_tx d
      (λ start.
        reset_loaded config d slip (load_claim_state_tx config d slip.correlation_id start) start)
      db
