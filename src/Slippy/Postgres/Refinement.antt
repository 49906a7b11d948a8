-- ===== src/Slippy/Postgres/Refinement.antt =====
-- slippy/postgres_store_updates.go, slippy/slippytest/mock_store.go: a claim and a release in Postgres,
-- against the reference store.
use go_lib_my_carrier.Base.{
  ◌≡◌, refl, ◌∙◌, ap, Bool, true, false, inl, inr, Bool-cases, Option, none, some, Option-cases,
  String, ◌==◌, List, [], ◌∷◌, ◌++◌, Assoc, lookup, insert, lookup-insert, eq_refl, Result, ok, err,
  arith,
}
use go_lib_my_carrier.Slippy.Errors.{Error, sentinel, Sentinel}
use go_lib_my_carrier.Slippy.Status.{SlipStatus}
use go_lib_my_carrier.Slippy.Types.{Slip, StateHistoryEntry}
use go_lib_my_carrier.Slippy.Claim.Marker.{claim_marker}
use go_lib_my_carrier.Slippy.Claim.Decide.{run_in_flight, decide_claim, ClaimDecision}
use go_lib_my_carrier.Slippy.Store.State.{MockStore, no_faults}
use go_lib_my_carrier.Slippy.Store.Claims
use go_lib_my_carrier.Slippy.Pipeline.Config.{PipelineConfig}
use go_lib_my_carrier.Slippy.Postgres.State.{
  Row, Database, Driver, Statement, Tx, ◌>>=◌, ended, in_tx,
}
use go_lib_my_carrier.Slippy.Postgres.Columns.{populate, claim_state, claimed_from_of}
use go_lib_my_carrier.Slippy.Postgres.Steps.{append_history_tx, append_entry}
use go_lib_my_carrier.Slippy.Postgres.Writes.{
  claim_slip, claim_body, claim_decided, load_claim_state_tx, set_claim,
}
use go_lib_my_carrier.Slippy.Postgres.Progress.{IsQuiet}
use go_lib_my_carrier.Slippy.Postgres.Quiescence.{run_in_flight-claim_state}

abbrev view_rows : PipelineConfig → Assoc Row → Assoc Slip
view_rows config [] = []
view_rows config ((id, row) ∷ rows) = (id, populate config row) ∷ view_rows config rows

-- The reference store that holds the slips of the rows.
abbrev pub view : PipelineConfig → Database → MockStore
view config db = record {
  slips = view_rows config db.rows;
  repave_error = none;
  repave_went_live_status = [];
  faults = no_faults;
}

abbrev populated : PipelineConfig → Option Row → Option Slip
populated config none = none
populated config (some row) = some (populate config row)

lookup-view :
    (config : PipelineConfig) (id : String) (rows : Assoc Row)
    → lookup id (view_rows config rows) ≡ populated config (lookup id rows)
unfolding lookup
lookup-view config id [] = refl
lookup-view config id ((key, row) ∷ rows) = elim (Bool-cases (key == id)) [
  | inl here ↦ rw here refl
  | inr later ↦ rw later (lookup-view config id rows)
]

-- What a claim or a release changes of a slip.
pub record Claimed : Type 0 where
  pub status : SlipStatus
  pub claimed_from : SlipStatus
  pub state_history : List StateHistoryEntry

abbrev pub claimed_row : Option Row → Option Claimed
claimed_row none = none
claimed_row (some row) = some (record {
  status = row.status;
  claimed_from = claimed_from_of row.claimed_from;
  state_history = row.state_history;
})

abbrev pub claimed_slip : Option Slip → Option Claimed
claimed_slip none = none
claimed_slip (some slip) = some (record {
  status = slip.status;
  claimed_from = slip.claimed_from;
  state_history = slip.state_history;
})

-- Both stores answer the same, and leave the slip with the same status, claim and history.
abbrev pub Agrees {ℓ} :
    {A : Type ℓ} → String → Database × Result Error A → MockStore × Result Error A → Type ℓ
Agrees id (db, r) (m, s) =
    (r ≡ s) × (claimed_row (lookup id db.rows) ≡ claimed_slip (lookup id m.slips))

found-view :
    (config : PipelineConfig) (id : String) (db : Database) (row : Row)
    → lookup id db.rows ≡ some row
    → lookup id (view config db).slips ≡ some (populate config row)
found-view config id db row found = lookup-view config id db.rows ∙ ap (populated config) found

lookup_inserted :
    {V : Type 0} (id : String) (v : V) (entries : Assoc V)
    → lookup id (insert id v entries) ≡ some v
lookup_inserted id v entries = lookup-insert id id v entries ∙ rw (eq_refl id) refl

in_tx-quiet {ℓ} :
    {A : Type ℓ} (d : Driver) (body : Tx A) (db : Database) (r : Result Error (A × Database))
    → IsQuiet d
    → body db ≡ r
    → in_tx d body db ≡ elim r [ ok (a, later) ↦ (later, ok a) | err e ↦ (db, err e) ]
unfolding in_tx
in_tx-quiet d body db (ok (a, later)) quiet b =
    rw (quiet Statement.begin, b, quiet Statement.commit) refl
in_tx-quiet d body db (err e) quiet b = rw (quiet Statement.begin, b) refl

-- The writes of a claim, on a row that is there.
claim_written :
    (d : Driver) (id claimed_by reason : String) (b : Bool) (prior : SlipStatus) (db : Database)
    (row : Row)
    → IsQuiet d
    → lookup id db.rows ≡ some row
    → let marked = append_entry d.now (claim_marker d.clock prior claimed_by reason) row in
      claim_decided d id claimed_by reason b (ok (record { prior = prior; write = true })) db
      ≡ ok (
        record { claimed = true; prior = prior; in_flight = b },
        record db { rows = insert id (set_claim d.now prior marked) (insert id marked db.rows) },
      )
unfolding append_history_tx
claim_written d id claimed_by reason b prior db row quiet found =
    let marked = append_entry d.now (claim_marker d.clock prior claimed_by reason) row in
    rw
      (
        ◌>>=◌,
        quiet Statement.append_history,
        found,
        quiet Statement.write_claim,
        lookup_inserted id marked db.rows,
      )
      refl

-- A claim that has been decided on, to write or not, in both stores.
claim_made-Agrees :
    (d : Driver) (id claimed_by reason : String) (prior : SlipStatus) (write : Bool) (db : Database)
    (row : Row) (slip : Slip) (m : MockStore)
    → IsQuiet d
    → lookup id db.rows ≡ some row
    → lookup id m.slips ≡ some slip
    → claimed_row (some row) ≡ claimed_slip (some slip)
    → let r : Result Error ClaimDecision = ok (record { prior = prior; write = write }) in
      Agrees id
        (in_tx d (claim_decided d id claimed_by reason (run_in_flight slip) r) db)
        (Claims.claim_decided d.clock id claimed_by reason slip m r)
claim_made-Agrees d id claimed_by reason prior true db row slip m quiet found there same =
    let marked = append_entry d.now (claim_marker d.clock prior claimed_by reason) row in
    let written = Claims.claim_written d.clock prior claimed_by reason slip in
    rw
      (in_tx-quiet d _ db _ quiet
        (claim_written d id claimed_by reason (run_in_flight slip) prior db row quiet found))
      (
        refl,
        rw
            (
              lookup_inserted id (set_claim d.now prior marked) (insert id marked db.rows),
              lookup_inserted id written m.slips,
            )
            (claimed_same prior (claim_marker d.clock prior claimed_by reason) row slip same),
      )
  where
    claimed_same :
        (prior : SlipStatus) (entry : StateHistoryEntry) (row : Row) (slip : Slip)
        → claimed_row (some row) ≡ claimed_slip (some slip)
        → claimed_row (some (set_claim d.now prior (append_entry d.now entry row)))
          ≡ claimed_slip (
              some (record slip {
                state_history = slip.state_history ++ entry ∷ [];
                claimed_from = prior;
              }))
    claimed_same prior entry row slip same = ground (arith, same)
claim_made-Agrees d id claimed_by reason prior false db row slip m quiet found there same =
    rw
      (in_tx-quiet d
        (claim_decided d id claimed_by reason (run_in_flight slip)
          (ok (record { prior = prior; write = false })))
        db _ quiet refl)
      (refl, rw (found, there) same)

claim_decided-Agrees :
    (d : Driver) (id claimed_by reason : String) (db : Database) (row : Row) (slip : Slip)
    (m : MockStore) (r : Result Error ClaimDecision)
    → IsQuiet d
    → lookup id db.rows ≡ some row
    → lookup id m.slips ≡ some slip
    → claimed_row (some row) ≡ claimed_slip (some slip)
    → Agrees id
        (in_tx d (claim_decided d id claimed_by reason (run_in_flight slip) r) db)
        (Claims.claim_decided d.clock id claimed_by reason slip m r)
claim_decided-Agrees d id claimed_by reason db row slip m (err e) quiet found there same =
    rw
      (in_tx-quiet d (claim_decided d id claimed_by reason (run_in_flight slip) (err e)) db _ quiet
        refl)
      (refl, rw (found, there) same)
claim_decided-Agrees d id claimed_by reason db row slip m (ok decision) quiet found there same =
    claim_made-Agrees d id claimed_by reason decision.prior decision.write db row slip m quiet found
      there same

in_tx-body {ℓ} :
    {A : Type ℓ} (d : Driver) (body other : Tx A) (db : Database)
    → body db ≡ other db
    → in_tx d body db ≡ in_tx d other db
unfolding in_tx
in_tx-body d body other db same = elim (Option-cases (d.fault Statement.begin)) [
  | inl fine ↦ rw fine (ap (ended d db) same)
  | inr (e, fault) ↦ rw fault refl
]

claim_body-absent :
    (config : PipelineConfig) (d : Driver) (id : String) (expected : List SlipStatus)
    (claimed_by reason : String) (db : Database)
    → IsQuiet d
    → lookup id db.rows ≡ none
    → claim_body config d id expected claimed_by reason db ≡ err (sentinel Sentinel.slip_not_found)
unfolding claim_body load_claim_state_tx
claim_body-absent config d id expected claimed_by reason db quiet absent =
    rw (◌>>=◌, quiet Statement.load_claim_state, absent) refl

-- The decision is on the slip that the row holds.
claim_body-found :
    (config : PipelineConfig) (d : Driver) (id : String) (expected : List SlipStatus)
    (claimed_by reason : String) (db : Database) (row : Row)
    → IsQuiet d
    → lookup id db.rows ≡ some row
    → let slip = populate config row in
      claim_body config d id expected claimed_by reason db
      ≡ claim_decided d id claimed_by reason
          (run_in_flight slip)
          (decide_claim slip.status slip.claimed_from (run_in_flight slip) expected)
          db
unfolding claim_body load_claim_state_tx claim_state populate
claim_body-found config d id expected claimed_by reason db row quiet found =
    rw (◌>>=◌, quiet Statement.load_claim_state, found, run_in_flight-claim_state config id row)
      refl

abbrev decision_on : PipelineConfig → Row → List SlipStatus → Result Error ClaimDecision
decision_on config row expected =
    let slip = populate config row in
    decide_claim slip.status slip.claimed_from (run_in_flight slip) expected

-- Where the driver fails nothing, a claim in Postgres answers what the reference store answers on
-- the slips of the rows, the errors for a missing slip and a refused claim included, and leaves the
-- slip with the same status, claim and history.
pub claim_slip-Agrees :
    (config : PipelineConfig) (d : Driver) (id : String) (expected : List SlipStatus)
    (claimed_by reason : String) (db : Database)
    → IsQuiet d
    → Agrees id
        (claim_slip config d id expected claimed_by reason db)
        (Claims.claim_slip d.clock id expected claimed_by reason (view config db))
unfolding claim_slip Claims.claim_slip populate
claim_slip-Agrees config d id expected claimed_by reason db quiet =
    elim (Option-cases (lookup id db.rows)) [
      | inl absent ↦
          let there = lookup-view config id db.rows ∙ ap (populated config) absent in
          rw
            (
              there,
              in_tx-quiet d (claim_body config d id expected claimed_by reason) db _ quiet
                  (claim_body-absent config d id expected claimed_by reason db quiet absent),
            )
            (refl, rw (absent, there) refl)
      | inr (row, found) ↦
          let there = found-view config id db row found in
          rw
            (
              there,
              in_tx-body d (claim_body config d id expected claimed_by reason)
                  (claim_decided d id claimed_by reason (run_in_flight (populate config row))
                    (decision_on config row expected))
                  db (claim_body-found config d id expected claimed_by reason db row quiet found),
            )
            (claim_decided-Agrees d id claimed_by reason db row (populate config row)
              (view config db) _ quiet found there refl)
    ]
