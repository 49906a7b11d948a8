-- ===== src/Slippy/Postgres/State.antt =====
-- slippy/postgres_store.go: the tables, and a transaction over them. The jsonb columns hold the
-- values that the code marshals. Postgres and its driver are the parameter `Driver`: which of the
-- statements it fails, and its clock. A statement that it does not fail has the effect of its SQL,
-- and a constraint other than the unique index of a commit is one of the driver's errors.
use go_lib_my_carrier.Base.{
  if◌then◌else◌, ℕ, Bool, true, false, Option, none, some, String, List, Assoc, lookup, insert,
  Result, ok, err,
}
use go_lib_my_carrier.Slippy.Errors.{Error, sentinel, wrap, Sentinel}
use go_lib_my_carrier.Slippy.Status.{SlipStatus, StepStatus}
use go_lib_my_carrier.Slippy.Types.{StateHistoryEntry, ComponentStepData}
use go_lib_my_carrier.Slippy.Postgres.Gate.{Environment}

-- One value of the `step_details` column; a key that is left out is an empty one here.
pub record StepDetail : Type 0 where
  pub started_at : Option ℕ
  pub completed_at : Option ℕ
  pub actor : String
  pub error : String
  pub held_reason : String

-- A row of routing_slips. A step or aggregate column that the maps do not hold has its default.
pub record Row : Type 0 where
  pub correlation_id : String
  pub repository : String
  pub branch : String
  pub commit_sha : String
  pub created_at : ℕ
  pub updated_at : ℕ
  pub status : SlipStatus
  pub step_details : Assoc StepDetail
  pub state_history : List StateHistoryEntry
  pub step_statuses : Assoc StepStatus
  pub aggregates : Assoc (List ComponentStepData)
  pub claimed_from : Option SlipStatus

-- A row of slip_component_states.
pub record ComponentState : Type 0 where
  pub correlation_id : String
  pub step : String
  pub component : String
  pub status : StepStatus
  pub message : String
  pub image_tag : String
  pub claimed_by : Option String
  pub updated_at : ℕ

-- A row of slip_ancestry.
pub record Link : Type 0 where
  pub repository : String
  pub branch : String
  pub correlation_id : String
  pub parent_correlation_id : String
  pub parent_commit_sha : String
  pub parent_status : SlipStatus
  pub parent_failed_step : String
  pub parent_repository : String
  pub parent_branch : String
  pub created_at : ℕ

-- The tables, and whether migration v5 has added the unique index of a commit.
pub record Database : Type 0 where
  pub rows : Assoc Row
  pub component_states : List ComponentState
  pub links : List Link
  pub has_unique_index : Bool

-- The statements and calls that can fail.
pub data Statement : Type 0 where
  begin commit rollback savepoint savepoint_rollback savepoint_commit : Statement
  lock_slip load_claim_state read_claim write_status write_claim clear_claim : Statement
  insert_slip update_slip append_history write_step read_aggregate read_states : Statement
  write_aggregate delete_slip check_slip delete_states delete_links : Statement
  repoint_links own_link insert_link query_slip query_claimants query_slips query_links : Statement
  upsert_state : String → String → StepStatus → Statement
  set_tag : String → Statement

-- `now` is Postgres's clock at the start of the transaction, and `clock` the program's. A commit that
-- returns an error may have taken place, when the answer was lost: `commit_lands` says whether.
pub record Driver : Type 0 where
  pub fault : Statement → Option Error
  pub commit_lands : Bool
  pub now : ℕ
  pub clock : ℕ
  pub environment : Environment

-- What runs in a transaction: an error ends it.
abbrev pub Tx {ℓ} : Type ℓ → Type ℓ
Tx A = Database → Result Error (A × Database)

abbrev pub pure {ℓ} : {A : Type ℓ} → A → Tx A
pure a db = ok (a, db)

abbrev pub raise {ℓ} : {A : Type ℓ} → Error → Tx A
raise e db = err e

infixl 5 ◌>>=◌ ◌>>◌
abbrev pub ◌>>=◌ {ℓ κ} : {A : Type ℓ} {B : Type κ} → Tx A → (A → Tx B) → Tx B
◌>>=◌ m f db = elim (m db) [ ok (a, later) ↦ f a later | err e ↦ err e ]

abbrev pub ◌>>◌ {ℓ κ} : {A : Type ℓ} {B : Type κ} → Tx A → Tx B → Tx B
m >> k = m >>= λ _. k

abbrev pub done : Tx (Unit {0})
done db = ok (tt, db)

abbrev pub modify : (Database → Database) → Tx (Unit {0})
modify f db = ok (tt, f db)

-- A statement that the driver may fail, with the text that the code puts before the error.
abbrev attempt_or : String → Option Error → Tx (Unit {0})
attempt_or before none = done
attempt_or before (some e) = raise (wrap before e "")

abbrev pub attempt : Driver → Statement → String → Tx (Unit {0})
attempt d statement before = attempt_or before (d.fault statement)

-- The end of `inTx` on a commit that the driver may fail.
abbrev commit_or {ℓ} :
    {A : Type ℓ} → Bool → Database → A → Database → Option Error → Database × Result Error A
commit_or lands db a later none = (later, ok a)
commit_or lands db a later (some e) =
    (if lands then later else db, err (wrap "commit transaction: " e ""))

-- `inTx` once the transaction is open. The error of a rollback is not returned, since the function
-- or the commit has failed before it.
abbrev pub ended {ℓ} :
    {A : Type ℓ} → Driver → Database → Result Error (A × Database) → Database × Result Error A
ended d db (ok (a, later)) = commit_or d.commit_lands db a later (d.fault Statement.commit)
ended d db (err e) = (db, err e)

abbrev begun {ℓ} :
    {A : Type ℓ} → Driver → Tx A → Database → Option Error → Database × Result Error A
begun d body db none = ended d db (body db)
begun d body db (some e) = (db, err (wrap "begin transaction: " e ""))

-- `inTx`.
unfoldable pub in_tx {ℓ} : {A : Type ℓ} → Driver → Tx A → Database → Database × Result Error A
in_tx d body db = begun d body db (d.fault Statement.begin)

-- A statement outside a transaction is a transaction of its own.
abbrev pub alone {ℓ} : {A : Type ℓ} → Tx A → Database → Database × Result Error A
alone body db = elim (body db) [ ok (a, later) ↦ (later, ok a) | err e ↦ (db, err e) ]

-- An UPDATE of one row: the number of rows affected is 0 or 1, and the answer is whether it is 1.
abbrev update_found : String → (Row → Row) → Option Row → Tx Bool
update_found id f none db = ok (false, db)
update_found id f (some row) db = ok (true, record db { rows = insert id (f row) db.rows })

abbrev pub update_row : String → (Row → Row) → Tx Bool
update_row id f db = update_found id f (lookup id db.rows) db

abbrev pub not_found_unless : Bool → Tx (Unit {0})
not_found_unless true = done
not_found_unless false = raise (sentinel Sentinel.slip_not_found)
