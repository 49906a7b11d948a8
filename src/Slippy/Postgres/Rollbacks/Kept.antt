-- ===== src/Slippy/Postgres/Rollbacks/Kept.antt =====
-- slippy/postgres_store_rollbacks.go: which records a later call can change.
use go_lib_my_carrier.Base.{
  ℕ, ◌≡◌, false, Option, none, some, Option-cases, String, ◌==◌, List, [], ◌∷◌, arith,
  if◌then◌else◌, eq_iff,
}
use go_lib_my_carrier.Slippy.Postgres.Rollbacks.{
  RollbackRecord, Fault, is_record_of, put_rollback, validate, record_rollback,
}

-- The record of a slip and workflow.
unfoldable pub find_record : String → String → List RollbackRecord → Option RollbackRecord
find_record id workflow [] = none
find_record id workflow (r ∷ records) =
    if is_record_of id workflow r then some r else find_record id workflow records

-- A call of `RecordRollback`, with its time, number and fault.
pub record Call : Type 0 where
  pub now : ℕ
  pub next_id : ℕ
  pub new : RollbackRecord
  pub fault : Option Fault

unfoldable pub record_all : List Call → List RollbackRecord → List RollbackRecord
unfolding record_rollback
record_all [] records = records
record_all (c ∷ calls) records =
    record_all calls (record_rollback c.now c.next_id c.new c.fault records).0

put_rollback-kept :
    (now next_id : ℕ) (new : RollbackRecord) (id workflow : String) (r : RollbackRecord)
    (records : List RollbackRecord)
    → find_record id workflow records ≡ some r
    → r.status == "failed" ≡ false
    → find_record id workflow (put_rollback now next_id new records).0 ≡ some r
unfolding find_record put_rollback
put_rollback-kept now next_id new id workflow r [] found ended = cc
put_rollback-kept now next_id new id workflow r (old ∷ records) found ended = ground (
  arith,
  put_rollback-kept now next_id new id workflow r records,
  eq_iff old.correlation_id id,
  eq_iff old.workflow workflow,
)

record_rollback-kept :
    (now next_id : ℕ) (new : RollbackRecord) (fault : Option Fault) (id workflow : String)
    (r : RollbackRecord) (records : List RollbackRecord)
    → find_record id workflow records ≡ some r
    → r.status == "failed" ≡ false
    → find_record id workflow (record_rollback now next_id new fault records).0 ≡ some r
unfolding record_rollback
record_rollback-kept now next_id new fault id workflow r records found ended = ground (
  arith,
  Option-cases (validate new),
  Option-cases fault,
  put_rollback-kept now next_id new id workflow r records found ended,
)

-- A record that did not fail stays as it is over any further calls, for its slip and workflow or for
-- others, valid or not, and whatever Postgres reports.
pub record_all-kept :
    (calls : List Call) (id workflow : String) (r : RollbackRecord) (records : List RollbackRecord)
    → find_record id workflow records ≡ some r
    → r.status == "failed" ≡ false
    → find_record id workflow (record_all calls records) ≡ some r
unfolding record_all
record_all-kept [] id workflow r records found ended = found
record_all-kept (c ∷ calls) id workflow r records found ended =
    record_all-kept calls id workflow r _
      (record_rollback-kept c.now c.next_id c.new c.fault id workflow r records found ended) ended
