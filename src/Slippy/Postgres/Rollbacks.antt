-- ===== src/Slippy/Postgres/Rollbacks.antt =====
-- slippy/rollback.go, slippy/postgres_store_rollbacks.go: the record of a rollback, its validation, and
-- the table of them. A text is valid UTF-8 here, so that `storableText` only looks for a NUL.
pub mod Kept
use Prim.Native.String.{count}
use go_lib_my_carrier.Base.{
  ℕ, Bool, true, false, ◌&&◌, ◌||◌, not, Option, none, some, String, ◌==◌, List, [], ◌∷◌, ◌++◌, any,
  concat, join, quoted, codes, ltb, nat_eq, if◌then◌else◌, Result, ok, err,
}
use go_lib_my_carrier.Slippy.Errors.{Error, sentinel, wrap, Sentinel}
use go_lib_my_carrier.Slippy.Postgres.Reads.{queried}

pub record RollbackRecord : Type 0 where
  pub id : ℕ
  pub correlation_id : String
  pub workflow : String
  pub recorded_at : ℕ
  pub environment : String
  pub reason : String
  pub source : String
  pub rollout_phase : String
  pub pod_hash : String
  pub gitops_repo : String
  pub gitops_commit : String
  pub revert_commit : String
  pub status : String
  pub forced : Bool
  pub message : String
  pub outcome : String

abbrev one_of : List String → String → Bool
one_of names s = any (λ (name : String). name == s) names

-- `RollbackStatus.Valid`.
unfoldable pub is_valid_status : String → Bool
is_valid_status s = one_of ("success" ∷ "noop" ∷ "skipped" ∷ "failed" ∷ "dry_run" ∷ []) s

-- `rollbackTextField`, with its limit as it is printed.
pub record RollbackTextField : Type 0 where
  pub name : String
  pub value : String
  pub limit : ℕ
  pub shown_limit : String

abbrev field : String → String → ℕ → String → RollbackTextField
field name value limit shown_limit = record {
  name = name;
  value = value;
  limit = limit;
  shown_limit = shown_limit;
}

-- The fields of `Validate` that may be empty.
abbrev pub text_fields : RollbackRecord → List RollbackTextField
text_fields r =
    field "reason" r.reason 64 "64"
    ∷ field "source" r.source 64 "64"
    ∷ field "rollout_phase" r.rollout_phase 64 "64"
    ∷ field "pod_hash" r.pod_hash 64 "64"
    ∷ field "gitops_repo" r.gitops_repo 128 "128"
    ∷ field "gitops_commit" r.gitops_commit 64 "64"
    ∷ field "revert_commit" r.revert_commit 64 "64"
    ∷ field "message" r.message 1000 "1000"
    ∷ field "outcome" r.outcome 1000 "1000"
    ∷ []

abbrev pub identity_fields : RollbackRecord → List RollbackTextField
identity_fields r =
    field "correlation_id" r.correlation_id 128 "128" ∷ field "workflow" r.workflow 253 "253" ∷ []

-- `exceedsRunes`.
abbrev pub exceeds_runes : String → ℕ → Bool
exceeds_runes v limit = ltb limit (count v)

abbrev is_nul : ℕ → Bool
is_nul c = nat_eq c 0

-- `storableText`.
abbrev pub storable_text : String → Bool
storable_text v = not (any is_nul (codes v))

abbrev problem_if : Bool → String → List String
problem_if true problem = problem ∷ []
problem_if false problem = []

abbrev too_long : RollbackTextField → String
too_long f = concat (f.name ∷ " exceeds " ∷ f.shown_limit ∷ " characters" ∷ [])

-- A field that must be there, and not be too long.
abbrev identity_problem : RollbackTextField → List String
identity_problem f =
    if f.value == ""
    then concat (f.name ∷ " is empty" ∷ []) ∷ []
    else problem_if (exceeds_runes f.value f.limit) (too_long f)

unfoldable pub identity_problems : List RollbackTextField → List String
identity_problems [] = []
identity_problems (f ∷ fs) = identity_problem f ++ identity_problems fs

unfoldable pub length_problems : List RollbackTextField → List String
length_problems [] = []
length_problems (f ∷ fs) =
    problem_if (exceeds_runes f.value f.limit) (too_long f) ++ length_problems fs

unfoldable pub text_problems : List RollbackTextField → List String
text_problems [] = []
text_problems (f ∷ fs) =
    problem_if (not (storable_text f.value))
      (concat (f.name ∷ " contains a NUL byte or invalid UTF-8" ∷ []))
    ++ text_problems fs

abbrev invalid_unless : List String → Option Error
invalid_unless [] = none
invalid_unless (p ∷ ps) =
    some (wrap "" (sentinel Sentinel.invalid_rollback) (concat (": " ∷ join "; " (p ∷ ps) ∷ [])))

-- `RollbackRecord.Validate`.
unfoldable pub validate : RollbackRecord → Option Error
unfolding is_valid_status identity_problems length_problems text_problems
validate r = invalid_unless (
    identity_problems (identity_fields r)
    ++ (problem_if (not (one_of ("dev" ∷ "preprod" ∷ "prod" ∷ []) r.environment))
          (concat ("environment " ∷ quoted r.environment ∷ " is not dev, preprod or prod" ∷ []))
        ++ (problem_if (not (is_valid_status r.status)) (
              concat (
                "status "
                ∷ quoted r.status
                ∷ " is not one of success, noop, skipped, failed, dry_run"
                ∷ []))
            ++ (length_problems (text_fields r)
                ++ text_problems (identity_fields r ++ text_fields r)))))

-- What Postgres reports: the slip of the record is missing, a check is broken, or something else.
pub data Fault : Type 0 where
  no_slip : Fault
  check : String → Error → Fault
  other : Error → Fault

-- `mapRollbackError`.
unfoldable pub map_rollback_error : String → Fault → Error
map_rollback_error id no_slip =
    wrap (concat ("record rollback for slip " ∷ id ∷ ": " ∷ [])) (sentinel Sentinel.slip_not_found)
      ""
map_rollback_error id (check message e) =
    wrap (concat ("record rollback for slip " ∷ id ∷ ": " ∷ []))
      (sentinel Sentinel.invalid_rollback) (concat (": " ∷ message ∷ []))
map_rollback_error id (other e) = wrap (concat ("record rollback for slip " ∷ id ∷ ": " ∷ [])) e ""

abbrev pub is_record_of : String → String → RollbackRecord → Bool
is_record_of id workflow r = r.correlation_id == id && (r.workflow == workflow)

-- The columns that the conflict arm sets.
abbrev pub retried : ℕ → RollbackRecord → RollbackRecord → RollbackRecord
retried now new old = record old {
  status = new.status;
  outcome = new.outcome;
  revert_commit = new.revert_commit;
  forced = new.forced;
  recorded_at = now;
}

-- `insertRollbackSQL`: the table after it, and whether a record was inserted. A record of the same slip
-- and workflow is changed if it failed, and else kept.
unfoldable pub put_rollback :
    ℕ → ℕ → RollbackRecord → List RollbackRecord → List RollbackRecord × Bool
put_rollback now next_id new [] = (record new { id = next_id; recorded_at = now } ∷ [], true)
put_rollback now next_id new (old ∷ records) =
    let (rest, inserted) = put_rollback now next_id new records in
    if is_record_of new.correlation_id new.workflow old
    then ((if old.status == "failed" then retried now new old else old) ∷ records, false)
    else (old ∷ rest, inserted)

abbrev record_valid :
    ℕ
    → ℕ
    → RollbackRecord
    → List RollbackRecord
    → Option Fault
    → List RollbackRecord × Result Error Bool
record_valid now next_id new records none =
    let (after, inserted) = put_rollback now next_id new records in (after, ok inserted)
record_valid now next_id new records (some fault) =
    (records, err (map_rollback_error new.correlation_id fault))

abbrev record_checked :
    ℕ
    → ℕ
    → RollbackRecord
    → List RollbackRecord
    → Option Fault
    → Option Error
    → List RollbackRecord × Result Error Bool
record_checked now next_id new records fault none = record_valid now next_id new records fault
record_checked now next_id new records fault (some e) = (records, err e)

-- `RecordRollback`, at a time of Postgres, with the next number of the table's sequence and the fault
-- of the statement.
unfoldable pub record_rollback :
    ℕ
    → ℕ
    → RollbackRecord
    → Option Fault
    → List RollbackRecord
    → List RollbackRecord × Result Error Bool
unfolding validate map_rollback_error put_rollback
record_rollback now next_id new fault records =
    record_checked now next_id new records fault (validate new)

-- ORDER BY recorded_at, id: whether the first must come before the second.
abbrev is_earlier : RollbackRecord → RollbackRecord → Bool
is_earlier a b =
    ltb a.recorded_at b.recorded_at || (nat_eq a.recorded_at b.recorded_at && ltb a.id b.id)

unfoldable pub insert_record : RollbackRecord → List RollbackRecord → List RollbackRecord
insert_record r [] = r ∷ []
insert_record r (next ∷ records) =
    if is_earlier next r then next ∷ insert_record r records else r ∷ next ∷ records

-- `listRollbacksSQL`.
unfoldable pub rollbacks_of : String → List RollbackRecord → List RollbackRecord
unfolding insert_record
rollbacks_of id [] = []
rollbacks_of id (r ∷ records) =
    let rest = rollbacks_of id records in
    if r.correlation_id == id then insert_record r rest else rest

-- `ListRollbacks`.
unfoldable pub list_rollbacks :
    String → Option Error → List RollbackRecord → Result Error (List RollbackRecord)
unfolding rollbacks_of
list_rollbacks id fault records =
    queried fault (concat ("list rollbacks for slip " ∷ id ∷ ": " ∷ []))
      (ok (rollbacks_of id records))
