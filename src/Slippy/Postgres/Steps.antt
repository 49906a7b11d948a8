-- ===== src/Slippy/Postgres/Steps.antt =====
-- slippy/postgres_store_updates.go: the writes of steps, components, image tags and history, each of
-- them one transaction that holds the lock of the slip.
use go_lib_my_carrier.Base.{
  ℕ, Bool, true, false, ◌&&◌, ◌||◌, not, Option, none, some, String, ◌==◌, [], ◌∷◌, ◌++◌, lookup,
  insert, all, is_empty, concat, codes, leb, nat_eq, Result, err, if◌then◌else◌,
}
use go_lib_my_carrier.Slippy.Errors.{Error, sentinel, Sentinel}
use go_lib_my_carrier.Slippy.Status.{StepStatus}
use go_lib_my_carrier.Slippy.Types.{StateHistoryEntry}
use go_lib_my_carrier.Slippy.Claim.Marker.{guard_reserved_step_write}
use go_lib_my_carrier.Slippy.Pipeline.Config.{
  PipelineConfig, StepConfig, get_step, is_aggregate_step,
}
use go_lib_my_carrier.Slippy.Postgres.State.{
  Row, Database, Statement, Driver, Tx, done, raise, ◌>>=◌, ◌>>◌, attempt, update_row,
  not_found_unless, in_tx,
}
use go_lib_my_carrier.Slippy.Postgres.Events.{
  upsert_component_state, resolve_aggregate_step, recompute_aggregate,
}

abbrev pub found_or_raise : Option Row → Tx (Unit {0})
found_or_raise none = raise (sentinel Sentinel.slip_not_found)
found_or_raise (some row) = done

-- `lockSlip`.
unfoldable pub lock_slip : Driver → String → Tx (Unit {0})
lock_slip d id =
    attempt d Statement.lock_slip (concat ("failed to lock slip " ∷ id ∷ ": " ∷ [])) >> λ db.
    found_or_raise (lookup id db.rows) db

abbrev pub append_entry : ℕ → StateHistoryEntry → Row → Row
append_entry now entry row = record row {
  state_history = row.state_history ++ entry ∷ [];
  updated_at = now;
}

-- `appendHistoryTx`.
unfoldable pub append_history_tx : Driver → String → StateHistoryEntry → Tx (Unit {0})
append_history_tx d id entry =
    attempt d Statement.append_history (concat ("failed to append history for " ∷ id ∷ ": " ∷ []))
    >> (update_row id (append_entry d.now entry) >>= not_found_unless)

-- What a method answers: the database after it, and its error.
abbrev pub Answer : Type 0
Answer = Database × Result Error (Unit {0})

abbrev pub unless_error {ℓ} :
    {A : Type ℓ}
    → Option Error
    → (Database → Database × Result Error A)
    → Database
    → Database × Result Error A
unless_error none k db = k db
unless_error (some e) k db = (db, err e)

-- `AppendHistory`.
unfoldable pub append_history : Driver → String → StateHistoryEntry → Database → Answer
unfolding lock_slip append_history_tx
append_history d id entry =
    unless_error (guard_reserved_step_write "" (some entry))
      (in_tx d (lock_slip d id >> append_history_tx d id entry))

-- A code point of the pattern `[A-Za-z0-9_]`.
abbrev pub is_safe : ℕ → Bool
is_safe c =
    (leb b'A' c && leb c b'Z')
    || (leb b'a' c && leb c b'z')
    || (leb b'0' c && leb c b'9')
    || nat_eq c b'_'

-- `safeStepNameForDerivePattern`.
unfoldable pub is_safe_step_name : String → Bool
is_safe_step_name name = not (is_empty (codes name)) && all is_safe (codes name)

abbrev pub is_known : Option StepConfig → Bool
is_known none = false
is_known (some step) = true

-- Whether the status of a step has a column to be written to.
unfoldable pub has_step_column : PipelineConfig → String → Bool
unfolding is_safe_step_name get_step
has_step_column config step_name =
    is_known (get_step config step_name) && is_safe_step_name step_name

abbrev pub set_step_status : ℕ → String → StepStatus → Row → Row
set_step_status now step_name status row = record row {
  step_statuses = insert step_name status row.step_statuses;
  updated_at = now;
}

abbrev pub write_if : Bool → Tx (Unit {0}) → Tx (Unit {0})
write_if true write = write
write_if false write = done

-- `writeStepStatusColumn`.
unfoldable pub write_step_status_column :
    PipelineConfig → Driver → String → String → StepStatus → Tx (Unit {0})
unfolding has_step_column
write_step_status_column config d id step_name status =
    write_if (has_step_column config step_name) (
      attempt d Statement.write_step (concat ("failed to update step " ∷ step_name ∷ ": " ∷ []))
      >> (update_row id (set_step_status d.now step_name status) >> done))

-- The step column after the rollup: an aggregate step without a row takes the status itself.
abbrev pub write_rollup_column :
    PipelineConfig → Driver → String → String → String → String → StepStatus → Bool → Tx (Unit {0})
write_rollup_column config d id step_name component_name agg_step status rolled_up =
    write_if (not rolled_up && (component_name == "") && (agg_step == step_name))
      (write_step_status_column config d id step_name status)

-- Which column of the slip shows the write.
unfoldable pub show_write :
    PipelineConfig → Driver → String → String → String → StepStatus → Tx (Unit {0})
unfolding resolve_aggregate_step recompute_aggregate write_step_status_column
show_write config d id step_name component_name status =
    let agg_step = resolve_aggregate_step config step_name in
    if not (component_name == "") || is_aggregate_step config step_name
    then write_if (not (agg_step == "")) (
        recompute_aggregate config d id agg_step
        >>= write_rollup_column config d id step_name component_name agg_step status)
    else write_step_status_column config d id step_name status

abbrev pub message_of : Option StateHistoryEntry → String
message_of none = ""
message_of (some entry) = entry.message

abbrev pub claimant_of : Option StateHistoryEntry → String
claimant_of none = ""
claimant_of (some entry) = entry.claimed_by

abbrev pub append_if : Driver → String → Option StateHistoryEntry → Tx (Unit {0})
append_if d id none = done
append_if d id (some entry) = append_history_tx d id entry

abbrev pub refused_unless : Bool → Tx (Unit {0})
refused_unless true = done
refused_unless false = raise (sentinel Sentinel.terminal_already_exists)

-- The first part of the transaction of `updateStepTx`: the state of the step or component.
unfoldable pub write_state :
    Driver → String → String → String → StepStatus → Option StateHistoryEntry → Tx (Unit {0})
unfolding lock_slip upsert_component_state
write_state d id step_name component_name status entry =
    lock_slip d id
    >> (upsert_component_state d id step_name component_name status (message_of entry) ""
          (claimant_of entry)
        >>= refused_unless)

-- The transaction of `updateStepTx`.
unfoldable pub update_step_body :
    PipelineConfig
    → Driver
    → String
    → String
    → String
    → StepStatus
    → Option StateHistoryEntry
    → Tx (Unit {0})
unfolding write_state show_write append_history_tx
update_step_body config d id step_name component_name status entry =
    write_state d id step_name component_name status entry
    >> show_write config d id step_name component_name status
    >> append_if d id entry

-- `updateStepTx`.
unfoldable pub update_step_tx :
    PipelineConfig
    → Driver
    → String
    → String
    → String
    → StepStatus
    → Option StateHistoryEntry
    → Database
    → Answer
unfolding update_step_body
update_step_tx config d id step_name component_name status entry =
    unless_error (guard_reserved_step_write step_name entry)
      (in_tx d (update_step_body config d id step_name component_name status entry))

-- `UpdateStep`.
unfoldable pub update_step :
    PipelineConfig → Driver → String → String → String → StepStatus → Database → Answer
unfolding update_step_tx
update_step config d id step_name component_name status =
    update_step_tx config d id step_name component_name status none

-- `UpdateComponentStatus`.
unfoldable pub update_component_status :
    PipelineConfig → Driver → String → String → String → StepStatus → Database → Answer
unfolding update_step
update_component_status config d id component_name step_type status =
    update_step config d id step_type component_name status

-- `UpdateStepWithHistory`.
unfoldable pub update_step_with_history :
    PipelineConfig
    → Driver
    → String
    → String
    → String
    → StepStatus
    → StateHistoryEntry
    → Database
    → Answer
unfolding update_step_tx
update_step_with_history config d id step_name component_name status entry =
    update_step_tx config d id step_name component_name status (some entry)
