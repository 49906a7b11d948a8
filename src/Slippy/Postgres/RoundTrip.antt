-- ===== src/Slippy/Postgres/RoundTrip.antt =====
-- slippy/postgres_store.go: a slip that is stored and loaded again.
use go_lib_my_carrier.Base.{
  ℕ, ◌≡◌, refl, ◌∙◌, ap, Bool, true, false, inl, inr, Bool-cases, some, Option-cases, String, ◌==◌,
  List, [], ◌∷◌, Assoc, lookup, get_or, insert, any, get_or-insert, get_or-lookup, lookup-insert,
  eq_refl, eq_iff, arith, ok, if◌then◌else◌,
}
use go_lib_my_carrier.Slippy.Status.{SlipStatus, StepStatus, slip_status_eq}
use go_lib_my_carrier.Slippy.Types.{Slip, Step, zero_step, ComponentStepData}
use go_lib_my_carrier.Slippy.Pipeline.Config.{StepConfig, PipelineConfig}
use go_lib_my_carrier.Slippy.Postgres.State.{
  Row, StepDetail, ComponentState, Database, Driver, Statement, ◌>>=◌, alone,
}
use go_lib_my_carrier.Slippy.Postgres.Columns.{
  build_step_details, merge_detail, adjust_step, merge_step_details, StepTiming, fill_timing,
  fill_timings, history_timing, reconstruct_step_timing, steps_from_statuses, step_values,
  pending_if_unset, decode_aggregates, aggregate_values, aggregate_columns, claim_step,
  names_claimant, apply_claimants, populate, slip_values,
}
use go_lib_my_carrier.Slippy.Postgres.Progress.{IsQuiet}
use go_lib_my_carrier.Slippy.Postgres.Writes.{create, create_tx, is_duplicate, base_row}
use go_lib_my_carrier.Slippy.Postgres.Reads.{hydrate, query_one, load}

abbrev status_of : String → Assoc Step → StepStatus
status_of name steps = (get_or name zero_step steps).status

found_get_or :
    (name : String) (step : Step) (steps : Assoc Step)
    → lookup name steps ≡ some step
    → get_or name zero_step steps ≡ step
found_get_or name step steps found = get_or-lookup name zero_step steps ∙ rw found refl

status-adjust :
    (name asked : String) (f : Step → Step) (steps : Assoc Step)
    → ((step : Step) → (f step).status ≡ step.status)
    → status_of asked (adjust_step name f steps) ≡ status_of asked steps
status-adjust name asked f steps keeps = elim (Option-cases (lookup name steps)) [
  | inl absent ↦ rw absent refl
  | inr (step, found) ↦ grind (
    arith,
    found,
    get_or-insert name asked (f step) zero_step steps,
    found_get_or name step steps found,
    keeps step,
    eq_iff name asked,
  )
]

status-merge :
    (asked : String) (details : Assoc StepDetail) (steps : Assoc Step)
    → status_of asked (merge_step_details details steps) ≡ status_of asked steps
unfolding merge_step_details
status-merge asked [] steps = refl
status-merge asked ((name, detail) ∷ details) steps =
    status-merge asked details (adjust_step name (merge_detail detail) steps)
    ∙ status-adjust name asked (merge_detail detail) steps (λ step. refl)

status-fill :
    (asked : String) (timings : Assoc StepTiming) (steps : Assoc Step)
    → status_of asked (fill_timings timings steps) ≡ status_of asked steps
unfolding fill_timings
status-fill asked [] steps = refl
status-fill asked ((name, timing) ∷ timings) steps =
    status-fill asked timings (adjust_step name (fill_timing timing) steps)
    ∙ status-adjust name asked (fill_timing timing) steps (λ step. refl)

claim_step-status :
    (state : ComponentState) (step : Step) → (claim_step state step).status ≡ step.status
claim_step-status state step = ground arith

abbrev is_configured : String → List StepConfig → Bool
is_configured name configs = any (λ (c : StepConfig). c.name == name) configs

-- The status of a configured step stands in its column, and comes back from it.
from_statuses-kept :
    (name : String) (configs : List StepConfig) (statuses : Assoc StepStatus) (steps : Assoc Step)
    → status_of name steps ≡ get_or name StepStatus.pending statuses
    → status_of name (steps_from_statuses configs statuses steps)
      ≡ get_or name StepStatus.pending statuses
unfolding steps_from_statuses
from_statuses-kept name [] statuses steps h = h
from_statuses-kept name (c ∷ cs) statuses steps h =
    let step : Step = record zero_step { status = get_or c.name StepStatus.pending statuses } in
    from_statuses-kept name cs statuses (insert c.name step steps)
      (grind (arith, get_or-insert c.name name step zero_step steps, eq_iff c.name name, h))

from_statuses-status :
    (name : String) (configs : List StepConfig) (statuses : Assoc StepStatus) (steps : Assoc Step)
    → is_configured name configs ≡ true
    → status_of name (steps_from_statuses configs statuses steps)
      ≡ get_or name StepStatus.pending statuses
unfolding steps_from_statuses
from_statuses-status name [] statuses steps h = cc
from_statuses-status name (c ∷ cs) statuses steps h =
    let step : Step = record zero_step { status = get_or c.name StepStatus.pending statuses } in
    elim (Bool-cases (c.name == name)) [
      | inl here ↦
          from_statuses-kept name cs statuses (insert c.name step steps) (
            grind (arith, here, get_or-insert c.name name step zero_step steps, eq_iff c.name name))
      | inr later ↦ from_statuses-status name cs statuses (insert c.name step steps) (rw later at h)
    ]

step_values-kept :
    (name : String) (configs : List StepConfig) (steps : Assoc Step) (columns : Assoc StepStatus)
    → get_or name StepStatus.pending columns ≡ pending_if_unset (status_of name steps)
    → get_or name StepStatus.pending (step_values configs steps columns)
      ≡ pending_if_unset (status_of name steps)
unfolding step_values
step_values-kept name [] steps columns h = h
step_values-kept name (c ∷ cs) steps columns h =
    let status = pending_if_unset (status_of c.name steps) in
    step_values-kept name cs steps (insert c.name status columns) (
      grind
        (arith, get_or-insert c.name name status StepStatus.pending columns, eq_iff c.name name, h))

step_values-status :
    (name : String) (configs : List StepConfig) (steps : Assoc Step) (columns : Assoc StepStatus)
    → is_configured name configs ≡ true
    → get_or name StepStatus.pending (step_values configs steps columns)
      ≡ pending_if_unset (status_of name steps)
unfolding step_values
step_values-status name [] steps columns h = cc
step_values-status name (c ∷ cs) steps columns h =
    let status = pending_if_unset (status_of c.name steps) in
    elim (Bool-cases (c.name == name)) [
      | inl here ↦ step_values-kept name cs steps (insert c.name status columns) (
          grind (
            arith,
            here,
            get_or-insert c.name name status StepStatus.pending columns,
            eq_iff c.name name,
          ))
      | inr later ↦ step_values-status name cs steps (insert c.name status columns) (rw later at h)
    ]

status-claimants :
    (asked id : String) (states : List ComponentState) (steps : Assoc Step)
    → status_of asked (apply_claimants id states steps) ≡ status_of asked steps
unfolding apply_claimants
status-claimants asked id [] steps = refl
status-claimants asked id (state ∷ states) steps =
    status-claimants asked id states
      (if names_claimant id state then adjust_step state.step (claim_step state) steps else steps)
    ∙ elim (Bool-cases (names_claimant id state)) [
      | inl names ↦
          rw names
            (status-adjust state.step asked (claim_step state) steps (claim_step-status state))
      | inr other ↦ rw other refl
    ]

abbrev items_of : String → Assoc (List ComponentStepData) → List ComponentStepData
items_of column aggregates = get_or column [] aggregates

decode-kept :
    (column : String) (columns : List String) (raw aggregates : Assoc (List ComponentStepData))
    → items_of column aggregates ≡ items_of column raw
    → items_of column (decode_aggregates columns raw aggregates) ≡ items_of column raw
unfolding decode_aggregates
decode-kept column [] raw aggregates h = h
decode-kept column (other ∷ columns) raw aggregates h =
    decode-kept column columns raw (insert other (get_or other [] raw) aggregates) (
      grind (
        arith,
        get_or-insert other column (get_or other [] raw) [] aggregates,
        eq_iff other column,
        h,
      ))

decode-items :
    (column : String) (columns : List String) (raw aggregates : Assoc (List ComponentStepData))
    → any (λ (name : String). name == column) columns ≡ true
    → items_of column (decode_aggregates columns raw aggregates) ≡ items_of column raw
unfolding decode_aggregates
decode-items column [] raw aggregates h = cc
decode-items column (other ∷ columns) raw aggregates h = elim (Bool-cases (other == column)) [
  | inl here ↦ decode-kept column columns raw (insert other (get_or other [] raw) aggregates) (
      grind (
        arith,
        here,
        get_or-insert other column (get_or other [] raw) [] aggregates,
        eq_iff other column,
      ))
  | inr later ↦
      decode-items column columns raw (insert other (get_or other [] raw) aggregates)
        (rw later at h)
]

aggregate_values-decode :
    (columns : List String) (aggregates raw : Assoc (List ComponentStepData))
    → aggregate_values columns aggregates raw ≡ decode_aggregates columns aggregates raw
unfolding aggregate_values decode_aggregates
aggregate_values-decode [] aggregates raw = refl
aggregate_values-decode (column ∷ columns) aggregates raw =
    aggregate_values-decode columns aggregates (insert column (get_or column [] aggregates) raw)

-- What a loaded slip has of the one that was created: its names, status and history, the status of
-- each configured step, and the components of each configured aggregate.
pub record IsStored (config : PipelineConfig) (slip loaded : Slip) : Type 0 where
  pub repository : loaded.repository ≡ slip.repository
  pub branch : loaded.branch ≡ slip.branch
  pub commit_sha : loaded.commit_sha ≡ slip.commit_sha
  pub status :
      loaded.status
      ≡ (if slip_status_eq slip.status SlipStatus.unset then SlipStatus.pending else slip.status)
  pub state_history : loaded.state_history ≡ slip.state_history
  pub steps :
      (name : String)
      → is_configured name config.steps ≡ true
      → status_of name loaded.steps ≡ pending_if_unset (status_of name slip.steps)
  pub aggregates :
      (column : String)
      → any (λ (name : String). name == column) (aggregate_columns config) ≡ true
      → items_of column loaded.aggregates ≡ items_of column slip.aggregates

hydrate-IsStored :
    (config : PipelineConfig) (now : ℕ) (slip : Slip) (base : Row) (db : Database)
    → IsStored config slip (hydrate config db (slip_values config true now slip base))
unfolding hydrate populate slip_values reconstruct_step_timing
hydrate-IsStored config now slip base db = record {
  repository = refl;
  branch = refl;
  commit_sha = refl;
  status = refl;
  state_history = refl;
  steps = λ name known.
      status-claimants name slip.correlation_id db.component_states _
      ∙ status-fill name (history_timing slip.state_history []) _
      ∙ status-merge name (build_step_details slip.steps) _
      ∙ from_statuses-status name config.steps _ [] known
      ∙ step_values-status name config.steps slip.steps base.step_statuses known;
  aggregates = λ column known.
      decode-items column (aggregate_columns config) _ [] known
      ∙ ap (items_of column)
          (aggregate_values-decode (aggregate_columns config) slip.aggregates base.aggregates)
      ∙ decode-items column (aggregate_columns config) slip.aggregates base.aggregates known;
}

create-row :
    (config : PipelineConfig) (d : Driver) (slip : Slip) (db : Database)
    → IsQuiet d
    → is_duplicate slip db ≡ false
    → create config d slip db ≡ (
      record db {
        rows =
            insert slip.correlation_id
              (slip_values config true d.clock slip (base_row (lookup slip.correlation_id db.rows)))
              db.rows;
      },
      ok tt,
    )
unfolding create create_tx
create-row config d slip db quiet fresh = rw (alone, ◌>>=◌, quiet Statement.insert_slip, fresh) refl

-- Where the driver fails nothing and no other row is of the slip's commit under the unique index, a
-- slip that is created, over a row of its correlation ID or not, is loaded as it was stored.
pub load-create :
    (config : PipelineConfig) (d : Driver) (slip : Slip) (db : Database)
    → IsQuiet d
    → is_duplicate slip db ≡ false
    → let (after, result) = create config d slip db in
      (result ≡ ok tt)
      × ((loaded : Slip) × (load config d slip.correlation_id after ≡ ok loaded)
          × IsStored config slip loaded)
unfolding load query_one
load-create config d slip db quiet fresh =
    let row =
      slip_values config true d.clock slip (base_row (lookup slip.correlation_id db.rows)) in
    let found : lookup slip.correlation_id (insert slip.correlation_id row db.rows) ≡ some row =
      lookup-insert slip.correlation_id slip.correlation_id row db.rows
      ∙ rw (eq_refl slip.correlation_id) refl in
    let after : Database = record db { rows = insert slip.correlation_id row db.rows } in
    rw (create-row config d slip db quiet fresh) (
      refl,
      (
        hydrate config after row,
        rw (found, quiet Statement.query_slip, quiet Statement.query_claimants) refl,
        hydrate-IsStored config d.clock slip (base_row (lookup slip.correlation_id db.rows)) after,
      ),
    )
