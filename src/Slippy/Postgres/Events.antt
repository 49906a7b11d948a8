-- ===== src/Slippy/Postgres/Events.antt =====
-- slippy/postgres_store_updates.go: the rows of slip_component_states, and the rollup of an aggregate
-- step. A time is a number of nanoseconds.
use go_lib_my_carrier.Base.{
  ℕ, ◌*◌, ◌-◌, Bool, true, false, ◌&&◌, ◌||◌, not, Option, none, some, String, ◌==◌, List, [], ◌∷◌,
  lookup, get_or, insert, any, keep, map, concat, leb, ltb, ok, if◌then◌else◌,
}
use go_lib_my_carrier.Slippy.Errors.{sentinel, Sentinel}
use go_lib_my_carrier.Slippy.Status.{
  StepStatus, step_status_eq, step_is_terminal, step_is_failure, step_is_running,
}
use go_lib_my_carrier.Slippy.Types.{ComponentStepData, is_nil}
use go_lib_my_carrier.Slippy.Aggregate.{compute_aggregate_status}
use go_lib_my_carrier.Slippy.Pipeline.Config.{
  PipelineConfig, get_aggregate_step, is_aggregate_step, get_component_step,
}
use go_lib_my_carrier.Slippy.Postgres.Gate.{freshness_window, is_guarded, max_freshness_window_ms}
use go_lib_my_carrier.Slippy.Postgres.State.{
  Row, ComponentState, Statement, Driver, Tx, pure, raise, ◌>>◌, attempt, update_row,
}

abbrev pub millisecond : ℕ
millisecond = 1000000

-- `nonTerminalStepStatusesSQL`; `terminalStepStatusesSQL` lists what `IsTerminal` accepts.
abbrev pub is_non_terminal : StepStatus → Bool
is_non_terminal status =
    step_status_eq status StepStatus.pending
    || step_status_eq status StepStatus.held
    || step_status_eq status StepStatus.running

-- The WHERE of the conflict arm: whether a write may replace the state that is there.
unfoldable pub gate_accepts : Bool → ℕ → ℕ → StepStatus → ComponentState → Bool
gate_accepts guarded window_ms now status old =
    not guarded
    || not (
        step_is_terminal old.status
        && is_non_terminal status
        && leb (now - old.updated_at) (window_ms * millisecond))
    || (step_status_eq old.status StepStatus.aborted && step_status_eq status StepStatus.pending)

abbrev pub has_key : String → String → String → ComponentState → Bool
has_key id step component state =
    state.correlation_id == id && (state.step == step) && (state.component == component)

unfoldable pub find_state : String → String → String → List ComponentState → Option ComponentState
find_state id step component [] = none
find_state id step component (state ∷ states) =
    if has_key id step component state then some state else find_state id step component states

-- The first state with the key is replaced, and a state without it is put at the end.
unfoldable pub put_state : ComponentState → List ComponentState → List ComponentState
put_state new [] = new ∷ []
put_state new (state ∷ states) =
    if has_key new.correlation_id new.step new.component state
    then new ∷ states
    else state ∷ put_state new states

-- `NULLIF(claimed_by, '')`.
abbrev pub nullif : String → Option String
nullif claimed_by = if claimed_by == "" then none else some claimed_by

-- The state that the conflict arm leaves.
abbrev pub state_after : ComponentState → ComponentState → ComponentState
state_after old new = record new {
  image_tag = if new.image_tag == "" then old.image_tag else new.image_tag;
  claimed_by =
      if step_status_eq new.status StepStatus.running then new.claimed_by else old.claimed_by;
}

abbrev pub upsert_found : Bool → ℕ → ℕ → ComponentState → Option ComponentState → Tx Bool
upsert_found guarded window_ms now new none db =
    ok (true, record db { component_states = put_state new db.component_states })
upsert_found guarded window_ms now new (some old) db =
    if gate_accepts guarded window_ms now new.status old
    then ok
        (true, record db { component_states = put_state (state_after old new) db.component_states })
    else ok (false, db)

-- The window, once more no longer than the maximum.
abbrev pub capped_window : ℕ → ℕ
capped_window window =
    if ltb max_freshness_window_ms window then max_freshness_window_ms else window

-- The values of the INSERT; only a running status names a claimant.
abbrev pub written_state :
    ℕ → String → String → String → StepStatus → String → String → String → ComponentState
written_state now id step component status message image_tag claimed_by = record {
  correlation_id = id;
  step = step;
  component = component;
  status = status;
  message = message;
  image_tag = image_tag;
  claimed_by = nullif (if step_status_eq status StepStatus.running then claimed_by else "");
  updated_at = now;
}

-- `upsertComponentState`.
unfoldable pub upsert_component_state :
    Driver → String → String → String → StepStatus → String → String → String → Tx Bool
unfolding gate_accepts find_state put_state freshness_window
upsert_component_state d id step component status message image_tag claimed_by =
    let window = capped_window (freshness_window d.environment) in
    let guarded = is_guarded d.environment step component in
    attempt d (Statement.upsert_state step component status)
      (concat ("failed to record component state " ∷ step ∷ "/" ∷ component ∷ ": " ∷ []))
    >> λ db.
        upsert_found guarded window d.now
          (written_state d.now id step component status message image_tag claimed_by)
          (find_state id step component db.component_states) db

-- `resolveAggregateStep`: "" for a step without a rollup.
unfoldable pub resolve_aggregate_step : PipelineConfig → String → String
resolve_aggregate_step config step_name =
    let agg = get_aggregate_step config step_name in
    if not (agg == "") then agg else if is_aggregate_step config step_name then step_name else ""

-- `aggregateStepAliases`.
unfoldable pub aggregate_step_aliases : PipelineConfig → String → List String
aggregate_step_aliases config agg_step =
    let component_step = get_component_step config agg_step in
    if not (component_step == "") && not (component_step == agg_step)
    then agg_step ∷ component_step ∷ []
    else agg_step ∷ []

-- `buildComponentData`.
unfoldable pub build_component_data : ComponentState → ComponentStepData
build_component_data state = record {
  component = state.component;
  dockerfile_path = "";
  status = state.status;
  started_at = if step_is_running state.status then some state.updated_at else none;
  completed_at = if step_is_terminal state.status then some state.updated_at else none;
  actor = "";
  error = if not (state.message == "") && step_is_failure state.status then state.message else "";
  image_tag = state.image_tag;
}

-- The later of the two completion times.
abbrev pub latest : Option ℕ → Option ℕ → Option ℕ
latest none old = old
latest (some t) none = some t
latest (some t) (some u) = if ltb u t then some t else some u

-- `updateExistingComponent`.
unfoldable pub update_existing_component : ComponentStepData → ComponentStepData → ComponentStepData
update_existing_component dest src = record dest {
  status = src.status;
  error =
      if step_is_failure src.status
      then if not (src.error == "") then src.error else dest.error
      else "";
  image_tag = if not (src.image_tag == "") then src.image_tag else dest.image_tag;
  started_at = if is_nil dest.started_at then src.started_at else dest.started_at;
  completed_at = latest src.completed_at dest.completed_at;
}

abbrev pub has_item : String → List ComponentStepData → Bool
has_item name items = any (λ (c : ComponentStepData). c.component == name) items

-- One row merged into the items: `byName` finds the last item of that name, and a new one is appended.
unfoldable pub merge_item : ComponentStepData → List ComponentStepData → List ComponentStepData
unfolding update_existing_component
merge_item cd [] = cd ∷ []
merge_item cd (x ∷ xs) =
    if has_item cd.component xs
    then x ∷ merge_item cd xs
    else if x.component == cd.component
    then update_existing_component x cd ∷ xs
    else x ∷ merge_item cd xs

unfoldable pub merge_items :
    List ComponentStepData → List ComponentStepData → List ComponentStepData
unfolding merge_item
merge_items [] items = items
merge_items (cd ∷ cds) items = merge_items cds (merge_item cd items)

abbrev pub is_alias : List String → String → Bool
is_alias aliases step = any (λ (name : String). name == step) aliases

-- The WHERE of the rollup's read.
abbrev pub rolls_up : String → List String → ComponentState → Bool
rolls_up id aliases state =
    state.correlation_id == id && is_alias aliases state.step && not (state.component == "")

-- The components of an aggregate step that its rows tell.
unfoldable pub active_components :
    PipelineConfig → String → String → List ComponentState → List ComponentStepData
unfolding aggregate_step_aliases build_component_data
active_components config id agg_step states =
    map build_component_data (keep (rolls_up id (aggregate_step_aliases config agg_step)) states)

abbrev pub write_rollup : ℕ → String → List ComponentStepData → List ComponentStepData → Row → Row
write_rollup now agg_step active items row = record row {
  step_statuses = insert agg_step (compute_aggregate_status active) row.step_statuses;
  aggregates = insert agg_step items row.aggregates;
  updated_at = now;
}

-- The end of `recomputeAggregate`: without a row nothing is written.
abbrev pub recompute_with :
    Driver → String → String → List ComponentStepData → List ComponentStepData → Tx Bool
recompute_with d id agg_step items [] = pure false
recompute_with d id agg_step items (c ∷ cs) =
    attempt d Statement.write_aggregate
      (concat ("failed to write aggregate " ∷ agg_step ∷ ": " ∷ []))
    >> (update_row id (write_rollup d.now agg_step (c ∷ cs) (merge_items (c ∷ cs) items))
        >> pure true)

abbrev pub recompute_found : PipelineConfig → Driver → String → String → Option Row → Tx Bool
recompute_found config d id agg_step none = raise (sentinel Sentinel.slip_not_found)
recompute_found config d id agg_step (some row) =
    attempt d Statement.read_states
      (concat ("failed to read component states for " ∷ agg_step ∷ ": " ∷ []))
    >> λ db.
        recompute_with d id agg_step (get_or agg_step [] row.aggregates)
          (active_components config id agg_step db.component_states) db

-- `recomputeAggregate`.
unfoldable pub recompute_aggregate : PipelineConfig → Driver → String → String → Tx Bool
unfolding active_components merge_items
recompute_aggregate config d id agg_step =
    attempt d Statement.read_aggregate (concat ("failed to read aggregate " ∷ agg_step ∷ ": " ∷ []))
    >> λ db. recompute_found config d id agg_step (lookup id db.rows) db
