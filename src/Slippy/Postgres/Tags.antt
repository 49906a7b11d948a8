-- ===== src/Slippy/Postgres/Tags.antt =====
-- slippy/postgres_store_updates.go: the image tag of a component.
use go_lib_my_carrier.Base.{
  ℕ, Bool, true, false, ◌&&◌, not, Option, none, some, String, ◌==◌, List, [], ◌∷◌, concat, ok,
  if◌then◌else◌,
}
use go_lib_my_carrier.Slippy.Errors.{plain}
use go_lib_my_carrier.Slippy.Pipeline.Config.{PipelineConfig, is_aggregate_step, get_component_step}
use go_lib_my_carrier.Slippy.Postgres.State.{
  ComponentState, Database, Statement, Driver, Tx, pure, done, raise, ◌>>=◌, ◌>>◌, attempt, in_tx,
}
use go_lib_my_carrier.Slippy.Postgres.Events.{
  resolve_aggregate_step, recompute_aggregate, has_key, find_state,
}
use go_lib_my_carrier.Slippy.Postgres.Steps.{lock_slip, write_if, Answer}

-- The UPDATE of the image tag: the state with the key gets the tag.
unfoldable pub tag_state :
    ℕ → String → String → String → String → List ComponentState → List ComponentState
tag_state now id step component image_tag [] = []
tag_state now id step component image_tag (state ∷ states) =
    if has_key id step component state
    then record state { image_tag = image_tag; updated_at = now } ∷ states
    else state ∷ tag_state now id step component image_tag states

abbrev pub tag_found : ℕ → String → String → String → String → Option ComponentState → Tx Bool
tag_found now id step component image_tag none db = ok (false, db)
tag_found now id step component image_tag (some state) db = ok (
  true,
  record db { component_states = tag_state now id step component image_tag db.component_states },
)

abbrev pub set_tag : Driver → String → String → String → String → Tx Bool
set_tag d id step component image_tag =
    attempt d (Statement.set_tag step)
      (concat ("failed to set image tag for " ∷ component ∷ "/" ∷ step ∷ ": " ∷ []))
    >> λ db.
        tag_found d.now id step component image_tag
          (find_state id step component db.component_states) db

-- `dbStep`: the component step of an aggregate step, and else the step.
unfoldable pub db_step : PipelineConfig → String → String
db_step config step_name =
    let component_step = get_component_step config step_name in
    if is_aggregate_step config step_name && not (component_step == "")
    then component_step
    else step_name

-- The second try, under the name that the caller gave: the step that the tag ended at.
abbrev pub retry_tag :
    Driver → String → String → String → String → String → Bool → Tx (String × Bool)
retry_tag d id step_name step component image_tag true = pure (step, true)
retry_tag d id step_name step component image_tag false =
    if not (step == step_name)
    then (set_tag d id step_name component image_tag >>= λ tagged. pure (step_name, tagged))
    else pure (step, false)

abbrev pub finish_tag : PipelineConfig → Driver → String → String → String × Bool → Tx (Unit {0})
finish_tag config d id component (step, false) =
    raise
      (plain (concat ("component " ∷ component ∷ " not found in event log for step " ∷ step ∷ [])))
finish_tag config d id component (step, true) =
    let agg_step = resolve_aggregate_step config step in
    write_if (not (agg_step == "")) (recompute_aggregate config d id agg_step >> done)

-- `SetComponentImageTag`.
unfoldable pub set_component_image_tag :
    PipelineConfig → Driver → String → String → String → String → Database → Answer
unfolding lock_slip db_step find_state tag_state resolve_aggregate_step recompute_aggregate
set_component_image_tag config d id step_name component image_tag =
    let step = db_step config step_name in
    in_tx d (
      lock_slip d id
      >> (set_tag d id step component image_tag
          >>= retry_tag d id step_name step component image_tag)
      >>= finish_tag config d id component)
