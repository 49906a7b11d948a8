-- ===== src/Slippy/Postgres/Retry.antt =====
-- slippy/postgres_store_updates.go: a write that comes after the window of the freshness gate.
use go_lib_my_carrier.Base.{
  ◌-◌, ◌*◌, ◌<◌, ◌≡◌, refl, true, inl, inr, Option, none, some, Option-cases, String, List, [], ◌∷◌,
  Result, ok, err, arith, eq_refl,
}
use go_lib_my_carrier.Slippy.Status.{StepStatus}
use go_lib_my_carrier.Slippy.Types.{StateHistoryEntry}
use go_lib_my_carrier.Slippy.Claim.Marker.{guard_reserved_step_write}
use go_lib_my_carrier.Slippy.Pipeline.Config.{PipelineConfig}
use go_lib_my_carrier.Slippy.Postgres.Gate.{freshness_window, is_guarded, max_freshness_window_ms}
use go_lib_my_carrier.Slippy.Postgres.State.{
  ComponentState, Database, Driver, Statement, Tx, ◌>>=◌, ◌>>◌, in_tx,
}
use go_lib_my_carrier.Slippy.Postgres.Events.{
  millisecond, find_state, put_state, state_after, written_state, upsert_component_state,
}
use go_lib_my_carrier.Slippy.Postgres.Steps.{
  lock_slip, write_state, show_write, append_if, update_step_body, update_step_tx, message_of,
  claimant_of,
}
use go_lib_my_carrier.Slippy.Postgres.Progress.{
  IsQuiet, HasRow, GoesOn, Proceeds-bind, Proceeds-append_if, show_write-Proceeds,
}
use go_lib_my_carrier.Slippy.Postgres.Freshness.{freshness_window_bounds, capped, accepted, then-ok}
use go_lib_my_carrier.Slippy.Errors.{Error}

find_state-put_state :
    (id step component : String) (new : ComponentState) (states : List ComponentState)
    → new.correlation_id ≡ id
    → new.step ≡ step
    → new.component ≡ component
    → find_state id step component (put_state new states) ≡ some new
unfolding find_state put_state
find_state-put_state id step component new [] i s c =
    rw (i, s, c, eq_refl id, eq_refl step, eq_refl component) refl
find_state-put_state id step component new (state ∷ states) i s c =
    let rest = find_state-put_state id step component new states i s c in
    ground (arith, rest, eq_refl id, eq_refl step, eq_refl component)

-- The upsert of a state that is not there or is out of the window.
upsert-late :
    (d : Driver) (id step component : String) (status : StepStatus)
    (message image_tag claimed_by : String) (db : Database)
    → IsQuiet d
    → ((old : ComponentState)
        → find_state id step component db.component_states ≡ some old
        → max_freshness_window_ms * millisecond < d.now - old.updated_at)
    → (new : ComponentState) × (upsert_component_state d id step component status message image_tag
          claimed_by db
        ≡ ok (true, record db { component_states = put_state new db.component_states }))
      × (find_state id step component (put_state new db.component_states) ≡ some new)
      × (new.status ≡ status)
unfolding upsert_component_state
upsert-late d id step component status message image_tag claimed_by db quiet late =
    let new = written_state d.now id step component status message image_tag claimed_by in
    elim (Option-cases (find_state id step component db.component_states)) [
      | inl absent ↦ (
        new,
        rw (quiet (Statement.upsert_state step component status), absent) refl,
        find_state-put_state id step component new db.component_states refl refl refl,
        refl,
      )
      | inr (old, found) ↦
          let passed : freshness_window d.environment * millisecond < d.now - old.updated_at =
            omega (arith, late old found, (freshness_window_bounds d.environment).1) in
          (
            state_after old new,
            rw
                (
                  quiet (Statement.upsert_state step component status),
                  found,
                  capped d.environment,
                  accepted (is_guarded d.environment step component)
                      (freshness_window d.environment) d.now status old passed,
                )
                refl,
            find_state-put_state id step component (state_after old new) db.component_states refl
                refl refl,
            refl,
          )
    ]

rest_GoesOn :
    (config : PipelineConfig) (d : Driver) (id step component : String) (status : StepStatus)
    (entry : Option StateHistoryEntry) (later : Database)
    → IsQuiet d
    → HasRow id later
    → GoesOn id later ((show_write config d id step component status >> append_if d id entry) later)
rest_GoesOn config d id step component status entry later quiet h =
    (Proceeds-bind id _ _ (show_write-Proceeds id d quiet config step component status)
        λ u. Proceeds-append_if id d quiet entry).at
      later h

lock_slip-quiet :
    (d : Driver) (id : String) (db : Database)
    → IsQuiet d
    → HasRow id db
    → lock_slip d id db ≡ ok (tt, db)
unfolding lock_slip
lock_slip-quiet d id db quiet (row, e) = rw (◌>>=◌, quiet Statement.lock_slip, e) refl

write_state-late :
    (d : Driver) (id step component : String) (status : StepStatus)
    (entry : Option StateHistoryEntry) (db later : Database)
    → IsQuiet d
    → HasRow id db
    → upsert_component_state d id step component status (message_of entry) "" (claimant_of entry) db
      ≡ ok (true, later)
    → write_state d id step component status entry db ≡ ok (tt, later)
unfolding write_state
write_state-late d id step component status entry db later quiet h u =
    rw (◌>>=◌, lock_slip-quiet d id db quiet h, u) refl

-- What a transaction that went on has made, once it is committed.
abbrev Recorded :
    String → String → String → StepStatus → Database × Result Error (Unit {0}) → Type 0
Recorded id step component status r =
    (r.1 ≡ ok tt)
    × ((new : ComponentState) × (find_state id step component r.0.component_states ≡ some new)
        × (new.status ≡ status))

committed :
    (d : Driver) (id step component : String) (status : StepStatus) (body : Tx (Unit {0}))
    (db later : Database) (new : ComponentState) (r : Result Error (Unit {0} × Database))
    → IsQuiet d
    → body db ≡ r
    → GoesOn id later r
    → find_state id step component later.component_states ≡ some new
    → new.status ≡ status
    → Recorded id step component status (in_tx d body db)
unfolding in_tx
committed d id step component status body db later new (ok (u, last)) quiet b g f s =
    rw (quiet Statement.begin, b, quiet Statement.commit) (refl, (new, rw g.0 f, s))
committed d id step component status body db later new (err e) quiet b g f s = absurd g

-- Where the driver fails nothing and the slip is there, a step takes every status once it has no
-- state or its last write is over an hour old, if the library reserves neither its name nor the name
-- in the history entry: the call returns no error, and the state of the step or component has the
-- status.
pub update_step_tx-late :
    (config : PipelineConfig) (d : Driver) (id step component : String) (status : StepStatus)
    (entry : Option StateHistoryEntry) (db : Database)
    → IsQuiet d
    → HasRow id db
    → guard_reserved_step_write step entry ≡ none
    → ((old : ComponentState)
        → find_state id step component db.component_states ≡ some old
        → max_freshness_window_ms * millisecond < d.now - old.updated_at)
    → let (after, result) = update_step_tx config d id step component status entry db in
      (result ≡ ok tt)
      × ((new : ComponentState) × (find_state id step component after.component_states ≡ some new)
          × (new.status ≡ status))
unfolding update_step_tx update_step_body
update_step_tx-late config d id step component status entry db quiet h allowed late =
    let (new, upsert, found, same) =
      upsert-late d id step component status (message_of entry) "" (claimant_of entry) db quiet
        late in
    let later : Database = record db { component_states = put_state new db.component_states } in
    let rest = show_write config d id step component status in
    let body =
      then-ok (write_state d id step component status entry) rest (append_if d id entry) db later
        (write_state-late d id step component status entry db later quiet h upsert) in
    rw allowed (
      committed d id step component status
        (update_step_body config d id step component status entry) db later new
        ((rest >> append_if d id entry) later) quiet body
        (rest_GoesOn config d id step component status entry later quiet h) found same)
