-- ===== src/Slippy/Postgres/Freshness.antt =====
-- slippy/postgres_store_updates.go: what the freshness gate refuses, and for how long.
use go_lib_my_carrier.Base.{
  ℕ, ◌-◌, ◌*◌, ◌≤◌, ◌<◌, ◌≡◌, refl, ◌⊎◌, Bool, true, false, ◌&&◌, inl, inr, Option, some,
  Option-cases, String, lookup, Result, ok, err, arith, leb, codes,
}
use go_lib_my_carrier.Slippy.Errors.{Error, sentinel, Sentinel}
use go_lib_my_carrier.Slippy.Status.{StepStatus, step_status_eq, step_is_terminal}
use go_lib_my_carrier.Slippy.Types.{StateHistoryEntry}
use go_lib_my_carrier.Slippy.Claim.Marker.{guard_reserved_step_write}
use go_lib_my_carrier.Slippy.Pipeline.Config.{PipelineConfig}
use go_lib_my_carrier.Slippy.Postgres.Gate.{
  Environment, freshness_window, atoi, is_guarded, max_freshness_window_ms,
}
use go_lib_my_carrier.Slippy.Postgres.State.{
  ComponentState, Database, Driver, Statement, Tx, ◌>>=◌, ◌>>◌, in_tx,
}
use go_lib_my_carrier.Slippy.Postgres.Events.{
  millisecond, is_non_terminal, gate_accepts, find_state, upsert_component_state, capped_window,
}
use go_lib_my_carrier.Slippy.Postgres.Steps.{
  lock_slip, write_state, update_step_body, update_step_tx, refused_unless, message_of, claimant_of,
}

-- Whatever the variable holds, the window is at least a millisecond and at most an hour.
pub freshness_window_bounds :
    (env : Environment)
    → (0 < freshness_window env) × (freshness_window env ≤ max_freshness_window_ms)
unfolding freshness_window
freshness_window_bounds env = elim (Option-cases env.freshness_window_ms) [
  | inl unset ↦ rw unset (omega arith, omega arith)
  | inr (val, e) ↦ rw e (elim (Option-cases (atoi (codes val))) [
    | inl bad ↦ rw bad (ground arith)
    | inr (ms, good) ↦ rw good (ground arith)
  ])
]

pub capped : (env : Environment) → capped_window (freshness_window env) ≡ freshness_window env
capped env = ground (arith, freshness_window_bounds env)

-- The gate refuses: a terminal state within the window, against a status that is not.
refused :
    (window now : ℕ) (status : StepStatus) (old : ComponentState)
    → step_is_terminal old.status ≡ true
    → is_non_terminal status ≡ true
    → now - old.updated_at ≤ window * millisecond
    → (step_status_eq old.status StepStatus.aborted && step_status_eq status StepStatus.pending)
      ≡ false
    → gate_accepts true window now status old ≡ false
unfolding gate_accepts
refused window now status old t n w x =
    let fresh : leb (now - old.updated_at) (window * millisecond) ≡ true = ground arith in
    rw (t, n, fresh, x) refl

-- After the window the gate accepts every status.
pub accepted :
    (guarded : Bool) (window now : ℕ) (status : StepStatus) (old : ComponentState)
    → window * millisecond < now - old.updated_at
    → gate_accepts guarded window now status old ≡ true
unfolding gate_accepts
accepted guarded window now status old w =
    let stale : leb (now - old.updated_at) (window * millisecond) ≡ false = ground arith in
    rw stale (ground arith)

-- A part of a transaction that only looks: it ends in an error, or gives a value and no change.
abbrev Looks {ℓ} : {A : Type ℓ} → Tx A → A → Database → Type ℓ
Looks body a db = ((e : Error) × (body db ≡ err e)) ⊎ (body db ≡ ok (a, db))

lock_slip-Looks : (d : Driver) (id : String) (db : Database) → Looks (lock_slip d id) tt db
unfolding lock_slip
lock_slip-Looks d id db = elim (Option-cases (d.fault Statement.lock_slip)) [
  | inl fine ↦
      rw (fine, Looks)
        (elim (Option-cases (lookup id db.rows)) [
          | inl e ↦ rw e (inl (_, refl))
          | inr (row, e) ↦ rw e (inr refl)
        ])
  | inr (e, fault) ↦ rw fault (inl (_, refl))
]

upsert-Looks :
    (d : Driver) (id step component : String) (status : StepStatus)
    (message image_tag claimed_by : String) (db : Database) (old : ComponentState)
    → find_state id step component db.component_states ≡ some old
    → is_guarded d.environment step component ≡ true
    → gate_accepts true (freshness_window d.environment) d.now status old ≡ false
    → Looks
        (upsert_component_state d id step component status message image_tag claimed_by)
        false
        db
unfolding upsert_component_state
upsert-Looks d id step component status message image_tag claimed_by db old f g r =
    elim (Option-cases (d.fault (Statement.upsert_state step component status))) [
      | inl fine ↦ rw (fine, Looks, f, g, capped d.environment, r) (inr refl)
      | inr (e, fault) ↦ rw fault (inl (_, refl))
    ]

abbrev IsRefused : Database → Database × Result Error (Unit {0}) → Type 0
IsRefused db r = (r.0 ≡ db) × ((e : Error) × (r.1 ≡ err e))

pub in_tx-err :
    (d : Driver) (body : Tx (Unit {0})) (db : Database) (e : Error)
    → body db ≡ err e
    → IsRefused db (in_tx d body db)
unfolding in_tx
in_tx-err d body db e h = elim (Option-cases (d.fault Statement.begin)) [
  | inl fine ↦ rw (fine, h) (refl, (e, refl))
  | inr (f, fault) ↦ rw fault (refl, (_, refl))
]

pub then-err :
    (body k l : Tx (Unit {0})) (db : Database) (e : Error)
    → body db ≡ err e
    → (body >> k >> l) db ≡ err e
then-err body k l db e h = rw (◌>>=◌, h) refl

pub then-ok :
    (body k l : Tx (Unit {0})) (db later : Database)
    → body db ≡ ok (tt, later)
    → (body >> k >> l) db ≡ (k >> l) later
then-ok body k l db later h = rw (◌>>=◌, h) refl

bind-Looks {ℓ} :
    {A : Type ℓ} (look : Tx (Unit {0})) (write : Tx A) (next : A → Tx (Unit {0})) (db : Database)
    (a : A)
    → Looks look tt db
    → Looks write a db
    → ((e : Error) × (next a db ≡ err e))
    → (e : Error) × ((look >> (write >>= next)) db ≡ err e)
bind-Looks look write next db a (inl (e, locked)) w n = (e, rw (◌>>=◌, locked) refl)
bind-Looks look write next db a (inr locked) (inl (e, upsert)) n =
    (e, rw (◌>>=◌, locked, upsert) refl)
bind-Looks look write next db a (inr locked) (inr upsert) (e, last) =
    (e, rw (◌>>=◌, locked, upsert, last) refl)

write_state-err :
    (d : Driver) (id step component : String) (status : StepStatus)
    (entry : Option StateHistoryEntry) (db : Database)
    → Looks
        (upsert_component_state d id step component status
          (message_of entry)
          ""
          (claimant_of entry))
        false
        db
    → (e : Error) × (write_state d id step component status entry db ≡ err e)
unfolding write_state
write_state-err d id step component status entry db u =
    bind-Looks (lock_slip d id) _ refused_unless db false (lock_slip-Looks d id db) u
      (sentinel Sentinel.terminal_already_exists, refl)

-- Where the gate is on, a step or component that reached a terminal status within the window cannot
-- be written a pending, held or running status, except pending over aborted, and except the step
-- push_parsed itself, whose writes without a component pass by the gate: the call returns an error,
-- whatever the driver does, and leaves the database as it was.
pub update_step_tx-fresh :
    (config : PipelineConfig) (d : Driver) (id step component : String) (status : StepStatus)
    (entry : Option StateHistoryEntry) (db : Database) (old : ComponentState)
    → find_state id step component db.component_states ≡ some old
    → is_guarded d.environment step component ≡ true
    → step_is_terminal old.status ≡ true
    → is_non_terminal status ≡ true
    → d.now - old.updated_at ≤ freshness_window d.environment * millisecond
    → (step_status_eq old.status StepStatus.aborted && step_status_eq status StepStatus.pending)
      ≡ false
    → let (after, result) = update_step_tx config d id step component status entry db in
      (after ≡ db) × ((e : Error) × (result ≡ err e))
unfolding update_step_tx update_step_body
update_step_tx-fresh config d id step component status entry db old f g t n w x =
    let r = refused (freshness_window d.environment) d.now status old t n w x in
    let (e, body) =
      write_state-err d id step component status entry db
        (upsert-Looks d id step component status _ _ _ db old f g r) in
    elim (Option-cases (guard_reserved_step_write step entry)) [
      | inl allowed ↦ rw allowed (
          in_tx-err d (update_step_body config d id step component status entry) db e
            (then-err (write_state d id step component status entry) _ _ db e body))
      | inr (reserved, guard) ↦ rw guard (refl, (reserved, refl))
    ]
