-- ===== src/Slippy/Postgres/Progress.antt =====
-- slippy/postgres_store_updates.go: the parts of a transaction that cannot fail on a row that is
-- there, where the driver fails nothing.
use go_lib_my_carrier.Base.{
  ◌≡◌, refl, ◌∙◌, Bool, true, false, ◌||◌, not, inl, inr, Bool-cases, Option, none, some, String,
  ◌==◌, List, [], ◌∷◌, lookup, lookup-insert, eq_refl, Result, ok, err,
}
use go_lib_my_carrier.Slippy.Errors.{Error}
use go_lib_my_carrier.Slippy.Status.{StepStatus}
use go_lib_my_carrier.Slippy.Types.{StateHistoryEntry, ComponentStepData}
use go_lib_my_carrier.Slippy.Pipeline.Config.{PipelineConfig, is_aggregate_step}
use go_lib_my_carrier.Slippy.Postgres.State.{
  Row, Database, Statement, Driver, Tx, pure, done, ◌>>=◌, attempt, update_row,
}
use go_lib_my_carrier.Slippy.Postgres.Events.{
  recompute_aggregate, recompute_with, active_components,
}
use go_lib_my_carrier.Slippy.Postgres.Steps.{
  lock_slip, append_entry, append_history_tx, append_if, write_if, write_step_status_column,
  show_write,
}

-- A driver that fails no statement.
abbrev pub IsQuiet : Driver → Type 0
IsQuiet d = (s : Statement) → d.fault s ≡ none

abbrev pub HasRow : String → Database → Type 0
HasRow id db = (row : Row) × (lookup id db.rows ≡ some row)

-- The transaction goes on, with the row still there and the same rows of slip_component_states.
abbrev pub GoesOn {ℓ} : {A : Type ℓ} → String → Database → Result Error (A × Database) → Type 0
GoesOn id db (ok (a, later)) = (later.component_states ≡ db.component_states) × HasRow id later
GoesOn id db (err e) = ⊥

pub record Proceeds {ℓ} {A : Type ℓ} (id : String) (body : Tx A) : Type ℓ where
  pub at : (db : Database) → HasRow id db → GoesOn id db (body db)

module _ (id : String) where
  pub Proceeds-pure {ℓ} : {A : Type ℓ} (a : A) → Proceeds id (pure a)
  Proceeds-pure a = record { at = λ db h. (refl, h) }

  pub Proceeds-done : Proceeds id done
  Proceeds-done = record { at = λ db h. (refl, h) }

  then-GoesOn {ℓ} :
      {B : Type ℓ} (db later : Database) (r : Result Error (B × Database))
      → (later.component_states ≡ db.component_states) × HasRow id later
      → GoesOn id later r
      → GoesOn id db r
  then-GoesOn db later (ok (b, last)) g n = (n.0 ∙ g.0, n.1)
  then-GoesOn db later (err e) g n = n

  bind-GoesOn {ℓ κ} :
      {A : Type ℓ} {B : Type κ} (db : Database) (r : Result Error (A × Database)) (f : A → Tx B)
      → ((a : A) → Proceeds id (f a))
      → GoesOn id db r
      → GoesOn id db (elim r [ ok (a, later) ↦ f a later | err e ↦ err e ])
  bind-GoesOn db (ok (a, later)) f k g = then-GoesOn db later (f a later) g ((k a).at later g.1)
  bind-GoesOn db (err e) f k g = g

  pub Proceeds-bind {ℓ κ} :
      {A : Type ℓ} {B : Type κ} (body : Tx A) (f : A → Tx B)
      → Proceeds id body
      → ((a : A) → Proceeds id (f a))
      → Proceeds id (body >>= f)
  Proceeds-bind body f k l = record { at = λ db h. bind-GoesOn db (body db) f l (k.at db h) }

  pub Proceeds-update_row : (f : Row → Row) → Proceeds id (update_row id f)
  Proceeds-update_row f = record {
    at = λ db (row, e).
        rw e (refl, (f row, lookup-insert id id (f row) db.rows ∙ rw (eq_refl id) refl));
  }

module _ (id : String) (d : Driver) (quiet : IsQuiet d) where
  pub Proceeds-attempt : (s : Statement) (before : String) → Proceeds id (attempt d s before)
  Proceeds-attempt s before = record { at = λ db h. rw (quiet s) (refl, h) }

  pub Proceeds-append : (entry : StateHistoryEntry) → Proceeds id (append_history_tx d id entry)
  unfolding append_history_tx
  Proceeds-append entry = record {
    at = λ db (row, e).
        rw (quiet Statement.append_history, GoesOn, e)
          (
            refl,
            (
              append_entry d.now entry row,
              lookup-insert id id (append_entry d.now entry row) db.rows ∙ rw (eq_refl id) refl,
            ),
          );
  }

  pub Proceeds-append_if : (entry : Option StateHistoryEntry) → Proceeds id (append_if d id entry)
  Proceeds-append_if none = Proceeds-done id
  Proceeds-append_if (some entry) = Proceeds-append entry

  pub Proceeds-lock : Proceeds id (lock_slip d id)
  unfolding lock_slip
  Proceeds-lock = record { at = λ db (row, e). rw (quiet Statement.lock_slip, e) (refl, (row, e)) }

  recompute_with-Proceeds :
      (agg_step : String) (items active : List ComponentStepData)
      → Proceeds id (recompute_with d id agg_step items active)
  recompute_with-Proceeds agg_step items [] = Proceeds-pure id _
  recompute_with-Proceeds agg_step items (c ∷ cs) =
      search (Proceeds-bind, Proceeds-pure, Proceeds-attempt, Proceeds-update_row)

  pub Proceeds-recompute :
      (config : PipelineConfig) (agg_step : String)
      → Proceeds id (recompute_aggregate config d id agg_step)
  unfolding recompute_aggregate
  Proceeds-recompute config agg_step = Proceeds-bind id _ _ (Proceeds-attempt _ _) λ u. record {
    at = λ db (row, e). rw e (
        (Proceeds-bind id _ _ (Proceeds-attempt _ _) λ u. record {
          at = λ later h.
              (recompute_with-Proceeds agg_step _
                  (active_components config id agg_step later.component_states)).at
                later h;
        }).at
          db (row, e));
  }

  write_if-Proceeds :
      (b : Bool) (write : Tx (Unit {0})) → Proceeds id write → Proceeds id (write_if b write)
  write_if-Proceeds true write k = k
  write_if-Proceeds false write k = Proceeds-done id

  column-Proceeds :
      (config : PipelineConfig) (step_name : String) (status : StepStatus)
      → Proceeds id (write_step_status_column config d id step_name status)
  unfolding write_step_status_column
  column-Proceeds config step_name status =
      search
        (write_if-Proceeds, Proceeds-bind, Proceeds-done, Proceeds-attempt, Proceeds-update_row)

  pub show_write-Proceeds :
      (config : PipelineConfig) (step_name component_name : String) (status : StepStatus)
      → Proceeds id (show_write config d id step_name component_name status)
  unfolding show_write
  show_write-Proceeds config step_name component_name status =
      elim (Bool-cases (not (component_name == "") || is_aggregate_step config step_name)) [
        | inl rolls ↦ rw rolls (
            write_if-Proceeds _ _ (
              Proceeds-bind id _ _ (Proceeds-recompute config _)
                λ b. write_if-Proceeds _ _ (column-Proceeds config step_name status)))
        | inr plain ↦ rw plain (column-Proceeds config step_name status)
      ]
