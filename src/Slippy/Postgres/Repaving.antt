-- ===== src/Slippy/Postgres/Repaving.antt =====
-- slippy/postgres_store_updates.go: which rows a repave may replace.
use go_lib_my_carrier.Base.{
  ◌≡◌, refl, ◌⊎◌, true, false, ◌||◌, not, inl, inr, Bool-cases, Option, none, some, Option-cases,
  String, ◌==◌, lookup, ok, err, arith,
}
use go_lib_my_carrier.Slippy.Errors.{Error}
use go_lib_my_carrier.Slippy.Status.{SlipStatus, slip_is_live}
use go_lib_my_carrier.Slippy.Types.{Slip, AncestryEntry}
use go_lib_my_carrier.Slippy.Pipeline.Config.{PipelineConfig}
use go_lib_my_carrier.Slippy.Postgres.State.{Row, Database, Driver, Statement, ◌>>=◌}
use go_lib_my_carrier.Slippy.Postgres.Writes.{is_claimed_row}
use go_lib_my_carrier.Slippy.Postgres.Repave.{
  is_repaveable, is_superseded, delete_if, remove_superseded_slip_tx, load_own_ancestry_link_tx,
  own_link, repave_body, repave,
}
use go_lib_my_carrier.Slippy.Postgres.Freshness.{in_tx-err}

-- The statuses that the DELETE names are those that are not live.
pub is_repaveable_lem : (status : SlipStatus) → is_repaveable status ≡ not (slip_is_live status)
is_repaveable_lem SlipStatus.unset = refl
is_repaveable_lem SlipStatus.pending = refl
is_repaveable_lem SlipStatus.in_progress = refl
is_repaveable_lem SlipStatus.completed = refl
is_repaveable_lem SlipStatus.failed = refl
is_repaveable_lem SlipStatus.compensating = refl
is_repaveable_lem SlipStatus.compensated = refl
is_repaveable_lem SlipStatus.abandoned = refl
is_repaveable_lem SlipStatus.promoted = refl

kept :
    (row : Row) → (slip_is_live row.status || is_claimed_row row) ≡ true → is_superseded row ≡ false
kept row h = rw (is_repaveable_lem row.status) (ground arith)

own_link-Looks :
    (d : Driver) (id : String) (parent : Option AncestryEntry) (db : Database)
    → ((e : Error) × (load_own_ancestry_link_tx d id parent db ≡ err e))
      ⊎ ((carried : Option AncestryEntry) × (load_own_ancestry_link_tx d id parent db
            ≡ ok (carried, db)))
unfolding load_own_ancestry_link_tx
own_link-Looks d id (some parent) db = inr (none, refl)
own_link-Looks d id none db = elim (Option-cases (d.fault Statement.own_link)) [
  | inl fine ↦ inr (own_link id db.links, rw (◌>>=◌, fine) refl)
  | inr (e, fault) ↦ rw (◌>>=◌, fault) (inl (_, refl))
]

-- The DELETE does not find a row that is live or claimed, and the check then does.
remove-err :
    (d : Driver) (id : String) (db : Database) (row : Row)
    → lookup id db.rows ≡ some row
    → (slip_is_live row.status || is_claimed_row row) ≡ true
    → (e : Error) × (remove_superseded_slip_tx d id db ≡ err e)
unfolding remove_superseded_slip_tx
remove-err d id db row found h = elim (Option-cases (d.fault Statement.delete_slip)) [
  | inl fine ↦
      rw (◌>>=◌, fine, found, kept row h)
        (elim (Option-cases (d.fault Statement.check_slip)) [
          | inl sound ↦ rw (delete_if, ◌>>=◌, sound, found) (_, refl)
          | inr (e, fault) ↦ rw (delete_if, ◌>>=◌, fault) (_, refl)
        ])
  | inr (e, fault) ↦ rw (◌>>=◌, fault) (_, refl)
]

body-err :
    (config : PipelineConfig) (d : Driver) (old_id : String) (slip : Slip)
    (parent : Option AncestryEntry) (db : Database) (row : Row)
    → lookup old_id db.rows ≡ some row
    → (slip_is_live row.status || is_claimed_row row) ≡ true
    → (e : Error) × (repave_body config d old_id slip parent db ≡ err e)
unfolding repave_body
body-err config d old_id slip parent db row found h =
    let (e, removed) = remove-err d old_id db row found h in
    elim (own_link-Looks d old_id parent db) [
      | inl (f, link) ↦ (f, rw (◌>>=◌, link) refl)
      | inr (carried, link) ↦ (e, rw (◌>>=◌, link, removed) refl)
    ]

-- A repave of a slip whose row is live or claimed returns an error, whatever the successor, its
-- parent and the driver are, and leaves the database as it was.
pub repave-live :
    (config : PipelineConfig) (d : Driver) (old_id : String) (slip : Option Slip)
    (parent : Option AncestryEntry) (db : Database) (row : Row)
    → lookup old_id db.rows ≡ some row
    → (slip_is_live row.status || is_claimed_row row) ≡ true
    → let (after, result) = repave config d old_id slip parent db in
      (after ≡ db) × ((e : Error) × (result ≡ err e))
unfolding repave
repave-live config d old_id none parent db row found h = (refl, (_, refl))
repave-live config d old_id (some slip) parent db row found h =
    let (e, body) = body-err config d old_id slip parent db row found h in
    elim (Bool-cases (old_id == slip.correlation_id)) [
      | inl same ↦ rw same (refl, (_, refl))
      | inr differs ↦ rw differs (in_tx-err d (repave_body config d old_id slip parent) db e body)
    ]
