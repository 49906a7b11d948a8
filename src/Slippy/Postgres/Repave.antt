-- ===== src/Slippy/Postgres/Repave.antt =====
-- slippy/postgres_store_updates.go, slippy/postgres_store_reads.go: the repave, and the links of
-- slip_ancestry. An error that says that the savepoint is closed already counts as none.
use go_lib_my_carrier.Base.{
  ℕ, Bool, true, false, ◌&&◌, ◌||◌, not, Option, none, some, String, ◌==◌, List, [], ◌∷◌, lookup,
  erase, concat, keep, short_sha, Result, ok, err, if◌then◌else◌,
}
use go_lib_my_carrier.Slippy.Errors.{Error, sentinel, wrap, message, Sentinel}
use go_lib_my_carrier.Slippy.Status.{SlipStatus, StepStatus, slip_status_eq}
use go_lib_my_carrier.Slippy.Types.{Slip, StateHistoryEntry, AncestryEntry}
use go_lib_my_carrier.Slippy.Claim.Marker.{push_parsed_step, library_actor}
use go_lib_my_carrier.Slippy.Pipeline.Config.{PipelineConfig}
use go_lib_my_carrier.Slippy.Postgres.State.{
  Row, ComponentState, Link, Database, Statement, Driver, Tx, pure, done, raise, ◌>>=◌, ◌>>◌,
  modify, attempt, in_tx, alone,
}
use go_lib_my_carrier.Slippy.Postgres.Steps.{append_history_tx, Answer}
use go_lib_my_carrier.Slippy.Postgres.Writes.{create_tx, is_claimed_row}

-- `repaveableSlipStatusesSQL`.
abbrev pub is_repaveable : SlipStatus → Bool
is_repaveable status =
    slip_status_eq status SlipStatus.failed
    || slip_status_eq status SlipStatus.completed
    || slip_status_eq status SlipStatus.abandoned
    || slip_status_eq status SlipStatus.promoted
    || slip_status_eq status SlipStatus.compensated

-- The link of a slip to its parent: `ancestryLinkArgs`.
abbrev pub link_to : Slip → AncestryEntry → Link
link_to slip parent = record {
  repository = slip.repository;
  branch = slip.branch;
  correlation_id = slip.correlation_id;
  parent_correlation_id = parent.correlation_id;
  parent_commit_sha = parent.commit_sha;
  parent_status = parent.status;
  parent_failed_step = parent.failed_step;
  parent_repository = parent.repository;
  parent_branch = parent.branch;
  created_at = parent.created_at;
}

abbrev pub is_link_of : String → String → String → Link → Bool
is_link_of repository branch id link =
    link.repository == repository && (link.branch == branch) && (link.correlation_id == id)

-- `insertAncestryLinkSQL`: a link with the same key is replaced.
unfoldable pub put_link : Link → List Link → List Link
put_link new [] = new ∷ []
put_link new (link ∷ links) =
    if is_link_of new.repository new.branch new.correlation_id link
    then new ∷ links
    else link ∷ put_link new links

-- `insertAncestryLinkTx`.
unfoldable pub insert_ancestry_link_tx : Driver → Slip → AncestryEntry → Tx (Unit {0})
unfolding put_link
insert_ancestry_link_tx d slip parent =
    attempt d Statement.insert_link
      (concat ("failed to insert ancestry link for " ∷ slip.correlation_id ∷ ": " ∷ []))
    >> modify λ db. record db { links = put_link (link_to slip parent) db.links }

-- `InsertAncestryLink`.
unfoldable pub insert_ancestry_link : Driver → Slip → AncestryEntry → Database → Answer
unfolding insert_ancestry_link_tx
insert_ancestry_link d slip parent = alone (insert_ancestry_link_tx d slip parent)

-- A failed link that the savepoint took back: the transaction goes on, unless that failed as well.
abbrev pub rolled_back : String → Error → Option Error → Tx (Unit {0})
rolled_back id link_error none = done
rolled_back id link_error (some e) = raise (
    wrap (concat ("repave " ∷ id ∷ ": roll back ancestry-link savepoint: " ∷ [])) e
      (concat ("\n" ∷ message link_error ∷ [])))

abbrev pub linked : Driver → String → Database → Result Error (Unit {0} × Database) → Tx (Unit {0})
linked d id before (err link_error) start =
    rolled_back id link_error (d.fault Statement.savepoint_rollback) before
linked d id before (ok (u, later)) start =
    attempt d Statement.savepoint_commit
      (concat ("repave " ∷ id ∷ ": release ancestry-link savepoint: " ∷ [])) later

-- `insertAncestryLinkBestEffort`. Its warning to the logger is left out.
unfoldable pub insert_ancestry_link_best_effort : Driver → Slip → AncestryEntry → Tx (Unit {0})
unfolding insert_ancestry_link_tx
insert_ancestry_link_best_effort d slip parent =
    attempt d Statement.savepoint
      (concat ("repave " ∷ slip.correlation_id ∷ ": open ancestry-link savepoint: " ∷ []))
    >> λ db. linked d slip.correlation_id db (insert_ancestry_link_tx d slip parent db) db

abbrev pub checked : String → Option Row → Tx Bool
checked id none = pure false
checked id (some row) =
    raise (wrap (concat ("repave " ∷ id ∷ ": " ∷ [])) (sentinel Sentinel.slip_went_live) "")

-- Whether the DELETE finds the row: ended or failed, and unclaimed.
abbrev pub is_superseded : Row → Bool
is_superseded row = is_repaveable row.status && not (is_claimed_row row)

abbrev pub is_deletable : Option Row → Bool
is_deletable none = false
is_deletable (some row) = is_superseded row

abbrev pub delete_if : Driver → String → Bool → Tx Bool
delete_if d id true db = ok (true, record db { rows = erase id db.rows })
delete_if d id false db =
    (attempt d Statement.check_slip (concat ("repave " ∷ id ∷ ": checking superseded row: " ∷ []))
        >> λ current. checked id (lookup id current.rows) current)
      db

-- `removeSupersededSlipTx`.
unfoldable pub remove_superseded_slip_tx : Driver → String → Tx Bool
remove_superseded_slip_tx d id =
    attempt d Statement.delete_slip (concat ("repave " ∷ id ∷ ": deleting superseded row: " ∷ []))
    >> λ db. delete_if d id (is_deletable (lookup id db.rows)) db

abbrev pub parent_of : Link → AncestryEntry
parent_of link = record {
  correlation_id = link.parent_correlation_id;
  commit_sha = link.parent_commit_sha;
  status = link.parent_status;
  failed_step = link.parent_failed_step;
  created_at = link.created_at;
  repository = link.parent_repository;
  branch = link.parent_branch;
}

-- The first link of a slip: the query of `loadOwnAncestryLinkTx`.
unfoldable pub own_link : String → List Link → Option AncestryEntry
own_link id [] = none
own_link id (link ∷ links) =
    if link.correlation_id == id then some (parent_of link) else own_link id links

-- `loadOwnAncestryLinkTx`, which the repave calls only without a parent.
unfoldable pub load_own_ancestry_link_tx :
    Driver → String → Option AncestryEntry → Tx (Option AncestryEntry)
unfolding own_link
load_own_ancestry_link_tx d id (some parent) = pure none
load_own_ancestry_link_tx d id none =
    attempt d Statement.own_link
      (concat ("repave " ∷ id ∷ ": reading superseded ancestry link: " ∷ []))
    >> λ db. ok (own_link id db.links, db)

abbrev pub is_state_of : String → ComponentState → Bool
is_state_of id state = state.correlation_id == id

abbrev pub is_own_link : String → Link → Bool
is_own_link id link = link.correlation_id == id

abbrev pub delete_children : Driver → String → Tx (Unit {0})
delete_children d id =
    attempt d Statement.delete_states
      (concat ("repave " ∷ id ∷ ": deleting superseded children: " ∷ []))
    >> (modify λ db. record db {
      component_states = keep (λ state. not (is_state_of id state)) db.component_states;
    })
    >> attempt d Statement.delete_links
        (concat ("repave " ∷ id ∷ ": deleting superseded children: " ∷ []))
    >> (modify λ db. record db { links = keep (λ link. not (is_own_link id link)) db.links })

-- A link to the old slip, pointed to the successor.
abbrev pub repoint : ℕ → String → Slip → Link → Link
repoint now old_id slip link =
    if link.parent_correlation_id == old_id
    then record link {
      parent_correlation_id = slip.correlation_id;
      parent_repository = slip.repository;
      parent_branch = slip.branch;
      parent_status = slip.status;
      parent_commit_sha = slip.commit_sha;
      created_at = now;
      parent_failed_step = "";
    }
    else link

unfoldable pub repoint_all : ℕ → String → Slip → List Link → List Link
repoint_all now old_id slip [] = []
repoint_all now old_id slip (link ∷ links) =
    repoint now old_id slip link ∷ repoint_all now old_id slip links

abbrev pub repaved_entry : ℕ → String → Slip → StateHistoryEntry
repaved_entry now old_id slip = record {
  step = push_parsed_step;
  component = "";
  status = StepStatus.running;
  timestamp = now;
  actor = library_actor;
  message = concat ("repaved " ∷ old_id ∷ " for commit " ∷ short_sha slip.commit_sha ∷ []);
  claimed_by = "";
}

-- `fmt.Errorf(before + "%w", err)` around a part of the transaction.
abbrev pub wrapping : String → Tx (Unit {0}) → Tx (Unit {0})
wrapping before body db = elim (body db) [ ok r ↦ ok r | err e ↦ err (wrap before e "") ]

abbrev pub point_and_mark : Driver → String → Slip → Tx (Unit {0})
point_and_mark d old_id slip =
    attempt d Statement.repoint_links (
      concat
        ("repave " ∷ old_id ∷ ": repointing descendants to " ∷ slip.correlation_id ∷ ": " ∷ []))
    >> (modify λ db. record db { links = repoint_all d.now old_id slip db.links })
    >> wrapping (concat ("repave " ∷ old_id ∷ ": recording predecessor on successor: " ∷ []))
        (append_history_tx d slip.correlation_id (repaved_entry d.clock old_id slip))

abbrev pub link_if : Driver → Slip → Option AncestryEntry → Tx (Unit {0})
link_if d slip none = done
link_if d slip (some parent) = insert_ancestry_link_best_effort d slip parent

abbrev pub first_of {ℓ} : {A : Type ℓ} → Option A → Option A → Option A
first_of none b = b
first_of (some a) b = some a

-- The rest of the repave, after the old row: the successor, and what hung on the old row.
abbrev pub repave_rest :
    PipelineConfig
    → Driver
    → String
    → Slip
    → Option AncestryEntry
    → Option AncestryEntry
    → Bool
    → Tx (Unit {0})
repave_rest config d old_id slip parent carried false =
    create_tx config d slip >> link_if d slip parent
repave_rest config d old_id slip parent carried true =
    delete_children d old_id
    >> create_tx config d slip
    >> point_and_mark d old_id slip
    >> link_if d slip (first_of parent carried)

unfoldable pub repave_body :
    PipelineConfig → Driver → String → Slip → Option AncestryEntry → Tx (Unit {0})
unfolding load_own_ancestry_link_tx remove_superseded_slip_tx create_tx repoint_all
    append_history_tx insert_ancestry_link_best_effort
repave_body config d old_id slip parent =
    load_own_ancestry_link_tx d old_id parent >>= λ (carried : Option AncestryEntry).
    remove_superseded_slip_tx d old_id >>= repave_rest config d old_id slip parent carried

-- `Repave`, for a pointer that may be nil.
unfoldable pub repave :
    PipelineConfig → Driver → String → Option Slip → Option AncestryEntry → Database → Answer
unfolding repave_body
repave config d old_id none parent db = (
  db,
  err (wrap "" (sentinel Sentinel.invalid_configuration) ": Repave requires a successor slip"),
)
repave config d old_id (some slip) parent db =
    if old_id == slip.correlation_id
    then (
      db,
      err (
          wrap "" (sentinel Sentinel.invalid_configuration) (
            concat
              (": Repave successor " ∷ slip.correlation_id ∷ " is the slip being repaved" ∷ []))),
    )
    else in_tx d (repave_body config d old_id slip parent) db
