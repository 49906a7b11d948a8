-- ===== src/Slippy/Postgres/Reads.antt =====
-- slippy/postgres_store.go, slippy/postgres_store_reads.go: the reads. Where a query leaves the order
-- of rows with equal keys open, they keep the order of the table.
use go_lib_my_carrier.Base.{
  ℕ, zero, suc, Bool, true, false, ◌&&◌, ◌||◌, not, Option, none, some, String, ◌==◌, List, [], ◌∷◌,
  ◌++◌, Assoc, lookup, map, lower_codes, codes_eq, ltb, is_empty, Result, ok, err, if◌then◌else◌,
}
use go_lib_my_carrier.Slippy.Errors.{Error, plain, sentinel, wrap, Sentinel}
use go_lib_my_carrier.Slippy.Types.{Slip, SlipWithCommit, AncestryEntry}
use go_lib_my_carrier.Slippy.Store.Rows.{superseded_terminal}
use go_lib_my_carrier.Slippy.Pipeline.Config.{PipelineConfig}
use go_lib_my_carrier.Slippy.Postgres.State.{Row, Link, Database, Statement, Driver}
use go_lib_my_carrier.Slippy.Postgres.Columns.{populate, apply_claimants}
use go_lib_my_carrier.Slippy.Postgres.Repave.{is_repaveable, is_link_of, parent_of}

-- A query that the driver may fail.
abbrev pub queried {ℓ} : {A : Type ℓ} → Option Error → String → Result Error A → Result Error A
queried none before r = r
queried (some e) before r = err (wrap before e "")

-- The slip of a row, with the claimants of its running steps.
unfoldable pub hydrate : PipelineConfig → Database → Row → Slip
unfolding populate apply_claimants
hydrate config db row =
    let slip = populate config row in
    record slip { steps = apply_claimants slip.correlation_id db.component_states slip.steps }

abbrev pub hydrate_found : PipelineConfig → Driver → Database → Option Row → Result Error Slip
hydrate_found config d db none = err (sentinel Sentinel.slip_not_found)
hydrate_found config d db (some row) =
    queried (d.fault Statement.query_claimants) "failed to load step claimants: "
      (ok (hydrate config db row))

-- `queryOne`, on the row that its query finds.
unfoldable pub query_one : PipelineConfig → Driver → Database → Option Row → Result Error Slip
unfolding hydrate
query_one config d db row =
    queried (d.fault Statement.query_slip) "failed to load slip: " (hydrate_found config d db row)

-- `Load`.
unfoldable pub load : PipelineConfig → Driver → String → Database → Result Error Slip
unfolding query_one
load config d id db = query_one config d db (lookup id db.rows)

-- ORDER BY (status IN (…)) ASC, updated_at DESC: whether the first row must come before the second.
unfoldable pub comes_first : Row → Row → Bool
comes_first a b =
    if is_repaveable a.status
    then is_repaveable b.status && ltb b.updated_at a.updated_at
    else is_repaveable b.status || ltb b.updated_at a.updated_at

-- ORDER BY updated_at DESC.
abbrev pub is_newer : Row → Row → Bool
is_newer a b = ltb b.updated_at a.updated_at

abbrev pub better : (Row → Row → Bool) → Row → Option Row → Row
better before row none = row
better before row (some best) = if before best row then best else row

-- LIMIT 1 of an ordered query.
unfoldable pub first_by : (Row → Row → Bool) → List Row → Option Row
first_by before [] = none
first_by before (row ∷ rows) = let best = first_by before rows in some (better before row best)

unfoldable pub insert_by : (Row → Row → Bool) → Row → List Row → List Row
insert_by before row [] = row ∷ []
insert_by before row (other ∷ rows) =
    if before other row then other ∷ insert_by before row rows else row ∷ other ∷ rows

unfoldable pub sort_by : (Row → Row → Bool) → List Row → List Row
unfolding insert_by
sort_by before [] = []
sort_by before (row ∷ rows) = insert_by before row (sort_by before rows)

-- lower(repository) = lower($1) AND commit_sha = $2
abbrev pub is_of_commit : String → String → Row → Bool
is_of_commit repository commit_sha row =
    codes_eq (lower_codes row.repository) (lower_codes repository) && (row.commit_sha == commit_sha)

-- The rows of the commit that pass a further test.
unfoldable pub commit_rows : (Row → Bool) → String → String → Assoc Row → List Row
commit_rows test repository commit_sha [] = []
commit_rows test repository commit_sha ((id, row) ∷ rows) =
    let rest = commit_rows test repository commit_sha rows in
    if is_of_commit repository commit_sha row && test row then row ∷ rest else rest

abbrev pub every_row : Row → Bool
every_row row = true

-- status NOT IN ('abandoned', 'promoted', 'compensated')
abbrev pub is_current_row : Row → Bool
is_current_row row = not (superseded_terminal row.status)

-- `LoadByCommit`.
unfoldable pub load_by_commit :
    PipelineConfig → Driver → String → String → Database → Result Error Slip
unfolding query_one first_by commit_rows comes_first
load_by_commit config d repository commit_sha db =
    query_one config d db
      (first_by comes_first (commit_rows every_row repository commit_sha db.rows))

-- `LoadLiveByCommit`.
unfoldable pub load_live_by_commit :
    PipelineConfig → Driver → String → String → Database → Result Error Slip
unfolding query_one first_by commit_rows comes_first
load_live_by_commit config d repository commit_sha db =
    query_one config d db
      (first_by comes_first (commit_rows is_current_row repository commit_sha db.rows))

abbrev pub matched_or : String → Option Row → Option (Row × String) → Option (Row × String)
matched_or commit none rest = rest
matched_or commit (some row) rest = some (row, commit)

-- The query of `FindByCommits`: the first commit with a current row, and its newest one.
unfoldable pub first_match : String → List String → Assoc Row → Option (Row × String)
unfolding first_by commit_rows
first_match repository [] rows = none
first_match repository (commit ∷ commits) rows =
    matched_or commit (first_by is_newer (commit_rows is_current_row repository commit rows))
      (first_match repository commits rows)

abbrev pub match_found :
    PipelineConfig → Driver → Database → Option (Row × String) → Result Error SlipWithCommit
match_found config d db none = err (sentinel Sentinel.slip_not_found)
match_found config d db (some (row, commit)) =
    queried (d.fault Statement.query_claimants) "failed to load step claimants: "
      (ok (record { slip = hydrate config db row; matched_commit = commit }))

-- `FindByCommits`.
unfoldable pub find_by_commits :
    PipelineConfig → Driver → String → List String → Database → Result Error SlipWithCommit
unfolding hydrate first_match
find_by_commits config d repository commits db =
    if is_empty commits
    then err (plain "no commits provided")
    else queried (d.fault Statement.query_slip) "failed to query slip by commits: "
        (match_found config d db (first_match repository commits db.rows))

abbrev pub with_commit : PipelineConfig → Database → String → Row → SlipWithCommit
with_commit config db commit row = record { slip = hydrate config db row; matched_commit = commit }

-- The query of `FindAllByCommits`, in the order of the commits.
unfoldable pub all_matches : PipelineConfig → Database → String → List String → List SlipWithCommit
unfolding hydrate sort_by commit_rows
all_matches config db repository [] = []
all_matches config db repository (commit ∷ commits) =
    map (with_commit config db commit)
      (sort_by is_newer (commit_rows every_row repository commit db.rows))
    ++ all_matches config db repository commits

abbrev pub claimants_of_all :
    Option Error → List SlipWithCommit → Result Error (List SlipWithCommit)
claimants_of_all fault [] = ok []
claimants_of_all fault (found ∷ rest) =
    queried fault "failed to load step claimants: " (ok (found ∷ rest))

-- `FindAllByCommits`.
unfoldable pub find_all_by_commits :
    PipelineConfig → Driver → String → List String → Database → Result Error (List SlipWithCommit)
unfolding all_matches
find_all_by_commits config d repository commits db =
    if is_empty commits
    then ok []
    else queried (d.fault Statement.query_slips) "failed to query slips by commits: " (
        claimants_of_all (d.fault Statement.query_claimants)
          (all_matches config db repository commits))

-- The query of `ResolveAncestry`: the link of a slip on its branch.
unfoldable pub link_of : String → String → String → List Link → Option AncestryEntry
link_of repository branch id [] = none
link_of repository branch id (link ∷ links) =
    if is_link_of repository branch id link
    then some (parent_of link)
    else link_of repository branch id links

abbrev pub linked_then :
    Option AncestryEntry → (AncestryEntry → List AncestryEntry) → List AncestryEntry
linked_then none rest = []
linked_then (some entry) rest = entry ∷ rest entry

-- The loop of `ResolveAncestry`, which takes at most `max_depth` links.
unfoldable pub chain : ℕ → String → String → String → List Link → List AncestryEntry
unfolding link_of
chain zero repository branch id links = []
chain (suc depth) repository branch id links =
    linked_then (link_of repository branch id links)
      λ entry. chain depth entry.repository entry.branch entry.correlation_id links

abbrev pub asks_links : ℕ → Bool
asks_links zero = false
asks_links (suc depth) = true

-- `ResolveAncestry`. A driver that fails the query fails the first one, if there is one.
unfoldable pub resolve_ancestry :
    Driver → String → String → String → ℕ → Database → Result Error (List AncestryEntry)
unfolding chain
resolve_ancestry d repository branch id max_depth db =
    if asks_links max_depth
    then queried (d.fault Statement.query_links) "scanning ancestry row: "
        (ok (chain max_depth repository branch id db.links))
    else ok []
