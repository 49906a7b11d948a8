-- ===== src/Slippy/Store/Reads.antt =====
-- slippytest/mock_store.go: the reads. None of them changes a row.
use go_lib_my_carrier.Base.{
  Option, none, some, String, List, [], ◌∷◌, ◌++◌, map, lookup, Result, ok, err, if◌then◌else◌,
}
use go_lib_my_carrier.Slippy.Errors.{Error, sentinel, Sentinel}
use go_lib_my_carrier.Slippy.Types.{Slip, SlipWithCommit, AncestryEntry}
use go_lib_my_carrier.Slippy.Store.State.{MockStore, injected, deep_copy_slip}
use go_lib_my_carrier.Slippy.Store.Rows.{
  superseded_terminal, load_order, find_order, rows_for_commit,
}

-- The injected error, if there is one, and else the value.
abbrev pub reading {ℓ} : {A : Type ℓ} → Option Error → Result Error A → Result Error A
reading (some e) r = err e
reading none r = r

abbrev pub not_found {ℓ} : {A : Type ℓ} → Result Error A
not_found = err (sentinel Sentinel.slip_not_found)

abbrev pub copy_or_not_found : Option Slip → Result Error Slip
copy_or_not_found none = not_found
copy_or_not_found (some slip) = ok (deep_copy_slip slip)

-- `Load`.
unfoldable pub load : String → MockStore → Result Error Slip
load id m =
    reading (injected m.faults.load_error m.faults.load_error_for id)
      (copy_or_not_found (lookup id m.slips))

abbrev pub first_row : List Slip → Option Slip
first_row [] = none
first_row (slip ∷ rows) = some slip

-- `LoadByCommit`.
unfoldable pub load_by_commit : String → String → MockStore → Result Error Slip
unfolding load_order rows_for_commit
load_by_commit repository commit_sha m =
    reading m.faults.load_by_commit_error
      (copy_or_not_found (first_row (load_order (rows_for_commit repository commit_sha m.slips))))

-- The loop that skips the superseded rows.
unfoldable pub first_current : List Slip → Option Slip
first_current [] = none
first_current (slip ∷ rows) =
    if superseded_terminal slip.status then first_current rows else some slip

-- `LoadLiveByCommit`.
unfoldable pub load_live_by_commit : String → String → MockStore → Result Error Slip
unfolding load_order rows_for_commit first_current
load_live_by_commit repository commit_sha m =
    reading m.faults.load_live_by_commit_error (
      copy_or_not_found
        (first_current (load_order (rows_for_commit repository commit_sha m.slips))))

-- The current row of a commit, if it has one, and else what the rest of the loop gives.
abbrev pub found_or :
    String → Option Slip → Result Error SlipWithCommit → Result Error SlipWithCommit
found_or commit none rest = rest
found_or commit (some slip) rest =
    ok (record { slip = deep_copy_slip slip; matched_commit = commit })

-- The loop of `FindByCommits` over the commits.
unfoldable pub find_in : String → List String → MockStore → Result Error SlipWithCommit
unfolding find_order rows_for_commit first_current
find_in repository [] m = not_found
find_in repository (commit ∷ commits) m =
    let rest = find_in repository commits m in
    found_or commit (first_current (find_order (rows_for_commit repository commit m.slips))) rest

-- `FindByCommits`.
unfoldable pub find_by_commits : String → List String → MockStore → Result Error SlipWithCommit
unfolding find_in
find_by_commits repository commits m =
    reading m.faults.find_by_commits_error (find_in repository commits m)

abbrev pub with_commit : String → Slip → SlipWithCommit
with_commit commit slip = record { slip = deep_copy_slip slip; matched_commit = commit }

-- The loop of `FindAllByCommits`.
unfoldable pub find_all_in : String → List String → MockStore → List SlipWithCommit
unfolding find_order rows_for_commit
find_all_in repository [] m = []
find_all_in repository (commit ∷ commits) m =
    map (with_commit commit) (find_order (rows_for_commit repository commit m.slips))
    ++ find_all_in repository commits m

-- `FindAllByCommits`.
unfoldable pub find_all_by_commits :
    String → List String → MockStore → Result Error (List SlipWithCommit)
unfolding find_all_in
find_all_by_commits repository commits m =
    reading m.faults.find_all_by_commits_error (ok (find_all_in repository commits m))

-- `ProbeSchema`.
unfoldable pub probe_schema : MockStore → Option Error
probe_schema m = m.faults.probe_schema_error

-- `ResolveAncestry`, which has no links to follow.
unfoldable pub resolve_ancestry : MockStore → Result Error (List AncestryEntry)
resolve_ancestry m = ok []
