-- ===== src/Slippy/Store/Rows.antt =====
-- slippytest/mock_store.go: the rows of a commit and their order. `sort.Slice` is an insertion
-- sort here: the orders are total on rows with distinct correlation IDs, so the result is the same.
use Prim.Native.String.{compare}
use text.Mathlib.Text.{is_lt}
use go_lib_my_carrier.Base.{
  ℕ, Bool, true, false, not, ◌||◌, List, [], ◌∷◌, ◌++◌, String, Assoc, lower_codes, codes, codes_eq,
  ltb, nat_eq, if◌then◌else◌,
}
use go_lib_my_carrier.Slippy.Status.{SlipStatus, slip_status_eq, slip_is_live}
use go_lib_my_carrier.Slippy.Types.{Slip}

-- `commitKey`, as code points; the repository is an ASCII name.
abbrev pub commit_key : String → String → List ℕ
commit_key repository commit_sha = lower_codes repository ++ 58 ∷ codes commit_sha

-- `supersededTerminal`.
abbrev pub superseded_terminal : SlipStatus → Bool
superseded_terminal status =
    slip_status_eq status SlipStatus.abandoned
    || slip_status_eq status SlipStatus.promoted
    || slip_status_eq status SlipStatus.compensated

-- `tieBreak`: the newer row first, and then the smaller correlation ID.
unfoldable pub tie_break : Slip → Slip → Bool
tie_break a b =
    if not (nat_eq a.updated_at b.updated_at)
    then ltb b.updated_at a.updated_at
    else is_lt (compare a.correlation_id b.correlation_id)

-- The order of `loadOrder`: live rows before the others.
unfoldable pub load_less : Slip → Slip → Bool
unfolding tie_break
load_less a b =
    if slip_is_live a.status
    then if slip_is_live b.status then tie_break a b else true
    else if slip_is_live b.status
    then false
    else tie_break a b

unfoldable pub insert_sorted : (Slip → Slip → Bool) → Slip → List Slip → List Slip
insert_sorted less x [] = x ∷ []
insert_sorted less x (y ∷ ys) = if less y x then y ∷ insert_sorted less x ys else x ∷ y ∷ ys

unfoldable pub sort : (Slip → Slip → Bool) → List Slip → List Slip
unfolding insert_sorted
sort less [] = []
sort less (x ∷ xs) = insert_sorted less x (sort less xs)

-- `loadOrder` and `findOrder`.
unfoldable pub load_order : List Slip → List Slip
unfolding sort load_less
load_order rows = sort load_less rows

unfoldable pub find_order : List Slip → List Slip
unfolding sort tie_break
find_order rows = sort tie_break rows

-- `rowsForCommit`.
unfoldable pub rows_for_commit : String → String → Assoc Slip → List Slip
rows_for_commit repository commit_sha [] = []
rows_for_commit repository commit_sha ((id, slip) ∷ slips) =
    let rest = rows_for_commit repository commit_sha slips in
    if codes_eq (commit_key slip.repository slip.commit_sha) (commit_key repository commit_sha)
    then slip ∷ rest
    else rest
