-- ===== src/Slippy/Store/Selection.antt =====
-- slippytest/mock_store.go: which row the reads by commit choose.
use go_lib_my_carrier.Base.{
  ◌≡◌, refl, ◌∙◌, Bool, true, Option, none, some, String, ◌==◌, List, [], ◌∷◌, Assoc, arith, Result,
  ok, any, All, Any, Bool-cases, inl, inr, codes_eq, eq_refl,
}
use go_lib_my_carrier.Slippy.Errors.{Error}
use go_lib_my_carrier.Slippy.Types.{Slip, SlipWithCommit}
use go_lib_my_carrier.Slippy.Store.State.{MockStore, deep_copy_slip}
use go_lib_my_carrier.Slippy.Store.Rows.{
  commit_key, superseded_terminal, tie_break, load_less, sort, load_order, find_order,
  rows_for_commit,
}
use go_lib_my_carrier.Slippy.Store.Reads.{
  reading, copy_or_not_found, first_row, first_current, found_or, find_in, find_by_commits,
  load_by_commit, load_live_by_commit,
}
use go_lib_my_carrier.Slippy.Store.Sorting.{
  is_live, is_current, head_is_live, sort-any, sort-All, load_order-live,
}

-- The row that a read returns, if it does and the row passes a test.
abbrev pub Found : (Slip → Bool) → Result Error Slip → Type 0
Found p r = (slip : Slip) × (r ≡ ok slip) × (p slip ≡ true)

first_row-live :
    (xs : List Slip) → head_is_live xs ≡ true → Found is_live (copy_or_not_found (first_row xs))
first_row-live [] h = cc
first_row-live (x ∷ xs) h = (deep_copy_slip x, refl, h)

-- Without an injected error, a read by commit returns a live slip if the commit has one.
pub load_by_commit-live :
    (repository commit_sha : String) (m : MockStore)
    → m.faults.load_by_commit_error ≡ none
    → any is_live (rows_for_commit repository commit_sha m.slips) ≡ true
    → Found is_live (load_by_commit repository commit_sha m)
unfolding load_by_commit load_order
load_by_commit-live repository commit_sha m healthy a =
    let rows = rows_for_commit repository commit_sha m.slips in
    rw healthy (first_row-live (sort load_less rows) (load_order-live rows a))

-- The loop that skips superseded rows finds one that is not, of those listed, if there is one.
first_current_sound :
    (P : Slip → Type 0) (xs : List Slip) (slip : Slip)
    → All P xs
    → first_current xs ≡ some slip
    → (is_current slip ≡ true) × P slip
unfolding first_current
first_current_sound P [] slip t h = cc
first_current_sound P (x ∷ xs) slip t h = elim (Bool-cases (superseded_terminal x.status)) [
  | inl gone ↦ first_current_sound P xs slip t.1 (ground (arith, gone, h))
  | inr here ↦ let same : x ≡ slip = ground (arith, here, h) in rw (← same) (rw here refl, t.0)
]

first_current_complete :
    (xs : List Slip) → any is_current xs ≡ true → (slip : Slip) × (first_current xs ≡ some slip)
unfolding first_current
first_current_complete [] h = cc
first_current_complete (x ∷ xs) h = elim (Bool-cases (superseded_terminal x.status)) [
  | inl gone ↦ rw gone (first_current_complete xs (ground (arith, gone, h)))
  | inr here ↦ rw here (x, refl)
]

-- The slip is a row of that repository and commit, as the store compares them.
abbrev IsOfCommit : String → String → Slip → Type 0
IsOfCommit repository commit slip =
    codes_eq (commit_key slip.repository slip.commit_sha) (commit_key repository commit) ≡ true

-- The slip is the value of an entry of the table.
abbrev IsRow : Assoc Slip → Slip → Type 0
IsRow slips slip = Any (λ (entry : String × Slip). entry.1 ≡ slip) slips

-- A row of the table, of that repository and commit.
abbrev IsRowOf : Assoc Slip → String → String → Slip → Type 0
IsRowOf slips repository commit slip = IsOfCommit repository commit slip × IsRow slips slip

-- The rows of a tail are rows of the whole table.
rows_grow :
    (repository commit id : String) (slip : Slip) (slips : Assoc Slip) (rows : List Slip)
    → All (IsRowOf slips repository commit) rows
    → All (IsRowOf ((id, slip) ∷ slips) repository commit) rows
rows_grow repository commit id slip slips [] t = tt
rows_grow repository commit id slip slips (row ∷ rows) (here, t) =
    ((here.0, inr here.1), rows_grow repository commit id slip slips rows t)

rows_for_commit-All :
    (repository commit : String) (slips : Assoc Slip)
    → All (IsRowOf slips repository commit) (rows_for_commit repository commit slips)
unfolding rows_for_commit
rows_for_commit-All repository commit [] = tt
rows_for_commit-All repository commit ((id, slip) ∷ slips) =
    let rest =
      rows_grow repository commit id slip slips (rows_for_commit repository commit slips)
        (rows_for_commit-All repository commit slips) in
    elim (Bool-cases
      (codes_eq (commit_key slip.repository slip.commit_sha) (commit_key repository commit))) [
        | inl same ↦ rw same ((same, inl refl), rest)
        | inr other ↦ rw other rest
      ]

-- Without an injected error, the live read by commit returns a row that is neither abandoned,
-- promoted nor compensated if the commit has one.
pub load_live_by_commit-current :
    (repository commit_sha : String) (m : MockStore)
    → m.faults.load_live_by_commit_error ≡ none
    → any is_current (rows_for_commit repository commit_sha m.slips) ≡ true
    → Found is_current (load_live_by_commit repository commit_sha m)
unfolding load_live_by_commit load_order
load_live_by_commit-current repository commit_sha m healthy a =
    let rows = rows_for_commit repository commit_sha m.slips in
    let ordered = sort load_less rows in
    let (slip, found) = first_current_complete ordered (sort-any load_less is_current rows ∙ a) in
    let rows_of =
      sort-All (IsRowOf m.slips repository commit_sha) load_less rows
        (rows_for_commit-All repository commit_sha m.slips) in
    let sound =
      first_current_sound (IsRowOf m.slips repository commit_sha) ordered slip rows_of found in
    rw healthy (rw found (deep_copy_slip slip, refl, sound.0))

module _ (repository : String) (m : MockStore) where
  -- What a search over commits may return: a copy, without its ancestry, of a row of the table.
  abbrev pub IsFound : List String → SlipWithCommit → Type 0
  IsFound commits r =
      (any (λ c. c == r.matched_commit) commits ≡ true)
      × ((row : Slip) × (r.slip ≡ record row { ancestry = [] })
          × (is_current row ≡ true)
          × IsRowOf m.slips repository r.matched_commit row)

  found_or_sound :
      (commit : String) (commits : List String) (o : Option Slip)
      (rest : Result Error SlipWithCommit) (r : SlipWithCommit)
      → ((slip : Slip)
          → o ≡ some slip
          → (is_current slip ≡ true) × IsRowOf m.slips repository commit slip)
      → (rest ≡ ok r → IsFound commits r)
      → found_or commit o rest ≡ ok r
      → IsFound (commit ∷ commits) r
  found_or_sound commit commits none rest r here later h =
      let (listed, found) = later h in (ground (arith, listed), found)
  found_or_sound commit commits (some slip) rest r here later h =
      let q : record { slip = deep_copy_slip slip; matched_commit = commit } ≡ r = cc h in
      let (current, of_commit) = here slip refl in
      rw (← q) (rw (eq_refl commit) refl, (slip, refl, current, of_commit))

  find_in_sound :
      (commits : List String) (r : SlipWithCommit)
      → find_in repository commits m ≡ ok r
      → IsFound commits r
  unfolding find_in find_order
  find_in_sound [] r h = cc
  find_in_sound (commit ∷ commits) r h =
      let rows = rows_for_commit repository commit m.slips in
      found_or_sound commit commits (first_current (sort tie_break rows))
        (find_in repository commits m) r
        (λ slip found.
          first_current_sound (IsRowOf m.slips repository commit) (sort tie_break rows) slip
            (sort-All (IsRowOf m.slips repository commit) tie_break rows
              (rows_for_commit-All repository commit m.slips))
            found)
        (find_in_sound commits r) h

  reading-ok :
      {A : Type 0} (e : Option Error) (q : Result Error A) (a : A) → reading e q ≡ ok a → q ≡ ok a
  reading-ok none q a h = h
  reading-ok (some e) q a h = cc

  -- A search over commits that finds a slip matches one of the commits asked for, and returns, whole
  -- but for its ancestry, a row of the table that is of the repository and that commit and neither
  -- abandoned, promoted nor compensated.
  pub find_by_commits_sound :
      (commits : List String) (r : SlipWithCommit)
      → find_by_commits repository commits m ≡ ok r
      → IsFound commits r
  unfolding find_by_commits
  find_by_commits_sound commits r h =
      find_in_sound commits r (reading-ok m.faults.find_by_commits_error _ r h)

  abbrev has_current : String → Bool
  has_current commit = any is_current (rows_for_commit repository commit m.slips)
