-- ===== src/Slippy/Postgres/Selection.antt =====
-- slippy/postgres_store.go: which row of a commit the reads choose.
use mathlib.Core.Path.{subst}
use go_lib_my_carrier.Base.{
  ℕ, ◌≤◌, ◌≡◌, ◌≢◌, refl, sym, ◌⊎◌, Bool, true, false, ◌&&◌, inl, inr, Bool-cases, Option, none,
  some, String, ◌==◌, List, [], ◌∷◌, Assoc, All, if◌then◌else◌, lookup, Result, ok, arith, Any,
  codes_eq, lower_codes, nat_eq, &&-eq-true, eq_iff,
}
use go_lib_my_carrier.Slippy.Status.{slip_is_live}
use go_lib_my_carrier.Slippy.Types.{Slip}
use go_lib_my_carrier.Slippy.Pipeline.Config.{PipelineConfig}
use go_lib_my_carrier.Slippy.Postgres.State.{Row, Database, Driver, Statement}
use go_lib_my_carrier.Slippy.Postgres.Progress.{IsQuiet}
use go_lib_my_carrier.Slippy.Errors.{Error}
use go_lib_my_carrier.Slippy.Postgres.Reads.{
  hydrate, query_one, comes_first, better, first_by, commit_rows, every_row, is_of_commit,
  load_by_commit,
}
use go_lib_my_carrier.Slippy.Postgres.Repaving.{is_repaveable_lem}

comes_first_refl : (row : Row) → comes_first row row ≡ false
unfolding comes_first
comes_first_refl row = ground arith

comes_first_trans :
    (a b c : Row) → comes_first a b ≡ false → comes_first b c ≡ false → comes_first a c ≡ false
unfolding comes_first
comes_first_trans a b c p q = ground arith

comes_first_asym : (a b : Row) → comes_first a b ≡ true → comes_first b a ≡ false
unfolding comes_first
comes_first_asym a b p = ground arith

abbrev IsBest : Row → List Row → Type 0
IsBest best rows = All (λ row. comes_first row best ≡ false) rows

IsBest-trans :
    (best chosen : Row) (rows : List Row)
    → comes_first best chosen ≡ false
    → IsBest best rows
    → IsBest chosen rows
IsBest-trans best chosen [] h b = tt
IsBest-trans best chosen (row ∷ rows) h b =
    (comes_first_trans row best chosen b.0 h, IsBest-trans best chosen rows h b.1)

-- No row comes before the chosen one.
better-IsBest :
    (row : Row) (rows : List Row) (found : Option Row)
    → ((rows ≡ []) × (found ≡ none)) ⊎ ((best : Row) × (found ≡ some best) × IsBest best rows)
    → IsBest (better comes_first row found) (row ∷ rows)
better-IsBest row rows found (inl (empty, nothing)) = rw (empty, nothing) (comes_first_refl row, tt)
better-IsBest row rows found (inr (best, e, b)) = elim (Bool-cases (comes_first best row)) [
  | inl before ↦
      let chosen : better comes_first row found ≡ best = rw (e, better, before) refl in
      subst (λ x. IsBest x (row ∷ rows)) (sym chosen) (comes_first_asym best row before, b)
  | inr after ↦
      let chosen : better comes_first row found ≡ row = rw (e, better, after) refl in
      subst (λ x. IsBest x (row ∷ rows)) (sym chosen)
        (comes_first_refl row, IsBest-trans best row rows after b)
]

first_by-IsBest :
    (rows : List Row)
    → ((rows ≡ []) × (first_by comes_first rows ≡ none))
      ⊎ ((best : Row) × (first_by comes_first rows ≡ some best) × IsBest best rows)
unfolding first_by
first_by-IsBest [] = inl (refl, refl)
first_by-IsBest (row ∷ rows) = inr (
  better comes_first row (first_by comes_first rows),
  refl,
  better-IsBest row rows (first_by comes_first rows) (first_by-IsBest rows),
)

-- A row of the table that is of the commit is among the rows that the query reads.
commit_rows-IsBest :
    (repository commit_sha : String) (table : Assoc Row) (id : String) (row best : Row)
    → lookup id table ≡ some row
    → is_of_commit repository commit_sha row ≡ true
    → IsBest best (commit_rows every_row repository commit_sha table)
    → comes_first row best ≡ false
unfolding lookup commit_rows
commit_rows-IsBest repository commit_sha [] id row best found h b = cc
commit_rows-IsBest repository commit_sha ((key, other) ∷ table) id row best found h b =
    elim (Bool-cases (key == id)) [
      | inl same ↦
          let e : other ≡ row = ground (arith, rw same at found) in
          let c : is_of_commit repository commit_sha other ≡ true = rw e h in rw (← e) (rw c at b).0
      | inr differs ↦
          commit_rows-IsBest repository commit_sha table id row best (rw differs at found) h
            (tail_of (is_of_commit repository commit_sha other) b)
    ]
  where
    tail_of :
        (c : Bool)
        → IsBest best (
            if c && true
            then other ∷ commit_rows every_row repository commit_sha table
            else commit_rows every_row repository commit_sha table)
        → IsBest best (commit_rows every_row repository commit_sha table)
    tail_of true t = t.1
    tail_of false t = t

commit_rows_nonempty :
    (repository commit_sha : String) (table : Assoc Row) (id : String) (row : Row)
    → lookup id table ≡ some row
    → is_of_commit repository commit_sha row ≡ true
    → commit_rows every_row repository commit_sha table ≢ []
unfolding lookup commit_rows
commit_rows_nonempty repository commit_sha [] id row found h e = cc
commit_rows_nonempty repository commit_sha ((key, other) ∷ table) id row found h e =
    ground (arith, commit_rows_nonempty repository commit_sha table id row)

-- A row that no live row comes before is live, and no live row is newer.
live_and_newest :
    (row best : Row)
    → comes_first row best ≡ false
    → slip_is_live row.status ≡ true
    → (slip_is_live best.status ≡ true) × (row.updated_at ≤ best.updated_at)
unfolding comes_first
live_and_newest row best c live =
    ground (arith, is_repaveable_lem row.status, is_repaveable_lem best.status)

codes_eq-same : (xs ys : List ℕ) → codes_eq xs ys ≡ true → xs ≡ ys
codes_eq-same [] [] h = refl
codes_eq-same [] (y ∷ ys) h = cc
codes_eq-same (x ∷ xs) [] h = cc
codes_eq-same (x ∷ xs) (y ∷ ys) h =
    let both = (&&-eq-true (nat_eq x y) (codes_eq xs ys)).0 h in
    let same : x ≡ y = ground (arith, both.0) in cc (same, codes_eq-same xs ys both.1)

-- A row of the table, of the repository in any case of its letters and of the commit.
abbrev pub IsRowOf : Assoc Row → String → String → Row → Type 0
IsRowOf table repository commit_sha row =
    Any (λ (entry : String × Row). entry.1 ≡ row) table
    × (lower_codes row.repository ≡ lower_codes repository)
    × (row.commit_sha ≡ commit_sha)

of_commit :
    (repository commit_sha : String) (row : Row)
    → is_of_commit repository commit_sha row ≡ true
    → (lower_codes row.repository ≡ lower_codes repository) × (row.commit_sha ≡ commit_sha)
of_commit repository commit_sha row h =
    let both =
      (&&-eq-true (codes_eq (lower_codes row.repository) (lower_codes repository))
          (row.commit_sha == commit_sha)).0
        h in
    (codes_eq-same _ _ both.0, (eq_iff row.commit_sha commit_sha).0 both.1)

rows_grow :
    (repository commit_sha id : String) (row : Row) (table : Assoc Row) (rows : List Row)
    → All (IsRowOf table repository commit_sha) rows
    → All (IsRowOf ((id, row) ∷ table) repository commit_sha) rows
rows_grow repository commit_sha id row table [] t = tt
rows_grow repository commit_sha id row table (r ∷ rows) (here, t) =
    ((inr here.0, here.1, here.2), rows_grow repository commit_sha id row table rows t)

-- What the query reads are rows of the table, of the repository and the commit.
commit_rows-All :
    (repository commit_sha : String) (table : Assoc Row)
    → All (IsRowOf table repository commit_sha) (commit_rows every_row repository commit_sha table)
unfolding commit_rows
commit_rows-All repository commit_sha [] = tt
commit_rows-All repository commit_sha ((id, row) ∷ table) =
    let rest =
      rows_grow repository commit_sha id row table
        (commit_rows every_row repository commit_sha table)
        (commit_rows-All repository commit_sha table) in
    elim (Bool-cases (is_of_commit repository commit_sha row)) [
      | inl same ↦
          let (repo, commit) = of_commit repository commit_sha row same in
          rw same ((inl refl, repo, commit), rest)
      | inr other ↦ rw other rest
    ]

better-All :
    (P : Row → Type 0) (row : Row) (found : Option Row)
    → P row
    → ((best : Row) → found ≡ some best → P best)
    → P (better comes_first row found)
better-All P row none here later = here
better-All P row (some best) here later = elim (Bool-cases (comes_first best row)) [
  | inl before ↦ rw before (later best refl)
  | inr after ↦ rw after here
]

first_by-All :
    (P : Row → Type 0) (rows : List Row) (best : Row)
    → All P rows
    → first_by comes_first rows ≡ some best
    → P best
unfolding first_by
first_by-All P [] best t h = cc
first_by-All P (row ∷ rows) best t h =
    let chosen : better comes_first row (first_by comes_first rows) ≡ best = cc h in
    subst P chosen (
      better-All P row (first_by comes_first rows) t.0
        (λ other found. first_by-All P rows other t.1 found))

-- The read gives the slip of a row of the table that is of the repository and the commit, live, and
-- not older than a time.
abbrev pub ReadsLive : PipelineConfig → Database → String → String → ℕ → Result Error Slip → Type 0
ReadsLive config db repository commit_sha time r =
    (best : Row) × (r ≡ ok (hydrate config db best))
    × IsRowOf db.rows repository commit_sha best
    × (slip_is_live best.status ≡ true)
    × (time ≤ best.updated_at)

query_one-found :
    (config : PipelineConfig) (d : Driver) (db : Database) (best : Row)
    → IsQuiet d
    → query_one config d db (some best) ≡ ok (hydrate config db best)
unfolding query_one
query_one-found config d db best quiet =
    rw (quiet Statement.query_slip, quiet Statement.query_claimants) refl

-- Where the driver fails nothing and a commit has a live row, the read by commit gives the slip of a
-- row of the table that is of the repository, in any case of its letters, and of the commit, that is
-- live, and that is at least as recently updated as that live row, whichever it is: so the newest of
-- the live rows is read, and an ended or failed row never hides one.
pub load_by_commit_newest :
    (config : PipelineConfig) (d : Driver) (repository commit_sha : String) (db : Database)
    (id : String) (row : Row)
    → IsQuiet d
    → lookup id db.rows ≡ some row
    → is_of_commit repository commit_sha row ≡ true
    → slip_is_live row.status ≡ true
    → ReadsLive config db repository commit_sha row.updated_at
        (load_by_commit config d repository commit_sha db)
unfolding load_by_commit
load_by_commit_newest config d repository commit_sha db id row quiet found h live =
    let rows = commit_rows every_row repository commit_sha db.rows in
    elim (first_by-IsBest rows) [
      | inl (empty, nothing) ↦
          absurd (commit_rows_nonempty repository commit_sha db.rows id row found h empty)
      | inr (best, chosen, b) ↦
          let (alive, newest) =
            live_and_newest row best
              (commit_rows-IsBest repository commit_sha db.rows id row best found h b) live in
          let placed =
            first_by-All (IsRowOf db.rows repository commit_sha) rows best
              (commit_rows-All repository commit_sha db.rows) chosen in
          (best, rw chosen (query_one-found config d db best quiet), placed, alive, newest)
    ]
