-- ===== src/Slippy/Push/Search.antt =====
-- slippy/push.go: the search for the slips of the ancestors of a commit, to two depths, and through
-- the pull requests that a squash merge names.
use go_lib_my_carrier.Base.{
  ℕ, ◌+◌, ◌-◌, ◌*◌, Bool, ◌&&◌, ◌||◌, Option, none, some, String, ◌==◌, List, [], ◌∷◌, ◌++◌,
  is_empty, any, ltb, leb, nat_eq, codes, Result, ok, err, if◌then◌else◌,
}
use go_lib_my_carrier.Slippy.Errors.{Error, wrap}
use go_lib_my_carrier.Slippy.Types.{SlipWithCommit}
use go_lib_my_carrier.Slippy.Client.Interface.{SlipStore}
use go_lib_my_carrier.Slippy.Client.Base.{Config}
use go_lib_my_carrier.Slippy.Client.Resolve.{GitHub}
use go_lib_my_carrier.Slippy.Push.Options.{PushOptions}

abbrev is_digit : ℕ → Bool
is_digit c = leb b'0' c && leb c b'9'

-- The value of the decimal digits at the front of a text, if there are any.
unfoldable pub read_digits : Option ℕ → List ℕ → Option ℕ
read_digits value [] = value
read_digits none (c ∷ cs) =
    let rest = read_digits (some (c - b'0')) cs in if is_digit c then rest else none
read_digits (some v) (c ∷ cs) =
    let rest = read_digits (some (v * 10 + (c - b'0'))) cs in if is_digit c then rest else some v

abbrev add_number : Option ℕ → List ℕ → List ℕ
add_number none numbers = numbers
add_number (some n) numbers =
    if leb 9_223_372_036_854_775_808 n || any (λ m. nat_eq m n) numbers
    then numbers
    else numbers ++ n ∷ []

-- The loop over the matches of `prNumberRegex`, which are the numbers behind a #. A number that
-- `strconv.Atoi` refuses, and one that was seen, is skipped.
unfoldable pub collect_numbers : List ℕ → List ℕ → List ℕ
unfolding read_digits
collect_numbers numbers [] = numbers
collect_numbers numbers (c ∷ cs) =
    collect_numbers (if nat_eq c b'#' then add_number (read_digits none cs) numbers else numbers) cs

-- `extractAllPRNumbers`.
unfoldable pub extract_all_pr_numbers : String → List ℕ
unfolding collect_numbers
extract_all_pr_numbers message = collect_numbers [] (codes message)

-- The depths that are tried: the second only if it is larger.
abbrev pub depths : Config → List ℕ
depths config =
    config.ancestry_depth
    ∷ (if ltb config.ancestry_depth config.ancestry_max_depth
        then config.ancestry_max_depth ∷ []
        else [])

-- The pushed commit itself is no ancestor.
abbrev pub without_self : String → List String → List String
without_self commit_sha [] = []
without_self commit_sha (c ∷ cs) = if c == commit_sha then cs else c ∷ cs

module _ (S : SlipStore) (G : GitHub) where
  open S use {State, find_all_by_commits as store_find_all}

  -- What the lookup of the slips gave: an error, the slips, or none, and then the next depth.
  abbrev pub slips_found :
      String
      → Result Error (List SlipWithCommit)
      → Result Error (List SlipWithCommit)
      → Result Error (List SlipWithCommit)
  slips_found before (err e) deeper = err (wrap before e "")
  slips_found before (ok []) deeper = deeper
  slips_found before (ok (slip ∷ slips)) deeper = ok (slip ∷ slips)

  -- One depth; `drop_self` takes the pushed commit out of the answer of GitHub.
  abbrev pub search_commits :
      String
      → String
      → (List String → List String)
      → State
      → Result Error (List String)
      → Result Error (List SlipWithCommit)
      → Result Error (List SlipWithCommit)
  search_commits before repository drop_self s (err e) deeper =
      err (wrap "failed to get commit ancestry: " e "")
  search_commits before repository drop_self s (ok commits) deeper =
      if is_empty (drop_self commits)
      then ok []
      else slips_found before (store_find_all repository (drop_self commits) s) deeper

  -- `findAncestorSlipsWithProgressiveDepth`: the loop over the depths.
  unfoldable pub find_ancestor_slips :
      String → String → PushOptions → List ℕ → State → Result Error (List SlipWithCommit)
  find_ancestor_slips owner repo opts [] s = ok []
  find_ancestor_slips owner repo opts (depth ∷ deeper) s =
      search_commits "failed to find ancestor slips: " opts.repository
        (without_self opts.commit_sha) s (G.get_commit_ancestry owner repo opts.commit_sha depth)
        (find_ancestor_slips owner repo opts deeper s)

  -- `findSlipsInPRBranchHistory`.
  unfoldable pub find_slips_in_pr_branch :
      String → String → String → String → List ℕ → State → Result Error (List SlipWithCommit)
  find_slips_in_pr_branch owner repo repository head [] s = ok []
  find_slips_in_pr_branch owner repo repository head (depth ∷ deeper) s =
      search_commits "failed to find slips by commits: " repository (λ commits. commits) s
        (G.get_commit_ancestry owner repo head depth)
        (find_slips_in_pr_branch owner repo repository head deeper s)

  -- The candidate of one pull request: the newest slip of its branch, unless it is the slip of the
  -- pushed commit itself.
  abbrev pub candidate :
      PushOptions
      → Result Error (List SlipWithCommit)
      → Option SlipWithCommit
      → Option SlipWithCommit
  candidate opts (err e) next = next
  candidate opts (ok []) next = next
  candidate opts (ok (found ∷ others)) next =
      if found.slip.commit_sha == opts.commit_sha then next else some found

  abbrev pub head_found :
      Config
      → String
      → String
      → PushOptions
      → State
      → Result Error String
      → Option SlipWithCommit
      → Option SlipWithCommit
  head_found config owner repo opts s (err e) next = next
  head_found config owner repo opts s (ok head) next =
      candidate opts (find_slips_in_pr_branch owner repo opts.repository head (depths config) s)
        next

  -- The loop of `findAncestorViaSquashMerge` over the numbers.
  unfoldable pub via_pull_requests :
      Config → String → String → PushOptions → List ℕ → State → Option SlipWithCommit
  unfolding find_slips_in_pr_branch
  via_pull_requests config owner repo opts [] s = none
  via_pull_requests config owner repo opts (n ∷ ns) s =
      head_found config owner repo opts s (G.get_pr_head_commit owner repo n)
        (via_pull_requests config owner repo opts ns s)

  -- `findAncestorViaSquashMerge`.
  unfoldable pub find_via_squash_merge :
      Config → String → String → PushOptions → State → Option SlipWithCommit
  unfolding via_pull_requests extract_all_pr_numbers
  find_via_squash_merge config owner repo opts s =
      via_pull_requests config owner repo opts (extract_all_pr_numbers opts.commit_message) s
