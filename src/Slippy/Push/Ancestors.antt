-- ===== src/Slippy/Push/Ancestors.antt =====
-- slippy/push.go: `resolveAndAbandonAncestors`: the newest ancestor that is not terminal is promoted or
-- abandoned, and every ancestor is listed. The log lines on cherry-picks and rewrites are left out.
pub mod Ended
use go_lib_my_carrier.Base.{
  ℕ, Bool, true, false, not, ◌&&◌, ◌||◌, Option, none, some, String, ◌==◌, List, [], ◌∷◌, ◌++◌,
  concat, is_empty, Result, ok, err, if◌then◌else◌,
}
use go_lib_my_carrier.Slippy.Errors.{Error, plain, wrap, ancestry_error}
use go_lib_my_carrier.Slippy.Status.{SlipStatus, slip_is_terminal, slip_status_eq}
use go_lib_my_carrier.Slippy.Types.{Slip, SlipWithCommit, AncestryEntry}
use go_lib_my_carrier.Slippy.Client.Interface.{SlipStore}
use go_lib_my_carrier.Slippy.Client.Base.{Config, abandon_slip, promote_slip}
use go_lib_my_carrier.Slippy.Client.Completion.{primary_failures}
use go_lib_my_carrier.Slippy.Client.Resolve.{GitHub, cut_at}
use go_lib_my_carrier.Slippy.Push.Options.{PushOptions}
use go_lib_my_carrier.Slippy.Push.Search.{depths, find_ancestor_slips, find_via_squash_merge}

abbrev first_name : List String → String
first_name [] = ""
first_name (n ∷ ns) = n

-- The step of a failed slip that failed, "" for none. Go's map order decides among several.
abbrev pub failed_step_of : Slip → String
failed_step_of slip =
    if slip_status_eq slip.status SlipStatus.failed then first_name (primary_failures slip) else ""

abbrev pub entry_of : Slip → SlipStatus → AncestryEntry
entry_of slip status = record {
  correlation_id = slip.correlation_id;
  commit_sha = slip.commit_sha;
  status = status;
  failed_step = failed_step_of slip;
  created_at = slip.created_at;
  repository = slip.repository;
  branch = slip.branch;
}

-- What is done with an ancestor.
pub data Treatment : Type 0 where
  promote abandon leave : Treatment

-- The switch of the loop: only the first ancestor that is not terminal is ended, and none of another
-- branch but the source of a squash merge.
abbrev pub treatment : PushOptions → Bool → Bool → Slip → Treatment
treatment opts squash_merge handled slip =
    if handled || slip_is_terminal slip.status
    then leave
    else if squash_merge
    then promote
    else if not (opts.branch == "") && (not (slip.branch == "") && not (slip.branch == opts.branch))
    then leave
    else abandon

abbrev update_warning : PushOptions → String → String → String → Error → Error
update_warning opts phase id before e =
    ancestry_error opts.repository opts.commit_sha phase id (wrap before e "")

-- The ancestry, the warnings, and whether an ancestor was ended.
pub record Progress : Type 0 where
  pub ancestry : List AncestryEntry
  pub warnings : List Error
  pub handled : Bool

abbrev pub no_progress : Progress
no_progress = record { ancestry = []; warnings = []; handled = false }

abbrev list_entry : Slip → SlipStatus → Progress → Progress
list_entry slip status p = record p { ancestry = p.ancestry ++ entry_of slip status ∷ [] }

module _ (S : SlipStore) (G : GitHub) (now : ℕ) where
  open S use {State}

  -- The write that ends an ancestor: its new status is listed if it succeeded, and a warning is kept
  -- if not. Either way no other ancestor is ended.
  abbrev pub ended :
      Slip → SlipStatus → (Error → Error) → Progress → State × Option Error → State × Progress
  ended slip status warning p (s, none) = (s, list_entry slip status (record p { handled = true }))
  ended slip status warning p (s, some e) = (
    s,
    list_entry slip slip.status
        (record p { handled = true; warnings = p.warnings ++ warning e ∷ [] }),
  )

  abbrev pub treat : PushOptions → Slip → Treatment → State × Progress → State × Progress
  treat opts slip leave (s, p) = (s, list_entry slip slip.status p)
  treat opts slip promote (s, p) =
      ended slip SlipStatus.promoted
        (update_warning opts "promote" slip.correlation_id
          "failed to promote feature branch slip: ")
        p (promote_slip S now slip.correlation_id s)
  treat opts slip abandon (s, p) =
      ended slip SlipStatus.abandoned
        (update_warning opts "abandon" slip.correlation_id "failed to abandon superseded slip: ") p
        (abandon_slip S now slip.correlation_id s)

  -- The loop over the ancestors.
  unfoldable pub treat_all :
      PushOptions → Bool → List SlipWithCommit → State × Progress → State × Progress
  treat_all opts squash_merge [] (s, p) = (s, p)
  treat_all opts squash_merge (a ∷ as_) (s, p) =
      treat_all opts squash_merge as_
        (treat opts a.slip (treatment opts squash_merge p.handled a.slip) (s, p))

  abbrev pub listed : State × Progress → State × List AncestryEntry × List Error
  listed (s, p) = (s, p.ancestry, p.warnings)

  abbrev pub squashed :
      PushOptions → State → Option SlipWithCommit → State × List AncestryEntry × List Error
  squashed opts s none = (s, [], [])
  squashed opts s (some found) = listed (treat_all opts true (found ∷ []) (s, no_progress))

  abbrev pub ancestors_found :
      Config
      → String
      → String
      → PushOptions
      → State
      → Result Error (List SlipWithCommit)
      → State × List AncestryEntry × List Error
  ancestors_found config owner repo opts s (err e) =
      (s, [], ancestry_error opts.repository opts.commit_sha "github_api" "" e ∷ [])
  ancestors_found config owner repo opts s (ok []) =
      if opts.commit_message == ""
      then (s, [], [])
      else squashed opts s (find_via_squash_merge S G config owner repo opts s)
  ancestors_found config owner repo opts s (ok (a ∷ as_)) =
      listed (treat_all opts false (a ∷ as_) (s, no_progress))

  abbrev pub resolve_parts :
      Config
      → PushOptions
      → State
      → Option (String × String)
      → State × List AncestryEntry × List Error
  resolve_parts config opts s none = (
    s,
    [],
    ancestry_error opts.repository opts.commit_sha "setup" "" (
          plain (
            concat
              ("invalid repository format: " ∷ opts.repository ∷ " (expected owner/repo)" ∷ [])))
        ∷ [],
  )
  resolve_parts config opts s (some (owner, repo)) =
      ancestors_found config owner repo opts s
        (find_ancestor_slips S G owner repo opts (depths config) s)

  -- `resolveAndAbandonAncestors`.
  unfoldable pub resolve_and_abandon_ancestors :
      Config → PushOptions → State → State × List AncestryEntry × List Error
  unfolding treat_all
  resolve_and_abandon_ancestors config opts s =
      resolve_parts config opts s (cut_at b'/' opts.repository)
