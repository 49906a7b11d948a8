-- ===== src/Slippy/Push/Create.antt =====
-- slippy/push.go: `CreateSlipForPush`.
use go_lib_my_carrier.Base.{
  ℕ, Bool, true, ◌||◌, Option, none, some, List, [], ◌∷◌, concat, is_empty, not, short_sha, Result,
  ok, err, if◌then◌else◌,
}
use go_lib_my_carrier.Slippy.Errors.{Error, wrap, is, Sentinel}
use go_lib_my_carrier.Slippy.Status.{slip_is_live}
use go_lib_my_carrier.Slippy.Types.{Slip, AncestryEntry}
use go_lib_my_carrier.Slippy.Store.Claims.{is_claimed}
use go_lib_my_carrier.Slippy.Client.Interface.{SlipStore}
use go_lib_my_carrier.Slippy.Client.Base.{Config}
use go_lib_my_carrier.Slippy.Client.Resolve.{GitHub}
use go_lib_my_carrier.Slippy.Push.Options.{PushOptions, validate, empty_run_guard_applies}
use go_lib_my_carrier.Slippy.Push.Fresh.{initialize_slip_for_push, drop_self_ancestor_link}
use go_lib_my_carrier.Slippy.Push.Backstop.{handled, stored, retry, failed, Outcome}
use go_lib_my_carrier.Slippy.Push.Persist.{handle_push_retry, persist_slip_for_push}
use go_lib_my_carrier.Slippy.Push.Ancestors.{resolve_and_abandon_ancestors}

pub record CreateSlipResult : Type 0 where
  pub slip : Slip
  pub warnings : List Error
  pub ancestry_resolved : Bool

-- A slip that was there is served: its ancestry is resolved already, and there are no warnings.
abbrev pub reused : Slip → CreateSlipResult
reused slip = record { slip = slip; warnings = []; ancestry_resolved = true }

abbrev first_entry : List AncestryEntry → Option AncestryEntry
first_entry [] = none
first_entry (a ∷ as_) = some a

abbrev without_existing : Option Slip → List AncestryEntry → List AncestryEntry
without_existing none ancestry = ancestry
without_existing (some existing) ancestry = drop_self_ancestor_link ancestry existing.correlation_id

module _ (S : SlipStore) (G : GitHub) (config : Config) (now : ℕ) where
  open S use {State, load_by_commit as store_load_by_commit}

  -- What is returned for the end of `persistSlipForPush`. The last clause stands for no end of it.
  abbrev pub persisted_result : Bool → Outcome S now → State × Result Error CreateSlipResult
  persisted_result resolved (s, ws, handled slip) =
      (s, ok (record { slip = slip; warnings = ws; ancestry_resolved = resolved }))
  persisted_result resolved (s, ws, stored slip) =
      (s, ok (record { slip = slip; warnings = ws; ancestry_resolved = resolved }))
  persisted_result resolved (s, ws, failed e) = (s, err e)
  persisted_result resolved (s, ws, retry) = (s, err (Error.plain "not persisted"))

  -- The part after the ancestors: the fresh slip, and its place in the store.
  abbrev pub persist_fresh :
      Option Slip
      → PushOptions
      → State × List AncestryEntry × List Error
      → State × Result Error CreateSlipResult
  persist_fresh existing opts (s, found, ws) =
      let ancestry = without_existing existing found in
      persisted_result (not (is_empty found) || is_empty ws) (
        persist_slip_for_push S now existing opts
          (initialize_slip_for_push now config.pipeline_config opts ancestry) (first_entry ancestry)
          s ws)

  unfoldable pub create_new :
      Option Slip → PushOptions → State → State × Result Error CreateSlipResult
  create_new existing opts s =
      persist_fresh existing opts (resolve_and_abandon_ancestors S G now config opts s)

  abbrev pub retried_result : State × Result Error Slip → State × Result Error CreateSlipResult
  retried_result (s, ok slip) = (s, ok (reused slip))
  retried_result (s, err e) = (s, err e)

  -- The decisions on a slip that is there for the commit: a live one is retried, an empty run reuses an
  -- ended one, and a claimed one is retried.
  abbrev pub existing_loaded :
      PushOptions → State → Result Error Slip → State × Result Error CreateSlipResult
  existing_loaded opts s (ok existing) =
      if slip_is_live existing.status
      then retried_result (handle_push_retry S now existing s)
      else if empty_run_guard_applies (some existing) opts
      then (s, ok (reused existing))
      else if is_claimed existing
      then retried_result (handle_push_retry S now existing s)
      else create_new (some existing) opts s
  existing_loaded opts s (err e) =
      if is Sentinel.slip_not_found e then create_new none opts s else (
        s,
        err (
            wrap
              (concat (
                "failed to load existing slip for "
                ∷ opts.repository
                ∷ "@"
                ∷ short_sha opts.commit_sha
                ∷ ": "
                ∷ []))
              e ""),
      )

  abbrev pub create_validated :
      PushOptions → State → Option Error → State × Result Error CreateSlipResult
  create_validated opts s (some e) = (s, err (wrap "invalid push options: " e ""))
  create_validated opts s none =
      existing_loaded opts s (store_load_by_commit opts.repository opts.commit_sha s)

  -- `CreateSlipForPush`.
  unfoldable pub create_slip_for_push : PushOptions → State → State × Result Error CreateSlipResult
  unfolding validate is empty_run_guard_applies create_new
  create_slip_for_push opts s = create_validated opts s (validate opts)
