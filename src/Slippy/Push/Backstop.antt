-- ===== src/Slippy/Push/Backstop.antt =====
-- slippy/push.go: the parts of a push that replace a slip: the ancestry link, the reset in place, the
-- abandon that stands in for a repave, and the backstop for a duplicate. A result is the slip that is
-- served and the warnings.
use go_lib_my_carrier.Base.{
  ℕ, Option, none, some, String, ◌==◌, List, [], ◌∷◌, ◌++◌, concat, short_sha, Result, ok, err,
  if◌then◌else◌,
}
use go_lib_my_carrier.Slippy.Errors.{Error, wrap, is, Sentinel}
use go_lib_my_carrier.Slippy.Status.{slip_is_live, slip_is_terminal}
use go_lib_my_carrier.Slippy.Types.{Slip, AncestryEntry}
use go_lib_my_carrier.Slippy.Store.Claims.{is_claimed}
use go_lib_my_carrier.Slippy.Client.Interface.{SlipStore}
use go_lib_my_carrier.Slippy.Client.Base.{abandon_slip}
use go_lib_my_carrier.Slippy.Push.Options.{PushOptions, empty_run_guard_applies}
use go_lib_my_carrier.Slippy.Push.Fresh.{append_reset_marker}

-- How a part of the push ends: it serves a slip that is in the store already (`handled`), the slip of
-- the push is stored, the caller is to try again, or it fails.
pub data Persisted : Type 0 where
  handled : Slip → Persisted
  stored : Slip → Persisted
  retry : Persisted
  failed : Error → Persisted

abbrev pub wrapped : List String → Error → Persisted
wrapped before e = failed (wrap (concat before) e "")

module _ (S : SlipStore) (now : ℕ) where
  open S use {
    State, load as store_load, load_by_commit as store_load_by_commit, create as store_create,
    update_step_with_history as store_step, reset_slip_in_place as store_reset,
    repave as store_repave, insert_ancestry_link as store_link,
  }

  -- The state, the warnings so far, and the end.
  abbrev pub Outcome : Type 0
  Outcome = State × List Error × Persisted

  abbrev pub link_warning : List Error → Option Error → List Error
  link_warning ws none = ws
  link_warning ws (some e) = ws ++ wrap "failed to write ancestry link: " e "" ∷ []

  -- `writeAncestryLink`, at the end of a write that stored the slip: a failure is a warning.
  abbrev pub link_and_store : Slip → Option AncestryEntry → State × List Error → Outcome
  link_and_store slip none (s, ws) = (s, ws, stored slip)
  link_and_store slip (some parent) (s, ws) =
      let (s', e) = store_link slip parent s in (s', link_warning ws e, stored slip)

  -- A read whose slip is served.
  abbrev pub serve_loaded : List String → State → List Error → Result Error Slip → Outcome
  serve_loaded before s ws (ok slip) = (s, ws, handled slip)
  serve_loaded before s ws (err e) = (s, ws, wrapped before e)

  abbrev pub created_instead :
      Slip → Option AncestryEntry → List Error → State × Option Error → Outcome
  created_instead slip parent ws (s, none) = link_and_store slip parent (s, ws)
  created_instead slip parent ws (s, some e) = (
    s,
    ws,
    wrapped
        ("failed to reset slip " ∷ slip.correlation_id
          ∷ " in place on a store without the locked reset: " ∷ [])
        e,
  )

  abbrev pub reset_ended : Slip → Option AncestryEntry → List Error → State × Option Error → Outcome
  reset_ended slip parent ws (s, none) = link_and_store slip parent (s, ws)
  reset_ended slip parent ws (s, some e) =
      if is Sentinel.slip_claimed e
      then serve_loaded
          ("failed to reload slip " ∷ slip.correlation_id ∷ " after a refused in-place reset: "
            ∷ [])
          s ws (store_load slip.correlation_id s)
      else if is Sentinel.reset_unsupported e
      then created_instead slip parent ws (store_create slip s)
      else (s, ws, wrapped ("failed to reset slip " ∷ slip.correlation_id ∷ " in place: " ∷ []) e)

  -- `resetSlipInPlace`.
  unfoldable pub reset_in_place : Slip → Option AncestryEntry → State → List Error → Outcome
  unfolding is
  reset_in_place slip parent s ws = reset_ended slip parent ws (store_reset (some slip) s)

  abbrev abandon_warning : String → List Error → State × Option Error → State × List Error
  abandon_warning id ws (s, none) = (s, ws)
  abandon_warning id ws (s, some e) = (
    s,
    ws
        ++ wrap (concat ("failed to abandon slip " ∷ id ∷ " after unsupported repave: " ∷ [])) e ""
          ∷ [],
  )

  -- `abandonSupersededSlipForUnsupportedRepave`: a terminal slip is left as it is.
  unfoldable pub abandon_superseded : Slip → State → List Error → State × List Error
  unfolding abandon_slip
  abandon_superseded slip s ws =
      if slip_is_terminal slip.status
      then (s, ws)
      else abandon_warning slip.correlation_id ws (abandon_slip S now slip.correlation_id s)

  -- A reset that stored the slip serves it.
  abbrev pub served : Outcome → Outcome
  served (s, ws, stored slip) = (s, ws, handled slip)
  served (s, ws, handled slip) = (s, ws, handled slip)
  served (s, ws, retry) = (s, ws, retry)
  served (s, ws, failed e) = (s, ws, failed e)

  abbrev pub conflict_repaved : Slip → Slip → List Error → State × Option Error → Outcome
  conflict_repaved conflicting slip ws (s, none) = (s, ws, handled slip)
  conflict_repaved conflicting slip ws (s, some e) =
      if is Sentinel.slip_went_live e
      then serve_loaded
          ("failed to reload conflicting slip " ∷ conflicting.correlation_id
            ∷ " after went-live backstop abort: " ∷ [])
          s ws (store_load conflicting.correlation_id s)
      else if is Sentinel.repave_unsupported e
      then (let (s', ws') = abandon_superseded conflicting s ws in (s', ws', retry))
      else (
        s,
        ws,
        wrapped ("failed to repave conflicting slip " ∷ conflicting.correlation_id ∷ ": " ∷ []) e,
      )

  -- The branches of `handleDuplicateSlipBackstop`, on what the read gave.
  abbrev pub backstop_loaded :
      PushOptions → Slip → Option AncestryEntry → State → List Error → Result Error Slip → Outcome
  backstop_loaded opts slip parent s ws (err e) =
      if is Sentinel.slip_not_found e then (s, ws, retry) else (
        s,
        ws,
        wrapped
            ("duplicate backstop: failed to load conflicting slip for "
              ∷ opts.repository
              ∷ "@"
              ∷ short_sha opts.commit_sha
              ∷ ": "
              ∷ [])
            e,
      )
  backstop_loaded opts slip parent s ws (ok conflicting) =
      if slip_is_live conflicting.status
      then (s, ws, handled conflicting)
      else if empty_run_guard_applies (some conflicting) opts
      then (s, ws, handled conflicting)
      else if is_claimed conflicting
      then (s, ws, handled conflicting)
      else if conflicting.correlation_id == opts.correlation_id
      then served (
          reset_in_place (append_reset_marker now slip conflicting conflicting.commit_sha) parent s
            ws)
      else conflict_repaved conflicting slip ws
          (store_repave now conflicting.correlation_id (some slip) parent s)

  -- `handleDuplicateSlipBackstop`.
  unfoldable pub duplicate_backstop :
      PushOptions → Slip → Option AncestryEntry → State → List Error → Outcome
  unfolding is reset_in_place abandon_superseded empty_run_guard_applies append_reset_marker
  duplicate_backstop opts slip parent s ws =
      backstop_loaded opts slip parent s ws (store_load_by_commit opts.repository opts.commit_sha s)
