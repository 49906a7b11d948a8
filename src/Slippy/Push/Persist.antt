-- ===== src/Slippy/Push/Persist.antt =====
-- slippy/push.go: `persistSlipForPush` and its ways: the fresh create, the retry, the repave of an
-- ended slip of the commit, and the reset of the push's own slip.
pub mod Ends
use go_lib_my_carrier.Base.{
  ℕ, Bool, true, false, not, ◌&&◌, Option, none, some, String, ◌==◌, List, [], ◌∷◌, ◌++◌, concat,
  short_sha, Result, ok, err, if◌then◌else◌,
}
use go_lib_my_carrier.Slippy.Errors.{Error, wrap, is, Sentinel}
use go_lib_my_carrier.Slippy.Status.{
  SlipStatus, StepStatus, slip_is_live, slip_is_terminal, slip_status_eq,
}
use go_lib_my_carrier.Slippy.Types.{Slip, AncestryEntry, StateHistoryEntry}
use go_lib_my_carrier.Slippy.Claim.Marker.{push_parsed_step, library_actor}
use go_lib_my_carrier.Slippy.Store.Claims.{is_claimed}
use go_lib_my_carrier.Slippy.Client.Interface.{SlipStore}
use go_lib_my_carrier.Slippy.Client.Base.{abandon_slip}
use go_lib_my_carrier.Slippy.Push.Options.{PushOptions, empty_run_guard_applies}
use go_lib_my_carrier.Slippy.Push.Fresh.{append_reset_marker}
use go_lib_my_carrier.Slippy.Push.Backstop.{
  Persisted, handled, stored, retry, failed, wrapped, Outcome, link_and_store, serve_loaded,
  created_instead, reset_ended, reset_in_place, abandon_superseded, duplicate_backstop,
}

module _ (S : SlipStore) (now : ℕ) where
  open S use {
    State, load as store_load, create as store_create, update_step_with_history as store_step,
    repave as store_repave,
  }

  abbrev pub create_again :
      Slip → Option AncestryEntry → List Error → State × Option Error → Outcome S now
  create_again slip parent ws (s, none) = link_and_store S now slip parent (s, ws)
  create_again slip parent ws (s, some e) =
      (s, ws, wrapped ("failed to create slip after duplicate backstop: " ∷ []) e)

  abbrev pub create_backstopped : Slip → Option AncestryEntry → Outcome S now → Outcome S now
  create_backstopped slip parent (s, ws, retry) = create_again slip parent ws (store_create slip s)
  create_backstopped slip parent (s, ws, handled live) = (s, ws, handled live)
  create_backstopped slip parent (s, ws, stored slip') = (s, ws, stored slip')
  create_backstopped slip parent (s, ws, failed e) = (s, ws, failed e)

  abbrev pub create_ended :
      PushOptions → Slip → Option AncestryEntry → List Error → State × Option Error → Outcome S now
  create_ended opts slip parent ws (s, none) = link_and_store S now slip parent (s, ws)
  create_ended opts slip parent ws (s, some e) =
      if is Sentinel.duplicate_slip e
      then create_backstopped slip parent (duplicate_backstop S now opts slip parent s ws)
      else (s, ws, wrapped ("failed to create slip: " ∷ []) e)

  -- `createFreshSlip`.
  unfoldable pub create_fresh :
      PushOptions → Slip → Option AncestryEntry → State → List Error → Outcome S now
  unfolding is duplicate_backstop
  create_fresh opts slip parent s ws = create_ended opts slip parent ws (store_create slip s)

  abbrev pub retry_entry : StateHistoryEntry
  retry_entry = record {
    step = push_parsed_step;
    component = "";
    status = StepStatus.running;
    timestamp = now;
    actor = library_actor;
    message = "retry detected, resetting push_parsed";
    claimed_by = "";
  }

  abbrev pub retried : String → State × Option Error → State × Result Error Slip
  retried id (s, some e) = (s, err (wrap "retry push_parsed reset failed: " e ""))
  retried id (s, none) = (s, store_load id s)

  -- `handlePushRetry`: push_parsed starts again on the slip that is there.
  unfoldable pub handle_push_retry : Slip → State → State × Result Error Slip
  handle_push_retry slip s =
      retried slip.correlation_id
        (store_step slip.correlation_id push_parsed_step "" StepStatus.running retry_entry s)

  abbrev pub serve_retried : List Error → State × Result Error Slip → Outcome S now
  serve_retried ws (s, ok slip) = (s, ws, handled slip)
  serve_retried ws (s, err e) = (s, ws, failed e)

  abbrev pub went_live : Slip → State → List Error → Result Error Slip → Outcome S now
  went_live existing s ws (ok live) = serve_retried ws (handle_push_retry live s)
  went_live existing s ws (err e) = (
    s,
    ws,
    wrapped
        ("failed to reload slip " ∷ existing.correlation_id ∷ " after went-live repave abort: "
          ∷ [])
        e,
  )

  abbrev pub repaved_again : Slip → Slip → List Error → State × Option Error → Outcome S now
  repaved_again existing slip ws (s, none) = (s, ws, stored slip)
  repaved_again existing slip ws (s, some e) = (
    s,
    ws,
    wrapped
        ("failed to repave slip " ∷ existing.correlation_id ∷ " after duplicate backstop: " ∷ []) e,
  )

  abbrev pub repave_backstopped : Slip → Slip → Option AncestryEntry → Outcome S now → Outcome S now
  repave_backstopped existing slip parent (s, ws, retry) =
      repaved_again existing slip ws (store_repave now existing.correlation_id (some slip) parent s)
  repave_backstopped existing slip parent (s, ws, handled live) = (s, ws, handled live)
  repave_backstopped existing slip parent (s, ws, stored slip') = (s, ws, stored slip')
  repave_backstopped existing slip parent (s, ws, failed e) = (s, ws, failed e)

  abbrev pub repave_ended :
      Slip
      → PushOptions
      → Slip
      → Option AncestryEntry
      → List Error
      → State × Option Error
      → Outcome S now
  repave_ended existing opts slip parent ws (s, none) = (s, ws, stored slip)
  repave_ended existing opts slip parent ws (s, some e) =
      if is Sentinel.slip_went_live e
      then went_live existing s ws (store_load existing.correlation_id s)
      else if is Sentinel.repave_unsupported e
      then (let (s', ws') = abandon_superseded S now existing s ws in
          create_fresh opts slip parent s' ws')
      else if is Sentinel.duplicate_slip e
      then repave_backstopped existing slip parent (duplicate_backstop S now opts slip parent s ws)
      else (s, ws, wrapped ("failed to repave slip " ∷ existing.correlation_id ∷ ": " ∷ []) e)

  -- `repaveExistingSlip`. An invalid configuration fails with the same text as any other error.
  unfoldable pub repave_existing :
      Slip → PushOptions → Slip → Option AncestryEntry → State → List Error → Outcome S now
  unfolding is duplicate_backstop create_fresh abandon_superseded handle_push_retry
  repave_existing existing opts slip parent s ws =
      repave_ended existing opts slip parent ws
        (store_repave now existing.correlation_id (some slip) parent s)

  -- The second reset, after the backstop.
  abbrev pub reset_backstopped : Slip → Option AncestryEntry → Outcome S now → Outcome S now
  reset_backstopped slip parent (s, ws, retry) = reset_in_place S now slip parent s ws
  reset_backstopped slip parent (s, ws, handled live) = (s, ws, handled live)
  reset_backstopped slip parent (s, ws, stored slip') = (s, ws, stored slip')
  reset_backstopped slip parent (s, ws, failed e) = (s, ws, failed e)

  -- A reset that failed on a duplicate goes through the backstop.
  abbrev pub own_reset : PushOptions → Slip → Option AncestryEntry → Outcome S now → Outcome S now
  own_reset opts slip parent (s, ws, failed e) =
      if is Sentinel.duplicate_slip e
      then reset_backstopped slip parent (duplicate_backstop S now opts slip parent s ws)
      else (s, ws, failed e)
  own_reset opts slip parent (s, ws, handled live) = (s, ws, handled live)
  own_reset opts slip parent (s, ws, stored slip') = (s, ws, stored slip')
  own_reset opts slip parent (s, ws, retry) = (s, ws, retry)

  abbrev pub persist_existing :
      Option Slip → PushOptions → Slip → Option AncestryEntry → State → List Error → Outcome S now
  persist_existing none opts slip parent s ws = create_fresh opts slip parent s ws
  persist_existing (some existing) opts slip parent s ws =
      if existing.correlation_id == opts.correlation_id
      then (let marked = append_reset_marker now slip existing opts.commit_sha in
          own_reset opts marked parent (reset_in_place S now marked parent s ws))
      else repave_existing existing opts slip parent s ws

  -- `persistSlipForPush`.
  unfoldable pub persist_slip_for_push :
      Option Slip → PushOptions → Slip → Option AncestryEntry → State → List Error → Outcome S now
  unfolding is create_fresh duplicate_backstop reset_in_place repave_existing append_reset_marker
  persist_slip_for_push existing opts slip parent s ws =
      persist_existing existing opts slip parent s ws
