-- ===== src/Slippy/Client/Completion/Verdict.antt =====
-- slippy/executor.go: what `checkPipelineCompletion` returns, against what the store then holds.
use go_lib_my_carrier.Base.{
  ℕ, ◌≡◌, refl, ◌∙◌, Bool, true, false, not, Option, none, some, String, ◌==◌, List, [], ◌∷◌, Assoc,
  arith, Result, ok, err, is_empty, Bool-cases, inl, inr, eq_refl,
}
use go_lib_my_carrier.Slippy.Errors.{Error}
use go_lib_my_carrier.Slippy.Status.{SlipStatus, StepStatus, slip_status_eq}
use go_lib_my_carrier.Slippy.Types.{Slip}
use go_lib_my_carrier.Slippy.Store.Claims.{status_written}
use go_lib_my_carrier.Slippy.Client.Interface.{SlipStore, IsSlipStore, reads_after}
use go_lib_my_carrier.Slippy.Client.Base.{update_slip_status, wrapping}
use go_lib_my_carrier.Slippy.Client.Steps.{
  write_step, reset_steps_to_pending, canary_skips_to_reset,
}
use go_lib_my_carrier.Slippy.Client.Completion.{
  Completion, final_status, conclude, recovered, complete_steps, complete_unless,
  check_pipeline_completion, canary_resets, cascade_resets, cascade_failures, primary_failures,
  steady_state_completed, status_error,
}

-- The status that a read gives, if it gives a slip.
abbrev pub status_of : Result Error Slip → Option SlipStatus
status_of (ok slip) = some slip.status
status_of (err e) = none

-- The status after a write of `id` itself.
abbrev written_status : Option Error → SlipStatus → Option SlipStatus → Option SlipStatus
written_status none status (some old) = some status
written_status e status old = old

status_written-reads :
    (now : ℕ) (status : SlipStatus) (e : Option Error) (b : Bool) (r : Result Error Slip)
    → b ≡ true
    → status_of (reads_after e b (status_written now status) r)
      ≡ written_status e status (status_of r)
status_written-reads now status none b (ok slip) h = ground arith
status_written-reads now status none b (err e) h = ground arith
status_written-reads now status (some e) b (ok slip) h = refl
status_written-reads now status (some e) b (err e') h = refl

written_unless_error :
    (f : Error → Error) (e : Option Error) (status old : SlipStatus) (o : Option SlipStatus)
    → o ≡ some old
    → status_error (wrapping f e) ≡ none
    → written_status e status o ≡ some status
written_unless_error f none status old o h done = rw h refl
written_unless_error f (some e) status old o h done = cc

kept-reads :
    (f : Slip → Slip) (e : Option Error) (b : Bool) (r : Result Error Slip)
    → ((slip : Slip) → (f slip).status ≡ slip.status)
    → status_of (reads_after e b f r) ≡ status_of r
kept-reads f none true (ok slip) keeps = rw (keeps slip) refl
kept-reads f none true (err e) keeps = refl
kept-reads f none false r keeps = refl
kept-reads f (some e) b r keeps = refl

-- A final status is returned as it is.
final_status-same :
    (status : SlipStatus) (c : Completion) → final_status status ≡ some c → c.status ≡ status
final_status-same status c h = ground arith

module _ (S : SlipStore) (L : IsSlipStore S) (now : ℕ) (id : String) where
  open S use {State, load as store_load, update_slip_status as store_update}
  open L use {load-update_slip_status, load-update_step_with_history}

  write_step-status :
      (step component : String) (status : StepStatus) (message by : String) (s : State)
      → status_of (store_load id (write_step S now id step component status message by s).0)
        ≡ status_of (store_load id s)
  unfolding write_step
  write_step-status step component status message by s =
      rw (load-update_step_with_history id id step component status _ s)
        (kept-reads _ _ (id == id) (store_load id s) (λ slip. refl))

  reset-status :
      (resets : Assoc String) (s : State)
      → status_of (store_load id (reset_steps_to_pending S now id resets s).0)
        ≡ status_of (store_load id s)
  unfolding reset_steps_to_pending
  reset-status [] s = refl
  reset-status ((name, message) ∷ resets) s =
      reset-status resets (write_step S now id name "" StepStatus.pending message "" s).0
      ∙ write_step-status name "" StepStatus.pending message "" s

  conclude-status :
      (completed : Bool) (status old : SlipStatus) (s : State)
      → status_of (store_load id s) ≡ some old
      → (conclude S now id completed status s).1.error ≡ none
      → status_of (store_load id (conclude S now id completed status s).0) ≡ some status
  unfolding update_slip_status
  conclude-status completed status old s h done =
      let e = (store_update now id status s).1 in
      rw (load-update_slip_status now id id status s) (
        status_written-reads now status e (id == id) (store_load id s) (eq_refl id)
        ∙ written_unless_error _ e status old (status_of (store_load id s)) h done)

  recovered-status :
      (old : SlipStatus) (r : State × List String)
      → status_of (store_load id r.0) ≡ some old
      → old ≡ SlipStatus.failed
      → (recovered S now id r).1.error ≡ none
      → status_of (store_load id (recovered S now id r).0) ≡ some (recovered S now id r).1.status
  recovered-status old (s, []) h was done =
      conclude-status false SlipStatus.in_progress old s h done
  recovered-status old (s, x ∷ xs) h was done = rw h (rw was refl)

  complete_steps-status :
      (slip : Slip) (s : State)
      → status_of (store_load id s) ≡ some slip.status
      → (complete_steps S now id slip s).1.error ≡ none
      → status_of (store_load id (complete_steps S now id slip s).0)
        ≡ some (complete_steps S now id slip s).1.status
  unfolding complete_steps
  complete_steps-status slip s h =
      let resets = canary_resets (canary_skips_to_reset slip) in
      let all_resets = cascade_resets (cascade_failures slip) resets in
      let after = (reset_steps_to_pending S now id resets s).0 in
      let reset = reset_steps_to_pending S now id all_resets s in
      elim (Bool-cases (not (is_empty (primary_failures slip)))) [
        | inl failed ↦
            rw failed (
              conclude-status false SlipStatus.failed slip.status after (reset-status resets s ∙ h))
        | inr clear ↦ rw clear (elim (Bool-cases (steady_state_completed slip)) [
          | inl done ↦ rw done (conclude-status true SlipStatus.completed slip.status s h)
          | inr open_ ↦ rw open_ (elim (Bool-cases (slip_status_eq slip.status SlipStatus.failed)) [
            | inl was ↦
                rw was (
                  recovered-status slip.status reset (reset-status all_resets s ∙ h) (ground arith))
            | inr not_ ↦ rw not_ (λ done. reset-status resets s ∙ h)
          ])
        ])
      ]

  complete_unless-status :
      (o : Option Completion) (slip : Slip) (s : State)
      → ((c : Completion) → o ≡ some c → c.status ≡ slip.status)
      → status_of (store_load id s) ≡ some slip.status
      → (complete_unless S o s (complete_steps S now id slip s)).1.error ≡ none
      → status_of (store_load id (complete_unless S o s (complete_steps S now id slip s)).0)
        ≡ some (complete_unless S o s (complete_steps S now id slip s)).1.status
  complete_unless-status none slip s final h = complete_steps-status slip s h
  complete_unless-status (some c) slip s final h = λ done. rw h (rw (final c refl) refl)

  -- In every store that keeps the laws, a completion check that returns no error for a slip that can
  -- be loaded returns the status that the store then holds for it, on every branch: a final status, a
  -- primary failure, the steady state, a recovery from a failure, and a run that goes on.
  pub check_pipeline_completion-status :
      (s : State) (slip : Slip)
      → store_load id s ≡ ok slip
      → (check_pipeline_completion S now id s).1.error ≡ none
      → status_of (store_load id (check_pipeline_completion S now id s).0)
        ≡ some (check_pipeline_completion S now id s).1.status
  unfolding check_pipeline_completion
  check_pipeline_completion-status s slip loaded = rw loaded (
      complete_unless-status (final_status slip.status) slip s (final_status-same slip.status)
        (rw loaded refl))
