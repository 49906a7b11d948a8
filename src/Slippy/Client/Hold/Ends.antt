-- ===== src/Slippy/Client/Hold/Ends.antt =====
-- slippy/hold.go: what `WaitForPrerequisites` and `WaitForPrerequisitesWithResult` report at the end.
use go_lib_my_carrier.Base.{
  concat, [], contains, contains-append_right, show_list, String, ℕ, ◌+◌, ◌≡◌, ◌⊎◌, refl, ap, true,
  false, Option, none, some, ◌==◌, List, ◌∷◌, join, if◌then◌else◌, Bool-cases, inl, inr, is_empty,
}
use go_lib_my_carrier.Slippy.Errors.{Error, message, text, Sentinel}
use go_lib_my_carrier.Slippy.Client.Interface.{SlipStore}
use go_lib_my_carrier.Slippy.Client.Base.{Config, apply_hold_defaults}
use go_lib_my_carrier.Slippy.Client.Completion.{hold_step}
use go_lib_my_carrier.Slippy.Client.Hold.{
  HoldOptions, ShowDuration, Poll, wait_loop, wait_held, wait_for_prerequisites, cancelled_error,
  prerequisite_error,
}
use go_lib_my_carrier.Slippy.Client.Hold.Rounds.{AreMet, wait_loop-met}
use go_lib_my_carrier.Slippy.Client.Waiting.{
  HoldOutcome, hold_result, is_timeout_error, is_prereq_failed_error,
}

module _ (S : SlipStore) (config : Config) (show : ShowDuration) where
  open S use {State}

  wait_held-met :
      (opts : HoldOptions) (deadline : ℕ) (polls : List (Poll State)) (r : State × Option Error)
      → (wait_held S config show opts deadline polls r).1 ≡ some none
      → AreMet S config opts (wait_held S config show opts deadline polls r).0
  wait_held-met opts deadline polls (s, none) h =
      wait_loop-met S config show opts deadline polls s h
  wait_held-met opts deadline polls (s, some e) h = cc

  -- The options after `applyHoldDefaults`.
  abbrev with_defaults : HoldOptions → HoldOptions
  with_defaults options =
      let (timeout, poll_interval) =
        apply_hold_defaults config options.timeout options.poll_interval in
      record options { timeout = timeout; poll_interval = poll_interval }

  -- The wait for some prerequisite, after the defaults.
  abbrev wait_begun :
      HoldOptions → ℕ → List (Poll State) → ℕ → State → State × Option (Option Error)
  wait_begun opts deadline polls start s =
      if opts.step_name == ""
      then wait_loop S config show opts deadline polls s
      else wait_held S config show opts deadline polls (
          hold_step S start opts.correlation_id opts.step_name opts.component_name
            (join ", " opts.prerequisites) s)

  wait_begun-met :
      (opts : HoldOptions) (deadline : ℕ) (polls : List (Poll State)) (start : ℕ) (s : State)
      → (wait_begun opts deadline polls start s).1 ≡ some none
      → AreMet S config opts (wait_begun opts deadline polls start s).0
  wait_begun-met opts deadline polls start s = elim (Bool-cases (opts.step_name == "")) [
    | inl unnamed ↦ rw unnamed (wait_loop-met S config show opts deadline polls s)
    | inr named ↦ rw named (wait_held-met opts deadline polls _)
  ]

  wait_for_prerequisites-named :
      (start : ℕ) (options : HoldOptions) (polls : List (Poll State)) (s : State)
      → is_empty options.prerequisites ≡ false
      → wait_for_prerequisites S config show start options polls s
        ≡ wait_begun (with_defaults options) (start + (with_defaults options).timeout) polls start s
  unfolding wait_for_prerequisites
  wait_for_prerequisites-named start options polls s h = rw h refl

  -- A wait for prerequisites returns no error only if none is named, or if in the store that it
  -- leaves the slip can be loaded and all the prerequisites named have succeeded, whatever other
  -- callers did between its polls.
  pub wait_for_prerequisites-met :
      (start : ℕ) (options : HoldOptions) (polls : List (Poll State)) (s : State)
      → (wait_for_prerequisites S config show start options polls s).1 ≡ some none
      → (is_empty options.prerequisites ≡ true)
        ⊎ AreMet S config options (wait_for_prerequisites S config show start options polls s).0
  unfolding wait_for_prerequisites
  wait_for_prerequisites-met start options polls s h =
      elim (Bool-cases (is_empty options.prerequisites)) [
        | inl none_named ↦ inl none_named
        | inr some_named ↦
            let begun = wait_for_prerequisites-named start options polls s some_named in
            inr (rw begun (wait_begun-met (with_defaults options) _ polls start s (rw begun at h)))
      ]

  round-cancelled :
      (opts : HoldOptions) (deadline : ℕ) (poll : Poll State) (polls : List (Poll State))
      (s : State)
      → poll.cancelled ≡ true
      → wait_loop S config show opts deadline (poll ∷ polls) s ≡ (s, some (some cancelled_error))
  unfolding wait_loop
  round-cancelled opts deadline poll polls s c = rw c refl

  -- A wait whose context is cancelled before a poll is reported as failed, and not as cancelled:
  -- the text of its error contains the word prerequisite, which the switch looks for first.
  pub hold_result-cancelled :
      (opts : HoldOptions) (deadline : ℕ) (poll : Poll State) (polls : List (Poll State))
      (s s' : State) (e : Option Error)
      → poll.cancelled ≡ true
      → (wait_loop S config show opts deadline (poll ∷ polls) s).1 ≡ some e
      → (hold_result S config show opts s' e).outcome ≡ HoldOutcome.failed
  unfolding hold_result is_timeout_error is_prereq_failed_error
  hold_result-cancelled opts deadline poll polls s s' e c h =
      let same : some cancelled_error ≡ e =
        cc (ap (λ r. r.1) (round-cancelled opts deadline poll polls s c), h) in
      rw (← same) refl

  -- The error for prerequisites that have failed is reported as a timeout, and without their names,
  -- if the names contain the word timeout: the switch looks for it first.
  pub hold_result-timeout :
      (opts : HoldOptions) (failed : List String) (s : State)
      → contains (show_list failed) "timeout" ≡ true
      → ((hold_result S config show opts s (some (prerequisite_error failed))).outcome
          ≡ HoldOutcome.timeout)
        × ((hold_result S config show opts s (some (prerequisite_error failed))).failed_prereqs
            ≡ [])
  unfolding hold_result is_timeout_error message
  hold_result-timeout opts failed s h =
      let tail = concat (": " ∷ show_list failed ∷ []) in
      let head = text Sentinel.prerequisite_failed in
      let inner = contains-append_right ": " (show_list failed) "timeout" h in
      let whole = contains-append_right head tail "timeout" inner in
      let q : is_timeout_error (prerequisite_error failed) ≡ true =
        contains-append_right "" (concat (head ∷ tail ∷ [])) "timeout" whole in
      rw q (refl, refl)
