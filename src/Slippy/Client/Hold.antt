-- ===== src/Slippy/Client/Hold.antt =====
-- slippy/hold.go: waiting for prerequisites. The world between two polls is an argument: whether the
-- context is cancelled, what other callers do to the store, and the clock.
pub mod Rounds
pub mod Ends
use Prim.Native.String.{◌++◌ as text_append}
use go_lib_my_carrier.Base.{
  ℕ, ◌+◌, Bool, true, false, not, ◌&&◌, Option, none, some, String, ◌==◌, List, [], ◌∷◌, concat,
  join, show_list, is_empty, ltb, contains, Result, ok, err, if◌then◌else◌,
}
use go_lib_my_carrier.Slippy.Errors.{Error, sentinel, wrap, message, Sentinel}
use go_lib_my_carrier.Slippy.Status.{PrereqStatus}
use go_lib_my_carrier.Slippy.Types.{Slip}
use go_lib_my_carrier.Slippy.Client.Interface.{SlipStore}
use go_lib_my_carrier.Slippy.Client.Base.{Config, apply_hold_defaults}
use go_lib_my_carrier.Slippy.Client.Prereqs.{PrereqResult, check_prerequisites}
use go_lib_my_carrier.Slippy.Client.Completion.{hold_step, abort_step, timeout_step}

pub record HoldOptions : Type 0 where
  pub correlation_id : String
  pub prerequisites : List String
  pub component_name : String
  pub timeout : ℕ
  pub poll_interval : ℕ
  pub step_name : String

-- `time.Duration.String`, as an argument of all below.
abbrev pub ShowDuration : Type 0
ShowDuration = ℕ → String

abbrev pub cancelled_error : Error
cancelled_error =
    wrap "" (sentinel Sentinel.context_cancelled)
      ": context cancelled while waiting for prerequisites"

abbrev pub cancelled_during_wait : Error
cancelled_during_wait =
    wrap "" (sentinel Sentinel.context_cancelled) ": context cancelled during wait"

abbrev pub prerequisite_error : List String → Error
prerequisite_error failed =
    wrap "" (sentinel Sentinel.prerequisite_failed) (concat (": " ∷ show_list failed ∷ []))

abbrev pub timeout_message : ShowDuration → ℕ → List String → String
timeout_message show timeout running = concat (
    "hold timeout exceeded after "
    ∷ show timeout
    ∷ ", still waiting for: "
    ∷ show_list running
    ∷ [])

abbrev pub timeout_error : String → Error
timeout_error msg = wrap "" (sentinel Sentinel.hold_timeout) (concat (": " ∷ msg ∷ []))

abbrev pub timeout_error_and : String → Error → Error
timeout_error_and msg e =
    wrap "" (sentinel Sentinel.hold_timeout)
      (concat (": " ∷ msg ∷ " (additionally failed to set timeout status: " ∷ message e ∷ ")" ∷ []))

-- One round of the loop, as the world lets it go.
pub record Poll (A : Type 0) : Type 0 where
  pub cancelled : Bool
  pub others : A → A
  pub now : ℕ
  pub cancelled_waiting : Bool

-- How a round ends: with the result of the wait, or with another round.
pub data Round (A : Type 0) : Type 0 where
  finish : A → Option Error → Round A
  again : A → Round A

module _ (S : SlipStore) (config : Config) (show : ShowDuration) where
  open S use {State, load as store_load}

  -- The step that waits is aborted; a failure of that is only logged.
  abbrev pub abort_waiting : HoldOptions → ℕ → List String → State → State
  abort_waiting opts now failed s =
      if opts.step_name == ""
      then s
      else (abort_step S now opts.correlation_id opts.step_name opts.component_name
          (concat ("prerequisites failed: " ∷ show_list failed ∷ [])) s).0

  abbrev pub timed_out_with : String → State × Option Error → Round State
  timed_out_with msg (s, none) = finish s (some (timeout_error msg))
  timed_out_with msg (s, some e) = finish s (some (timeout_error_and msg e))

  -- The step that waits is marked timed out.
  abbrev pub time_out_waiting : HoldOptions → ℕ → List String → State → Round State
  time_out_waiting opts now running s =
      let msg = timeout_message show opts.timeout running in
      if opts.step_name == ""
      then finish s (some (timeout_error msg))
      else timed_out_with msg
          (timeout_step S now opts.correlation_id opts.step_name opts.component_name msg s)

  -- The switch on the status of the prerequisites.
  abbrev pub decide_round :
      HoldOptions → ℕ → Poll State → PrereqStatus → PrereqResult → State → Round State
  decide_round opts deadline poll PrereqStatus.completed r s = finish s none
  decide_round opts deadline poll PrereqStatus.failed r s =
      finish (abort_waiting opts poll.now r.failed_prereqs s)
        (some (prerequisite_error r.failed_prereqs))
  decide_round opts deadline poll PrereqStatus.running r s =
      if ltb deadline poll.now
      then time_out_waiting opts poll.now r.running_prereqs s
      else if poll.cancelled_waiting
      then finish s (some cancelled_during_wait)
      else again s

  abbrev pub round_loaded : HoldOptions → ℕ → Poll State → State → Result Error Slip → Round State
  round_loaded opts deadline poll s (err e) = finish s (some (wrap "failed to load slip: " e ""))
  round_loaded opts deadline poll s (ok slip) =
      let r =
        check_prerequisites config.pipeline_config slip opts.prerequisites opts.component_name in
      decide_round opts deadline poll r.status r s

  -- One turn of the loop.
  unfoldable pub round : HoldOptions → ℕ → Poll State → State → Round State
  round opts deadline poll s =
      if poll.cancelled
      then finish s (some cancelled_error)
      else let s' = poll.others s in
        round_loaded opts deadline poll s' (store_load opts.correlation_id s')

  -- What follows a round: the end of the wait, or the rest of the loop.
  abbrev pub wait_next :
      (State → State × Option (Option Error)) → Round State → State × Option (Option Error)
  wait_next rest (finish s e) = (s, some e)
  wait_next rest (again s) = rest s

  -- The loop, over the rounds that the world offers; none if they end before the wait does.
  unfoldable pub wait_loop :
      HoldOptions → ℕ → List (Poll State) → State → State × Option (Option Error)
  unfolding round
  wait_loop opts deadline [] s = (s, none)
  wait_loop opts deadline (poll ∷ polls) s =
      wait_next (wait_loop opts deadline polls) (round opts deadline poll s)

  abbrev pub wait_held :
      HoldOptions → ℕ → List (Poll State) → State × Option Error → State × Option (Option Error)
  wait_held opts deadline polls (s, some e) = (
    s,
    some (
        some (
          wrap (concat ("failed to set held status for step " ∷ opts.step_name ∷ ": " ∷ [])) e "")),
  )
  wait_held opts deadline polls (s, none) = wait_loop opts deadline polls s

  -- `WaitForPrerequisites`, begun at `start`.
  unfoldable pub wait_for_prerequisites :
      ℕ → HoldOptions → List (Poll State) → State → State × Option (Option Error)
  unfolding wait_loop
  wait_for_prerequisites start options polls s =
      let (timeout, poll_interval) =
        apply_hold_defaults config options.timeout options.poll_interval in
      let opts = record options { timeout = timeout; poll_interval = poll_interval } in
      if is_empty opts.prerequisites
      then (s, some none)
      else if opts.step_name == ""
      then wait_loop opts (start + timeout) polls s
      else wait_held opts (start + timeout) polls (
          hold_step S start opts.correlation_id opts.step_name opts.component_name
            (join ", " opts.prerequisites) s)
