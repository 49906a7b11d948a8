-- ===== src/Slippy/Client/Waiting.antt =====
-- slippy/hold.go: `WaitForPrerequisitesWithResult`, which tells the outcomes apart by words in the
-- text of the error.
use go_lib_my_carrier.Base.{
  ℕ, Bool, Option, none, some, String, List, [], contains, Result, ok, err, if◌then◌else◌,
}
use go_lib_my_carrier.Slippy.Errors.{Error, message}
use go_lib_my_carrier.Slippy.Types.{Slip}
use go_lib_my_carrier.Slippy.Client.Interface.{SlipStore}
use go_lib_my_carrier.Slippy.Client.Base.{Config}
use go_lib_my_carrier.Slippy.Client.Prereqs.{check_prerequisites}
use go_lib_my_carrier.Slippy.Client.Hold.{HoldOptions, ShowDuration, Poll, wait_for_prerequisites}

pub data HoldOutcome : Type 0 where
  proceeded failed timeout cancelled : HoldOutcome

-- `HoldResult`; the time that the wait took is left out.
pub record HoldResult : Type 0 where
  pub outcome : HoldOutcome
  pub failed_prereqs : List String
  pub message : String

-- `isTimeoutError`, `isPrereqFailedError` and `isContextError`.
unfoldable pub is_timeout_error : Error → Bool
unfolding contains message
is_timeout_error e = contains (message e) "timeout"

unfoldable pub is_prereq_failed_error : Error → Bool
unfolding contains message
is_prereq_failed_error e = contains (message e) "prerequisite"

unfoldable pub is_context_error : Error → Bool
unfolding contains message
is_context_error e = contains (message e) "cancelled"

module _ (S : SlipStore) (config : Config) (show : ShowDuration) where
  open S use {State, load as store_load}

  -- The prerequisites that have failed, read once more; none if the slip cannot be loaded.
  abbrev pub failed_now : HoldOptions → Result Error Slip → List String
  failed_now opts (err e) = []
  failed_now opts (ok slip) =
      (check_prerequisites config.pipeline_config slip opts.prerequisites
        opts.component_name).failed_prereqs

  -- The result for the error of the wait, by the switch.
  unfoldable pub hold_result : HoldOptions → State → Option Error → HoldResult
  hold_result opts s none = record {
    outcome = HoldOutcome.proceeded;
    failed_prereqs = [];
    message = "all prerequisites completed";
  }
  hold_result opts s (some e) =
      if is_timeout_error e
      then record { outcome = HoldOutcome.timeout; failed_prereqs = []; message = message e }
      else if is_prereq_failed_error e
      then record {
        outcome = HoldOutcome.failed;
        failed_prereqs = failed_now opts (store_load opts.correlation_id s);
        message = message e;
      }
      else if is_context_error e
      then record {
        outcome = HoldOutcome.cancelled;
        failed_prereqs = [];
        message = "operation cancelled";
      }
      else record { outcome = HoldOutcome.failed; failed_prereqs = []; message = message e }

  -- The result beside the error of the wait; none if the rounds end before the wait does.
  abbrev pub with_result :
      HoldOptions → State × Option (Option Error) → State × Option (HoldResult × Option Error)
  with_result opts (s, none) = (s, none)
  with_result opts (s, some e) = (s, some (hold_result opts s e, e))

  -- `WaitForPrerequisitesWithResult`.
  unfoldable pub wait_with_result :
      ℕ → HoldOptions → List (Poll State) → State → State × Option (HoldResult × Option Error)
  unfolding hold_result wait_for_prerequisites
  wait_with_result start opts polls s =
      with_result opts (wait_for_prerequisites S config show start opts polls s)
