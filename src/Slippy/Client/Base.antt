-- ===== src/Slippy/Client/Base.antt =====
-- slippy/client.go and config.go: the client, and its methods on the status of a slip. Logging and
-- tracing are left out. One reading of the clock, `now`, serves all that one call writes. A duration
-- is a number, with 0 for one that is not positive.
use go_lib_my_carrier.Base.{
  ℕ, Bool, false, Option, none, some, String, List, [], ◌∷◌, nat_eq, ltb, Result, ok, err, concat,
  short_sha, if◌then◌else◌,
}
use go_lib_my_carrier.Slippy.Errors.{Error, slip_error}
use go_lib_my_carrier.Slippy.Status.{SlipStatus, slip_is_terminal}
use go_lib_my_carrier.Slippy.Types.{Slip}
use go_lib_my_carrier.Slippy.Claim.Decide.{ClaimOutcome, ReleaseOutcome}
use go_lib_my_carrier.Slippy.Pipeline.Config.{PipelineConfig}
use go_lib_my_carrier.Slippy.Client.Interface.{SlipStore}

pub record Config : Type 0 where
  pub pipeline_config : Option PipelineConfig
  pub hold_timeout : ℕ
  pub poll_interval : ℕ
  pub shadow_mode : Bool
  pub ancestry_depth : ℕ
  pub ancestry_max_depth : ℕ

abbrev second : ℕ
second = 1_000_000_000

-- `DefaultConfig`, in nanoseconds.
abbrev pub default_config : Config
default_config = record {
  pipeline_config = none;
  hold_timeout = 3_600_000_000_000;
  poll_interval = 60_000_000_000;
  shadow_mode = false;
  ancestry_depth = 25;
  ancestry_max_depth = 100;
}

abbrev pub or_default : ℕ → ℕ → ℕ
or_default n d = if nat_eq n 0 then d else n

abbrev pub larger : ℕ → ℕ → ℕ
larger a b = if ltb a b then b else a

-- The defaults of `NewClientWithDependencies`.
unfoldable pub new_client_config : Config → Config
new_client_config c =
    let depth = or_default c.ancestry_depth default_config.ancestry_depth in
    record c {
      hold_timeout = or_default c.hold_timeout default_config.hold_timeout;
      poll_interval = or_default c.poll_interval default_config.poll_interval;
      ancestry_depth = depth;
      ancestry_max_depth = larger c.ancestry_max_depth depth;
    }

-- `applyHoldDefaults`.
abbrev pub apply_hold_defaults : Config → ℕ → ℕ → ℕ × ℕ
apply_hold_defaults c timeout poll_interval =
    (or_default timeout c.hold_timeout, or_default poll_interval c.poll_interval)

-- An error of the store, wrapped.
abbrev pub wrapping : (Error → Error) → Option Error → Option Error
wrapping f none = none
wrapping f (some e) = some (f e)

abbrev pub wrapping_result {ℓ} : {A : Type ℓ} → (Error → Error) → Result Error A → Result Error A
wrapping_result f (ok a) = ok a
wrapping_result f (err e) = err (f e)

module _ (S : SlipStore) where
  open S use {
    State, load as store_load, load_by_commit as store_load_by_commit,
    update_slip_status as store_update, claim_slip as store_claim, release_claim as store_release,
  }

  -- `Load`.
  unfoldable pub load : String → State → Result Error Slip
  load id s = wrapping_result (slip_error "load" id) (store_load id s)

  -- `LoadByCommit`.
  unfoldable pub load_by_commit : String → String → State → Result Error Slip
  load_by_commit repository commit_sha s =
      wrapping_result
        (slip_error "load by commit" (concat (repository ∷ "@" ∷ short_sha commit_sha ∷ [])))
        (store_load_by_commit repository commit_sha s)

  -- `UpdateSlipStatus`.
  unfoldable pub update_slip_status : ℕ → String → SlipStatus → State → State × Option Error
  update_slip_status now id status s =
      let (s', e) = store_update now id status s in (s', wrapping (slip_error "update status" id) e)

  -- The common body of `AbandonSlip` and `PromoteSlip`, on what the read gave: a terminal slip is
  -- left as it is (`checkTerminalStatus`).
  abbrev pub end_loaded :
      String → SlipStatus → ℕ → String → State → Result Error Slip → State × Option Error
  end_loaded op status now id s (err e) = (s, some (slip_error op id e))
  end_loaded op status now id s (ok slip) =
      if slip_is_terminal slip.status
      then (s, none)
      else let (s', e) = store_update now id status s in (s', wrapping (slip_error op id) e)

  -- `AbandonSlip`. The superseding ID is only traced and logged.
  unfoldable pub abandon_slip : ℕ → String → State → State × Option Error
  abandon_slip now id s = end_loaded "abandon" SlipStatus.abandoned now id s (store_load id s)

  -- `PromoteSlip`.
  unfoldable pub promote_slip : ℕ → String → State → State × Option Error
  promote_slip now id s = end_loaded "promote" SlipStatus.promoted now id s (store_load id s)

  -- `ClaimSlip`.
  unfoldable pub claim_slip :
      ℕ → String → List SlipStatus → String → String → State → State × Result Error ClaimOutcome
  claim_slip now id expected claimed_by reason s =
      let (s', r) = store_claim now id expected claimed_by reason s in
      (s', wrapping_result (slip_error "claim" id) r)

  -- `ReleaseClaim`.
  unfoldable pub release_claim :
      ℕ → String → String → String → State → State × Result Error ReleaseOutcome
  release_claim now id released_by reason s =
      let (s', r) = store_release now id released_by reason s in
      (s', wrapping_result (slip_error "release claim" id) r)
