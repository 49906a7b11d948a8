-- ===== src/Slippy/Push/Options.antt =====
-- slippy/push.go: the options of a push, the dispatch intent and the empty-run guard.
use go_lib_my_carrier.Base.{
  Bool, true, false, not, ◌&&◌, Option, none, some, String, ◌==◌, List, is_empty, if◌then◌else◌,
}
use go_lib_my_carrier.Slippy.Errors.{Error, plain}
use go_lib_my_carrier.Slippy.Status.{SlipStatus, slip_status_eq}
use go_lib_my_carrier.Slippy.Types.{Slip, ComponentDefinition}

-- A Go string; `other` is any text that is none of the three constants.
pub data DispatchIntent : Type 0 where
  unspecified something nothing other : DispatchIntent

pub record PushOptions : Type 0 where
  pub correlation_id : String
  pub repository : String
  pub branch : String
  pub commit_sha : String
  pub commit_message : String
  pub components : List ComponentDefinition
  pub dispatch : DispatchIntent

-- `PushOptions.Validate`.
unfoldable pub validate : PushOptions → Option Error
validate o =
    if o.correlation_id == ""
    then some (plain "correlation_id is required")
    else if o.repository == ""
    then some (plain "repository is required")
    else if o.commit_sha == ""
    then some (plain "commit_sha is required")
    else none

-- `recognized`.
abbrev pub recognized : DispatchIntent → Bool
recognized DispatchIntent.nothing = true
recognized DispatchIntent.something = true
recognized DispatchIntent.unspecified = true
recognized DispatchIntent.other = false

abbrev is_unspecified : DispatchIntent → Bool
is_unspecified DispatchIntent.unspecified = true
is_unspecified _ = false

-- `honored`.
abbrev pub honored : DispatchIntent → Bool
honored d = not (is_unspecified d) && recognized d

abbrev dispatches_nothing_with : DispatchIntent → List ComponentDefinition → Bool
dispatches_nothing_with DispatchIntent.nothing components = true
dispatches_nothing_with DispatchIntent.something components = false
dispatches_nothing_with DispatchIntent.unspecified components = is_empty components
dispatches_nothing_with DispatchIntent.other components = is_empty components

-- `dispatchesNothing`.
unfoldable pub dispatches_nothing : PushOptions → Bool
dispatches_nothing o = dispatches_nothing_with o.dispatch o.components

-- `emptyRunGuardApplies`, for a pointer that may be nil.
unfoldable pub empty_run_guard_applies : Option Slip → PushOptions → Bool
unfolding dispatches_nothing
empty_run_guard_applies none o = false
empty_run_guard_applies (some existing) o =
    if existing.correlation_id == o.correlation_id
    then false
    else if honored o.dispatch
    then dispatches_nothing o
    else if slip_status_eq existing.status SlipStatus.failed
    then false
    else dispatches_nothing o
