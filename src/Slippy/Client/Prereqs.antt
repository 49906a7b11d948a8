-- ===== src/Slippy/Client/Prereqs.antt =====
-- slippy/prereqs.go: the status of the prerequisites of a step, read from a slip, and
-- `ParsePrerequisites` of executor.go.
pub mod Verdict
use Prim.Native.Char.{Char, code}
use go_lib_my_carrier.Base.{
  ℕ, Bool, true, false, not, ◌&&◌, ◌||◌, Option, none, some, String, ◌==◌, List, [], ◌∷◌, ◌++◌,
  lookup, leb, nat_eq, Result, ok, err, if◌then◌else◌,
}
use go_lib_my_carrier.Slippy.Errors.{Error}
use go_lib_my_carrier.Slippy.Status.{StepStatus, PrereqStatus, step_is_success, step_is_failure}
use go_lib_my_carrier.Slippy.Types.{Slip, Step, ComponentStepData}
use go_lib_my_carrier.Slippy.Pipeline.Config.{PipelineConfig, get_aggregate_step}
use go_lib_my_carrier.Slippy.Client.Interface.{SlipStore}

pub record PrereqResult : Type 0 where
  pub status : PrereqStatus
  pub completed_prereqs : List String
  pub running_prereqs : List String
  pub failed_prereqs : List String

abbrev pub no_prereqs : PrereqResult
no_prereqs = record {
  status = PrereqStatus.completed;
  completed_prereqs = [];
  running_prereqs = [];
  failed_prereqs = [];
}

-- `unicode.IsSpace`.
abbrev pub is_space : ℕ → Bool
is_space c =
    (leb 9 c && leb c 13)
    || nat_eq c 32
    || nat_eq c 0x85
    || nat_eq c 0xa0
    || nat_eq c 0x1680
    || (leb 0x2000 c && leb c 0x200a)
    || nat_eq c 0x2028
    || nat_eq c 0x2029
    || nat_eq c 0x202f
    || nat_eq c 0x205f
    || nat_eq c 0x3000

unfoldable pub trim_left : String → String
trim_left String.[] = ""
trim_left (String.◌∷◌ c s) = if is_space (code c) then trim_left s else String.◌∷◌ c s

-- A space is dropped if nothing follows it.
abbrev drop_if_last : Char → String → String
drop_if_last c String.[] = if is_space (code c) then "" else String.◌∷◌ c ""
drop_if_last c (String.◌∷◌ d s) = String.◌∷◌ c (String.◌∷◌ d s)

unfoldable pub trim_right : String → String
trim_right String.[] = ""
trim_right (String.◌∷◌ c s) = drop_if_last c (trim_right s)

-- `strings.TrimSpace`.
unfoldable pub trim_space : String → String
unfolding trim_left trim_right
trim_space s = trim_right (trim_left s)

-- The loop over the components of an aggregate.
unfoldable pub component_status : String → List ComponentStepData → StepStatus
component_status name [] = StepStatus.pending
component_status name (c ∷ cs) = if c.component == name then c.status else component_status name cs

abbrev pub aggregate_status_of : String → Option (List ComponentStepData) → StepStatus
aggregate_status_of name none = StepStatus.pending
aggregate_status_of name (some cs) = component_status name cs

-- The end of `getPrereqStatus`: a step that the slip does not have is pending.
abbrev pub step_status_of : Option Step → StepStatus
step_status_of none = StepStatus.pending
step_status_of (some step) = step.status

abbrev pub aggregate_step_of : Option PipelineConfig → String → String
aggregate_step_of none prereq = ""
aggregate_step_of (some c) prereq = get_aggregate_step c prereq

-- `getPrereqStatus`: for a component, the status of the component in the aggregate of the step, and
-- otherwise the status of the step.
unfoldable pub get_prereq_status : Option PipelineConfig → Slip → String → String → StepStatus
unfolding component_status
get_prereq_status config slip prereq component_name =
    let aggregate_step = aggregate_step_of config prereq in
    if not (component_name == "") && not (aggregate_step == "")
    then aggregate_status_of component_name (lookup aggregate_step slip.aggregates)
    else step_status_of (lookup prereq slip.steps)

abbrev pub unless_failed : PrereqStatus → PrereqStatus
unless_failed PrereqStatus.failed = PrereqStatus.failed
unless_failed _ = PrereqStatus.running

-- The switch of the loop.
abbrev pub classify : String → StepStatus → PrereqResult → PrereqResult
classify prereq status r =
    if step_is_success status
    then record r { completed_prereqs = r.completed_prereqs ++ prereq ∷ [] }
    else if step_is_failure status
    then record r { failed_prereqs = r.failed_prereqs ++ prereq ∷ []; status = PrereqStatus.failed }
    else record r {
      running_prereqs = r.running_prereqs ++ prereq ∷ [];
      status = unless_failed r.status;
    }

-- The loop of `CheckPrerequisites`; an empty name is skipped.
unfoldable pub check_from :
    Option PipelineConfig → Slip → String → List String → PrereqResult → PrereqResult
unfolding trim_space get_prereq_status
check_from config slip component_name [] r = r
check_from config slip component_name (p ∷ ps) r =
    let prereq = trim_space p in
    check_from config slip component_name ps (
      if prereq == ""
      then r
      else classify prereq (get_prereq_status config slip prereq component_name) r)

-- `CheckPrerequisites`, which never fails.
unfoldable pub check_prerequisites :
    Option PipelineConfig → Slip → List String → String → PrereqResult
unfolding check_from
check_prerequisites config slip prerequisites component_name =
    check_from config slip component_name prerequisites no_prereqs

abbrev pub is_completed : PrereqStatus → Bool
is_completed PrereqStatus.completed = true
is_completed _ = false

abbrev is_failed : PrereqStatus → Bool
is_failed PrereqStatus.failed = true
is_failed _ = false

module _ (S : SlipStore) (config : Option PipelineConfig) where
  open S use {State, load as store_load}

  abbrev pub on_prereqs {ℓ} :
      {A : Type ℓ} → (PrereqResult → A) → List String → String → Result Error Slip → Result Error A
  on_prereqs f prerequisites component_name (err e) = err e
  on_prereqs f prerequisites component_name (ok slip) =
      ok (f (check_prerequisites config slip prerequisites component_name))

  -- `AllPrerequisitesMet`.
  unfoldable pub all_prerequisites_met : String → List String → String → State → Result Error Bool
  all_prerequisites_met id prerequisites component_name s =
      on_prereqs (λ r. is_completed r.status) prerequisites component_name (store_load id s)

  -- `AnyPrerequisiteFailed`.
  unfoldable pub any_prerequisite_failed :
      String → List String → String → State → Result Error (Bool × List String)
  any_prerequisite_failed id prerequisites component_name s =
      on_prereqs (λ r. (is_failed r.status, r.failed_prereqs)) prerequisites component_name
        (store_load id s)

  -- `GetPendingPrerequisites`.
  unfoldable pub get_pending_prerequisites :
      String → List String → String → State → Result Error (List String)
  get_pending_prerequisites id prerequisites component_name s =
      on_prereqs (λ r. r.running_prereqs ++ r.failed_prereqs) prerequisites component_name
        (store_load id s)
