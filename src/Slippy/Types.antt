-- ===== src/Slippy/Types.antt =====
-- slippy/types.go: the slip and its parts. A time is a number with 0 for Go's zero time, and a
-- `*time.Time` an option. The deprecated fields PromotedTo, Sign and Version, which no store reads
-- or writes, are left out, and a nil map is an empty one.
use go_lib_my_carrier.Base.{
  ℕ, Bool, true, false, ◌&&◌, Option, none, some, String, List, Assoc, if◌then◌else◌,
}
use go_lib_my_carrier.Slippy.Status.{SlipStatus, StepStatus, step_status_eq, step_is_terminal}

pub record Step : Type 0 where
  pub status : StepStatus
  pub started_at : Option ℕ
  pub completed_at : Option ℕ
  pub actor : String
  pub error : String
  pub held_reason : String
  pub claimed_by : String

-- Go's zero value of a step, which reading a missing key of `Steps` gives.
abbrev pub zero_step : Step
zero_step = record {
  status = StepStatus.unset;
  started_at = none;
  completed_at = none;
  actor = "";
  error = "";
  held_reason = "";
  claimed_by = "";
}

pub record ComponentStepData : Type 0 where
  pub component : String
  pub dockerfile_path : String
  pub status : StepStatus
  pub started_at : Option ℕ
  pub completed_at : Option ℕ
  pub actor : String
  pub error : String
  pub image_tag : String

pub record StateHistoryEntry : Type 0 where
  pub step : String
  pub component : String
  pub status : StepStatus
  pub timestamp : ℕ
  pub actor : String
  pub message : String
  pub claimed_by : String

pub record AncestryEntry : Type 0 where
  pub correlation_id : String
  pub commit_sha : String
  pub status : SlipStatus
  pub failed_step : String
  pub created_at : ℕ
  pub repository : String
  pub branch : String

pub record Slip : Type 0 where
  pub correlation_id : String
  pub repository : String
  pub branch : String
  pub commit_sha : String
  pub created_at : ℕ
  pub updated_at : ℕ
  pub status : SlipStatus
  pub claimed_from : SlipStatus
  pub steps : Assoc Step
  pub aggregates : Assoc (List ComponentStepData)
  pub state_history : List StateHistoryEntry
  pub ancestry : List AncestryEntry

pub record SlipWithCommit : Type 0 where
  pub slip : Slip
  pub matched_commit : String

pub record ComponentDefinition : Type 0 where
  pub name : String
  pub dockerfile_path : String

-- `t == nil` of a time pointer.
abbrev pub is_nil : Option ℕ → Bool
is_nil none = true
is_nil (some t) = false

-- The two timestamp rules that both `ApplyStatusTransition` methods share.
abbrev stamp_started : StepStatus → ℕ → Option ℕ → Option ℕ
stamp_started status now t =
    if step_status_eq status StepStatus.running && is_nil t then some now else t

abbrev stamp_completed : StepStatus → ℕ → Option ℕ → Option ℕ
stamp_completed status now t = if step_is_terminal status && is_nil t then some now else t

-- `Step.ApplyStatusTransition`.
unfoldable pub apply_status_transition : StepStatus → ℕ → Step → Step
apply_status_transition status now s = record s {
  status = status;
  started_at = stamp_started status now s.started_at;
  completed_at = stamp_completed status now s.completed_at;
}

-- `ComponentStepData.ApplyStatusTransition`.
unfoldable pub apply_component_transition : StepStatus → ℕ → ComponentStepData → ComponentStepData
apply_component_transition status now c = record c {
  status = status;
  started_at = stamp_started status now c.started_at;
  completed_at = stamp_completed status now c.completed_at;
}
