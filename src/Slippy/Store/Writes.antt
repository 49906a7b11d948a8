-- ===== src/Slippy/Store/Writes.antt =====
-- slippytest/mock_store.go: the writes of rows, steps, components and history.
use go_lib_my_carrier.Base.{
  ℕ, Bool, false, ◌||◌, not, Option, none, some, String, ◌==◌, List, [], ◌∷◌, ◌++◌, Assoc, lookup,
  get_or, insert, any, concat, codes, nat_eq, if◌then◌else◌,
}
use go_lib_my_carrier.Slippy.Errors.{Error, plain, sentinel, Sentinel}
use go_lib_my_carrier.Slippy.Status.{SlipStatus, StepStatus, step_status_eq}
use go_lib_my_carrier.Slippy.Types.{Slip, Step, zero_step, ComponentStepData, StateHistoryEntry}
use go_lib_my_carrier.Slippy.Claim.Marker.{guard_reserved_step_write}
use go_lib_my_carrier.Slippy.Store.State.{
  MockStore, injected, unless, put, change_row, deep_copy_slip,
}

-- The claim that a write of the whole row keeps: that of the row it replaces, and none for a new row.
abbrev pub kept_claim : Option Slip → SlipStatus
kept_claim none = SlipStatus.unset
kept_claim (some existing) = existing.claimed_from

-- `Create`: an upsert that never writes the claim.
unfoldable pub create : Slip → MockStore → MockStore × Option Error
create slip m =
    let id = slip.correlation_id in
    unless (injected m.faults.create_error m.faults.create_error_for id) m (
      put id (record (deep_copy_slip slip) { claimed_from = kept_claim (lookup id m.slips) }) m,
      none,
    )

-- `Update`: the full-row write, which keeps the claim of the row.
unfoldable pub update : Slip → MockStore → MockStore × Option Error
update slip m = unless m.faults.update_error m (
    change_row slip.correlation_id
      (λ existing. record (deep_copy_slip slip) { claimed_from = existing.claimed_from }) m)

-- `claimantFor`.
abbrev pub claimant_for : StepStatus → String → String
claimant_for status claimed_by = if step_status_eq status StepStatus.running then claimed_by else ""

abbrev pub put_step : String → Step → Slip → Slip
put_step name step slip = record slip { steps = insert name step slip.steps }

-- The row after `UpdateStep`.
abbrev pub step_written : String → String → StepStatus → Slip → Slip
step_written step_name component_name status slip =
    let step = get_or step_name zero_step slip.steps in
    put_step step_name
      (record step {
        status = status;
        claimed_by =
            if component_name == "" || not (step_status_eq status StepStatus.running)
            then ""
            else step.claimed_by;
      })
      slip

-- `UpdateStep`.
unfoldable pub update_step :
    String → String → String → StepStatus → MockStore → MockStore × Option Error
update_step id step_name component_name status m =
    unless (guard_reserved_step_write step_name none) m (
      unless (injected m.faults.update_step_error m.faults.update_step_error_for id) m
        (change_row id (step_written step_name component_name status) m))

-- `pluralize`: a name that ends in s takes es.
unfoldable pub ends_in_s : List ℕ → Bool
ends_in_s [] = false
ends_in_s (c ∷ []) = nat_eq c b's'
ends_in_s (c ∷ d ∷ cs) = ends_in_s (d ∷ cs)

unfoldable pub pluralize : String → String
unfolding ends_in_s
pluralize name =
    if ends_in_s (codes name) then concat (name ∷ "es" ∷ []) else concat (name ∷ "s" ∷ [])

-- The loop that writes the first component of that name and returns.
unfoldable pub write_component :
    String → StepStatus → List ComponentStepData → List ComponentStepData
write_component name status [] = []
write_component name status (c ∷ cs) =
    if c.component == name
    then record c { status = status } ∷ cs
    else c ∷ write_component name status cs

abbrev pub component_written : String → String → StepStatus → Slip → Slip
component_written component_name column status slip = elim (lookup column slip.aggregates) [
  | none ↦ slip
  | some components ↦ record slip {
    aggregates = insert column (write_component component_name status components) slip.aggregates;
  }
]

-- `UpdateComponentStatus`: a component that is not found is no error.
unfoldable pub update_component_status :
    String → String → String → StepStatus → MockStore → MockStore × Option Error
unfolding pluralize write_component
update_component_status id component_name step_type status m =
    unless (guard_reserved_step_write step_type none) m (
      unless (injected m.faults.update_component_error m.faults.update_component_error_for id) m
        (change_row id (component_written component_name (pluralize step_type) status) m))

abbrev pub append_entry : StateHistoryEntry → Slip → Slip
append_entry entry slip = record slip { state_history = slip.state_history ++ entry ∷ [] }

-- `AppendHistory`.
unfoldable pub append_history : String → StateHistoryEntry → MockStore → MockStore × Option Error
append_history id entry m = unless (guard_reserved_step_write "" (some entry)) m (
    unless (injected m.faults.append_history_error m.faults.append_history_error_for id) m
      (change_row id (append_entry entry) m))

-- The row after `UpdateStepWithHistory`: the step, and then the entry.
abbrev pub step_recorded : String → String → StepStatus → StateHistoryEntry → Slip → Slip
step_recorded step_name component_name status entry slip =
    let step = get_or step_name zero_step slip.steps in
    append_entry entry (
      put_step step_name
        (record step {
          status = status;
          claimed_by =
              if component_name == ""
              then claimant_for status entry.claimed_by
              else if not (step_status_eq status StepStatus.running)
              then ""
              else step.claimed_by;
        })
        slip)

-- `UpdateStepWithHistory`.
unfoldable pub update_step_with_history :
    String → String → String → StepStatus → StateHistoryEntry → MockStore → MockStore × Option Error
update_step_with_history id step_name component_name status entry m =
    unless (guard_reserved_step_write step_name (some entry)) m (
      unless (injected m.faults.update_step_error m.faults.update_step_error_for id) m
        (change_row id (step_recorded step_name component_name status entry) m))

-- The loop of `SetComponentImageTag` over the components of a column.
unfoldable pub tag_components : String → String → List ComponentStepData → List ComponentStepData
tag_components name tag [] = []
tag_components name tag (c ∷ cs) =
    (if c.component == name then record c { image_tag = tag } else c) ∷ tag_components name tag cs

-- The same over the columns whose name passes a test: first the column of the step, then the others.
unfoldable pub tag_columns :
    (String → Bool)
    → String
    → String
    → Assoc (List ComponentStepData)
    → Assoc (List ComponentStepData)
unfolding tag_components
tag_columns test name tag [] = []
tag_columns test name tag ((column, cs) ∷ rest) =
    (column, (if test column then tag_components name tag cs else cs))
    ∷ tag_columns test name tag rest

abbrev pub has_component : String → List ComponentStepData → Bool
has_component name cs = any (λ (c : ComponentStepData). c.component == name) cs

abbrev pub has_component_anywhere : String → Assoc (List ComponentStepData) → Bool
has_component_anywhere name columns =
    any (λ (column : String × List ComponentStepData). has_component name column.1) columns

abbrev pub tagged : String → String → String → Slip → Slip
tagged column name tag slip = record slip {
  aggregates =
      tag_columns (λ other. not (other == column)) name tag
        (tag_columns (λ other. other == column) name tag slip.aggregates);
}

abbrev pub tag_found :
    String → String → String → String → MockStore → Option Slip → MockStore × Option Error
tag_found id step_name component_name image_tag m none =
    (m, some (sentinel Sentinel.slip_not_found))
tag_found id step_name component_name image_tag m (some slip) =
    if has_component_anywhere component_name slip.aggregates
    then (put id (tagged (pluralize step_name) component_name image_tag slip) m, none)
    else (
      m,
      some (
          plain (
            concat (
              "component " ∷ component_name ∷ " not found in any aggregate for step " ∷ step_name
              ∷ []))),
    )

-- `SetComponentImageTag`: an error if no column holds the component.
unfoldable pub set_component_image_tag :
    String → String → String → String → MockStore → MockStore × Option Error
unfolding pluralize tag_columns
set_component_image_tag id step_name component_name image_tag m =
    unless m.faults.set_image_tag_error m
      (tag_found id step_name component_name image_tag m (lookup id m.slips))

-- `AddSlip`.
unfoldable pub add_slip : Slip → MockStore → MockStore
add_slip slip m = put slip.correlation_id (deep_copy_slip slip) m

-- `Reset`: the rows and the repave injection go, the other injected errors stay.
unfoldable pub reset : MockStore → MockStore
reset m = record m { slips = []; repave_error = none; repave_went_live_status = [] }

-- `InsertAncestryLink`: no link is kept.
unfoldable pub insert_ancestry_link : MockStore → MockStore × Option Error
insert_ancestry_link m = (m, none)
