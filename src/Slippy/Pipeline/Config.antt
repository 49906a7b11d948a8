-- ===== src/Slippy/Pipeline/Config.antt =====
-- slippy/pipeline_config.go: the configuration, `initialize` and the lookups.
pub mod Effective
use Prim.Native.String.{compare}
use text.Mathlib.Text.{is_lt}
use go_lib_my_carrier.Base.{
  ℕ, zero, suc, ◌+◌, Bool, true, false, not, ◌&&◌, ◌||◌, Option, none, some, String, ◌==◌, List, [],
  ◌∷◌, ◌++◌, map, Assoc, lookup, get_or, insert, any, keep, ltb, if◌then◌else◌,
}

pub record StepConfig : Type 0 where
  pub name : String
  pub description : String
  pub prerequisites : List String
  pub aggregates : String
  pub is_gate : Bool
  pub order : ℕ

pub record PipelineConfig : Type 0 where
  pub version : String
  pub name : String
  pub description : String
  pub steps : List StepConfig
  pub steps_by_name : Assoc StepConfig
  pub aggregate_map : Assoc String
  pub gate_steps : List String
  pub config_hash : String

-- `step.Aggregates != ""`.
abbrev pub aggregates_components : StepConfig → Bool
aggregates_components step = not (step.aggregates == "")

-- One turn of the loop of `initialize`: the step with its order, and the three tables.
abbrev pub register : ℕ → StepConfig → PipelineConfig → PipelineConfig
register i step c =
    let placed = record step { order = i } in
    record c {
      steps = c.steps ++ placed ∷ [];
      steps_by_name = insert step.name placed c.steps_by_name;
      aggregate_map =
          if aggregates_components step
          then insert step.aggregates step.name c.aggregate_map
          else c.aggregate_map;
      gate_steps = if step.is_gate then c.gate_steps ++ step.name ∷ [] else c.gate_steps;
    }

unfoldable pub register_all : ℕ → List StepConfig → PipelineConfig → PipelineConfig
register_all i [] c = c
register_all i (step ∷ steps) c = register_all (i + 1) steps (register i step c)

-- `initialize`: the tables are built afresh, and the steps are written back with their orders.
unfoldable pub initialize : PipelineConfig → PipelineConfig
unfolding register_all
initialize c =
    register_all 0 c.steps
      (record c { steps = []; steps_by_name = []; aggregate_map = []; gate_steps = [] })

-- `GetStep`.
unfoldable pub get_step : PipelineConfig → String → Option StepConfig
get_step c name = lookup name c.steps_by_name

-- `GetStepNames`.
unfoldable pub get_step_names : PipelineConfig → List String
get_step_names c = map (λ (step : StepConfig). step.name) c.steps

-- `GetAggregateStep`: "" if no step aggregates the component step.
unfoldable pub get_aggregate_step : PipelineConfig → String → String
get_aggregate_step c component_step = get_or component_step "" c.aggregate_map

abbrev aggregates_of : Option StepConfig → String
aggregates_of none = ""
aggregates_of (some step) = step.aggregates

-- `GetComponentStep`.
unfoldable pub get_component_step : PipelineConfig → String → String
unfolding get_step
get_component_step c aggregate_step = aggregates_of (get_step c aggregate_step)

-- `IsAggregateStep`.
unfoldable pub is_aggregate_step : PipelineConfig → String → Bool
unfolding get_component_step
is_aggregate_step c name = not (get_component_step c name == "")

abbrev gate_of : Option StepConfig → Bool
gate_of none = false
gate_of (some step) = step.is_gate

-- `IsGateStep`.
unfoldable pub is_gate_step : PipelineConfig → String → Bool
unfolding get_step
is_gate_step c name = gate_of (get_step c name)

-- `GetAggregateSteps`.
unfoldable pub get_aggregate_steps : PipelineConfig → List StepConfig
get_aggregate_steps c = keep aggregates_components c.steps

abbrev column_of : Option StepConfig → String
column_of none = ""
column_of (some step) = if aggregates_components step then step.name else ""

-- `GetAggregateColumnName`.
unfoldable pub get_aggregate_column_name : PipelineConfig → String → String
unfolding get_step
get_aggregate_column_name c name = column_of (get_step c name)

abbrev pub contains_name : String → List String → Bool
contains_name n names = any (λ m. m == n) names

-- `prereqSet[n] = true`
abbrev pub add_name : String → List String → List String
add_name n names = if contains_name n names then names else names ++ n ∷ []

unfoldable pub add_names : List String → List String → List String
add_names [] names = names
add_names (n ∷ ns) names = add_names ns (add_name n names)

-- The gates that come before a step in the order.
unfoldable pub gates_before : PipelineConfig → ℕ → List String → List String
gates_before c order [] = []
gates_before c order (gate ∷ gates) =
    let rest = gates_before c order gates in
    elim (lookup gate c.steps_by_name) [
      | none ↦ rest
      | some config ↦ if ltb config.order order then gate ∷ rest else rest
    ]

-- `sort.Strings`.
unfoldable pub insert_name : String → List String → List String
insert_name n [] = n ∷ []
insert_name n (m ∷ ms) = if is_lt (compare m n) then m ∷ insert_name n ms else n ∷ m ∷ ms

unfoldable pub sort_names : List String → List String
unfolding insert_name
sort_names [] = []
sort_names (n ∷ ns) = insert_name n (sort_names ns)

abbrev effective : PipelineConfig → Option StepConfig → List String
effective c none = []
effective c (some step) =
    sort_names
      (add_names (gates_before c step.order c.gate_steps) (add_names step.prerequisites []))

-- `GetEffectivePrerequisites`: the step's own, and every gate before it.
unfoldable pub get_effective_prerequisites : PipelineConfig → String → List String
unfolding get_step add_names gates_before sort_names
get_effective_prerequisites c name = effective c (get_step c name)

-- `ForEachStep`, with a visitor over a state: it stops at the first error.
unfoldable pub for_each {ℓ κ} :
    {S : Type ℓ} {E : Type κ} → (StepConfig → S → S × Option E) → List StepConfig → S → S × Option E
for_each visit [] s = (s, none)
for_each visit (step ∷ steps) s =
    let (s', e) = visit step s in elim e [ some x ↦ (s', some x) | none ↦ for_each visit steps s' ]
