-- ===== src/Slippy/Pipeline/Validate.antt =====
-- slippy/pipeline_config.go: `Validate` and `ParsePipelineConfig`.
pub mod Sound
use go_lib_my_carrier.Base.{
  ℕ, Bool, true, false, not, Option, none, some, String, ◌==◌, List, [], ◌∷◌, any, is_empty, concat,
  Assoc, lookup, insert, Result, ok, err, if◌then◌else◌,
}
use go_lib_my_carrier.Slippy.Errors.{Error, plain, wrap}
use go_lib_my_carrier.Slippy.Pipeline.Config.{
  StepConfig, PipelineConfig, aggregates_components, initialize, contains_name,
}
use go_lib_my_carrier.Slippy.Pipeline.Names.{Claimed, validate_step_identifier}
use go_lib_my_carrier.Slippy.Pipeline.Cycles.{
  Search, no_fuel, cycle, done, detect_circular_dependencies,
}

-- The tests on one name: it is not empty, new, and an identifier; then the rest of the loop.
abbrev pub name_checked :
    StepConfig
    → Bool
    → Bool
    → Result Error Claimed
    → (Claimed → Result Error (List String))
    → Result Error (List String)
name_checked step true duplicate identifier rest = err (plain "step name cannot be empty")
name_checked step false true identifier rest =
    err (plain (concat ("duplicate step name: " ∷ step.name ∷ [])))
name_checked step false false (err e) rest = err e
name_checked step false false (ok claimed) rest = rest claimed

-- The loop over the names; the names seen are returned.
unfoldable pub check_names : List StepConfig → List String → Claimed → Result Error (List String)
check_names [] seen claimed = ok seen
check_names (step ∷ steps) seen claimed =
    name_checked step (step.name == "") (contains_name step.name seen)
      (validate_step_identifier step claimed) (check_names steps (step.name ∷ seen))

-- The loop over the prerequisites of one step.
unfoldable pub check_known : String → List String → List String → Option Error
check_known name seen [] = none
check_known name seen (prereq ∷ prereqs) =
    if not (contains_name prereq seen)
    then some
        (plain (concat ("step '" ∷ name ∷ "' has unknown prerequisite '" ∷ prereq ∷ "'" ∷ [])))
    else check_known name seen prereqs

-- An early return of an error.
abbrev pub first_error : Option Error → Option Error → Option Error
first_error (some e) rest = some e
first_error none rest = rest

unfoldable pub check_prerequisites : List StepConfig → List String → Option Error
unfolding check_known
check_prerequisites [] seen = none
check_prerequisites (step ∷ steps) seen =
    first_error (check_known step.name seen step.prerequisites) (check_prerequisites steps seen)

-- The loop over the aggregates: no component step is aggregated twice.
unfoldable pub check_aggregates : List StepConfig → Assoc String → Option Error
check_aggregates [] aggregates = none
check_aggregates (step ∷ steps) aggregates = elim (aggregates_components step) [
  | false ↦ check_aggregates steps aggregates
  | true ↦ elim (lookup step.aggregates aggregates) [
    | some existing ↦ some (
        plain (
          concat (
            "aggregate '" ∷ step.aggregates ∷ "' is used by both '" ∷ existing ∷ "' and '"
            ∷ step.name ∷ "'" ∷ [])))
    | none ↦ check_aggregates steps (insert step.aggregates step.name aggregates)
  ]
]

-- The end of `Validate`, after the names. Running out of fuel is an error of the model that the
-- search never meets.
abbrev pub check_graph : List StepConfig → Search → Option Error
check_graph steps no_fuel = some (plain "out of fuel")
check_graph steps (cycle e) = some e
check_graph steps (done c) = check_aggregates steps []

abbrev pub check_seen : List StepConfig → Result Error (List String) → Option Error
check_seen steps (err e) = some e
check_seen steps (ok seen) =
    first_error (check_prerequisites steps seen)
      (check_graph steps (detect_circular_dependencies steps))

-- `Validate`, on the steps.
unfoldable pub validate_steps : List StepConfig → Option Error
unfolding check_names check_prerequisites check_aggregates detect_circular_dependencies
validate_steps [] = some (plain "pipeline config must have at least one step")
validate_steps (first ∷ steps) =
    if not (is_empty first.prerequisites)
    then some (plain (concat ("first step '" ∷ first.name ∷ "' must have no prerequisites" ∷ [])))
    else check_seen (first ∷ steps) (check_names (first ∷ steps) [] [])

abbrev checked : PipelineConfig → Option Error → Result Error PipelineConfig
checked c (some e) = err e
checked c none = ok c

-- `ParsePipelineConfig`. The JSON decoder, which fills the exported fields, and the SHA-256 of the
-- text are arguments.
unfoldable pub parse_pipeline_config :
    (String → Result Error PipelineConfig)
    → (String → String)
    → String
    → Result Error PipelineConfig
unfolding initialize validate_steps
parse_pipeline_config decode hash json_data = elim (decode json_data) [
  | err e ↦ err (wrap "failed to parse pipeline config JSON: " e "")
  | ok config ↦
      let c = initialize (record config { config_hash = hash json_data }) in
      checked c (validate_steps c.steps)
]
