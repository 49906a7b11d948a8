-- ===== src/Tests/Pipeline.antt =====
-- Runs of the theorems on a pipeline configuration.
use go_lib_my_carrier.Base.{
  ℕ, ◌≡◌, ◌≢◌, refl, Bool, true, false, Option, none, some, String, List, [], ◌∷◌, lookup, insert,
  Result, ok, err, inl,
}
use go_lib_my_carrier.Slippy.Pipeline.Config.{
  StepConfig, contains_name, initialize, get_step, get_effective_prerequisites,
}
use go_lib_my_carrier.Slippy.Pipeline.Config.Effective.{get_effective_prerequisites-contains}
use go_lib_my_carrier.Slippy.Pipeline.Validate.{validate_steps}
use go_lib_my_carrier.Slippy.Pipeline.Validate.Sound.{validate_steps-IsValid, IsValid}
use go_lib_my_carrier.Slippy.Pipeline.Cycles.{detect_circular_dependencies, no_fuel}
use go_lib_my_carrier.Slippy.Pipeline.Cycles.Fuel.{detect_circular_dependencies_lem}
use go_lib_my_carrier.Tests.Data.{step_config, three_steps, raw_pipeline}

validate_steps-IsValid_example : IsValid three_steps
unfolding validate_steps go_lib_my_carrier.Slippy.Pipeline.Names.validate_step_identifier
    go_lib_my_carrier.Slippy.Claim.Marker.reserved_marker_step go_lib_my_carrier.Base.get_or insert
    lookup
validate_steps-IsValid_example = validate_steps-IsValid three_steps refl

abbrev placed_deploy : StepConfig
placed_deploy = record (step_config "deploy" ("build_all" ∷ []) "" false) { order = 2 }

get_effective_prerequisites-contains_example :
    contains_name "build_all" (get_effective_prerequisites (initialize raw_pipeline) "deploy")
    ≡ true
unfolding get_step lookup initialize insert
get_effective_prerequisites-contains_example =
    (get_effective_prerequisites-contains (initialize raw_pipeline) "deploy" "build_all"
        placed_deploy refl).1
      (inl refl)

-- Two steps that wait for each other.
abbrev two_waiting : List StepConfig
two_waiting =
    step_config "push_parsed" [] "" false
    ∷ step_config "left" ("right" ∷ []) "" false
    ∷ step_config "right" ("left" ∷ []) "" false
    ∷ []

detect_circular_dependencies_lem_example : detect_circular_dependencies two_waiting ≢ no_fuel
detect_circular_dependencies_lem_example = detect_circular_dependencies_lem two_waiting
