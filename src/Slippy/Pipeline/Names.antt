-- ===== src/Slippy/Pipeline/Names.antt =====
-- slippy/pipeline_config.go and columns.go: which step names are accepted, and the columns that a
-- step generates.
use Prim.Native.String.{len}
use go_lib_my_carrier.Base.{
  ℕ, ◌-◌, Bool, false, not, ◌&&◌, ◌||◌, Option, none, some, String, List, [], ◌∷◌, any, all, leb,
  ltb, nat_eq, codes, lower_codes, codes_eq, concat, quoted, if◌then◌else◌, Result, ok, err,
}
use go_lib_my_carrier.Slippy.Errors.{Error, plain, wrap, sentinel, Sentinel}
use go_lib_my_carrier.Slippy.Claim.Marker.{reserved_marker_step}
use go_lib_my_carrier.Slippy.Pipeline.Config.{StepConfig, aggregates_components}

-- `fixedSlipColumns`, and the four more that `reservedStepNames` adds.
abbrev pub reserved_columns : List String
reserved_columns =
    "correlation_id" ∷ "repository" ∷ "branch" ∷ "commit_sha" ∷ "created_at" ∷ "updated_at"
    ∷ "status" ∷ "step_details" ∷ "state_history" ∷ "claimed_from" ∷ "sign" ∷ "version" ∷ "ancestry"
    ∷ []

abbrev pub reserved_step_name : String → Bool
reserved_step_name name =
    any (λ column. codes_eq (codes column) (lower_codes name)) reserved_columns

-- `MaxStepNameLen`
abbrev pub max_step_name_len : ℕ
max_step_name_len = 63 - 7

abbrev is_letter : ℕ → Bool
is_letter c = (leb b'A' c && leb c b'Z') || (leb b'a' c && leb c b'z') || nat_eq c b'_'

abbrev is_word : ℕ → Bool
is_word c = is_letter c || (leb b'0' c && leb c b'9')

-- `stepNameIdentifierPattern`, ^[A-Za-z_][A-Za-z0-9_]*$.
unfoldable pub matches_identifier : List ℕ → Bool
matches_identifier [] = false
matches_identifier (c ∷ cs) = is_letter c && all is_word cs

-- `stepStatusColumn` and `aggregateColumn`.
abbrev pub step_status_column : String → String
step_status_column name = concat (name ∷ "_status" ∷ [])

abbrev pub aggregate_column : String → String
aggregate_column name = name

-- `generatedColumnsFor`.
unfoldable pub generated_columns_for : StepConfig → List String
generated_columns_for step =
    step_status_column step.name
    ∷ (if aggregates_components step then aggregate_column step.name ∷ [] else [])

-- The columns that are taken, in lower case, with the step that took each.
abbrev pub Claimed : Type 0
Claimed = List (List ℕ × String)

unfoldable pub claimant : List ℕ → Claimed → Option String
claimant key [] = none
claimant key ((k, name) ∷ rest) = if codes_eq k key then some name else claimant key rest

-- The loop over the generated columns: each is taken, unless it already is.
unfoldable pub claim_columns : String → List String → Claimed → Result Error Claimed
unfolding claimant
claim_columns name [] claimed = ok claimed
claim_columns name (ident ∷ idents) claimed = elim (claimant (lower_codes ident) claimed) [
  | some first ↦ err (
      plain (
        concat (
          "step names '" ∷ first ∷ "' and '" ∷ name ∷ "' both generate the routing_slips column "
          ∷ ident ∷ [])))
  | none ↦ claim_columns name idents ((lower_codes ident, name) ∷ claimed)
]

-- `validateStepIdentifier`, with the taken columns passed on. The texts of its errors are cut to
-- their first clause.
unfoldable pub validate_step_identifier : StepConfig → Claimed → Result Error Claimed
unfolding matches_identifier generated_columns_for claim_columns
validate_step_identifier step claimed =
    if not (matches_identifier (codes step.name))
    then err
        (plain (concat ("step name " ∷ quoted step.name ∷ " is not a bare SQL identifier" ∷ [])))
    else if ltb max_step_name_len (len step.name)
    then err (plain (concat ("step name " ∷ quoted step.name ∷ " is too long" ∷ [])))
    else if reserved_step_name step.name
    then err (
        plain
          (concat ("step name " ∷ quoted step.name ∷ " is already the routing_slips column" ∷ [])))
    else if reserved_marker_step step.name
    then err (
        wrap
          (concat (
            "step name " ∷ quoted step.name ∷ " is a state_history marker the library owns: " ∷ []))
          (sentinel Sentinel.reserved_step_name) "")
    else claim_columns step.name (generated_columns_for step) claimed
