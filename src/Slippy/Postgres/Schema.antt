-- ===== src/Slippy/Postgres/Schema.antt =====
-- slippy/postgres_store.go, slippy/columns.go: the columns that the store names, and the probe of the
-- schema.
use go_lib_my_carrier.Base.{
  Bool, not, Option, none, some, String, ◌==◌, List, [], ◌∷◌, ◌++◌, concat, show_list, map, keep,
  any, lower_codes, codes_eq, if◌then◌else◌,
}
use go_lib_my_carrier.Slippy.Errors.{Error, sentinel, wrap, Sentinel}
use go_lib_my_carrier.Slippy.Pipeline.Config.{PipelineConfig, get_step_names}
use go_lib_my_carrier.Slippy.Postgres.Columns.{aggregate_columns}

-- What the catalogue of the database shows.
pub record Catalogue : Type 0 where
  pub columns : List String
  pub tables : List String
  pub has_step_claimant : Bool

-- `fixedSlipColumns`.
abbrev pub fixed_slip_columns : List String
fixed_slip_columns =
    "correlation_id" ∷ "repository" ∷ "branch" ∷ "commit_sha" ∷ "created_at" ∷ "updated_at"
    ∷ "status" ∷ "step_details" ∷ "state_history" ∷ []

-- `stepStatusColumn`.
abbrev pub step_status_column : String → String
step_status_column name = concat (name ∷ "_status" ∷ [])

-- `slipColumns`.
unfoldable pub slip_columns : PipelineConfig → List String
unfolding aggregate_columns
slip_columns config =
    fixed_slip_columns ++ map step_status_column (get_step_names config) ++ aggregate_columns config

-- `slipSelectColumns`.
unfoldable pub slip_select_columns : PipelineConfig → List String
unfolding slip_columns
slip_select_columns config = slip_columns config ++ "claimed_from" ∷ []

-- `slippyChildTables`.
abbrev pub slippy_child_tables : List String
slippy_child_tables = "slip_component_states" ∷ "slip_ancestry" ∷ "slip_rollbacks" ∷ []

-- Whether a name is there, compared without case.
abbrev pub is_present : List String → String → Bool
is_present names name =
    any (λ (other : String). codes_eq (lower_codes other) (lower_codes name)) names

abbrev pub is_table : List String → String → Bool
is_table tables name = any (λ (other : String). other == name) tables

abbrev behind : String → String → Error
behind before after = wrap before (sentinel Sentinel.schema_behind) after

abbrev missing_columns : List String → Option Error
missing_columns [] = none
missing_columns (name ∷ names) = some (
    behind
      (concat (
        "routing_slips missing columns "
        ∷ show_list (name ∷ names)
        ∷ " (apply migrations before serving): "
        ∷ []))
      "")

-- `probeRoutingSlipColumns`.
unfoldable pub probe_routing_slip_columns : PipelineConfig → Catalogue → Option Error
unfolding slip_select_columns
probe_routing_slip_columns config c =
    missing_columns (keep (λ name. not (is_present c.columns name)) (slip_select_columns config))

abbrev missing_tables : List String → Option Error
missing_tables [] = none
missing_tables (name ∷ names) = some (
    behind
      (concat (
        "missing tables " ∷ show_list (name ∷ names) ∷ " (apply migrations before serving): " ∷ []))
      "")

-- `probeChildTables`.
unfoldable pub probe_child_tables : Catalogue → Option Error
probe_child_tables c =
    missing_tables (keep (λ name. not (is_table c.tables name)) slippy_child_tables)

-- `probeStepClaimant`.
unfoldable pub probe_step_claimant : Catalogue → Option Error
probe_step_claimant c =
    if c.has_step_claimant
    then none
    else some (
        behind "slip_component_states missing column claimed_by (apply migrations before serving): "
          "")

abbrev first_problem : Option Error → Option Error → Option Error
first_problem none e = e
first_problem (some e) f = some e

-- `ProbeSchema`, where the driver fails no query of the catalogue.
unfoldable pub probe_schema : PipelineConfig → Catalogue → Option Error
unfolding probe_routing_slip_columns probe_child_tables probe_step_claimant
probe_schema config c =
    first_problem (probe_routing_slip_columns config c)
      (first_problem (probe_child_tables c) (probe_step_claimant c))
