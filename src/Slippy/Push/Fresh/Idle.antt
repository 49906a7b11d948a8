-- ===== src/Slippy/Push/Fresh/Idle.antt =====
-- slippy/push.go and claim.go: the slip of a push, as the claim's test for a run in flight sees it.
use go_lib_my_carrier.Base.{
  ℕ, ◌≡◌, refl, Bool, true, false, Option, none, some, String, ◌==◌, List, [], ◌∷◌, map, Assoc,
  insert, arith, any, Bool-cases, inl, inr,
}
use go_lib_my_carrier.Slippy.Types.{Step, AncestryEntry, ComponentDefinition}
use go_lib_my_carrier.Slippy.Claim.Marker.{push_parsed_step}
use go_lib_my_carrier.Slippy.Claim.Decide.{
  step_in_flight, aggregate_in_flight, component_in_flight, run_in_flight,
}
use go_lib_my_carrier.Slippy.Pipeline.Config.{StepConfig, PipelineConfig, aggregates_components}
use go_lib_my_carrier.Slippy.Push.Options.{PushOptions, dispatches_nothing}
use go_lib_my_carrier.Slippy.Push.Fresh.{
  Tables, no_tables, add_step, add_steps, configured, first_step, pending_step, pending_component,
  component_rows, initial_tables, slip_of_tables, initialize_slip_for_push,
}

-- A test that no entry of a map passes, and a new entry does not pass either.
insert-none {ℓ} :
    {V : Type ℓ} (p : String × V → Bool) (k : String) (v : V) (m : Assoc V)
    → p (k, v) ≡ false
    → any p m ≡ false
    → any p (insert k v m) ≡ false
unfolding insert
insert-none p k v [] h none_pass = ground arith
insert-none p k v ((j, w) ∷ m) h none_pass = ground (arith, insert-none p k v m h)

components-idle :
    (cs : List ComponentDefinition) → any component_in_flight (map pending_component cs) ≡ false
components-idle [] = refl
components-idle (c ∷ cs) = components-idle cs

component_rows-idle : (o : PushOptions) → any component_in_flight (component_rows o) ≡ false
component_rows-idle o = elim (Bool-cases (dispatches_nothing o)) [
  | inl nothing ↦ rw nothing refl
  | inr something ↦ rw something (components-idle o.components)
]

-- The tables hold nothing in flight.
abbrev AreIdle : Tables → Type 0
AreIdle t = (any step_in_flight t.steps ≡ false) × (any aggregate_in_flight t.aggregates ≡ false)

add_step-AreIdle :
    (o : PushOptions) (step : Step) (config : StepConfig) (t : Tables)
    → step_in_flight (config.name, step) ≡ false
    → AreIdle t
    → AreIdle (add_step o step config t)
add_step-AreIdle o step config t h idle =
    let steps = insert-none step_in_flight config.name step t.steps h idle.0 in
    elim (Bool-cases (aggregates_components config)) [
      | inr plain ↦ rw plain (steps, idle.1)
      | inl aggregates ↦ rw aggregates (
        steps,
        insert-none aggregate_in_flight config.name (component_rows o) t.aggregates
            (rw (component_rows-idle o) (ground arith)) idle.1,
      )
    ]

add_steps-AreIdle :
    (o : PushOptions) (configs : List StepConfig) (t : Tables)
    → AreIdle t
    → AreIdle (add_steps o configs t)
unfolding add_steps
add_steps-AreIdle o [] t idle = idle
add_steps-AreIdle o (config ∷ configs) t idle =
    add_steps-AreIdle o configs (add_step o pending_step config t)
      (add_step-AreIdle o pending_step config t (ground arith) idle)

-- The first of the steps, if there are any, is push_parsed.
abbrev pub IsPushParsedFirst : List StepConfig → Type 0
IsPushParsedFirst [] = Unit
IsPushParsedFirst (step ∷ steps) = (step.name == push_parsed_step) ≡ true

abbrev pub StartsWithPushParsed : Option PipelineConfig → Type 0
StartsWithPushParsed none = Unit
StartsWithPushParsed (some config) = IsPushParsedFirst config.steps

configured-AreIdle :
    (now : ℕ) (o : PushOptions) (steps : List StepConfig)
    → IsPushParsedFirst steps
    → AreIdle (configured now o steps).0
configured-AreIdle now o [] first = (refl, refl)
configured-AreIdle now o (config ∷ configs) first =
    add_steps-AreIdle o configs (add_step o (first_step now o config) config no_tables)
      (add_step-AreIdle o (first_step now o config) config no_tables (rw first refl) (refl, refl))

tables_idle :
    (now : ℕ) (o : PushOptions) (ancestry : List AncestryEntry) (r : Tables × String)
    → AreIdle r.0
    → run_in_flight (slip_of_tables now o ancestry r) ≡ false
unfolding run_in_flight
tables_idle now o ancestry (t, name) idle = ground (arith, idle.0, idle.1)

-- The slip that a push creates has no run in flight, for any components and any dispatch intent, if
-- there is no configuration or the first configured step is push_parsed: what runs at once is the
-- parsing of the push alone.
pub initialize_slip_for_push-idle :
    (now : ℕ) (config : Option PipelineConfig) (o : PushOptions) (ancestry : List AncestryEntry)
    → StartsWithPushParsed config
    → run_in_flight (initialize_slip_for_push now config o ancestry) ≡ false
unfolding initialize_slip_for_push initial_tables
initialize_slip_for_push-idle now none o ancestry first =
    tables_idle now o ancestry (initial_tables now o none) (refl, refl)
initialize_slip_for_push-idle now (some config) o ancestry first =
    tables_idle now o ancestry (initial_tables now o (some config))
      (configured-AreIdle now o config.steps first)
