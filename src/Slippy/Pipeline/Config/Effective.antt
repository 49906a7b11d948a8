-- ===== src/Slippy/Pipeline/Config/Effective.antt =====
-- slippy/pipeline_config.go: which names `GetEffectivePrerequisites` returns.
use go_lib_my_carrier.Base.{
  ◌≡◌, refl, ◌∙◌, true, ◌||◌, some, String, ◌==◌, List, [], ◌∷◌, arith, any-append, Bool-cases, inl,
  inr, eq_iff, eq_refl, ℕ, ◌<◌, ◌⊎◌, ◌↔◌, Any, Option-cases, lookup, ltb,
}
use go_lib_my_carrier.Slippy.Pipeline.Config.{
  StepConfig, PipelineConfig, contains_name, add_name, add_names, gates_before, insert_name,
  sort_names, get_step, get_effective_prerequisites,
}

insert_name-contains :
    (x n : String) (ns : List String)
    → contains_name x (insert_name n ns) ≡ (n == x || contains_name x ns)
unfolding insert_name
insert_name-contains x n [] = refl
insert_name-contains x n (m ∷ ms) = ground (arith, insert_name-contains x n ms)

-- Sorting keeps the names.
sort_names-contains :
    (x : String) (ns : List String) → contains_name x (sort_names ns) ≡ contains_name x ns
unfolding sort_names
sort_names-contains x [] = refl
sort_names-contains x (n ∷ ns) =
    insert_name-contains x n (sort_names ns) ∙ rw (sort_names-contains x ns) refl

contains_same :
    (x n : String) (ns : List String)
    → contains_name n ns ≡ true
    → contains_name x ns ≡ (contains_name x ns || n == x)
contains_same x n ns h = elim (Bool-cases (n == x)) [
  | inl same ↦ rw (← (eq_iff n x).0 same) (rw h refl)
  | inr other ↦ rw other (ground arith)
]

add_name-contains :
    (x n : String) (ns : List String)
    → contains_name x (add_name n ns) ≡ (contains_name x ns || n == x)
add_name-contains x n ns = elim (Bool-cases (contains_name n ns)) [
  | inl there ↦ rw there (contains_same x n ns there)
  | inr new ↦ rw new (any-append (λ m. m == x) ns (n ∷ []) ∙ ground arith)
]

add_names-contains :
    (x : String) (ns names : List String)
    → contains_name x (add_names ns names) ≡ (contains_name x names || contains_name x ns)
unfolding add_names
add_names-contains x [] names = ground arith
add_names-contains x (n ∷ ns) names =
    ground (arith, add_names-contains x ns (add_name n names), add_name-contains x n names)

-- A gate of the configuration that stands before a place in the order.
abbrev pub IsGateBefore : PipelineConfig → ℕ → String → Type 0
IsGateBefore c order x =
    Any (λ gate. gate ≡ x) c.gate_steps
    × ((gate : StepConfig) × (lookup x c.steps_by_name ≡ some gate) × (gate.order < order))

gate_found :
    (c : PipelineConfig) (order : ℕ) (gate x : String) (rest : List String)
    → contains_name x (gates_before c order (gate ∷ rest)) ≡ true
    → ((gate ≡ x)
        × ((config : StepConfig) × (lookup x c.steps_by_name ≡ some config)
            × (config.order < order)))
      ⊎ (contains_name x (gates_before c order rest) ≡ true)
unfolding gates_before
gate_found c order gate x rest h = elim (Option-cases (lookup gate c.steps_by_name)) [
  | inl missing ↦ inr (rw (gates_before, missing) at h)
  | inr (config, found) ↦ elim (Bool-cases (ltb config.order order)) [
    | inr late ↦ inr (rw (gates_before, found, late) at h)
    | inl early ↦ elim (Bool-cases (gate == x)) [
      | inr differs ↦ inr (rw (gates_before, found, early, differs) at h)
      | inl same ↦
          let e : gate ≡ x = (eq_iff gate x).0 same in
          inl (e, (config, rw (← e) found, ground (arith, early)))
    ]
  ]
]

gates_before_sound :
    (c : PipelineConfig) (order : ℕ) (x : String) (gates : List String)
    → contains_name x (gates_before c order gates) ≡ true
    → Any (λ gate. gate ≡ x) gates
      × ((config : StepConfig) × (lookup x c.steps_by_name ≡ some config) × (config.order < order))
unfolding gates_before
gates_before_sound c order x [] h = cc
gates_before_sound c order x (gate ∷ rest) h = elim (gate_found c order gate x rest h) [
  | inl (e, placed) ↦ (inl e, placed)
  | inr later ↦
      let (listed, placed) = gates_before_sound c order x rest later in (inr listed, placed)
]

gates_before_complete :
    (c : PipelineConfig) (order : ℕ) (x : String) (config : StepConfig) (gates : List String)
    → lookup x c.steps_by_name ≡ some config
    → config.order < order
    → Any (λ gate. gate ≡ x) gates
    → contains_name x (gates_before c order gates) ≡ true
unfolding gates_before
gates_before_complete c order x config [] found early listed = absurd listed
gates_before_complete c order x config (gate ∷ rest) found early (inl e) =
    let here : ltb config.order order ≡ true = ground (arith, early) in
    rw (e, gates_before, found, here) (ground (arith, eq_refl x))
gates_before_complete c order x config (gate ∷ rest) found early (inr later) =
    let tail = gates_before_complete c order x config rest found early later in
    elim (Option-cases (lookup gate c.steps_by_name)) [
      | inl missing ↦ rw (gates_before, missing) tail
      | inr (other, there) ↦
          rw (gates_before, there)
            (elim (Bool-cases (ltb other.order order)) [
              | inl before ↦ rw before (ground (arith, tail))
              | inr after ↦ rw after tail
            ])
    ]

gates_before_lem :
    (c : PipelineConfig) (order : ℕ) (x : String)
    → (contains_name x (gates_before c order c.gate_steps) ≡ true) ↔ IsGateBefore c order x
gates_before_lem c order x = (
  gates_before_sound c order x c.gate_steps,
  λ (listed, (config, found, early)).
      gates_before_complete c order x config c.gate_steps found early listed,
)

contained :
    (c : PipelineConfig) (name x : String) (step : StepConfig)
    → get_step c name ≡ some step
    → contains_name x (get_effective_prerequisites c name) ≡ (
        contains_name x step.prerequisites
        || contains_name x (gates_before c step.order c.gate_steps))
unfolding get_effective_prerequisites
contained c name x step found = rw found (
    sort_names-contains x _
    ∙ add_names-contains x (gates_before c step.order c.gate_steps)
        (add_names step.prerequisites [])
    ∙ rw (add_names-contains x step.prerequisites []) refl)

-- A name is an effective prerequisite of a step exactly when the step declares it, or when it is
-- listed as a gate and names a step whose place in the order is strictly before this one's.
pub get_effective_prerequisites-contains :
    (c : PipelineConfig) (name x : String) (step : StepConfig)
    → get_step c name ≡ some step
    → (contains_name x (get_effective_prerequisites c name) ≡ true)
      ↔ ((contains_name x step.prerequisites ≡ true) ⊎ IsGateBefore c step.order x)
get_effective_prerequisites-contains c name x step found =
    ground (arith, contained c name x step found, gates_before_lem c step.order x)
