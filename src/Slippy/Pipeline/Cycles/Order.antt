-- ===== src/Slippy/Pipeline/Cycles/Order.antt =====
-- slippy/pipeline_config.go: a search that ends has put the steps in an order in which every step
-- comes after its prerequisites.
use go_lib_my_carrier.Base.{
  ℕ, ◌+◌, ◌≡◌, refl, Bool, true, false, ◌||◌, String, ◌==◌, List, [], ◌∷◌, Assoc, get_or,
  get_or-insert, insert, arith, any, all, All, Bool-cases, inl, inr, eq_refl, length,
}
use go_lib_my_carrier.Slippy.Pipeline.Config.{StepConfig, contains_name}
use go_lib_my_carrier.Slippy.Pipeline.Cycles.{
  graph_of, Colours, is_white, is_gray, Search, done, dfs, search_next, search_all, all_white,
  detect_circular_dependencies,
}
use go_lib_my_carrier.Slippy.Pipeline.Cycles.Visits.{
  IsOrdered, Covered, Grows, Shrinks, then_search-done, dfs-Visits,
}

-- Every step of a list stands among the names.
abbrev pub AreListed : List String → List StepConfig → Type 0
AreListed names steps = all (λ (step : StepConfig). contains_name step.name names) steps ≡ true

module _ (graph : Assoc (List String)) (known : String → Bool) where
  abbrev AreSteps : List StepConfig → Type 0
  AreSteps steps = All (λ (step : StepConfig). known step.name ≡ true) steps

  -- No search is under way.
  abbrev IsIdle : Colours → Type 0
  IsIdle c = (n : String) → is_gray n c ≡ false

  Shrinks-IsIdle : (c c' : Colours) → IsIdle c → Shrinks graph known c c' → IsIdle c'
  Shrinks-IsIdle c c' idle shrinks n = elim (Bool-cases (is_gray n c')) [
    | inl gray ↦ absurd (cc (idle n, shrinks n gray))
    | inr clear ↦ clear
  ]

  -- What the loop over the steps comes to.
  abbrev Sorts : List StepConfig → Colours → Colours → Type 0
  Sorts steps c c' =
      IsOrdered graph known c'.black × Grows graph known c c' × AreListed c'.black steps

  search_next-Sorts :
      (white : Bool) (fuel : ℕ) (rest : Colours → Search) (step : StepConfig)
      (steps : List StepConfig) (c c' : Colours)
      → is_white step.name c ≡ white
      → known step.name ≡ true
      → Covered graph known c
      → IsOrdered graph known c.black
      → IsIdle c
      → ((c₁ : Colours)
          → Covered graph known c₁
          → IsOrdered graph known c₁.black
          → IsIdle c₁
          → rest c₁ ≡ done c'
          → Sorts steps c₁ c')
      → search_next white (dfs fuel graph [] step.name) rest c ≡ done c'
      → Sorts (step ∷ steps) c c'
  search_next-Sorts true fuel rest step steps c c' w k covered ordered idle later h =
      let (c₁, searched, go) =
        then_search-done graph known rest (dfs fuel graph [] step.name c) c' h in
      let ((covered₁, ordered₁, grows₁, shrinks₁), here) =
        dfs-Visits graph known fuel [] step.name c c₁ covered ordered searched in
      let (ordered', grows', listed) =
        later c₁ covered₁ ordered₁ (Shrinks-IsIdle c c₁ idle shrinks₁) go in
      let there = grows' step.name here in
      (ordered', λ n m. grows' n (grows₁ n m), ground (arith, there, listed))
  search_next-Sorts false fuel rest step steps c c' w k covered ordered idle later h =
      let (ordered', grows', listed) = later c covered ordered idle h in
      let here : contains_name step.name c.black ≡ true =
        ground (arith, covered step.name k, w, idle step.name) in
      let there = grows' step.name here in (ordered', grows', ground (arith, there, listed))

  search_all-Sorts :
      (fuel : ℕ) (steps : List StepConfig) (c c' : Colours)
      → AreSteps steps
      → Covered graph known c
      → IsOrdered graph known c.black
      → IsIdle c
      → search_all fuel graph steps c ≡ done c'
      → Sorts steps c c'
  unfolding search_all
  search_all-Sorts fuel [] c c' are covered ordered idle h =
      let same : c ≡ c' = cc h in rw (← same) (ordered, λ n m. m, refl)
  search_all-Sorts fuel (step ∷ steps) c c' are covered ordered idle h =
      search_next-Sorts (is_white step.name c) fuel (search_all fuel graph steps) step steps c c'
        refl are.0 covered ordered idle (λ c₁. search_all-Sorts fuel steps c₁ c' are.1) h

-- A step of that name is among them.
abbrev pub has_step : String → List StepConfig → Bool
has_step n steps = any (λ (step : StepConfig). step.name == n) steps

pub all_white-get :
    (n : String) (steps : List StepConfig) (white : Assoc Bool)
    → get_or n false (all_white steps white) ≡ (has_step n steps || get_or n false white)
unfolding all_white
all_white-get n [] white = refl
all_white-get n (step ∷ steps) white = ground (
  arith,
  all_white-get n steps (insert step.name true white),
  get_or-insert step.name n true false white,
)

steps_known :
    (known : String → Bool) (steps : List StepConfig)
    → ((n : String) → has_step n steps ≡ true → known n ≡ true)
    → All (λ (step : StepConfig). known step.name ≡ true) steps
steps_known known [] h = tt
steps_known known (step ∷ steps) h = (
  h step.name (rw (eq_refl step.name) refl),
  steps_known known steps (λ n k. h n (rw k (ground arith))),
)

-- A search that finds no cycle has put every step into an order that the prerequisites allow.
pub detect_circular_dependencies-IsOrdered :
    (steps : List StepConfig) (c : Colours)
    → detect_circular_dependencies steps ≡ done c
    → IsOrdered (graph_of steps []) (λ n. has_step n steps) c.black × AreListed c.black steps
unfolding detect_circular_dependencies get_or
detect_circular_dependencies-IsOrdered steps c h =
    let known : String → Bool = λ n. has_step n steps in
    let start : Colours = record { white = all_white steps []; gray = []; black = [] } in
    let (ordered, grows, listed) =
      search_all-Sorts (graph_of steps []) known (length steps + 1) steps start c
        (steps_known known steps (λ n k. k)) (λ n k. rw (all_white-get n steps []) (rw k refl)) tt
        (λ n. refl) h in
    (ordered, listed)
