-- ===== src/Slippy/Pipeline/Cycles/Fuel.antt =====
-- slippy/pipeline_config.go: the depth-first search has fuel enough.
use go_lib_my_carrier.Base.{
  ℕ, zero, suc, ◌+◌, ◌≡◌, ◌≢◌, ◌≤◌, ◌<◌, refl, Bool, true, false, String, ◌==◌, List, [], ◌∷◌, ◌++◌,
  Assoc, get_or, get_or-insert, arith, if◌then◌else◌, Bool-cases, inl, inr, eq_iff, eq_refl, length,
}
use go_lib_my_carrier.Slippy.Errors.{Error}
use go_lib_my_carrier.Slippy.Pipeline.Config.{StepConfig}
use go_lib_my_carrier.Slippy.Pipeline.Cycles.{
  graph_of, Colours, is_white, is_gray, enter, cycle_error, Search, no_fuel, cycle, done,
  then_search, visit_next, visit_all, leaving, dfs, search_next, search_all, all_white,
  detect_circular_dependencies,
}
use go_lib_my_carrier.Slippy.Pipeline.Cycles.Order.{has_step, all_white-get}

-- The number of steps that are white.
abbrev white_count : List StepConfig → Colours → ℕ
white_count [] c = 0
white_count (step ∷ steps) c =
    let rest = white_count steps c in if is_white step.name c then suc rest else rest

-- No node turns white.
abbrev Fades : Colours → Colours → Type 0
Fades c c' = (n : String) → is_white n c' ≡ true → is_white n c ≡ true

white_count-Fades :
    (steps : List StepConfig) (c c' : Colours)
    → Fades c c'
    → white_count steps c' ≤ white_count steps c
white_count-Fades [] c c' fades = omega arith
white_count-Fades (step ∷ steps) c c' fades =
    ground (arith, fades step.name, white_count-Fades steps c c' fades)

enter-Fades : (p : String) (c : Colours) → Fades c (enter p c)
enter-Fades p c n k = elim (Bool-cases (p == n)) [
  | inl same ↦ absurd (cc (rw same at (rw (get_or-insert p n false false c.white) at k)))
  | inr other ↦ rw other at (rw (get_or-insert p n false false c.white) at k)
]

-- A step that is entered is one white step less.
white_count-enter :
    (steps : List StepConfig) (p : String) (c : Colours)
    → is_white p c ≡ true
    → has_step p steps ≡ true
    → white_count steps (enter p c) < white_count steps c
white_count-enter [] p c white step = cc
white_count-enter (step ∷ steps) p c white among =
    let fewer = white_count-Fades steps c (enter p c) (enter-Fades p c) in
    let kept = get_or-insert p step.name false false c.white in
    elim (Bool-cases (step.name == p)) [
      | inl same ↦
          let q : step.name ≡ p = (eq_iff step.name p).0 same in
          let before : is_white step.name c ≡ true = rw q white in
          let after : is_white step.name (enter p c) ≡ false =
            rw q (rw (get_or-insert p p false false c.white) (rw (eq_refl p) refl)) in
          ground (arith, before, after, fewer)
      | inr other ↦
          let later = white_count-enter steps p c white (ground (arith, other, among)) in
          ground (arith, other, kept, later, eq_iff step.name p, eq_iff p step.name)
    ]

module _ (steps : List StepConfig) where
  -- Only steps are white.
  abbrev AreWhiteSteps : Colours → Type 0
  AreWhiteSteps c = (n : String) → is_white n c ≡ true → has_step n steps ≡ true

  -- The search has not run out of fuel.
  abbrev Ends : Colours → Search → Type 0
  Ends c no_fuel = ⊥
  Ends c (cycle e) = Unit
  Ends c (done c') = Fades c c'

  abbrev Visits : ℕ → (String → Colours → Search) → Type 0
  Visits fuel visit =
      (p : String) (c : Colours)
      → white_count steps c ≤ fuel
      → is_white p c ≡ true
      → AreWhiteSteps c
      → Ends c (visit p c)

  Ends-trans : (c c₁ : Colours) → Fades c c₁ → (r : Search) → Ends c₁ r → Ends c r
  Ends-trans c c₁ f (cycle e) h = tt
  Ends-trans c c₁ f (done c') h = λ n k. f n (h n k)
  Ends-trans c c₁ f no_fuel h = h

  then_search-Ends :
      (next : Colours → Search) (c : Colours) (r : Search)
      → Ends c r
      → ((c₁ : Colours) → Fades c c₁ → Ends c₁ (next c₁))
      → Ends c (then_search next r)
  then_search-Ends next c (cycle e) h later = tt
  then_search-Ends next c (done c₁) h later = Ends-trans c c₁ h (next c₁) (later c₁ h)
  then_search-Ends next c no_fuel h later = h

  visit_next-Ends :
      (fuel : ℕ) (visit : String → Colours → Search) (rest : Colours → Search) (p : String)
      (c : Colours) (gray white : Bool) (e : Error)
      → Visits fuel visit
      → is_white p c ≡ white
      → white_count steps c ≤ fuel
      → AreWhiteSteps c
      → ((c₁ : Colours) → Fades c c₁ → Ends c₁ (rest c₁))
      → Ends c (visit_next gray white e (visit p) rest c)
  visit_next-Ends fuel visit rest p c true white e visits w few are later = tt
  visit_next-Ends fuel visit rest p c false true e visits w few are later =
      then_search-Ends rest c (visit p c) (visits p c few w are) later
  visit_next-Ends fuel visit rest p c false false e visits w few are later = later c (λ n k. k)

  visit_all-Ends :
      (fuel : ℕ) (visit : String → Colours → Search) (path ps : List String) (c : Colours)
      → Visits fuel visit
      → white_count steps c ≤ fuel
      → AreWhiteSteps c
      → Ends c (visit_all visit path ps c)
  unfolding visit_all
  visit_all-Ends fuel visit path [] c visits few are = λ n k. k
  visit_all-Ends fuel visit path (p ∷ ps) c visits few are =
      visit_next-Ends fuel visit (visit_all visit path ps) p c (is_gray p c) (is_white p c)
        (cycle_error p path) visits refl few are
        (λ c₁ fades.
          let fewer = white_count-Fades steps c c₁ fades in
          visit_all-Ends fuel visit path ps c₁ visits (omega (arith, fewer, few))
            (λ n k. are n (fades n k)))

  dfs-Visits_fuel :
      (fuel : ℕ) (graph : Assoc (List String)) (path : List String)
      → Visits fuel (dfs fuel graph path)
  unfolding dfs
  dfs-Visits_fuel zero graph path p c few white are =
      absurd (omega (arith, white_count-enter steps p c white (are p white), few))
  dfs-Visits_fuel (suc fuel) graph path p c few white are =
      let inner = path ++ p ∷ [] in
      let ps = get_or p [] graph in
      let fewer = white_count-enter steps p c white (are p white) in
      let inside =
        visit_all-Ends fuel (dfs fuel graph inner) inner ps (enter p c)
          (dfs-Visits_fuel fuel graph inner) (omega (arith, fewer, few))
          (λ n k. are n (enter-Fades p c n k)) in
      let search = visit_all (dfs fuel graph inner) inner ps (enter p c) in
      Ends-trans c (enter p c) (enter-Fades p c) (then_search (leaving p) search)
        (then_search-Ends (leaving p) (enter p c) search inside (λ c₁ fades n k. k))

  search_next-Ends :
      (fuel : ℕ) (graph : Assoc (List String)) (name : String) (rest : Colours → Search)
      (c : Colours) (white : Bool)
      → is_white name c ≡ white
      → white_count steps c ≤ fuel
      → AreWhiteSteps c
      → ((c₁ : Colours) → Fades c c₁ → Ends c₁ (rest c₁))
      → Ends c (search_next white (dfs fuel graph [] name) rest c)
  search_next-Ends fuel graph name rest c true w few are later =
      then_search-Ends rest c (dfs fuel graph [] name c)
        (dfs-Visits_fuel fuel graph [] name c few w are) later
  search_next-Ends fuel graph name rest c false w few are later = later c (λ n k. k)

  search_all-Ends :
      (fuel : ℕ) (graph : Assoc (List String)) (some_steps : List StepConfig) (c : Colours)
      → white_count steps c ≤ fuel
      → AreWhiteSteps c
      → Ends c (search_all fuel graph some_steps c)
  unfolding search_all
  search_all-Ends fuel graph [] c few are = λ n k. k
  search_all-Ends fuel graph (step ∷ rest) c few are =
      search_next-Ends fuel graph step.name (search_all fuel graph rest) c (is_white step.name c)
        refl few are
        (λ c₁ fades.
          let fewer = white_count-Fades steps c c₁ fades in
          search_all-Ends fuel graph rest c₁ (omega (arith, fewer, few)) (λ n k. are n (fades n k)))

white_count-bound : (steps : List StepConfig) (c : Colours) → white_count steps c ≤ length steps
white_count-bound [] c = omega arith
white_count-bound (step ∷ steps) c = ground (arith, white_count-bound steps c)

Ends-fuel : (steps : List StepConfig) (c : Colours) (r : Search) → Ends steps c r → r ≢ no_fuel
Ends-fuel steps c no_fuel h = absurd h
Ends-fuel steps c (cycle e) h = cc
Ends-fuel steps c (done c') h = cc

-- The search for circular dependencies never runs out of its fuel, one more than there are steps: for
-- every list of steps it ends with a cycle or with none, whatever their prerequisites are.
pub detect_circular_dependencies_lem :
    (steps : List StepConfig) → detect_circular_dependencies steps ≢ no_fuel
unfolding detect_circular_dependencies get_or
detect_circular_dependencies_lem steps =
    let start : Colours = record { white = all_white steps []; gray = []; black = [] } in
    Ends-fuel steps start (search_all (length steps + 1) (graph_of steps []) steps start) (
      search_all-Ends steps (length steps + 1) (graph_of steps []) steps start
        (omega (arith, white_count-bound steps start))
        (λ n k. ground (arith, all_white-get n steps [], k)))
