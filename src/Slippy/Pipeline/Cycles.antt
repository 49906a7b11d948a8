-- ===== src/Slippy/Pipeline/Cycles.antt =====
-- slippy/pipeline_config.go: `detectCircularDependencies`, a depth-first search with colours.
pub mod Visits
pub mod Order
pub mod Fuel
use go_lib_my_carrier.Base.{
  ℕ, zero, suc, ◌+◌, Bool, true, false, String, ◌==◌, List, [], ◌∷◌, ◌++◌, Assoc, get_or, insert,
  length, concat, join, if◌then◌else◌,
}
use go_lib_my_carrier.Slippy.Errors.{Error, plain}
use go_lib_my_carrier.Slippy.Pipeline.Config.{StepConfig}

-- The graph: the prerequisites of each step name.
unfoldable pub graph_of : List StepConfig → Assoc (List String) → Assoc (List String)
graph_of [] graph = graph
graph_of (step ∷ steps) graph = graph_of steps (insert step.name step.prerequisites graph)

-- The colours: `white` and `gray` are maps to Booleans, and `black` lists the nodes that are done,
-- the last one first. (The source sets `black` and never reads it.)
pub record Colours : Type 0 where
  pub white : Assoc Bool
  pub gray : Assoc Bool
  pub black : List String

abbrev pub is_white : String → Colours → Bool
is_white n c = get_or n false c.white

abbrev pub is_gray : String → Colours → Bool
is_gray n c = get_or n false c.gray

abbrev pub enter : String → Colours → Colours
enter n c = record c { white = insert n false c.white; gray = insert n true c.gray }

abbrev pub leave : String → Colours → Colours
leave n c = record c { gray = insert n false c.gray; black = n ∷ c.black }

-- The part of the path from the first occurrence of a node on.
unfoldable pub path_from : String → List String → List String
path_from n [] = []
path_from n (m ∷ path) = if m == n then m ∷ path else path_from n path

abbrev pub cycle_error : String → List String → Error
cycle_error prereq path = plain (
    concat
      ("circular dependency detected: " ∷ join " -> " (path_from prereq path ++ prereq ∷ []) ∷ []))

-- What a search ends with: out of fuel, a cycle, or new colours.
pub data Search : Type 0 where
  no_fuel : Search
  cycle : Error → Search
  done : Colours → Search

-- What follows a search that is done.
abbrev pub then_search : (Colours → Search) → Search → Search
then_search next no_fuel = no_fuel
then_search next (cycle e) = cycle e
then_search next (done c) = next c

-- One prerequisite: a gray one closes a cycle, a white one is visited, and the rest of the loop
-- follows.
abbrev pub visit_next :
    Bool → Bool → Error → (Colours → Search) → (Colours → Search) → Colours → Search
visit_next true white e visit rest c = cycle e
visit_next false true e visit rest c = then_search rest (visit c)
visit_next false false e visit rest c = rest c

-- The loop over the prerequisites of a node; `visit` is the call of `dfs` on one of them.
unfoldable pub visit_all :
    (String → Colours → Search) → List String → List String → Colours → Search
visit_all visit path [] c = done c
visit_all visit path (p ∷ ps) c =
    visit_next (is_gray p c) (is_white p c) (cycle_error p path) (visit p) (visit_all visit path ps)
      c

abbrev pub leaving : String → Colours → Search
leaving node c = done (leave node c)

-- `dfs`: the node turns gray, its prerequisites are visited, and it turns black. The fuel bounds the
-- depth.
unfoldable pub dfs : ℕ → Assoc (List String) → List String → String → Colours → Search
unfolding visit_all
dfs zero graph path node c = no_fuel
dfs (suc fuel) graph path node c = then_search (leaving node) (
    visit_all (dfs fuel graph (path ++ node ∷ [])) (path ++ node ∷ []) (get_or node [] graph)
      (enter node c))

-- A search is started at a white node, and the rest of the loop follows.
abbrev pub search_next : Bool → (Colours → Search) → (Colours → Search) → Colours → Search
search_next true search rest c = then_search rest (search c)
search_next false search rest c = rest c

-- The loop over the steps that starts a search at each white one.
unfoldable pub search_all : ℕ → Assoc (List String) → List StepConfig → Colours → Search
unfolding dfs
search_all fuel graph [] c = done c
search_all fuel graph (step ∷ steps) c =
    search_next (is_white step.name c) (dfs fuel graph [] step.name) (search_all fuel graph steps) c

unfoldable pub all_white : List StepConfig → Assoc Bool → Assoc Bool
all_white [] white = white
all_white (step ∷ steps) white = all_white steps (insert step.name true white)

-- `detectCircularDependencies`. A path of the search holds no node twice, so one more than the number
-- of steps is fuel enough.
unfoldable pub detect_circular_dependencies : List StepConfig → Search
unfolding graph_of search_all all_white
detect_circular_dependencies steps =
    search_all (length steps + 1) (graph_of steps []) steps
      (record { white = all_white steps []; gray = []; black = [] })
