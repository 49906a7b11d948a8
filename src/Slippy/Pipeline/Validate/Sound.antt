-- ===== src/Slippy/Pipeline/Validate/Sound.antt =====
-- slippy/pipeline_config.go: what `Validate` makes sure of.
use go_lib_my_carrier.Base.{
  ◌≡◌, refl, Bool, true, false, not, ◌||◌, Option, none, some, String, ◌==◌, List, [], ◌∷◌, arith,
  All, is_empty, Result, ok, err, if◌then◌else◌,
}
use go_lib_my_carrier.Slippy.Errors.{Error}
use go_lib_my_carrier.Slippy.Pipeline.Config.{StepConfig, contains_name}
use go_lib_my_carrier.Slippy.Pipeline.Names.{Claimed, validate_step_identifier}
use go_lib_my_carrier.Slippy.Pipeline.Cycles.Visits.{IsOrdered}
use go_lib_my_carrier.Slippy.Pipeline.Cycles.Order.{
  has_step, AreListed, detect_circular_dependencies-IsOrdered,
}
use go_lib_my_carrier.Slippy.Pipeline.Cycles.{
  graph_of, Search, no_fuel, cycle, done, Colours, detect_circular_dependencies,
}
use go_lib_my_carrier.Slippy.Pipeline.Validate.{
  name_checked, first_error, check_names, check_known, check_prerequisites, check_graph, check_seen,
  validate_steps,
}

-- No two steps have the same name, and no name is empty or among those seen.
abbrev pub AreNew : List String → List StepConfig → Type 0
AreNew seen [] = Unit
AreNew seen (step ∷ steps) =
    ((step.name == "") ≡ false)
    × (contains_name step.name seen ≡ false)
    × AreNew (step.name ∷ seen) steps

-- A name that passes is not empty and new, and the rest of the loop goes on.
name_checked-ok :
    (step : StepConfig) (empty duplicate : Bool) (r : Result Error Claimed)
    (rest : Claimed → Result Error (List String)) (seen' : List String)
    → name_checked step empty duplicate r rest ≡ ok seen'
    → (empty ≡ false) × (duplicate ≡ false) × (claimed : Claimed) × (rest claimed ≡ ok seen')
name_checked-ok step true duplicate r rest seen' h = cc
name_checked-ok step false true r rest seen' h = cc
name_checked-ok step false false (err e) rest seen' h = cc
name_checked-ok step false false (ok claimed) rest seen' h = (refl, refl, claimed, h)

-- What the loop over the names returns, if it does.
check_names-seen :
    (steps : List StepConfig) (seen : List String) (claimed : Claimed) (seen' : List String)
    → check_names steps seen claimed ≡ ok seen'
    → AreNew seen steps
      × ((n : String) → contains_name n seen' ≡ (contains_name n seen || has_step n steps))
unfolding check_names
check_names-seen [] seen claimed seen' h =
    (tt, λ n. let same : seen ≡ seen' = cc h in rw (← same) (ground arith))
check_names-seen (step ∷ steps) seen claimed seen' h =
    let (named, fresh, claimed', go) =
      name_checked-ok step (step.name == "") (contains_name step.name seen)
        (validate_step_identifier step claimed) (check_names steps (step.name ∷ seen)) seen' h in
    let (rest, holds) = check_names-seen steps (step.name ∷ seen) claimed' seen' go in
    ((named, fresh, rest), λ n. ground (arith, holds n))

-- The prerequisites of every step are among the names seen.
abbrev pub AreKnown : (String → Bool) → List StepConfig → Type 0
AreKnown known steps =
    All (λ (step : StepConfig). All (λ p. known p ≡ true) step.prerequisites) steps

first_error-none : (a b : Option Error) → first_error a b ≡ none → (a ≡ none) × (b ≡ none)
first_error-none none b h = (refl, h)
first_error-none (some e) b h = cc

check_known-All :
    (name : String) (seen prereqs : List String)
    → check_known name seen prereqs ≡ none
    → All (λ p. contains_name p seen ≡ true) prereqs
unfolding check_known
check_known-All name seen [] h = tt
check_known-All name seen (p ∷ ps) h = ground (arith, check_known-All name seen ps)

check_prerequisites-AreKnown :
    (steps : List StepConfig) (seen : List String)
    → check_prerequisites steps seen ≡ none
    → AreKnown (λ p. contains_name p seen) steps
unfolding check_prerequisites
check_prerequisites-AreKnown [] seen h = tt
check_prerequisites-AreKnown (step ∷ steps) seen h =
    let (here, later) =
      first_error-none (check_known step.name seen step.prerequisites)
        (check_prerequisites steps seen) h in
    (
      check_known-All step.name seen step.prerequisites here,
      check_prerequisites-AreKnown steps seen later,
    )

All-map :
    {A : Type 0} (P Q : A → Type 0) (xs : List A) → ((x : A) → P x → Q x) → All P xs → All Q xs
All-map P Q [] f h = tt
All-map P Q (x ∷ xs) f h = (f x h.0, All-map P Q xs f h.1)

check_graph-none :
    (steps : List StepConfig) (r : Search)
    → check_graph steps r ≡ none
    → (c : Colours) × (r ≡ done c)
check_graph-none steps no_fuel h = cc
check_graph-none steps (cycle e) h = cc
check_graph-none steps (done c) h = (c, refl)

-- What holds of steps that pass.
abbrev pub IsValid : List StepConfig → Type 0
IsValid steps =
    AreNew [] steps
    × AreKnown (λ p. has_step p steps) steps
    × (order : List String) × IsOrdered (graph_of steps []) (λ n. has_step n steps) order
    × AreListed order steps

check_seen-IsValid :
    (steps : List StepConfig) (r : Result Error (List String))
    → check_names steps [] [] ≡ r
    → check_seen steps r ≡ none
    → IsValid steps
check_seen-IsValid steps (err e) names h = cc
check_seen-IsValid steps (ok seen) names h =
    let (known, graph) = first_error-none (check_prerequisites steps seen) _ h in
    let (new, same) = check_names-seen steps [] [] seen names in
    let widen : (p : String) → contains_name p seen ≡ true → has_step p steps ≡ true =
      λ p k. rw (same p) at k in
    let all_known =
      All-map (λ (step : StepConfig). All (λ p. contains_name p seen ≡ true) step.prerequisites)
        (λ (step : StepConfig). All (λ p. has_step p steps ≡ true) step.prerequisites) steps
        (λ step. All-map _ _ step.prerequisites widen)
        (check_prerequisites-AreKnown steps seen known) in
    let (c, finished) = check_graph-none steps (detect_circular_dependencies steps) graph in
    let (ordered, listed) = detect_circular_dependencies-IsOrdered steps c finished in
    (new, all_known, c.black, ordered, listed)

unless_error :
    (b : Bool) (e : Error) (k : Option Error) → (if b then some e else k) ≡ none → k ≡ none
unless_error true e k h = cc
unless_error false e k h = h

-- Steps that pass the validation have names that are not empty and all different, each prerequisite
-- of each is the name of a step, and all of them can be put in an order in which every step comes
-- after its prerequisites.
pub validate_steps-IsValid : (steps : List StepConfig) → validate_steps steps ≡ none → IsValid steps
unfolding validate_steps
validate_steps-IsValid [] h = cc
validate_steps-IsValid (step ∷ steps) h =
    check_seen-IsValid (step ∷ steps) (check_names (step ∷ steps) [] []) refl
      (unless_error (not (is_empty step.prerequisites)) _ _ h)
