-- ===== src/Slippy/Pipeline/Cycles/Visits.antt =====
-- slippy/pipeline_config.go: what a depth-first search keeps: every step has a colour, the black ones
-- are in an order that the prerequisites allow, and no step is left gray.
use go_lib_my_carrier.Base.{
  ℕ, zero, suc, ◌≡◌, refl, Bool, true, false, not, ◌||◌, String, ◌==◌, List, [], ◌∷◌, ◌++◌, Assoc,
  get_or, get_or-insert, arith, all, Bool-cases, inl, inr, eq_refl,
}
use go_lib_my_carrier.Slippy.Errors.{Error}
use go_lib_my_carrier.Slippy.Pipeline.Config.{contains_name}
use go_lib_my_carrier.Slippy.Pipeline.Cycles.{
  Colours, is_white, is_gray, enter, leave, cycle_error, Search, no_fuel, cycle, done, then_search,
  visit_next, visit_all, leaving, dfs,
}

module _ (graph : Assoc (List String)) (known : String → Bool) where
  -- A prerequisite stands among the names, or is not the name of a step.
  abbrev pub is_met : List String → String → Bool
  is_met names p = not (known p) || contains_name p names

  -- The names are in an order that the graph allows, the last one first.
  abbrev pub IsOrdered : List String → Type 0
  IsOrdered [] = Unit
  IsOrdered (n ∷ names) = (all (is_met names) (get_or n [] graph) ≡ true) × IsOrdered names

  -- Every step has a colour.
  abbrev pub Covered : Colours → Type 0
  Covered c =
      (n : String)
      → known n ≡ true
      → (is_white n c || is_gray n c || contains_name n c.black) ≡ true

  abbrev pub Grows : Colours → Colours → Type 0
  Grows c c' = (n : String) → contains_name n c.black ≡ true → contains_name n c'.black ≡ true

  abbrev pub Shrinks : Colours → Colours → Type 0
  Shrinks c c' = (n : String) → is_gray n c' ≡ true → is_gray n c ≡ true

  -- What a search from `c` to `c'` keeps.
  abbrev pub Keeps : Colours → Colours → Type 0
  Keeps c c' = Covered c' × IsOrdered c'.black × Grows c c' × Shrinks c c'

  -- What a visit is to do.
  abbrev pub Visits : (String → Colours → Search) → Type 0
  Visits visit =
      (p : String) (c c' : Colours)
      → Covered c
      → IsOrdered c.black
      → visit p c ≡ done c'
      → Keeps c c' × (contains_name p c'.black ≡ true)

  pub then_search-done :
      (next : Colours → Search) (r : Search) (c' : Colours)
      → then_search next r ≡ done c'
      → (c : Colours) × (r ≡ done c) × (next c ≡ done c')
  then_search-done next no_fuel c' h = cc
  then_search-done next (cycle e) c' h = cc
  then_search-done next (done c) c' h = (c, refl, h)

  -- One prerequisite, and then the rest of them.
  visit_next-Keeps :
      (visit : String → Colours → Search) (rest : Colours → Search) (p : String) (ps : List String)
      (c c' : Colours) (gray white : Bool) (e : Error)
      → Visits visit
      → is_gray p c ≡ gray
      → is_white p c ≡ white
      → Covered c
      → IsOrdered c.black
      → ((c₁ : Colours)
          → Covered c₁
          → IsOrdered c₁.black
          → rest c₁ ≡ done c'
          → Keeps c₁ c' × (all (is_met c'.black) ps ≡ true))
      → visit_next gray white e (visit p) rest c ≡ done c'
      → Keeps c c' × (all (is_met c'.black) (p ∷ ps) ≡ true)
  visit_next-Keeps visit rest p ps c c' true white e visits g w covered ordered later h = cc
  visit_next-Keeps visit rest p ps c c' false true e visits g w covered ordered later h =
      let (c₁, visited, go) = then_search-done rest (visit p c) c' h in
      let ((covered₁, ordered₁, grows₁, shrinks₁), here) = visits p c c₁ covered ordered visited in
      let ((covered', ordered', grows', shrinks'), met) = later c₁ covered₁ ordered₁ go in
      let there = grows' p here in
      (
        (covered', ordered', λ n k. grows' n (grows₁ n k), λ n k. shrinks₁ n (shrinks' n k)),
        ground (arith, there, met),
      )
  visit_next-Keeps visit rest p ps c c' false false e visits g w covered ordered later h =
      let ((covered', ordered', grows', shrinks'), met) = later c covered ordered h in
      elim (Bool-cases (known p)) [
        | inr unknown ↦ ((covered', ordered', grows', shrinks'), rw unknown met)
        | inl step ↦
            let here : contains_name p c.black ≡ true = ground (arith, covered p step, g, w) in
            let there = grows' p here in
            ((covered', ordered', grows', shrinks'), ground (arith, there, met))
      ]

  visit_all-Keeps :
      (visit : String → Colours → Search) (path ps : List String) (c c' : Colours)
      → Visits visit
      → Covered c
      → IsOrdered c.black
      → visit_all visit path ps c ≡ done c'
      → Keeps c c' × (all (is_met c'.black) ps ≡ true)
  unfolding visit_all
  visit_all-Keeps visit path [] c c' visits covered ordered h =
      let same : c ≡ c' = cc h in rw (← same) ((covered, ordered, λ n k. k, λ n k. k), refl)
  visit_all-Keeps visit path (p ∷ ps) c c' visits covered ordered h =
      visit_next-Keeps visit (visit_all visit path ps) p ps c c' (is_gray p c) (is_white p c)
        (cycle_error p path) visits refl refl covered ordered
        (λ c₁ covered₁ ordered₁. visit_all-Keeps visit path ps c₁ c' visits covered₁ ordered₁) h

  enter-Covered : (p : String) (c : Colours) → Covered c → Covered (enter p c)
  enter-Covered p c covered n step =
      rw (get_or-insert p n false false c.white)
        (rw (get_or-insert p n true false c.gray) (ground (arith, covered n step)))

  leave-Covered : (p : String) (c : Colours) → Covered c → Covered (leave p c)
  leave-Covered p c covered n step =
      rw (get_or-insert p n false false c.gray) (ground (arith, covered n step))

  leave-Shrinks :
      (p : String) (c c₂ : Colours) (n : String)
      → Shrinks (enter p c) c₂
      → is_gray n (leave p c₂) ≡ true
      → is_gray n c ≡ true
  leave-Shrinks p c c₂ n shrinks k = elim (Bool-cases (p == n)) [
    | inl same ↦ let h = rw (get_or-insert p n false false c₂.gray) at k in ground (arith, same, h)
    | inr other ↦
        let still : is_gray n c₂ ≡ true =
          rw other at (rw (get_or-insert p n false false c₂.gray) at k) in
        rw other at (rw (get_or-insert p n true false c.gray) at (shrinks n still))
  ]

  pub dfs-Visits : (fuel : ℕ) (path : List String) → Visits (dfs fuel graph path)
  unfolding dfs
  dfs-Visits zero path p c c' covered ordered h = cc
  dfs-Visits (suc fuel) path p c c' covered ordered h =
      let inner = path ++ p ∷ [] in
      let ps = get_or p [] graph in
      let (c₂, visited, left) =
        then_search-done (leaving p) (visit_all (dfs fuel graph inner) inner ps (enter p c)) c' h in
      let same : leave p c₂ ≡ c' = cc left in
      let ((covered₂, ordered₂, grows₂, shrinks₂), met) =
        visit_all-Keeps (dfs fuel graph inner) inner ps (enter p c) c₂ (dfs-Visits fuel inner)
          (enter-Covered p c covered) ordered visited in
      rw (← same) (
        (
          leave-Covered p c₂ covered₂,
          (met, ordered₂),
          λ n k. ground (arith, grows₂ n k),
          λ n k. leave-Shrinks p c c₂ n shrinks₂ k,
        ),
        ground (arith, eq_refl p),
      )
