-- ===== src/Slippy/Client/Prereqs/Verdict.antt =====
-- slippy/prereqs.go: what the loop of `CheckPrerequisites` comes to.
use go_lib_my_carrier.Base.{
  ◌≡◌, refl, sym, append-nil, append_assoc, ◌∙◌, Bool, not, ◌&&◌, ◌||◌, Option, String, ◌==◌, List,
  [], ◌∷◌, ◌++◌, map, arith, if◌then◌else◌, any, all, keep, Bool-cases, inl, inr,
}
use go_lib_my_carrier.Slippy.Status.{StepStatus, PrereqStatus, step_is_success, step_is_failure}
use go_lib_my_carrier.Slippy.Types.{Slip}
use go_lib_my_carrier.Slippy.Pipeline.Config.{PipelineConfig}
use go_lib_my_carrier.Slippy.Client.Prereqs.{
  PrereqResult, no_prereqs, trim_space, get_prereq_status, unless_failed, classify, check_from,
  check_prerequisites,
}

-- The names that are looked at.
abbrev pub names_of : List String → List String
names_of ps = keep (λ p. not (p == "")) (map trim_space ps)

-- The verdict on what is left, from the status so far.
abbrev verdict : Bool → Bool → PrereqStatus → PrereqStatus
verdict any_failed all_succeeded s =
    if any_failed then PrereqStatus.failed else if all_succeeded then s else unless_failed s

abbrev status_after : StepStatus → PrereqStatus → PrereqStatus
status_after status s =
    if step_is_success status
    then s
    else if step_is_failure status
    then PrereqStatus.failed
    else unless_failed s

classify-status :
    (p : String) (status : StepStatus) (r : PrereqResult)
    → (classify p status r).status ≡ status_after status r.status
classify-status p status r = elim (Bool-cases (step_is_success status)) [
  | inl good ↦ rw good refl
  | inr rest ↦ rw rest (elim (Bool-cases (step_is_failure status)) [
    | inl bad ↦ rw bad refl
    | inr open_ ↦ rw open_ refl
  ])
]

classify-failed :
    (p : String) (status : StepStatus) (r : PrereqResult)
    → (classify p status r).failed_prereqs
      ≡ (if step_is_failure status then r.failed_prereqs ++ p ∷ [] else r.failed_prereqs)
classify-failed p status r = ground arith

verdict-after :
    (status : StepStatus) (a b : Bool) (s : PrereqStatus)
    → verdict a b (status_after status s)
      ≡ verdict (step_is_failure status || a) (step_is_success status && b) s
verdict-after status a b s = ground arith

module _ (config : Option PipelineConfig) (slip : Slip) (component : String) where
  abbrev pub succeeded : String → Bool
  succeeded p = step_is_success (get_prereq_status config slip p component)

  abbrev pub failed : String → Bool
  failed p = step_is_failure (get_prereq_status config slip p component)

  abbrev next : String → PrereqResult → PrereqResult
  next name r =
      if name == "" then r else classify name (get_prereq_status config slip name component) r

  check_from-cons :
      (p : String) (ps : List String) (r : PrereqResult)
      → check_from config slip component (p ∷ ps) r
        ≡ check_from config slip component ps (next (trim_space p) r)
  unfolding check_from
  check_from-cons p ps r = refl

  check_from-status :
      (ps : List String) (r : PrereqResult)
      → (check_from config slip component ps r).status ≡ (
          if any failed (names_of ps)
          then PrereqStatus.failed
          else if all succeeded (names_of ps)
          then r.status
          else unless_failed r.status)
  unfolding check_from
  check_from-status [] r = refl
  check_from-status (p ∷ ps) r =
      let name = trim_space p in
      let status = get_prereq_status config slip name component in
      rw (check_from-cons p ps r) (elim (Bool-cases (name == "")) [
        | inl blank ↦ rw blank (check_from-status ps r)
        | inr named ↦ rw named (
            check_from-status ps (classify name status r)
            ∙ rw (classify-status name status r) (
                verdict-after status (any failed (names_of ps)) (all succeeded (names_of ps))
                  r.status))
      ])

  check_from-failed :
      (ps : List String) (r : PrereqResult)
      → (check_from config slip component ps r).failed_prereqs
        ≡ (r.failed_prereqs ++ keep failed (names_of ps))
  unfolding check_from
  check_from-failed [] r = sym (append-nil r.failed_prereqs)
  check_from-failed (p ∷ ps) r =
      let name = trim_space p in
      let status = get_prereq_status config slip name component in
      rw (check_from-cons p ps r) (elim (Bool-cases (name == "")) [
        | inl blank ↦ rw blank (check_from-failed ps r)
        | inr named ↦ rw named (
            check_from-failed ps (classify name status r)
            ∙ rw (classify-failed name status r) (elim (Bool-cases (step_is_failure status)) [
              | inl bad ↦
                  rw bad (append_assoc r.failed_prereqs (name ∷ []) (keep failed (names_of ps)))
              | inr open_ ↦ rw open_ refl
            ]))
      ])

  -- The prerequisites have failed if one of those named has, are completed if all have succeeded, and
  -- are running otherwise, in whatever order they are given; a name that is blank is not looked at.
  pub check_prerequisites-status :
      (ps : List String)
      → (check_prerequisites config slip ps component).status ≡ (
          if any failed (names_of ps)
          then PrereqStatus.failed
          else if all succeeded (names_of ps)
          then PrereqStatus.completed
          else PrereqStatus.running)
  unfolding check_prerequisites
  check_prerequisites-status ps = check_from-status ps no_prereqs

  -- The names that the result lists as failed are those of the prerequisites that have failed, in
  -- the order given.
  pub check_prerequisites-failed :
      (ps : List String)
      → (check_prerequisites config slip ps component).failed_prereqs ≡ keep failed (names_of ps)
  unfolding check_prerequisites
  check_prerequisites-failed ps = check_from-failed ps no_prereqs
