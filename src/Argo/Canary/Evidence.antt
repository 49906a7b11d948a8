-- ===== src/Argo/Canary/Evidence.antt =====
-- argocdclient/canary_evidence.go: the evidence for a step that was left behind, stated apart from
-- the loops that look for it.
use go_lib_my_carrier.Base.{
  ℕ, ◌≡◌, ◌⊎◌, Bool, true, false, none, ltb, ◌==◌, ◌&&◌, ◌||◌, not, Option, some, String, List, ◌∷◌,
  ◌++◌, length, all, Any, nat_eq, contains,
}
use go_lib_my_carrier.Argo.Integer.{ℤ, lt_int}
use go_lib_my_carrier.Argo.Rollout.{CanaryStep, StepPluginStatus}
use go_lib_my_carrier.Argo.Canary.{CanaryEvidence, after, step_analysis_abort}

abbrev pub sets_weight : CanaryStep → Bool
sets_weight step = lt_int (ℤ.pos 0) step.set_weight

-- An entry for the run of a step of the plugin.
abbrev pub is_run : String → StepPluginStatus → Bool
is_run plugin p = p.name == plugin && p.operation == "Run"

abbrev pub has_passed : String → StepPluginStatus → Bool
has_passed plugin p = is_run plugin p && p.phase == "Successful"

-- The step of a finished entry ended at a time before that of the pause.
unfoldable pub began_after : Option ℕ → Option ℕ → Bool
began_after pause none = false
began_after none (some finish) = false
began_after (some start) (some finish) = ltb finish start

-- An entry of a barrier at a step after step `i`.
abbrev pub is_later : String → ℕ → StepPluginStatus → Bool
is_later plugin i p = is_run plugin p && lt_int (ℤ.pos i) p.index

-- A barrier that has passed right before step `k`, and before a pause.
unfoldable pub is_before_pause : String → Option ℕ → ℕ → StepPluginStatus → Bool
unfolding began_after
is_before_pause plugin pause k p =
    has_passed plugin p && nat_eq (after p.index) k && began_after pause p.finished_at

-- A barrier that has passed, right before step `k`.
abbrev pub is_ending : String → ℕ → StepPluginStatus → Bool
is_ending plugin k p = has_passed plugin p && nat_eq (after p.index) k

-- No barrier at step `k` or later has passed.
abbrev pub is_unpassed : String → ℕ → StepPluginStatus → Bool
is_unpassed plugin k p = not (has_passed plugin p) || lt_int p.index (ℤ.pos k)

-- Why a step that gives traffic counts as left behind. `stopped`: `k` steps end with the last
-- barrier that has passed, and none of the steps between them and this one waits.
pub data Evidence (e : CanaryEvidence) : Type 0 where
  later_entry :
      (front rest : List CanaryStep) (step : CanaryStep)
      → e.steps ≡ front ++ (step ∷ rest)
      → sets_weight step ≡ true
      → Any (λ p. is_later e.barrier_plugin (length front) p ≡ true) e.step_plugin_statuses
      → Evidence e
  later_index :
      (front rest : List CanaryStep) (step : CanaryStep)
      → e.steps ≡ front ++ (step ∷ rest)
      → sets_weight step ≡ true
      → (index : ℤ) → e.current_step_index ≡ some index
      → lt_int (ℤ.pos (length front)) index ≡ true
      → Evidence e
  stopped :
      (front between rest : List CanaryStep) (step : CanaryStep)
      → e.steps ≡ front ++ (between ++ (step ∷ rest))
      → sets_weight step ≡ true
      → all (λ s. not s.waits) between ≡ true
      → all (is_unpassed e.barrier_plugin (length front)) e.step_plugin_statuses ≡ true
      → (length front ≡ 0)
        ⊎ Any (λ p. is_ending e.barrier_plugin (length front) p ≡ true) e.step_plugin_statuses
      → (contains e.message step_analysis_abort ≡ true)
        ⊎ Any
            (λ p. is_before_pause e.barrier_plugin e.paused_at (length front) p ≡ true)
            e.step_plugin_statuses
      → Evidence e
