-- ===== src/Argo/Canary.antt =====
-- argocdclient/canary_evidence.go: whether a Rollout that was aborted had moved past a step that
-- gave its canary traffic.
pub mod Entries
pub mod Evidence
pub mod Sound
use go_lib_my_carrier.Base.{
  ℕ, zero, suc, Bool, true, false, ◌&&◌, ◌||◌, not, Option, none, some, String, ◌==◌, List, [], ◌∷◌,
  drop, ltb, if◌then◌else◌, contains,
}
use go_lib_my_carrier.Argo.Integer.{ℤ, lt_int, int_eq, max_int, minus_one, int32}
use go_lib_my_carrier.Argo.Rollout.{CanaryStep, StepPluginStatus, or_int}

pub record CanaryEvidence : Type 0 where
  pub steps : List CanaryStep
  pub barrier_plugin : String
  pub step_plugin_statuses : List StepPluginStatus
  pub current_step_index : Option ℤ
  pub message : String
  pub paused_at : Option ℕ

abbrev pub step_analysis_abort : String
step_analysis_abort = "Step-based analysis phase error/failed"

-- What the loop over the entries of plugins keeps. `finished` is the map of times, with nil where
-- it has no key.
pub record Barriers : Type 0 where
  pub reached : ℤ
  pub last : ℤ
  pub finished : ℤ → Option ℕ

abbrev pub set_at : ℤ → Option ℕ → (ℤ → Option ℕ) → ℤ → Option ℕ
set_at k v f j = if int_eq k j then v else f j

-- A Run entry of the plugin whose steps are barriers.
abbrev pub is_barrier : String → StepPluginStatus → Bool
is_barrier plugin p = p.name == plugin && p.operation == "Run"

abbrev pub is_passed : String → StepPluginStatus → Bool
is_passed plugin p = is_barrier plugin p && p.phase == "Successful"

unfoldable pub read_entry : String → StepPluginStatus → Barriers → Barriers
read_entry plugin p b =
    if not (is_barrier plugin p)
    then b
    else if p.phase == "Successful"
    then record {
      reached = max_int b.reached p.index;
      last = max_int b.last p.index;
      finished = set_at p.index p.finished_at b.finished;
    }
    else record b { reached = max_int b.reached p.index }

unfoldable pub read_entries : String → List StepPluginStatus → Barriers → Barriers
unfolding read_entry
read_entries plugin [] b = b
read_entries plugin (p ∷ ps) b = read_entries plugin ps (read_entry plugin p b)

-- Before any entry is read.
abbrev pub no_barriers : Option ℤ → Barriers
no_barriers index = record {
  reached = or_int minus_one index;
  last = minus_one;
  finished = λ k. none;
}

abbrev pub gives_traffic : CanaryStep → Bool
gives_traffic step = lt_int (ℤ.pos 0) step.set_weight

-- The loop over the steps, the first of them at index `i`.
unfoldable pub weighted_before : ℤ → ℕ → List CanaryStep → Bool
unfolding int32
weighted_before reached i [] = false
weighted_before reached i (step ∷ steps) =
    (gives_traffic step && lt_int (int32 i) reached) || weighted_before reached (suc i) steps

-- `int(last) + 1`. `last` is never below -1.
abbrev pub after : ℤ → ℕ
after (ℤ.pos n) = suc n
after (ℤ.negsuc n) = 0

-- The loop that stops at a step that waits.
unfoldable pub weighted_before_wait : List CanaryStep → Bool
weighted_before_wait [] = false
weighted_before_wait (step ∷ steps) =
    let later = weighted_before_wait steps in
    if gives_traffic step then true else if step.waits then false else later

-- `pausedAfter`.
unfoldable pub paused_after : Option ℕ → Option ℕ → Bool
paused_after none finished = false
paused_after (some p) none = false
paused_after (some p) (some f) = ltb f p

-- The abort of a step analysis, or a pause that began after the last barrier.
unfoldable pub stopped_later : CanaryEvidence → Barriers → Bool
unfolding contains paused_after
stopped_later e b =
    contains e.message step_analysis_abort || paused_after e.paused_at (b.finished b.last)

-- `MovedPastTrafficStep`.
unfoldable pub moved_past_traffic_step : CanaryEvidence → Bool
unfolding read_entries weighted_before weighted_before_wait
moved_past_traffic_step e =
    let b =
      read_entries e.barrier_plugin e.step_plugin_statuses (no_barriers e.current_step_index) in
    if weighted_before b.reached 0 e.steps
    then true
    else if not (stopped_later e b)
    then false
    else weighted_before_wait (drop (after b.last) e.steps)
