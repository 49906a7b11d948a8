-- ===== src/Tests/Argo.antt =====
-- A run of the theorem on a Rollout that was aborted while it paused after a barrier.
use go_lib_my_carrier.Base.{ℕ, ◌≡◌, refl, true, false, some, [], ◌∷◌, arith}
use go_lib_my_carrier.Argo.Integer.{ℤ}
use go_lib_my_carrier.Argo.Rollout.{CanaryStep, StepPluginStatus}
use go_lib_my_carrier.Argo.Canary.{
  CanaryEvidence, read_entry, read_entries, weighted_before, weighted_before_wait, paused_after,
  moved_past_traffic_step,
}
use go_lib_my_carrier.Argo.Canary.Evidence.{Evidence}
use go_lib_my_carrier.Argo.Canary.Sound.{moved_past_traffic_step-Evidence}

abbrev plugin_step : CanaryStep
plugin_step = record { set_weight = ℤ.pos 0; waits = true }

abbrev traffic_step : CanaryStep
traffic_step = record { set_weight = ℤ.pos 20; waits = false }

abbrev barrier_entry : StepPluginStatus
barrier_entry = record {
  index = ℤ.pos 0;
  name = "gate";
  operation = "Run";
  phase = "Successful";
  message = "";
  finished_at = some 100;
}

-- Aborted by hand while it paused, from time `t` on.
abbrev paused_rollout : ℕ → CanaryEvidence
paused_rollout t = record {
  steps = plugin_step ∷ traffic_step ∷ plugin_step ∷ [];
  barrier_plugin = "gate";
  step_plugin_statuses = barrier_entry ∷ [];
  current_step_index = some (ℤ.pos 0);
  message = "aborted";
  paused_at = some t;
}

paused_rollout-moved : moved_past_traffic_step (paused_rollout 101) ≡ true
unfolding moved_past_traffic_step go_lib_my_carrier.Argo.Canary.stopped_later
paused_rollout-moved = refl

paused_rollout-not_moved : moved_past_traffic_step (paused_rollout 100) ≡ false
unfolding moved_past_traffic_step go_lib_my_carrier.Argo.Canary.stopped_later
paused_rollout-not_moved = refl

moved_past_traffic_step-Evidence_example : Evidence (paused_rollout 101)
moved_past_traffic_step-Evidence_example =
    moved_past_traffic_step-Evidence (paused_rollout 101) (omega arith) paused_rollout-moved
