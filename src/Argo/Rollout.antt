-- ===== src/Argo/Rollout.antt =====
-- argocdclient/rollout.go: a live Rollout, and the status that is computed from it. A pointer is
-- an Option, and of a block of the step that is not read, whether it is there.
use go_lib_my_carrier.Base.{
  ℕ, zero, suc, Bool, ◌&&◌, ◌||◌, Option, none, some, String, ◌==◌, List, [], ◌∷◌, ◌++◌, map, any,
  length, leb, if◌then◌else◌, Assoc,
}
use go_lib_my_carrier.Argo.Integer.{ℤ}

pub record ResourceRef : Type 0 where
  pub group : String
  pub version : String
  pub kind : String
  pub namespace : String
  pub name : String

pub record StepPluginStatus : Type 0 where
  pub index : ℤ
  pub name : String
  pub operation : String
  pub phase : String
  pub message : String
  pub finished_at : Option ℕ

pub record CanaryStep : Type 0 where
  pub set_weight : ℤ
  pub waits : Bool

pub record ResourceNode : Type 0 where
  pub group : String
  pub version : String
  pub kind : String
  pub namespace : String
  pub name : String
  pub uid : String
  pub health : String
  pub message : String

pub record StrategyStep : Type 0 where
  pub set_weight : Option ℤ
  pub pause : Bool
  pub analysis : Bool
  pub experiment : Bool
  pub plugin : Bool

pub record Istio : Type 0 where
  pub virtual_service : Option String
  pub virtual_services : List String

pub record TrafficRouting : Type 0 where
  pub max_traffic_weight : Option ℤ
  pub istio : Option Istio
  pub managed_routes : List String

pub record CanaryStrategy : Type 0 where
  pub steps : List StrategyStep
  pub traffic_routing : Option TrafficRouting

pub record Condition : Type 0 where
  pub type : String
  pub status : String
  pub last_transition_time : Option ℕ

pub record LiveRollout : Type 0 where
  pub uid : String
  pub generation : ℤ
  pub labels : Assoc String
  pub annotations : Assoc String
  pub canary : Option CanaryStrategy
  pub blue_green : Bool
  pub phase : String
  pub current_step_index : Option ℤ
  pub abort : Bool
  pub stable_rs : String
  pub observed_gen : String
  pub current_pod_hash : String
  pub router_weight : Option ℤ
  pub step_plugin_statuses : List StepPluginStatus
  pub conditions : List Condition

pub record RolloutStatus : Type 0 where
  pub ref : ResourceRef
  pub health : String
  pub message : String
  pub phase : String
  pub current_step_index : Option ℤ
  pub aborted : Bool
  pub canary_weight : ℤ
  pub step_plugin_statuses : List StepPluginStatus
  pub canary_steps : List CanaryStep
  pub paused_at : Option ℕ
  pub uid : String
  pub stable_rs : String
  pub current_pod_hash : String
  pub labels : Assoc String
  pub annotations : Assoc String
  pub istio_virtual_services : List String
  pub managed_routes : List String
  pub strategy : String
  pub generation : ℤ
  pub observed_generation : String

abbrev pub or_int : ℤ → Option ℤ → ℤ
or_int z none = z
or_int z (some n) = n

abbrev routing_weight : Option TrafficRouting → ℤ
routing_weight none = ℤ.pos 100
routing_weight (some routing) = or_int (ℤ.pos 100) routing.max_traffic_weight

-- `maxTrafficWeight` of a canary that is there.
unfoldable pub max_traffic_weight : CanaryStrategy → ℤ
max_traffic_weight canary = routing_weight canary.traffic_routing

-- The router's weight, if a router is configured and reports one.
abbrev pub reported : Option TrafficRouting → Option ℤ → Option ℤ
reported none w = none
reported (some routing) w = w

-- The last setWeight of the first steps, `n` of them, and 0 if they set none.
unfoldable pub last_set_weight : ℕ → List StrategyStep → ℤ → ℤ
last_set_weight zero steps w = w
last_set_weight (suc n) [] w = w
last_set_weight (suc n) (step ∷ steps) w = last_set_weight n steps (or_int w step.set_weight)

-- The weight while the current step is `index`. Below 0, no step is at or before it.
unfoldable pub weight_at : ℤ → CanaryStrategy → Option ℤ → ℤ
unfolding max_traffic_weight last_set_weight
weight_at (ℤ.negsuc i) canary w =
    if leb (length canary.steps) 0
    then max_traffic_weight canary
    else or_int (ℤ.pos 0) (reported canary.traffic_routing w)
weight_at (ℤ.pos i) canary w =
    if leb (length canary.steps) i
    then max_traffic_weight canary
    else or_int (last_set_weight (suc i) canary.steps (ℤ.pos 0)) (reported canary.traffic_routing w)

abbrev pub weight_of : LiveRollout → Option CanaryStrategy → ℤ
unfolding weight_at
weight_of live none = ℤ.pos 0
weight_of live (some canary) =
    if live.abort
    then or_int (ℤ.pos 0) (reported canary.traffic_routing live.router_weight)
    else weight_at (or_int (ℤ.pos 0) live.current_step_index) canary live.router_weight

-- `canaryWeight`.
unfoldable pub canary_weight : LiveRollout → ℤ
canary_weight live = weight_of live live.canary

abbrev paused_in : List Condition → Option ℕ
paused_in [] = none
paused_in (c ∷ cs) =
    let later = paused_in cs in
    if c.type == "Paused" && c.status == "True" then c.last_transition_time else later

-- `pausedAt`.
unfoldable pub paused_at : LiveRollout → Option ℕ
paused_at live = paused_in live.conditions

abbrev canary_step : StrategyStep → CanaryStep
canary_step step = record {
  set_weight = or_int (ℤ.pos 0) step.set_weight;
  waits = step.pause || step.analysis || step.experiment || step.plugin;
}

-- `canarySteps`.
unfoldable pub canary_steps : Option CanaryStrategy → List CanaryStep
canary_steps none = []
canary_steps (some canary) = map canary_step canary.steps

-- `strategyOf`.
unfoldable pub strategy_of : LiveRollout → String
strategy_of live = elim live.canary [
  | some canary ↦ "canary"
  | none ↦ if live.blue_green then "blueGreen" else ""
]

-- `add`: a name that is not empty and not seen yet is appended.
abbrev pub add_name : String → List String → List String
add_name name names =
    if name == "" || any (λ n. n == name) names then names else names ++ (name ∷ [])

abbrev pub add_names : List String → List String → List String
add_names [] names = names
add_names (v ∷ vs) names = add_names vs (add_name v names)

abbrev istio_names : Option Istio → List String
istio_names none = []
istio_names (some istio) =
    add_names istio.virtual_services
      (elim istio.virtual_service [ none ↦ [] | some v ↦ add_name v [] ])

abbrev routing_of : Option CanaryStrategy → Option TrafficRouting
routing_of none = none
routing_of (some canary) = canary.traffic_routing

-- `istioVirtualServices`.
unfoldable pub istio_virtual_services : Option CanaryStrategy → List String
istio_virtual_services canary = elim (routing_of canary) [
  | none ↦ []
  | some r ↦ istio_names r.istio
]

-- `managedRoutes`.
unfoldable pub managed_routes : Option CanaryStrategy → List String
managed_routes canary = elim (routing_of canary) [ none ↦ [] | some r ↦ r.managed_routes ]

-- `newRolloutStatus`.
unfoldable pub new_rollout_status : ResourceNode → LiveRollout → RolloutStatus
unfolding canary_weight canary_steps paused_at istio_virtual_services managed_routes strategy_of
new_rollout_status node live = record {
  ref = record {
    group = node.group;
    version = node.version;
    kind = node.kind;
    namespace = node.namespace;
    name = node.name;
  };
  health = node.health;
  message = node.message;
  phase = live.phase;
  current_step_index = live.current_step_index;
  aborted = live.abort;
  canary_weight = canary_weight live;
  step_plugin_statuses = live.step_plugin_statuses;
  canary_steps = canary_steps live.canary;
  paused_at = paused_at live;
  uid = live.uid;
  stable_rs = live.stable_rs;
  current_pod_hash = live.current_pod_hash;
  labels = live.labels;
  annotations = live.annotations;
  istio_virtual_services = istio_virtual_services live.canary;
  managed_routes = managed_routes live.canary;
  strategy = strategy_of live;
  generation = live.generation;
  observed_generation = live.observed_gen;
}
