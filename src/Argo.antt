-- ===== src/Argo.antt =====
-- The package argocdclient (argocdclient/): what it computes from the state of a Rollout. Its
-- HTTP calls and the decoding of JSON are not modelled.
pub mod Integer
pub mod Rollout
pub mod Canary
