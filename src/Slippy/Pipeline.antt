-- ===== src/Slippy/Pipeline.antt =====
-- slippy/pipeline_config.go: the configuration of a pipeline, its validation and its lookups.
pub mod Config
pub mod Names
pub mod Cycles
pub mod Validate
