-- ===== src/ModelWorker.antt =====
-- The rest of `ModelWorker` of runtime/worker/llm_worker/model_worker.py: sampling, one call of
-- `execute`, and the sizes of the caches.
pub mod Modules
pub mod Words
pub mod Trees
pub mod Hooks
pub mod Sampler
pub mod Execute
pub mod Outputs
pub mod Execution
mod Tests
