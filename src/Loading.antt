-- ===== src/Loading.antt =====
-- What a model worker sets up before the first step: the model's configuration and weights
-- (runtime/worker/llm_worker/models/__init__.py and models/utils.py), and the sizes of the caches
-- (`ModelWorker.init_cache`).
pub mod Config
pub mod Files
pub mod Shards
pub mod Names
pub mod Checkpoint
pub mod LoadModels
mod LoadTests
mod Tests
