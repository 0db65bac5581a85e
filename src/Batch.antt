-- ===== src/Batch.antt =====
-- The batch that one forward pass runs on: `_make_inputs` and the two `build_*_wrapper` functions
-- of runtime/worker/llm_worker/model_worker.py, and what the model and the attention layer read
-- from it.
pub mod Inputs
pub mod Pages
pub mod Make
pub mod Order
pub mod Collect
pub mod Layout
pub mod Paging
pub mod Positions
pub mod Tests
