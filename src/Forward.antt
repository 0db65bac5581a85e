-- ===== src/Forward.antt =====
-- The forward pass over a made batch: `Attention.forward` of models/layers/attention.py, and the
-- layers of models/llama.py, models/qwen2.py and models/opt.py (paths below
-- runtime/worker/llm_worker). The kernels of flashinfer, the linear layers and the norms are
-- parameters.
pub mod Attend
pub mod Attention
pub mod Appends
pub mod Appended
pub mod Held
pub mod Passes
pub mod Hooked
pub mod Rows
pub mod Decoder
pub mod Segments
pub mod Logits
pub mod Plain
pub mod Qwen2
pub mod Qwen2Equal
pub mod Opt
pub mod Sizes
pub mod Shares
pub mod OptShares
pub mod OptLogits
mod ModelTests
pub mod Tests
pub mod AppendTests
pub mod PassesTests
