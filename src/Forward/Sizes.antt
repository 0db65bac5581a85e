-- ===== src/Forward/Sizes.antt =====
-- The sizes that `__init__` of `LlamaAttention`, `Qwen2Attention` and `OPTAttention` computes for one
-- rank.
use lmserve.Prelude.{
  ℕ, ◌+◌, ◌*◌, Bool, ◌&&◌, Option, none, some, ◌/◌, ◌%◌, ◌==◌, not, if◌then◌else◌, Result, ok,
  raise, ◌>>◌, guard, assertion_error, value_error, zero_division_error,
}
use lmserve.Forward.Opt.{offset}

-- `assert a % b == 0`
unfoldable pub assert_divides : ℕ → ℕ → Result (Unit {0})
assert_divides a b =
    if b == 0 then raise zero_division_error else guard (a % b == 0) assertion_error

-- `head_dim ** -0.5`, which 0 has not; the value is a parameter of the kernels.
unfoldable pub scaling : ℕ → Result (Unit {0})
scaling head_dim = guard (not (head_dim == 0)) zero_division_error

-- The heads of one rank, and the widths of the projections before they are cut between the ranks.
pub record AttentionSizes : Type 0 where
  pub num_heads : ℕ
  pub num_kv_heads : ℕ
  pub head_dim : ℕ
  pub q_size : ℕ
  pub kv_size : ℕ

abbrev pub attention_sizes : ℕ → ℕ → ℕ → ℕ → AttentionSizes
attention_sizes hidden_size num_heads num_kv_heads tp_size = record {
  num_heads = num_heads / tp_size;
  num_kv_heads = num_kv_heads / tp_size;
  head_dim = hidden_size / num_heads;
  q_size = num_heads * (hidden_size / num_heads);
  kv_size = num_kv_heads * (hidden_size / num_heads);
}

-- `LlamaAttention.__init__`
unfoldable pub llama_attention_init : ℕ → ℕ → ℕ → ℕ → Result AttentionSizes
unfolding assert_divides scaling
llama_attention_init hidden_size num_heads num_kv_heads tp_size = do
  assert_divides hidden_size num_heads
  assert_divides num_heads num_kv_heads
  assert_divides num_heads tp_size
  assert_divides num_kv_heads tp_size
  scaling (hidden_size / num_heads)
  ok (attention_sizes hidden_size num_heads num_kv_heads tp_size)

-- `Qwen2Attention.__init__`
unfoldable pub qwen2_attention_init : ℕ → ℕ → ℕ → ℕ → Result AttentionSizes
unfolding assert_divides scaling
qwen2_attention_init hidden_size num_heads num_kv_heads tp_size = do
  assert_divides hidden_size num_heads
  assert_divides num_heads num_kv_heads
  assert_divides num_heads tp_size
  assert_divides num_kv_heads tp_size
  scaling (hidden_size / num_heads)
  ok (attention_sizes hidden_size num_heads num_kv_heads tp_size)

-- `OPTAttention.__init__`; `Attention` gives it as many key and value heads as query heads.
unfoldable pub opt_attention_init : ℕ → ℕ → ℕ → Result AttentionSizes
unfolding assert_divides scaling
opt_attention_init hidden_size num_heads tp_size = do
  assert_divides hidden_size num_heads
  assert_divides num_heads tp_size
  guard (hidden_size / num_heads * num_heads == hidden_size) value_error
  scaling (hidden_size / num_heads)
  ok (record {
    num_heads = num_heads / tp_size;
    num_kv_heads = num_heads / tp_size;
    head_dim = hidden_size / num_heads;
    q_size = hidden_size;
    kv_size = hidden_size;
  })

-- What `OPTDecoder.__init__` reads from the configuration.
pub record OptConfig : Type 0 where
  pub max_position_embeddings : ℕ
  pub word_embed_proj_dim : ℕ
  pub hidden_size : ℕ
  pub do_layer_norm_before : Bool
  pub remove_final_layer_norm : Bool
  pub num_hidden_layers : ℕ

-- The parts of the decoder: the rows of the table of positions, the width of an embedding, the widths
-- into and out of the two projections, and the width of the last norm.
pub record OptParts : Type 0 where
  pub num_positions : ℕ
  pub embed_width : ℕ
  pub project_out : Option (ℕ × ℕ)
  pub project_in : Option (ℕ × ℕ)
  pub final_layer_norm : Option ℕ
  pub num_layers : ℕ

-- `OPTDecoder.__init__`, with that of `OPTPositionalEmbedding`
unfoldable pub opt_decoder_init : OptConfig → OptParts
opt_decoder_init c = record {
  num_positions = c.max_position_embeddings + offset;
  embed_width = c.word_embed_proj_dim;
  project_out =
      if not (c.word_embed_proj_dim == c.hidden_size)
      then some (c.hidden_size, c.word_embed_proj_dim)
      else none;
  project_in =
      if not (c.word_embed_proj_dim == c.hidden_size)
      then some (c.word_embed_proj_dim, c.hidden_size)
      else none;
  final_layer_norm =
      if c.do_layer_norm_before && not c.remove_final_layer_norm then some c.hidden_size else none;
  num_layers = c.num_hidden_layers;
}
