-- ===== src/Loading/LoadTests.antt =====
-- Two checkpoints with an embedding and a head, on the second of two ranks.
use lmserve.Prelude.{
  ℕ, ◌+◌, ◌≡◌, refl, true, false, List, [], ◌∷◌, none, some, if◌then◌else◌, Result, ok,
}
use lmserve.Loading.Files.{same_text}
use lmserve.Loading.Shards.{
  Weight, matrix, vocab_parallel_embedding, column_parallel_linear, same_shape,
}
use lmserve.Loading.Names.{
  codes, Classes, Params, load_param, llama_target, opt_target, llama_load_weights,
  qwen2_load_weights, opt_load_weights,
}
use lmserve.Loading.Checkpoint.{kept, loaded_table, tied_table}
use lmserve.Loading.LoadModels.{
  CopiesShape, llama_load_weights-tied_table, opt_load_weights-tied_table,
}

program : Unit {0}
unfolding llama_load_weights opt_load_weights load_param kept loaded_table same_shape
program = tt

abbrev lm_head : List ℕ
lm_head = codes "lm_head.weight"

-- A row for each word.
abbrev table_of : ℕ → Weight ℕ
table_of n = matrix 1 ((n ∷ []) ∷ ((n + 1) ∷ []) ∷ [])

abbrev whole : ℕ → Weight ℕ
whole n = matrix 1 ((n ∷ []) ∷ ((n + 1) ∷ []) ∷ ((n + 2) ∷ []) ∷ ((n + 3) ∷ []) ∷ [])

abbrev params_with : List ℕ → Params ℕ
params_with embed n =
    if same_text lm_head n
    then some (table_of 100)
    else if same_text embed n
    then some (table_of 200)
    else none

classes : Classes
unfolding same_text
classes n =
    if same_text (codes "lm_head") n then ok column_parallel_linear else ok vocab_parallel_embedding

abbrev copy : Weight ℕ → Weight ℕ → Result (Weight ℕ)
copy old new = ok new

copies : CopiesShape copy
copies old new h = refl

abbrev llama_embed : List ℕ
llama_embed = codes "model.embed_tokens.weight"

abbrev llama_weights : List (List ℕ × Weight ℕ)
llama_weights =
    (llama_embed, whole 20) ∷ (codes "model.layers.0.self_attn.rotary_emb.inv_freq", whole 30) ∷ []

llama_load_weights-tied_table_example :
    (params : Params ℕ) × (llama_load_weights copy classes 1 true llama_weights
        (params_with llama_embed)
      ≡ ok params)
    × (qwen2_load_weights copy classes 1 true llama_weights (params_with llama_embed) ≡ ok params)
    × ((n : List ℕ)
        → params n
          ≡ tied_table true lm_head llama_embed
              (loaded_table classes 1 (params_with llama_embed) (kept llama_target llama_weights))
              n)
unfolding program classes
llama_load_weights-tied_table_example =
    llama_load_weights-tied_table copy copies classes 1 true llama_weights (params_with llama_embed)
      (tt, tt) ((table_of 22, refl), tt)
      (record {
        old = table_of 100;
        new = table_of 22;
        has_to = refl;
        has_source = refl;
        shapes = refl;
      })

abbrev opt_embed : List ℕ
opt_embed = codes "model.decoder.embed_tokens.weight"

abbrev opt_weights : List (List ℕ × Weight ℕ)
opt_weights =
    (codes "decoder.embed_tokens.weight", whole 20) ∷ (codes "lm_head.weight", whole 10) ∷ []

-- The embeddings are not tied, and yet the head ends as the embedding.
opt_load_weights-tied_table_example :
    (params : Params ℕ) × (opt_load_weights copy classes 1 false opt_weights (params_with opt_embed)
      ≡ ok params)
    × ((n : List ℕ)
        → params n
          ≡ tied_table true lm_head opt_embed
              (loaded_table classes 1 (params_with opt_embed) (kept (opt_target false) opt_weights))
              n)
unfolding program classes
opt_load_weights-tied_table_example =
    opt_load_weights-tied_table copy copies classes 1 false opt_weights (params_with opt_embed)
      ((refl, tt), (tt, tt)) ((table_of 22, refl), ((table_of 12, refl), tt))
      (record {
        old = table_of 12;
        new = table_of 22;
        has_to = refl;
        has_source = refl;
        shapes = refl;
      })
