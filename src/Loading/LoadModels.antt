-- ===== src/Loading/LoadModels.antt =====
-- The `load_weights` methods of the three language models.
use lmserve.Prelude.{
  ℕ, ◌≡◌, refl, ap, fun_ext, ◌∙◌, Bool, true, false, List, some, if◌then◌else◌, Result, ok,
}
use lmserve.Loading.Shards.{Weight, same_shape}
use lmserve.Loading.Names.{
  codes, Classes, Params, set_param, copy_param, llama_target, opt_target, llama_load_weights,
  qwen2_load_weights, opt_load_weights,
}
use lmserve.Loading.Checkpoint.{
  kept, Distinct, Loads, loaded_table, load_each-loaded_table, tied_table,
}

-- `Tensor.copy_` between tensors of one shape.
abbrev pub CopiesShape : {A : Type 0} → (Weight A → Weight A → Result (Weight A)) → Type 0
CopiesShape {A} copy = (old new : Weight A) → same_shape old new ≡ true → copy old new ≡ ok new

-- Two parameters that are there, of one shape.
pub record SameShapes {A : Type 0} (params : Params A) (to source : List ℕ) : Type 0 where
  pub old : Weight A
  pub new : Weight A
  pub has_to : params to ≡ some old
  pub has_source : params source ≡ some new
  pub shapes : same_shape old new ≡ true

module _ {A : Type 0} (copy : Weight A → Weight A → Result (Weight A)) where
  copy_param-tied_table :
      (to source : List ℕ) (params : Params A) (old new : Weight A)
      → params to ≡ some old
      → params source ≡ some new
      → copy old new ≡ ok new
      → (params' : Params A) × (copy_param copy to source params ≡ ok params')
        × ((n : List ℕ) → params' n ≡ tied_table true to source params n)
  unfolding copy_param
  copy_param-tied_table to source params old new at_to at_source copied = (
    set_param to new params,
    rw (copy_param, at_to, at_source, copied) refl,
    λ n. rw at_source refl,
  )

  -- The last statement of `load_weights`.
  tie_step :
      (copies : CopiesShape copy) (tie : Bool) (to source : List ℕ) (params : Params A)
      → SameShapes params to source
      → (params' : Params A) × ((if tie then copy_param copy to source params else ok params)
          ≡ ok params')
        × ((n : List ℕ) → params' n ≡ tied_table tie to source params n)
  tie_step copies true to source params same =
      copy_param-tied_table to source params same.old same.new same.has_to same.has_source
        (copies same.old same.new same.shapes)
  tie_step copies false to source params same = (params, refl, λ n. refl)

module _ {A : Type 0} (copy : Weight A → Weight A → Result (Weight A)) (copies : CopiesShape copy)
    (classes : Classes) (rank : ℕ) (tie : Bool) (weights : List (List ℕ × Weight A))
    (params : Params A) where
  -- If the tensors of a checkpoint that are not skipped have different names, each can be loaded into the
  -- parameter of its name, and the head and the embedding have one shape, then llama loads it: each
  -- parameter is the rank's part of the tensor of its name, or what it was before, and with tied
  -- embeddings the head is the embedding. Qwen2 ends with the same parameters.
  pub llama_load_weights-tied_table :
      Distinct (kept llama_target weights)
      → Loads classes rank params (kept llama_target weights)
      → SameShapes
          (loaded_table classes rank params (kept llama_target weights))
          (codes "lm_head.weight")
          (codes "model.embed_tokens.weight")
      → (params' : Params A) × (llama_load_weights copy classes rank tie weights params
          ≡ ok params')
        × (qwen2_load_weights copy classes rank tie weights params ≡ ok params')
        × ((n : List ℕ)
            → params' n
              ≡ tied_table tie
                  (codes "lm_head.weight")
                  (codes "model.embed_tokens.weight")
                  (loaded_table classes rank params (kept llama_target weights))
                  n)
  unfolding llama_load_weights qwen2_load_weights
  llama_load_weights-tied_table distinct loads same =
      let (looped, e, table) =
        load_each-loaded_table classes rank llama_target weights params distinct loads in
      let done = e ∙ ap ok (fun_ext table) in
      let (params', tied, values) =
        tie_step copy copies tie (codes "lm_head.weight") (codes "model.embed_tokens.weight")
          (loaded_table classes rank params (kept llama_target weights)) same in
      (params', rw done tied, rw done tied, values)

  -- OPT loads such a checkpoint, with its names in the spelling of the model, and its head is always the
  -- embedding: what a checkpoint has for the head is overwritten even if the embeddings are not tied.
  pub opt_load_weights-tied_table :
      Distinct (kept (opt_target tie) weights)
      → Loads classes rank params (kept (opt_target tie) weights)
      → SameShapes
          (loaded_table classes rank params (kept (opt_target tie) weights))
          (codes "lm_head.weight")
          (codes "model.decoder.embed_tokens.weight")
      → (params' : Params A) × (opt_load_weights copy classes rank tie weights params ≡ ok params')
        × ((n : List ℕ)
            → params' n
              ≡ tied_table true
                  (codes "lm_head.weight")
                  (codes "model.decoder.embed_tokens.weight")
                  (loaded_table classes rank params (kept (opt_target tie) weights))
                  n)
  unfolding opt_load_weights
  opt_load_weights-tied_table distinct loads same =
      let (looped, e, table) =
        load_each-loaded_table classes rank (opt_target tie) weights params distinct loads in
      let done = e ∙ ap ok (fun_ext table) in
      let (params', tied, values) =
        tie_step copy copies true (codes "lm_head.weight")
          (codes "model.decoder.embed_tokens.weight")
          (loaded_table classes rank params (kept (opt_target tie) weights)) same in
      (params', rw done tied, values)
