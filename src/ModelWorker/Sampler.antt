-- ===== src/ModelWorker/Sampler.antt =====
-- runtime/worker/llm_worker/models/sampler.py: greedy choice or sampling of the next tokens.
use lmserve.Prelude.{
  ℕ, ◌≡◌, refl, Bool, not, ◌&&◌, List, [], ◌∷◌, map, none, some, ◌==◌, if◌then◌else◌, length,
  length-map, get_elem?, Result, ok, raise, index_error, arith, Bool-cases, Option-cases,
  Result-cases, inl, inr, ◌∙◌,
}

-- The sampling parameters; of the two floats only whether they are 0 matters here.
pub record SamplingParams : Type 0 where
  pub top_k : ℕ
  pub top_p_is_zero : Bool
  pub temperature_is_zero : Bool

-- The functions of torch and flashinfer on rows of logits: `softmax(-1)`, `torch.max` of a row, and
-- `top_k_top_p_sampling_from_logits` of all rows.
pub record SamplerOps (Row Prob : Type 0) : Type 0 where
  pub softmax : Row → List Prob
  pub max : List Prob → Prob × ℕ
  pub top_k_top_p : List Row → List ℕ

module _ {Row Prob : Type 0} (ops : SamplerOps Row Prob) where
  -- `torch.gather(all_probs, -1, output_ids.unsqueeze(-1)).squeeze(-1)`
  unfoldable pub gather_probs : List (List Prob) → List ℕ → Result (List Prob)
  gather_probs rows [] = ok []
  gather_probs [] (i ∷ is) = raise index_error
  gather_probs (row ∷ rows) (i ∷ is) =
      let rest = gather_probs rows is in
      elim (get_elem? row i) [
        | none ↦ raise index_error
        | some p ↦ elim rest [ raise e ↦ raise e | ok ps ↦ ok (p ∷ ps) ]
      ]

  -- The output ids and their probabilities.
  unfoldable pub sample : SamplingParams → List Row → Result (List ℕ × List Prob)
  unfolding gather_probs
  sample params logits =
      let all_probs = map ops.softmax logits in
      if not (params.top_k == 1) && not params.top_p_is_zero && not params.temperature_is_zero
      then (let output_ids = ops.top_k_top_p logits in
          elim (gather_probs all_probs output_ids) [
            | raise e ↦ raise e
            | ok probs ↦ ok (output_ids, probs)
          ])
      else ok (map (λ row. (ops.max row).1) all_probs, map (λ row. (ops.max row).0) all_probs)

  -- What the sampling kernel promises: one id for each row, that has a probability.
  pub record Samples (logits : List Row) : Type 0 where
    pub count : length (ops.top_k_top_p logits) ≡ length logits
    pub chosen :
        (probs : List Prob) × (gather_probs (map ops.softmax logits) (ops.top_k_top_p logits)
          ≡ ok probs)

  length-gather_probs :
      (rows : List (List Prob)) (is : List ℕ) (ps : List Prob)
      → gather_probs rows is ≡ ok ps
      → length ps ≡ length is
  unfolding gather_probs
  length-gather_probs rows [] ps h = ground arith
  length-gather_probs [] (i ∷ is) ps h = ground arith
  length-gather_probs (row ∷ rows) (i ∷ is) ps h = elim (Option-cases (get_elem? row i)) [
    | inl x ↦ ground (arith, x)
    | inr (a, x) ↦ elim (Result-cases (gather_probs rows is)) [
      | inl (e, y) ↦ ground (arith, x, y)
      | inr (qs, y) ↦ ground (arith, x, y, length-gather_probs rows is qs y)
    ]
  ]

  -- Sampling gives one id and one probability for each row.
  pub sample-total :
      (params : SamplingParams) (logits : List Row)
      → Samples logits
      → (ids : List ℕ) × (probs : List Prob) × (sample params logits ≡ ok (ids, probs))
        × (length ids ≡ length logits)
        × (length probs ≡ length logits)
  unfolding sample
  sample-total params logits h =
      let all_probs = map ops.softmax logits in
      elim (Bool-cases
        (not (params.top_k == 1) && not params.top_p_is_zero && not params.temperature_is_zero)) [
          | inl x ↦ (
            ops.top_k_top_p logits,
            h.chosen.0,
            rw (x, h.chosen.1) refl,
            h.count,
            length-gather_probs all_probs (ops.top_k_top_p logits) h.chosen.0 h.chosen.1 ∙ h.count,
          )
          | inr x ↦ (
            map (λ row. (ops.max row).1) all_probs,
            map (λ row. (ops.max row).0) all_probs,
            rw x refl,
            length-map (λ row. (ops.max row).1) all_probs ∙ length-map ops.softmax logits,
            length-map (λ row. (ops.max row).0) all_probs ∙ length-map ops.softmax logits,
          )
        ]
