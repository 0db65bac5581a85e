-- ===== src/Warmup/Tests.antt =====
-- The warmup at a batch of three places and seven tokens.
use lmserve.Prelude.{
  ◌*◌, ◌≤◌, min, ◌≡◌, refl, List, [], ◌∷◌, map, length, sum, All, ok, raise, zero_division_error,
  arith,
}
use lmserve.Batch.Inputs.{InferInput}
use lmserve.Batch.Pages.{input_lens}
use lmserve.Batch.Collect.{IsWellFormed}
use lmserve.Batch.Positions.{IsPaged}
use lmserve.Warmup.{spread, warmup_inputs}
use lmserve.Warmup.Fit.{warmup_inputs_fit}

program : Unit {0}
unfolding warmup_inputs
program = tt

lens_run :
    map length (spread 3 0 (0 ∷ 0 ∷ 0 ∷ 0 ∷ 0 ∷ 0 ∷ 0 ∷ []) ([] ∷ [] ∷ [] ∷ [])) ≡ 3 ∷ 2 ∷ 2 ∷ []
unfolding program
lens_run = refl

no_pages : warmup_inputs 0 1 8 8 ≡ raise zero_division_error
unfolding program
no_pages = refl

warmup_inputs_fit_example :
    (ds : List InferInput) × (warmup_inputs 16 3 2048 7 ≡ ok ds)
    × (length ds ≡ 3)
    × (sum (input_lens ds) ≡ min 7 (3 * 2048))
    × All (λ d. d.input_len ≤ 2048) ds
    × All IsWellFormed ds
    × All (IsPaged 16) ds
warmup_inputs_fit_example = warmup_inputs_fit 16 3 2048 7 (omega arith) (omega arith)
