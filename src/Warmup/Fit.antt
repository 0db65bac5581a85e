-- ===== src/Warmup/Fit.antt =====
-- The synthetic inputs, and are inputs that
-- `_make_inputs` accepts.
use lmserve.Prelude.{
  length-replicate, ℕ, sym, ok_inj, suc, ◌+◌, ◌-◌, ◌*◌, ◌/◌, ◌≤◌, ◌<◌, min, ◌≡◌, refl, ap, ◌∙◌,
  List, [], ◌∷◌, arith, All, length, length-range_from, replicate, range_from, sum, map, ok,
}
use lmserve.Batch.Inputs.{InferInput}
use lmserve.Batch.Pages.{input_lens}
use lmserve.Batch.Collect.{IsWellFormed}
use lmserve.Batch.Positions.{IsPaged}
use lmserve.Warmup.Spread.{
  share, share-le, share-pos, Lengths, spread-Lengths, length-spread, sum_lengths-spread,
  replicate-Lengths, sum_lengths-replicate,
}
use lmserve.Warmup.{num_total_tokens, spread, num_kv_blocks, make_infer_inputs, warmup_inputs}

abbrev input_of : ℕ → ℕ → List ℕ → InferInput
input_of bs i ids = record {
  seq_id = i;
  input_ids = ids;
  input_len = length ids;
  filled_token_len = 0;
  context_len = length ids;
  block_ids = range_from 0 ((length ids + bs - 1) / bs);
}

abbrev inputs_of : ℕ → ℕ → List (List ℕ) → List InferInput
inputs_of bs i [] = []
inputs_of bs i (l ∷ ls) = input_of bs i l ∷ inputs_of bs (suc i) ls

num_kv_blocks-ok : (n bs : ℕ) → 0 < bs → num_kv_blocks n bs ≡ ok ((n + bs - 1) / bs)
unfolding num_kv_blocks
num_kv_blocks-ok n bs h = ground arith

make_infer_inputs_closed :
    (bs i : ℕ) (ls : List (List ℕ)) → 0 < bs → make_infer_inputs bs i ls ≡ ok (inputs_of bs i ls)
unfolding make_infer_inputs
make_infer_inputs_closed bs i [] h = refl
make_infer_inputs_closed bs i (l ∷ ls) h =
    rw (num_kv_blocks-ok (length l) bs h, make_infer_inputs_closed bs (suc i) ls h)

inputs_of-IsWellFormed : (bs i : ℕ) (ls : List (List ℕ)) → All IsWellFormed (inputs_of bs i ls)
inputs_of-IsWellFormed bs i [] = tt
inputs_of-IsWellFormed bs i (l ∷ ls) =
    (record { ids = refl; context = omega arith }, inputs_of-IsWellFormed bs (suc i) ls)

inputs_of-IsPaged : (bs i : ℕ) (ls : List (List ℕ)) → All (IsPaged bs) (inputs_of bs i ls)
inputs_of-IsPaged bs i [] = tt
inputs_of-IsPaged bs i (l ∷ ls) = (length-range_from 0 _, inputs_of-IsPaged bs (suc i) ls)

inputs_of-lens : (bs i : ℕ) (ls : List (List ℕ)) → input_lens (inputs_of bs i ls) ≡ map length ls
unfolding input_lens
inputs_of-lens bs i [] = refl
inputs_of-lens bs i (l ∷ ls) = ap (◌∷◌ (length l)) (inputs_of-lens bs (suc i) ls)

length-inputs_of : (bs i : ℕ) (ls : List (List ℕ)) → length (inputs_of bs i ls) ≡ length ls
length-inputs_of bs i [] = refl
length-inputs_of bs i (l ∷ ls) = ap suc (length-inputs_of bs (suc i) ls)

inputs_of-bounded :
    (f : ℕ → ℕ) (bs k m : ℕ) (ls : List (List ℕ))
    → ((j : ℕ) → f j ≤ m)
    → Lengths f k ls
    → All (λ d. d.input_len ≤ m) (inputs_of bs k ls)
inputs_of-bounded f bs k m [] h lens = tt
inputs_of-bounded f bs k m (l ∷ ls) h lens =
    (omega (arith, lens.0, h k), inputs_of-bounded f bs (suc k) m ls h lens.1)

num_total_tokens_lem :
    (n max_seq_len max_tokens : ℕ)
    → num_total_tokens n max_seq_len max_tokens ≡ min max_tokens (n * max_seq_len)
unfolding num_total_tokens
num_total_tokens_lem n max_seq_len max_tokens = ground arith

-- With a positive page size and batch size the warmup makes one input for each place of the batch.
-- Together they have as many tokens as the token limit and the sequence limit allow, each is
-- within the sequence limit, and all are inputs that `_make_inputs` lays out and pages right.
pub warmup_inputs_fit :
    (block_size max_batch_size max_seq_len max_num_batched_tokens : ℕ)
    → 0 < block_size
    → 0 < max_batch_size
    → (ds : List InferInput) × (warmup_inputs block_size max_batch_size max_seq_len
          max_num_batched_tokens
        ≡ ok ds)
      × (length ds ≡ max_batch_size)
      × (sum (input_lens ds) ≡ min max_num_batched_tokens (max_batch_size * max_seq_len))
      × All (λ d. d.input_len ≤ max_seq_len) ds
      × All IsWellFormed ds
      × All (IsPaged block_size) ds
unfolding warmup_inputs
warmup_inputs_fit bs n seq tok hb hn =
    let total = num_total_tokens n seq tok in
    let total_lem : total ≡ min tok (n * seq) = num_total_tokens_lem n seq tok in
    let tokens : List ℕ = replicate total 0 in
    let blank : List (List ℕ) = replicate n [] in
    let lists = spread n 0 tokens blank in
    let lens : Lengths (share n (0 + length tokens)) 0 lists =
      spread-Lengths n 0 tokens blank (length-replicate n []) (replicate-Lengths n 0 n) in
    let count : length tokens ≡ total = length-replicate total 0 in
    (
      inputs_of bs 0 lists,
      make_infer_inputs_closed bs 0 lists hb,
      length-inputs_of bs 0 lists ∙ length-spread n 0 tokens blank ∙ length-replicate n [],
      rw (inputs_of-lens bs 0 lists) (
          omega (
            arith,
            sum_lengths-spread n 0 tokens blank hn (length-replicate n []),
            sum_lengths-replicate n,
          )),
      inputs_of-bounded (share n (0 + length tokens)) bs 0 seq lists
          (λ j. share-le n (0 + length tokens) j seq hn (omega arith)) lens,
      inputs_of-IsWellFormed bs 0 lists,
      inputs_of-IsPaged bs 0 lists,
    )

inputs_of-nonempty :
    (f : ℕ → ℕ) (bs k : ℕ) (ls : List (List ℕ))
    → ((j : ℕ) → 0 < f j)
    → Lengths f k ls
    → All (λ d. 0 < d.input_len) (inputs_of bs k ls)
inputs_of-nonempty f bs k [] h lens = tt
inputs_of-nonempty f bs k (l ∷ ls) h lens =
    (omega (arith, lens.0, h k), inputs_of-nonempty f bs (suc k) ls h lens.1)

-- With a token for each place no input is empty.
pub warmup_inputs-nonempty :
    (block_size max_batch_size max_seq_len max_num_batched_tokens : ℕ) (ds : List InferInput)
    → 0 < block_size
    → 0 < max_batch_size
    → 0 < max_seq_len
    → max_batch_size ≤ max_num_batched_tokens
    → warmup_inputs block_size max_batch_size max_seq_len max_num_batched_tokens ≡ ok ds
    → All (λ d. 0 < d.input_len) ds
unfolding warmup_inputs
warmup_inputs-nonempty bs n seq tok ds hb hn hs ht run =
    let total = num_total_tokens n seq tok in
    let tokens : List ℕ = replicate total 0 in
    let blank : List (List ℕ) = replicate n [] in
    let lists = spread n 0 tokens blank in
    let lens : Lengths (share n (0 + length tokens)) 0 lists =
      spread-Lengths n 0 tokens blank (length-replicate n []) (replicate-Lengths n 0 n) in
    let wide : n ≤ n * seq = grind arith in
    let enough : n ≤ total = omega (arith, num_total_tokens_lem n seq tok, wide) in
    let same : inputs_of bs 0 lists ≡ ds =
      ok_inj (sym (make_infer_inputs_closed bs 0 lists hb) ∙ run) in
    rw (← same) (
      inputs_of-nonempty (share n (0 + length tokens)) bs 0 lists
        (λ j.
          share-pos n (0 + length tokens) j hn
            (omega (arith, length-replicate {A = ℕ} total 0, enough)))
        lens)
