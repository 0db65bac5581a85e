-- ===== src/Batch/Pages.antt =====
-- The page tables of a batch: `build_prefill_wrapper`, `build_decode_wrapper`, and the loop over
-- all inputs at the end of `_make_inputs`. A wrapper of flashinfer is the arguments of its `plan`.
use lmserve.Prelude.{
  ℕ, ◌+◌, ◌-◌, ◌%◌, Bool, true, List, [], ◌∷◌, ◌++◌, ◌==◌, if◌then◌else◌, length, Result, ok, raise,
  ◌>>=◌, ◌>>◌, guard, assertion_error, zero_division_error,
}
use lmserve.Batch.Inputs.{InferInput}

-- `((seqlen_k - 1) % page_size) + 1`. Python's `%` takes the sign of the divisor, so `-1 % p` is
-- `p - 1`; the modulus is added first, since `-` on ℕ stops at 0.
unfoldable pub last_block_len : ℕ → ℕ → Result ℕ
last_block_len seqlen_k page_size =
    if page_size == 0
    then raise zero_division_error
    else ok ((seqlen_k + page_size - 1) % page_size + 1)

-- `np.cumsum` after `acc`
unfoldable pub cumsum_from : ℕ → List ℕ → List ℕ
cumsum_from acc [] = []
cumsum_from acc (x ∷ xs) = (acc + x) ∷ cumsum_from (acc + x) xs

-- `np.cumsum([0] + xs)`
unfoldable pub cumsum : List ℕ → List ℕ
unfolding cumsum_from
cumsum xs = cumsum_from 0 (0 ∷ xs)

-- The lists that each loop over inputs fills.
pub record PageLists : Type 0 where
  pub kv_block_indices : List ℕ
  pub num_blocks_per_seqs : List ℕ
  pub kv_last_block_lens : List ℕ

abbrev pub empty_pages : PageLists
empty_pages = record { kv_block_indices = []; num_blocks_per_seqs = []; kv_last_block_lens = [] }

unfoldable pub add_pages : ℕ → PageLists → InferInput → Result PageLists
unfolding last_block_len
add_pages page_size acc d = do
  last ← last_block_len d.context_len page_size
  ok (record {
    kv_block_indices = acc.kv_block_indices ++ d.block_ids;
    num_blocks_per_seqs = acc.num_blocks_per_seqs ++ length d.block_ids ∷ [];
    kv_last_block_lens = acc.kv_last_block_lens ++ last ∷ [];
  })

-- The loop of `_make_inputs` over all inputs, and that of `build_prefill_wrapper` over the
-- prefills.
unfoldable pub page_loop : ℕ → List InferInput → PageLists → Result PageLists
unfolding add_pages
page_loop page_size [] acc = ok acc
page_loop page_size (d ∷ ds) acc = do acc' ← add_pages page_size acc d; page_loop page_size ds acc'

-- The loop of `build_decode_wrapper`, with its assertion.
unfoldable pub decode_loop : ℕ → List InferInput → PageLists → Result PageLists
unfolding add_pages
decode_loop page_size [] acc = ok acc
decode_loop page_size (d ∷ ds) acc = do
  guard (d.input_len == 1) assertion_error
  acc' ← add_pages page_size acc d
  decode_loop page_size ds acc'

-- The head counts that both wrappers are given.
pub record Heads : Type 0 where
  pub num_qo_heads : ℕ
  pub num_kv_heads : ℕ
  pub head_dim : ℕ

pub record PrefillWrapper : Type 0 where
  pub qo_indptr : List ℕ
  pub paged_kv_indptr : List ℕ
  pub paged_kv_indices : List ℕ
  pub paged_kv_last_page_len : List ℕ
  pub heads : Heads
  pub page_size : ℕ
  pub causal : Bool

pub record DecodeWrapper : Type 0 where
  pub indptr : List ℕ
  pub indices : List ℕ
  pub last_page_len : List ℕ
  pub heads : Heads
  pub page_size : ℕ

-- The list of `data.input_len` that the prefill loop also fills.
unfoldable pub input_lens : List InferInput → List ℕ
input_lens [] = []
input_lens (d ∷ ds) = d.input_len ∷ input_lens ds

unfoldable pub build_prefill_wrapper : List InferInput → Heads → ℕ → Result PrefillWrapper
unfolding page_loop cumsum input_lens
build_prefill_wrapper inputs heads page_size = do
  pages ← page_loop page_size inputs empty_pages
  ok (record {
    qo_indptr = cumsum (input_lens inputs);
    paged_kv_indptr = cumsum pages.num_blocks_per_seqs;
    paged_kv_indices = pages.kv_block_indices;
    paged_kv_last_page_len = pages.kv_last_block_lens;
    heads = heads;
    page_size = page_size;
    causal = true;
  })

unfoldable pub build_decode_wrapper : List InferInput → Heads → ℕ → Result DecodeWrapper
unfolding decode_loop cumsum
build_decode_wrapper inputs heads page_size = do
  pages ← decode_loop page_size inputs empty_pages
  ok (record {
    indptr = cumsum pages.num_blocks_per_seqs;
    indices = pages.kv_block_indices;
    last_page_len = pages.kv_last_block_lens;
    heads = heads;
    page_size = page_size;
  })
