-- ===== src/Kernels.antt =====
-- The Triton kernel of runtime/worker/llm_worker/ops/triton/cache_kernels.py that copies blocks of the GPU
-- cache, and its launch in ops/cache_ops.py. Memory is a function of addresses. Rotary is the other
-- kernel, of ops/triton/rotary_embedding.py.
use lmserve.Prelude.{
  ℕ, zero, suc, ◌+◌, ◌-◌, ◌*◌, ◌/◌, List, [], ◌∷◌, ◌++◌, Option, none, some, ltb, ◌==◌,
  if◌then◌else◌, length, get_elem?, range_from,
}
pub mod Stores
pub mod Programs
pub mod Pairs
pub mod Grid
pub mod AnyOrder
pub mod Rotary
pub mod RotaryHeads
pub mod RotaryRows
pub mod RotaryTokens
pub mod RotaryTable
pub mod RotaryNumbers
pub mod RotaryTurns
pub mod RotaryAngles
mod RotaryTests
mod Tests

-- The tensor behind a pointer: what a list holds, and anything behind its end.
abbrev pub tensor : List ℕ → (ℕ → ℕ) → ℕ → ℕ
tensor l beyond i = elim (get_elem? l i) [ none ↦ beyond i | some x ↦ x ]

-- `for dst in dsts: block_maps += [src, dst]`
unfoldable pub add_dsts : ℕ → List ℕ → List ℕ
add_dsts src [] = []
add_dsts src (dst ∷ dsts) = src ∷ dst ∷ add_dsts src dsts

-- The loop over `src_to_dst.items()`.
unfoldable pub block_maps : List (ℕ × List ℕ) → List ℕ
unfolding add_dsts
block_maps [] = []
block_maps ((src, dsts) ∷ items) = add_dsts src dsts ++ block_maps items

-- `len(block_maps) // 2`
unfoldable pub num_copy_blocks : List (ℕ × List ℕ) → ℕ
unfolding block_maps
num_copy_blocks items = length (block_maps items) / 2

-- The offsets of a block of lanes that the mask lets through.
unfoldable pub masked : ℕ → List ℕ → List ℕ
masked numel [] = []
masked numel (o ∷ os) = let rest = masked numel os in if ltb o numel then o ∷ rest else rest

module _ {A : Type 0} where
  -- `tl.store(dst + offsets, data)`, with `data` loaded from `loaded` at `src + offsets`.
  unfoldable pub store : (ℕ → A) → ℕ → ℕ → List ℕ → (ℕ → A) → ℕ → A
  store loaded src dst [] m = m
  store loaded src dst (o ∷ os) m =
      store loaded src dst os (λ a. if dst + o == a then loaded (src + o) else m a)

  -- `for i in range(0, numel_per_block, BLOCK_SIZE)`, of which `rounds` rounds are left.
  unfoldable pub copy_rounds : ℕ → ℕ → ℕ → ℕ → ℕ → ℕ → (ℕ → A) → ℕ → A
  unfolding masked store
  copy_rounds numel block_size src dst zero i m = m
  copy_rounds numel block_size src dst (suc rounds) i m =
      copy_rounds numel block_size src dst rounds (i + block_size)
        (store m src dst (masked numel (range_from i block_size)) m)

  -- `copy_blocks_kernel` of the program `(layer_idx, block_idx)`.
  unfoldable pub copy_blocks_kernel : (ℕ → ℕ) → ℕ → ℕ → ℕ → ℕ → ℕ → (ℕ → A) → ℕ → A
  unfolding copy_rounds
  copy_blocks_kernel maps numel_per_layer numel_per_block block_size layer_idx block_idx m =
      let src_block_id = maps (block_idx * 2) in
      let dst_block_id = maps (block_idx * 2 + 1) in
      let layer_kv = layer_idx * numel_per_layer in
      copy_rounds numel_per_block block_size (layer_kv + src_block_id * numel_per_block)
        (layer_kv + dst_block_id * numel_per_block)
        ((numel_per_block + block_size - 1) / block_size) 0 m

  -- The launch: the programs of the grid in the order in which they run.
  unfoldable pub run_programs : (ℕ → ℕ) → ℕ → ℕ → ℕ → List (ℕ × ℕ) → (ℕ → A) → ℕ → A
  unfolding copy_blocks_kernel
  run_programs maps numel_per_layer numel_per_block block_size [] m = m
  run_programs maps numel_per_layer numel_per_block block_size ((layer, block) ∷ programs) m =
      run_programs maps numel_per_layer numel_per_block block_size programs
        (copy_blocks_kernel maps numel_per_layer numel_per_block block_size layer block m)
