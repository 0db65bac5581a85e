-- ===== src/Kernels/Tests.antt =====
-- Two blocks out of one and one out of another, in two layers of blocks of three numbers, by lanes of two.
use lmserve.Prelude.{
  ℕ, zero, suc, ◌+◌, ◌*◌, ◌<◌, ◌≡◌, ◌≢◌, refl, sym, subst, inl, inr, List, [], ◌∷◌, arith, All,
}
use lmserve.KvWorker.Store.{Entry}
use lmserve.KvWorker.Contents.{source_of, pick}
use lmserve.Kernels.{num_copy_blocks, run_programs}
use lmserve.Kernels.Pairs.{In, copies, maps_of}
use lmserve.Kernels.Programs.{cell}
use lmserve.Kernels.Grid.{IsSafe}
use lmserve.Kernels.AnyOrder.{run_programs-any_order}

abbrev items : List (ℕ × List ℕ)
items = (0, 2 ∷ 3 ∷ []) ∷ (4, 1 ∷ []) ∷ []

abbrev beyond : ℕ → ℕ
beyond a = 0

abbrev programs : List (ℕ × ℕ)
programs = (1, 2) ∷ (0, 1) ∷ (1, 0) ∷ (0, 0) ∷ (1, 1) ∷ (0, 2) ∷ []

abbrev memory : ℕ → ℕ
memory a = 100 + a

program : Unit {0}
unfolding copies num_copy_blocks run_programs source_of
program = tt

-- Block 3 of layer 1 ends as block 0 of layer 1 was.
run :
    run_programs (maps_of items beyond) 15 3 2 programs memory (cell 5 3 1 3 2)
    ≡ memory (cell 5 3 1 0 2)
unfolding program
run = refl

All-In : {A : Type 0} (P : A → Type 0) (xs : List A) (a : A) → All P xs → In a xs → P a
All-In P [] a h at = absurd at
All-In P (x ∷ xs) a h (inl e) = subst P (sym e) h.0
All-In P (x ∷ xs) a h (inr at) = All-In P xs a h.1 at

abbrev es : List Entry
es =
    record { src_block_id = 0; dst_block_id = 2 }
    ∷ record { src_block_id = 0; dst_block_id = 3 }
    ∷ record { src_block_id = 4; dst_block_id = 1 }
    ∷ []

in_range : All (λ e. (e.src_block_id < 5) × (e.dst_block_id < 5)) es
in_range = omega arith

no_chain : All (λ e. All (λ e'. e.src_block_id ≢ e'.dst_block_id) es) es
no_chain = omega arith

one_source :
    All (λ e. All (λ e'. e.dst_block_id ≡ e'.dst_block_id → e.src_block_id ≡ e'.src_block_id) es) es
one_source = omega arith

safe : IsSafe 5 es
safe = record {
  range = λ e at. All-In (λ e. (e.src_block_id < 5) × (e.dst_block_id < 5)) es e in_range at;
  apart = λ e e' at at'.
      All-In (λ e'. e.src_block_id ≢ e'.dst_block_id) es e'
        (All-In (λ e. All (λ e'. e.src_block_id ≢ e'.dst_block_id) es) es e no_chain at) at';
}

single :
    (e e' : Entry)
    → In e es
    → In e' es
    → e.dst_block_id ≡ e'.dst_block_id
    → e.src_block_id ≡ e'.src_block_id
single e e' at at' =
    All-In (λ e'. e.dst_block_id ≡ e'.dst_block_id → e.src_block_id ≡ e'.src_block_id) es e'
      (All-In
        (λ e. All (λ e'. e.dst_block_id ≡ e'.dst_block_id → e.src_block_id ≡ e'.src_block_id) es) es
        e one_source at)
      at'

valid : All (λ p. p.1 < num_copy_blocks items) programs
unfolding program
valid = omega arith

complete : (i : ℕ) → i < num_copy_blocks items → In (1, i) programs
unfolding program
complete zero h = inr (inr (inl refl))
complete (suc zero) h = inr (inr (inr (inr (inl refl))))
complete (suc (suc zero)) h = inl refl
complete (suc (suc (suc i))) h = absurd (omega arith)

run_programs-any_order_example :
    run_programs (maps_of items beyond) (5 * 3) 3 2 programs memory (cell 5 3 1 3 2)
    ≡ pick (source_of (copies items) 3) (memory (cell 5 3 1 3 2)) (λ a. memory (cell 5 3 1 a 2))
unfolding copies
run_programs-any_order_example =
    run_programs-any_order items beyond 5 3 2 memory programs 1 3 2 (omega arith) safe single valid
      complete (omega arith) (omega arith)
