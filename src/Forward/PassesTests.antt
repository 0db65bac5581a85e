-- ===== src/Forward/PassesTests.antt =====
-- A prefill of one sequence, then a decode of it together with the prefill of a second one, with
-- rows of numbers.
use lmserve.Prelude.{
  ℕ, ◌+◌, ◌*◌, ◌/◌, ◌≤◌, ◌<◌, ◌≡◌, refl, sym, ◌∙◌, inl, inr, true, List, [], ◌∷◌, some, arith, All,
  get_elem?, ok,
}
use lmserve.Batch.Inputs.{InferInput}
use lmserve.Batch.Make.{MadeInputs, make_inputs}
use lmserve.Batch.Paging.{paged_spec, prefill_plan, decode_plan}
use lmserve.Batch.Order.{prefills, decodes}
use lmserve.Batch.Positions.{differences, paged_lens, append_positions, batch_indices_from}
use lmserve.Batch.Tests.{documented, documented-IsDocumented, config}
use lmserve.Forward.Attend.{attend, appended}
use lmserve.Forward.Appends.{Cache}
use lmserve.Forward.Appended.{IsSlot, new_rows}
use lmserve.Forward.Held.{Holds, Shares, attend-Holds}
use lmserve.Forward.Passes.{Continues, Continues-Holds, Pass, Passes, start, pass, Passes-Holds}
use lmserve.Forward.AppendTests.{kernels, kernels-KeepsRows, kernels-IsAppend}

abbrev one_three : InferInput
one_three = record {
  seq_id = 1;
  input_ids = 11 ∷ 12 ∷ 13 ∷ [];
  input_len = 3;
  filled_token_len = 0;
  context_len = 3;
  block_ids = 7 ∷ [];
}

abbrev one_four : InferInput
one_four = record one_three {
  input_ids = 14 ∷ [];
  input_len = 1;
  filled_token_len = 3;
  context_len = 4;
}

abbrev two : InferInput
two = record {
  seq_id = 2;
  input_ids = 21 ∷ 22 ∷ [];
  input_len = 2;
  filled_token_len = 0;
  context_len = 2;
  block_ids = 3 ∷ [];
}

abbrev kv : ℕ → ℕ → ℕ × ℕ
kv i q = (100 * i + q, 200 * i + q)

abbrev keys : List InferInput → List ℕ
keys ds = new_rows (λ i q. (kv i q).0) ds

abbrev values : List InferInput → List ℕ
values ds = new_rows (λ i q. (kv i q).1) ds

abbrev made_of : List InferInput → List ℕ → List ℕ → List ℕ → ℕ → MadeInputs
made_of sorted ids positions cu_seqlens_q prefill_input_len = record {
  inputs = sorted;
  input_ids = ids;
  params = record {
    position_ids = positions;
    cu_seqlens_q = cu_seqlens_q;
    prefill_input_len = prefill_input_len;
    paged = some (paged_spec documented config sorted);
  };
}

abbrev prefill_batch : MadeInputs
prefill_batch = made_of (one_three ∷ []) (11 ∷ 12 ∷ 13 ∷ []) (0 ∷ 1 ∷ 2 ∷ []) (0 ∷ 3 ∷ []) 3

abbrev mixed_batch : MadeInputs
mixed_batch = made_of (two ∷ one_four ∷ []) (21 ∷ 22 ∷ 14 ∷ []) (0 ∷ 1 ∷ 3 ∷ []) (0 ∷ 2 ∷ 3 ∷ []) 2

abbrev cache_after : List InferInput → Cache ℕ → Cache ℕ
cache_after ds cache =
    appended kernels (paged_spec documented config ds) (keys ds) (values ds) cache

abbrev no_entries : Cache ℕ
no_entries = λ b o. (0, 0)

abbrev first_cache : Cache ℕ
first_cache = cache_after (one_three ∷ []) no_entries

abbrev second_cache : Cache ℕ
second_cache = cache_after (two ∷ one_four ∷ []) first_cache

program : Unit {0}
unfolding make_inputs differences paged_lens append_positions batch_indices_from prefills decodes
    prefill_plan decode_plan attend new_rows
program = tt

-- The position in a block, for a sequence of at most one block.
one_block :
    (d : InferInput) (x q b o : ℕ)
    → d.block_ids ≡ x ∷ []
    → q < 4
    → IsSlot 4 d q b o
    → (b ≡ x) × (q ≡ o)
one_block d x q b o one small at =
    let first : q / 4 ≡ 0 = omega arith in
    let found : get_elem? (x ∷ []) 0 ≡ some b = rw (one, first) at at.block in
    (cc found, omega (arith, at.slot))

one_block-Shares :
    (d' d : InferInput) (x y : ℕ)
    → d'.block_ids ≡ x ∷ []
    → d.block_ids ≡ y ∷ []
    → d'.context_len ≤ 4
    → d.context_len ≤ 4
    → (x ≡ y → d'.seq_id ≡ d.seq_id)
    → Shares 4 kv d' d
one_block-Shares d' d x y one' one small' small own q q' b o from below below' at at' =
    let (is_y, is_o) = one_block d y q b o one (omega arith) at in
    let (is_x, is_o') = one_block d' x q' b o one' (omega arith) at' in
    let same_id : d.seq_id ≡ d'.seq_id = sym (own (sym is_x ∙ is_y)) in
    let same_q : q ≡ q' = is_o ∙ sym is_o' in rw (same_id, same_q) refl

one_three-Shares : Shares 4 kv one_three one_three
one_three-Shares =
    one_block-Shares one_three one_three 7 7 refl refl (omega arith) (omega arith) (λ h. refl)

prefill-Pass :
    Pass kernels documented config 8 kv [] no_entries (one_three ∷ []) [] prefill_batch first_cache
unfolding program
prefill-Pass = record {
  well_formed = omega arith;
  paged = omega arith;
  in_cache = omega arith;
  run = refl;
  tables = (paged_spec documented config (one_three ∷ []), refl);
  query = 1 ∷ 2 ∷ 3 ∷ [];
  rows = refl;
  out = 101 ∷ 102 ∷ 103 ∷ [];
  attended = refl;
  known = (inl refl, tt);
  kept = tt;
  apart = ((one_three-Shares, tt), tt);
  apart_kept = tt;
}

one-Continues : Continues 4 kv one_four one_three
one-Continues = record { filled = omega arith; blocks = λ q h. refl; entries = λ q h. refl }

one-Shares : Shares 4 kv one_four one_four
one-Shares =
    one_block-Shares one_four one_four 7 7 refl refl (omega arith) (omega arith) (λ h. refl)

two-Shares : Shares 4 kv two two
two-Shares = one_block-Shares two two 3 3 refl refl (omega arith) (omega arith) (λ h. refl)

one-two-Shares : Shares 4 kv one_four two
one-two-Shares =
    one_block-Shares one_four two 7 3 refl refl (omega arith) (omega arith)
      (λ h. absurd (omega (arith, h)))

two-one-Shares : Shares 4 kv two one_four
two-one-Shares =
    one_block-Shares two one_four 3 7 refl refl (omega arith) (omega arith)
      (λ h. absurd (omega (arith, h)))

mixed_run : make_inputs documented config (one_four ∷ two ∷ []) true ≡ ok mixed_batch
unfolding program
mixed_run = refl

mixed-Pass :
    Pass kernels documented config 8 kv
      (one_three ∷ [])
      first_cache
      (one_four ∷ two ∷ [])
      []
      mixed_batch
      second_cache
unfolding program
mixed-Pass = record {
  well_formed = omega arith;
  paged = omega arith;
  in_cache = omega arith;
  run = refl;
  tables = (paged_spec documented config (two ∷ one_four ∷ []), refl);
  query = 1 ∷ 2 ∷ 3 ∷ [];
  rows = refl;
  out = 101 ∷ 102 ∷ 205 ∷ [];
  attended = refl;
  known = (inl refl, (inr (inl one-Continues), tt));
  kept = tt;
  apart = ((two-Shares, (two-one-Shares, tt)), ((one-two-Shares, (one-Shares, tt)), tt));
  apart_kept = tt;
}

first-Passes : Passes kernels documented config 8 kv first_cache (one_three ∷ [])
first-Passes = pass (one_three ∷ []) [] (start no_entries) prefill-Pass

-- After the prefill and the mixed batch, in which the first sequence got its fourth token.
Passes-Holds_example : All (λ d. Holds 4 kv second_cache d.context_len d) (two ∷ one_four ∷ [])
Passes-Holds_example =
    Passes-Holds kernels documented config 8 kv kernels-KeepsRows documented-IsDocumented
      kernels-IsAppend (omega arith) second_cache (two ∷ one_four ∷ [])
      (pass (one_four ∷ two ∷ []) [] first-Passes mixed-Pass)

first-Holds : Holds 4 kv first_cache 3 one_four
first-Holds =
    Continues-Holds kernels documented config 8 kv first_cache one_four one_three one-Continues
      (Passes-Holds kernels documented config 8 kv kernels-KeepsRows documented-IsDocumented
        kernels-IsAppend (omega arith) first_cache (one_three ∷ []) first-Passes).0

attend-Holds_example :
    (out : List ℕ) × (cache' : Cache ℕ) × (attend kernels
        (1 ∷ 2 ∷ 3 ∷ [])
        (keys (two ∷ one_four ∷ []))
        (values (two ∷ one_four ∷ []))
        mixed_batch.params
        (some first_cache)
      ≡ ok (out, some cache'))
    × All (λ d. Holds 4 kv cache' d.context_len d) (two ∷ one_four ∷ [])
    × All (λ d. Holds 4 kv cache' d.context_len d) []
attend-Holds_example =
    attend-Holds kernels kernels-KeepsRows documented documented-IsDocumented config 8
      kernels-IsAppend (omega arith) (one_four ∷ two ∷ []) (omega arith) (omega arith) (omega arith)
      mixed_run {p = paged_spec documented config (two ∷ one_four ∷ [])} refl kv (1 ∷ 2 ∷ 3 ∷ [])
      refl first_cache [] ((λ q below. absurd (omega arith)), (first-Holds, tt)) tt
      ((two-Shares, (two-one-Shares, tt)), ((one-two-Shares, (one-Shares, tt)), tt)) tt
