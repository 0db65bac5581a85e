-- ===== src/KvWorker/Handshake/OverlapTests.antt =====
-- A request of two layers in which the second is loaded while the first is computed, and the first is
-- saved while the second is computed.
use lmserve.Prelude.{ℕ, ◌+◌, ◌*◌, ◌≡◌, refl, List, [], ◌∷◌, Option, none, some, arith, All}
use lmserve.KvWorker.Store.{BlockMapping, Dims}
use lmserve.KvWorker.Copy.{gpu, host}
use lmserve.KvWorker.Directions.{InRange}
use lmserve.KvWorker.Handshake.{
  Handshake, copy_in, record_pre, put_model, get_model, wait_pre, compute, record_post, put_kv,
  get_kv, wait_post, copy_out, Reach, here, next, Finished,
}
use lmserve.KvWorker.Handshake.Effects.{asked, Running, one_by_one, overlapped}
use lmserve.KvWorker.Handshake.Overlap.{Agrees, overlapped-one_by_one}

program : Unit {0}
unfolding one_by_one overlapped
program = tt

abbrev dims : Dims
dims = record { num_layers = 2; num_gpu_blocks = 3; num_host_blocks = 2; num_disk_blocks = 0 }

abbrev loads : List BlockMapping
loads = (record { src_block_id = 1; dst_block_id = 2 } ∷ []) ∷ []

abbrev saves : List BlockMapping
saves = (record { src_block_id = 2; dst_block_id = 0 } ∷ []) ∷ []

-- Each layer adds one to the hidden states, and writes their sum with block 2 to every block.
abbrev or_zero : Option ℕ → ℕ
or_zero none = 0
or_zero (some a) = a

abbrev layer : ℕ → ℕ → (ℕ → Option ℕ) → ℕ × (ℕ → ℕ)
layer l hidden cache = (hidden + 1, λ b. hidden + or_zero (cache 2))

abbrev memory : Running ℕ ℕ
memory = record {
  hidden = 1000;
  store = record {
    gpu = λ a. a;
    host = λ b l. 100 + 10 * b + l;
    disk = λ b l. 0;
    signals = [];
    kv_queue = 0;
  };
}

abbrev all_done : Handshake
all_done = record {
  copied_in = 2;
  recorded_pre = 2;
  put_model = 2;
  got_model = 2;
  waited_pre = 2;
  computed = 2;
  recorded_post = 2;
  put_kv = 2;
  got_kv = 2;
  waited_post = 2;
  copied_out = 2;
}

abbrev first_computed : Handshake
first_computed = record {
  copied_in = 2;
  recorded_pre = 2;
  put_model = 1;
  got_model = 1;
  waited_pre = 1;
  computed = 1;
  recorded_post = 0;
  put_kv = 0;
  got_kv = 0;
  waited_post = 0;
  copied_out = 0;
}

abbrev run_to_first_computed : Reach (asked dims loads saves) 8 first_computed
run_to_first_computed =
    next
      (next
        (next
          (next
            (next
              (next
                (next (next here (copy_in _ refl refl (omega arith))) (record_pre _ (omega arith)))
                (put_model _ (omega arith)))
              (get_model _ refl refl (omega arith) refl (omega arith)))
            (copy_in _ refl refl (omega arith)))
          (wait_pre _ (omega arith)))
        (record_pre _ (omega arith)))
      (compute _ (omega arith) (omega arith) refl)

abbrev second_computed : Handshake
second_computed = record {
  copied_in = 2;
  recorded_pre = 2;
  put_model = 2;
  got_model = 2;
  waited_pre = 2;
  computed = 2;
  recorded_post = 1;
  put_kv = 1;
  got_kv = 1;
  waited_post = 1;
  copied_out = 0;
}

abbrev run_to_second_computed : Reach (asked dims loads saves) 16 second_computed
run_to_second_computed =
    next
      (next
        (next
          (next
            (next
              (next
                (next (next run_to_first_computed (put_model _ (omega arith)))
                  (record_post _ refl (omega arith)))
                (put_kv _ (omega arith)))
              (get_model _ refl refl (omega arith) refl (omega arith)))
            (get_kv _ refl refl (omega arith) (omega arith)))
          (wait_pre _ (omega arith)))
        (wait_post _ (omega arith)))
      (compute _ (omega arith) (omega arith) refl)

abbrev run_to_all_done : Reach (asked dims loads saves) 22 all_done
run_to_all_done =
    next
      (next
        (next
          (next
            (next (next run_to_second_computed (copy_out _ (omega arith)))
              (record_post _ refl (omega arith)))
            (put_kv _ (omega arith)))
          (get_kv _ refl refl (omega arith) (omega arith)))
        (wait_post _ (omega arith)))
      (copy_out _ (omega arith))

overlapped_run : (overlapped dims layer loads saves run_to_all_done memory).store.host 0 1 ≡ 1112
unfolding program
overlapped_run = refl

in_loads : All (All (InRange dims host gpu)) loads
in_loads = omega arith

in_saves : All (All (InRange dims gpu host)) saves
in_saves = omega arith

finished : Finished (asked dims loads saves) all_done
finished = record { loaded = λ h. refl; ran = refl; hooked = λ h. refl; saved = λ h. refl }

overlapped-one_by_one_example :
    Agrees dims
      (overlapped dims layer loads saves run_to_all_done memory)
      (one_by_one dims layer loads saves memory)
overlapped-one_by_one_example =
    overlapped-one_by_one dims layer loads saves in_loads in_saves memory 22 all_done
      run_to_all_done finished
