-- ===== src/KvWorker/Handshake.antt =====
-- The model worker and the KV worker at work on one request: the hooks that `init_cache` puts around
-- each attention layer, and the loops over the layers of `load_kv_blocks_from_host` and
-- `save_kv_blocks_to_host`. Each of the three is sequential, so its place is how many layers have
-- passed each of its statements; a queue holds what was put and not yet taken.
use lmserve.Prelude.{ℕ, suc, ◌<◌, ◌≡◌, Bool, true, false}
pub mod Order
pub mod Settled
pub mod Progress
pub mod Effects
pub mod Layers
pub mod Overlap
mod OverlapTests

-- `loads` and `saves`: the mappings to the GPU and from it are not empty.
pub record Request : Type 0 where
  pub num_layers : ℕ
  pub wait_before_execute : Bool
  pub record_after_execute : Bool
  pub loads : Bool
  pub saves : Bool

pub record Handshake : Type 0 where
  pub copied_in : ℕ
  pub recorded_pre : ℕ
  pub put_model : ℕ
  pub got_model : ℕ
  pub waited_pre : ℕ
  pub computed : ℕ
  pub recorded_post : ℕ
  pub put_kv : ℕ
  pub got_kv : ℕ
  pub waited_post : ℕ
  pub copied_out : ℕ

abbrev pub start : Handshake
start = record {
  copied_in = 0;
  recorded_pre = 0;
  put_model = 0;
  got_model = 0;
  waited_pre = 0;
  computed = 0;
  recorded_post = 0;
  put_kv = 0;
  got_kv = 0;
  waited_post = 0;
  copied_out = 0;
}

-- A hook does nothing unless its flag is set.
abbrev pub Hooked : Bool → Type 0 → Type 0
Hooked true done = done
Hooked false done = Unit

-- The pre hook of the layer that comes next has run, and the post hook of the layer before.
abbrev pub PreHookDone : Request → Handshake → Type 0
PreHookDone r s = Hooked r.wait_before_execute (s.computed < s.waited_pre)

abbrev pub PostHookDone : Request → Handshake → Type 0
PostHookDone r s = Hooked r.record_after_execute (s.put_kv ≡ s.computed)

-- The copies of a layer are one step. `get` of an empty queue waits.
pub data Step (r : Request) : Handshake → Handshake → Type 0 where
  copy_in :
      (s : Handshake)
      → r.loads ≡ true
      → s.copied_in ≡ s.put_model
      → s.copied_in < r.num_layers
      → Step r s (record s { copied_in = suc s.copied_in })
  record_pre :
      (s : Handshake)
      → s.recorded_pre < s.copied_in
      → Step r s (record s { recorded_pre = suc s.recorded_pre })
  put_model :
      (s : Handshake)
      → s.put_model < s.recorded_pre
      → Step r s (record s { put_model = suc s.put_model })
  get_model :
      (s : Handshake)
      → r.wait_before_execute ≡ true
      → s.got_model ≡ s.computed
      → s.got_model < r.num_layers
      → PostHookDone r s
      → s.got_model < s.put_model
      → Step r s (record s { got_model = suc s.got_model })
  wait_pre :
      (s : Handshake)
      → s.waited_pre < s.got_model
      → Step r s (record s { waited_pre = suc s.waited_pre })
  compute :
      (s : Handshake)
      → s.computed < r.num_layers
      → PreHookDone r s
      → PostHookDone r s
      → Step r s (record s { computed = suc s.computed })
  record_post :
      (s : Handshake)
      → r.record_after_execute ≡ true
      → s.recorded_post < s.computed
      → Step r s (record s { recorded_post = suc s.recorded_post })
  put_kv :
      (s : Handshake) → s.put_kv < s.recorded_post → Step r s (record s { put_kv = suc s.put_kv })
  get_kv :
      (s : Handshake)
      → r.saves ≡ true
      → s.got_kv ≡ s.copied_out
      → s.got_kv < r.num_layers
      → s.got_kv < s.put_kv
      → Step r s (record s { got_kv = suc s.got_kv })
  wait_post :
      (s : Handshake)
      → s.waited_post < s.got_kv
      → Step r s (record s { waited_post = suc s.waited_post })
  copy_out :
      (s : Handshake)
      → s.copied_out < s.waited_post
      → Step r s (record s { copied_out = suc s.copied_out })

-- What can happen in so many steps, in any interleaving.
pub data Reach (r : Request) : ℕ → Handshake → Type 0 where
  here : Reach r 0 start
  next : {k : ℕ} {s t : Handshake} → Reach r k s → Step r s t → Reach r (suc k) t

-- All three have passed all layers.
pub record Finished (r : Request) (s : Handshake) : Type 0 where
  pub loaded : r.loads ≡ true → s.put_model ≡ r.num_layers
  pub ran : s.computed ≡ r.num_layers
  pub hooked : r.record_after_execute ≡ true → s.put_kv ≡ r.num_layers
  pub saved : r.saves ≡ true → s.copied_out ≡ r.num_layers
