-- ===== src/KvWorker/Handshake/Order.antt =====
-- In which order the layers are loaded, computed and saved.
use lmserve.Prelude.{ℕ, suc, ◌≤◌, ◌≡◌, true, false, arith}
use lmserve.KvWorker.Handshake.{
  Request, Handshake, start, Step, copy_in, record_pre, put_model, get_model, wait_pre, compute,
  record_post, put_kv, get_kv, wait_post, copy_out, Reach, here, next,
}

-- Each statement of a process runs ahead of the next by at most one layer, and behind no other.
pub record Ordered (r : Request) (s : Handshake) : Type 0 where
  pub loading :
      (s.put_model ≤ s.recorded_pre)
      × (s.recorded_pre ≤ s.copied_in)
      × (s.copied_in ≤ suc s.put_model)
      × (s.copied_in ≤ r.num_layers)
  pub pre :
      (s.waited_pre ≤ s.got_model)
      × (s.got_model ≤ s.put_model)
      × (s.got_model ≤ suc s.computed)
      × (s.got_model ≤ r.num_layers)
  pub computing :
      (r.wait_before_execute ≡ true → s.computed ≤ s.waited_pre) × (s.computed ≤ r.num_layers)
  pub post :
      (s.put_kv ≤ s.recorded_post)
      × (s.recorded_post ≤ s.computed)
      × (r.record_after_execute ≡ true → s.computed ≤ suc s.put_kv)
  pub saving :
      (s.copied_out ≤ s.waited_post)
      × (s.waited_post ≤ s.got_kv)
      × (s.got_kv ≤ suc s.copied_out)
      × (s.got_kv ≤ s.put_kv)
  pub idle : r.loads ≡ false → s.copied_in ≡ 0
  pub quiet : r.record_after_execute ≡ false → s.recorded_post ≡ 0

Step-Ordered : {r : Request} {s t : Handshake} → Step r s t → Ordered r s → Ordered r t
Step-Ordered (copy_in s a b c) o = ground arith
Step-Ordered (record_pre s a) o = ground arith
Step-Ordered (put_model s a) o = ground arith
Step-Ordered (get_model s a b c d e) o = ground arith
Step-Ordered (wait_pre s a) o = ground arith
Step-Ordered (compute s a b c) o = ground arith
Step-Ordered (record_post s a b) o = ground arith
Step-Ordered (put_kv s a) o = ground arith
Step-Ordered (get_kv s a b c d) o = ground arith
Step-Ordered (wait_post s a) o = ground arith
Step-Ordered (copy_out s a) o = ground arith

start-Ordered : (r : Request) → Ordered r start
start-Ordered r = ground arith

pub Reach-Ordered : {r : Request} {k : ℕ} {s : Handshake} → Reach r k s → Ordered r s
Reach-Ordered {r} here = start-Ordered r
Reach-Ordered (next h step) = Step-Ordered step (Reach-Ordered h)

-- In every interleaving, if the model waits before it executes, then every layer that it has computed
-- was copied to the GPU and its event recorded before the model waited for it, and the model waited
-- before it computed the layer. Every layer that is copied to the host was computed and its event
-- recorded before the copy waited for it.
pub handshake-order :
    (r : Request) (k : ℕ) (s : Handshake)
    → Reach r k s
    → r.wait_before_execute ≡ true
    → (s.waited_pre ≤ s.recorded_pre)
      × (s.recorded_pre ≤ s.copied_in)
      × (s.computed ≤ s.waited_pre)
      × (s.copied_out ≤ s.waited_post)
      × (s.waited_post ≤ s.recorded_post)
      × (s.recorded_post ≤ s.computed)
handshake-order r k s h wait = let o = Reach-Ordered h in ground arith
