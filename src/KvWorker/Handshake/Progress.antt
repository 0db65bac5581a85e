-- ===== src/KvWorker/Handshake/Progress.antt =====
-- No interleaving gets stuck, and each is finite.
use lmserve.Prelude.{
  ℕ, suc, ◌+◌, ◌*◌, ◌≤◌, ◌<◌, ◌≡◌, refl, sym, ap, ◌∙◌, true, ◌⊎◌, inl, inr, arith, Bool-cases,
}
use lmserve.KvWorker.Handshake.{
  Request, Handshake, PostHookDone, Step, copy_in, record_pre, put_model, get_model, wait_pre,
  compute, record_post, put_kv, get_kv, wait_post, copy_out, Reach, here, next, Finished,
}
use lmserve.KvWorker.Handshake.Order.{Ordered, Reach-Ordered}
use lmserve.KvWorker.Handshake.Settled.{lt_or_le, CanStep, Settled, settle, PostHookDone-Settled}

start_compute :
    {r : Request} {s : Handshake}
    → Ordered r s
    → Settled r s
    → (r.wait_before_execute ≡ true → s.put_model ≡ r.num_layers)
    → s.computed < r.num_layers
    → CanStep r s
start_compute {r} {s} o q full h =
    let post : PostHookDone r s = PostHookDone-Settled q in
    elim (Bool-cases r.wait_before_execute) [
      | inl w ↦ elim (lt_or_le s.computed s.got_model) [
        | inl x ↦ (_, compute s h (rw (w, q.pre) x) post)
        | inr x ↦
            let due : s.got_model ≡ s.computed = ground (arith, q.pre, o.computing.0 w) in
            (_, get_model s w due (ground arith) post (ground (arith, full w)))
      ]
      | inr w ↦ (_, compute s h (rw w tt) post)
    ]

total : Handshake → ℕ
total s =
    s.copied_in + s.recorded_pre + s.put_model + s.got_model + s.waited_pre + s.computed
    + s.recorded_post + s.put_kv + s.got_kv + s.waited_post + s.copied_out

Step-total : {r : Request} {s t : Handshake} → Step r s t → total t ≡ suc (total s)
unfolding total
Step-total (copy_in s a b c) = omega arith
Step-total (record_pre s a) = omega arith
Step-total (put_model s a) = omega arith
Step-total (get_model s a b c d e) = omega arith
Step-total (wait_pre s a) = omega arith
Step-total (compute s a b c) = omega arith
Step-total (record_post s a b) = omega arith
Step-total (put_kv s a) = omega arith
Step-total (get_kv s a b c d) = omega arith
Step-total (wait_post s a) = omega arith
Step-total (copy_out s a) = omega arith

Reach-total : {r : Request} {k : ℕ} {s : Handshake} → Reach r k s → total s ≡ k
unfolding total
Reach-total here = refl
Reach-total (next h step) = Step-total step ∙ ap suc (Reach-total h)

Ordered-total : {r : Request} {s : Handshake} → Ordered r s → total s ≤ 11 * r.num_layers
unfolding total
Ordered-total o = ground arith

save_or_finish :
    {r : Request} {s : Handshake}
    → Ordered r s
    → Settled r s
    → r.record_after_execute ≡ r.saves
    → (r.loads ≡ true → s.put_model ≡ r.num_layers)
    → s.computed ≡ r.num_layers
    → Finished r s ⊎ CanStep r s
save_or_finish {r} {s} o q flag full ran =
    let hooked : r.record_after_execute ≡ true → s.put_kv ≡ r.num_layers =
      λ h. ground (arith, q.post, q.hooks h, ran) in
    elim (lt_or_le r.num_layers s.copied_out) [
      | inl x ↦ absurd (ground (arith, o))
      | inr x ↦ elim (lt_or_le s.copied_out r.num_layers) [
        | inl y ↦ elim (Bool-cases r.saves) [
          | inl z ↦ inr (
            _,
            get_kv s z (ground (arith, q.saving.1)) (ground (arith, q.saving.1))
                (ground (arith, q.saving.1, hooked (flag ∙ z))),
          )
          | inr z ↦
              inl (record {
                loaded = full;
                ran = ran;
                hooked = hooked;
                saved = λ h. ground (arith, z);
              })
        ]
        | inr y ↦
            inl (record { loaded = full; ran = ran; hooked = hooked; saved = λ h. ground arith })
      ]
    ]

run_on :
    {r : Request} {s : Handshake}
    → Ordered r s
    → Settled r s
    → r.wait_before_execute ≡ r.loads
    → r.record_after_execute ≡ r.saves
    → (r.loads ≡ true → s.put_model ≡ r.num_layers)
    → Finished r s ⊎ CanStep r s
run_on {r} {s} o q wait flag full = elim (lt_or_le s.computed r.num_layers) [
  | inl x ↦ inr (start_compute o q (λ w. full (sym wait ∙ w)) x)
  | inr x ↦ save_or_finish o q flag full (ground (arith, o.computing.1))
]

-- When the flags say which mappings there are, in every interleaving a request that has not finished
-- can take a step, and no interleaving has more than eleven steps for each layer: every run ends,
-- and it ends with all layers loaded, computed and saved as asked.
pub handshake-finishes :
    (r : Request) (k : ℕ) (s : Handshake)
    → r.wait_before_execute ≡ r.loads
    → r.record_after_execute ≡ r.saves
    → Reach r k s
    → (k ≤ 11 * r.num_layers) × (Finished r s ⊎ ((t : Handshake) × Step r s t))
handshake-finishes r k s wait flag h =
    let o = Reach-Ordered h in
    let bound : k ≤ 11 * r.num_layers = rw (← Reach-total h) (Ordered-total o) in
    (
      bound,
      elim (settle o) [
        | inl x ↦ inr x
        | inr q ↦ elim (Bool-cases r.loads) [
          | inl l ↦ elim (lt_or_le s.copied_in r.num_layers) [
            | inl x ↦ inr (_, copy_in s l (sym q.loading.1) x)
            | inr x ↦ run_on o q wait flag (λ w. ground (arith, q.loading.1, o.loading.3))
          ]
          | inr l ↦ run_on o q wait flag (λ w. ground (arith, l))
        ]
      ],
    )
