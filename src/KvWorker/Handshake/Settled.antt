-- ===== src/KvWorker/Handshake/Settled.antt =====
-- A request of which no process can go on within its round: each is at the start of one.
use lmserve.Prelude.{
  ℕ, ◌≤◌, ◌<◌, ◌≡◌, refl, Bool, true, false, ◌⊎◌, inl, inr, arith, Bool-cases, ltb, ltb→lt, ltb→le,
}
use lmserve.KvWorker.Handshake.{
  Request, Handshake, Hooked, PostHookDone, Step, record_pre, put_model, wait_pre, record_post,
  put_kv, wait_post, copy_out,
}
use lmserve.KvWorker.Handshake.Order.{Ordered}

pub lt_or_le : (a b : ℕ) → (a < b) ⊎ (b ≤ a)
lt_or_le a b = elim (Bool-cases (ltb a b)) [
  | inl x ↦ inl (ltb→lt a b x)
  | inr x ↦ inr (ltb→le a b x)
]

abbrev pub CanStep : Request → Handshake → Type 0
CanStep r s = (t : Handshake) × Step r s t

-- Each process is at the start of a round.
pub record Settled (r : Request) (s : Handshake) : Type 0 where
  pub loading : (s.recorded_pre ≡ s.copied_in) × (s.put_model ≡ s.copied_in)
  pub pre : s.waited_pre ≡ s.got_model
  pub post : s.put_kv ≡ s.recorded_post
  pub hooks : r.record_after_execute ≡ true → s.recorded_post ≡ s.computed
  pub saving : (s.waited_post ≡ s.got_kv) × (s.copied_out ≡ s.got_kv)

settle_post :
    {r : Request} {s : Handshake}
    → Ordered r s
    → CanStep r s
      ⊎ ((s.put_kv ≡ s.recorded_post)
          × (r.record_after_execute ≡ true → s.recorded_post ≡ s.computed))
settle_post {r} {s} o = elim (lt_or_le s.put_kv s.recorded_post) [
  | inl x ↦ inl (_, put_kv s x)
  | inr x ↦ elim (lt_or_le s.recorded_post s.computed) [
    | inl y ↦ elim (Bool-cases r.record_after_execute) [
      | inl z ↦ inl (_, record_post s z y)
      | inr z ↦ inr (ground arith, ground arith)
    ]
    | inr y ↦ inr (ground arith, ground arith)
  ]
]

settle_pre :
    {r : Request} {s : Handshake}
    → Ordered r s
    → CanStep r s
      ⊎ ((s.recorded_pre ≡ s.copied_in)
          × (s.put_model ≡ s.copied_in)
          × (s.waited_pre ≡ s.got_model))
settle_pre {r} {s} o = elim (lt_or_le s.recorded_pre s.copied_in) [
  | inl x ↦ inl (_, record_pre s x)
  | inr x ↦ elim (lt_or_le s.put_model s.recorded_pre) [
    | inl y ↦ inl (_, put_model s y)
    | inr y ↦ elim (lt_or_le s.waited_pre s.got_model) [
      | inl z ↦ inl (_, wait_pre s z)
      | inr z ↦ inr (ground arith)
    ]
  ]
]

pub settle : {r : Request} {s : Handshake} → Ordered r s → CanStep r s ⊎ Settled r s
settle {r} {s} o = elim (settle_pre o) [
  | inl x ↦ inl x
  | inr x ↦ elim (settle_post o) [
    | inl y ↦ inl y
    | inr y ↦ elim (lt_or_le s.copied_out s.waited_post) [
      | inl z ↦ inl (_, copy_out s z)
      | inr z ↦ elim (lt_or_le s.waited_post s.got_kv) [
        | inl w ↦ inl (_, wait_post s w)
        | inr w ↦ inr (record {
          loading = (x.0, x.1);
          pre = x.2;
          post = y.0;
          hooks = y.1;
          saving = ground arith;
        })
      ]
    ]
  ]
]

pub PostHookDone-Settled : {r : Request} {s : Handshake} → Settled r s → PostHookDone r s
PostHookDone-Settled {r} {s} q =
    hooked r.record_after_execute q.hooks (λ h. ground (arith, q.post, h))
  where
    hooked : (flag : Bool) {P Q : Type 0} → (flag ≡ true → P) → (P → Q) → Hooked flag Q
    hooked true f g = g (f refl)
    hooked false f g = tt
