-- ===== src/KvWorker/Transfer/Outcome.antt =====
-- What a transfer returns.
use lmserve.Prelude.{
  take_all, ℕ, zero, suc, ◌+◌, ◌-◌, ◌≤◌, ◌<◌, ◌≡◌, ◌≢◌, refl, ap, sym, ◌∙◌, inl, inr, Bool, true,
  false, not, ◌&&◌, List, [], ◌∷◌, Option, none, some, arith, ltb, All, length, take, ok,
  Bool-cases, ltb→lt, ltb→le, lt→ltb,
}
use lmserve.KvWorker.Transfer.{
  write, read, XferState, err, finished, busy, host_tensors, poll, drop_last, trim_descs, Agent,
  run_xfer, push_kv, pull_kv,
}

length-drop_last : {D : Type 0} (l : List D) → length (drop_last l) ≡ length l - 1
unfolding drop_last
length-drop_last [] = refl
length-drop_last (x ∷ []) = refl
length-drop_last (x ∷ y ∷ l) = omega (arith, length-drop_last (y ∷ l))

take-drop_last : {D : Type 0} (n : ℕ) (l : List D) → n < length l → take n (drop_last l) ≡ take n l
unfolding drop_last
take-drop_last zero l h = refl
take-drop_last (suc n) [] h = refl
take-drop_last (suc n) (x ∷ []) h = absurd (omega arith)
take-drop_last (suc n) (x ∷ y ∷ l) h = ap (◌∷◌ x) (take-drop_last n (y ∷ l) (omega arith))

-- The loop that removes descriptors ends with the first ones.
trim_descs-take :
    {D : Type 0} (fuel n : ℕ) (l : List D) → length l ≤ fuel → trim_descs fuel n l ≡ take n l
unfolding trim_descs
trim_descs-take zero n [] h = sym (take_all n [] (omega arith))
trim_descs-take zero n (x ∷ l) h = absurd (omega arith)
trim_descs-take (suc fuel) n l h = elim (Bool-cases (ltb n (length l))) [
  | inl x ↦ rw x (
      trim_descs-take fuel n (drop_last l)
        (omega (arith, length-drop_last l, ltb→lt n (length l) x))
      ∙ take-drop_last n l (ltb→lt n (length l) x))
  | inr x ↦ rw x (sym (take_all n l (ltb→le n (length l) x)))
]

host_tensors-all : (n : ℕ) (ids : List ℕ) → All (λ b. b < n) ids → host_tensors n ids ≡ ok ids
unfolding host_tensors
host_tensors-all n [] h = refl
host_tensors-all n (b ∷ bs) h = rw (lt→ltb b n h.0, host_tensors-all n bs h.1) refl

-- From the answer `start` on the first that is not "busy" is the answer `i`.
abbrev pub Settles : (ℕ → XferState) → ℕ → ℕ → Type 0
Settles answers start i = ((j : ℕ) → start ≤ j → j < i → answers j ≡ busy) × (answers i ≢ busy)

abbrev pub is_finished : XferState → Bool
is_finished finished = true
is_finished _ = false

abbrev pub is_err : XferState → Bool
is_err err = true
is_err _ = false

poll-now :
    (fuel : ℕ) (answers : ℕ → XferState) (i : ℕ) (a : XferState)
    → answers i ≡ a
    → a ≢ busy
    → poll (suc fuel) answers i ≡ some (is_finished a)
unfolding poll
poll-now fuel answers i err e n = rw (poll, e) refl
poll-now fuel answers i finished e n = rw (poll, e) refl
poll-now fuel answers i busy e n = absurd (n refl)

poll-settled :
    (fuel : ℕ) (answers : ℕ → XferState) (start i : ℕ)
    → start ≤ i
    → i < start + fuel
    → Settles answers start i
    → poll fuel answers start ≡ some (is_finished (answers i))
unfolding poll
poll-settled zero answers start i h h' s = absurd (omega arith)
poll-settled (suc fuel) answers start i h h' s = elim (Bool-cases (ltb start i)) [
  | inl x ↦
      let x' : start < i = ltb→lt start i x in
      let later : Settles answers (suc start) i = (λ j hj hj'. s.0 j (omega arith) hj', s.1) in
      rw (poll, s.0 start (omega arith) x')
        (poll-settled fuel answers (suc start) i (omega arith) (omega arith) later)
  | inr x ↦
      let same : start ≡ i = omega (arith, ltb→le start i x) in
      rw same (poll-now fuel answers i (answers i) refl s.1)
]

module _ (agent : Agent) (num_host_blocks fuel : ℕ) where
  abbrev outcome : ℕ → Option agent.Handle → Bool
  outcome i none = false
  outcome i (some h) = not (is_err (agent.transfer h)) && is_finished (agent.check_xfer_state h i)

  run_xfer-outcome :
      (i : ℕ) (start : Option agent.Handle)
      → i < fuel
      → ((h : agent.Handle) → Settles (agent.check_xfer_state h) 0 i)
      → run_xfer agent num_host_blocks fuel start ≡ some (outcome i start)
  unfolding run_xfer
  run_xfer-outcome i none hf settles = refl
  run_xfer-outcome i (some h) hf settles =
      let polled =
        poll-settled fuel (agent.check_xfer_state h) 0 i (omega arith) (omega arith) (settles h) in
      elim (agent.transfer h)
        as (λ a.
          (elim a [ err ↦ some false | _ ↦ poll fuel (agent.check_xfer_state h) 0 ])
          ≡ some (not (is_err a) && is_finished (agent.check_xfer_state h i))) [
            | err ↦ refl
            | finished ↦ polled
            | busy ↦ polled
          ]

  -- When all blocks are in range and the agent answers for every transfer, after `i` times that it is
  -- busy, that it has failed or is done, both methods return. A push writes the blocks to as many of
  -- the first remote descriptors, a pull reads from all of them, and either returns true exactly if
  -- the transfer was made and posted, and was done in the end.
  pub transfers-return :
      (remote : agent.Bytes) (ids : List ℕ) (i : ℕ)
      → All (λ b. b < num_host_blocks) ids
      → i < fuel
      → ((h : agent.Handle) → Settles (agent.check_xfer_state h) 0 i)
      → (push_kv agent num_host_blocks fuel remote ids
          ≡ ok (
              some (
                outcome i (
                  agent.initialize_xfer write
                    (agent.get_xfer_descs ids)
                    (take (length ids) (agent.deserialize_descs remote))))))
        × (pull_kv agent num_host_blocks fuel remote ids
            ≡ ok (
                some (
                  outcome i (
                    agent.initialize_xfer read
                      (agent.get_xfer_descs ids)
                      (agent.deserialize_descs remote)))))
  unfolding push_kv pull_kv
  transfers-return remote ids i range hf settles =
      let descs = agent.deserialize_descs remote in
      let all = host_tensors-all num_host_blocks ids range in
      let trimmed = trim_descs-take (length descs) (length ids) descs (omega arith) in
      (
        rw (push_kv, all, trimmed)
            (ap (λ (t : Option Bool). ok t)
              (run_xfer-outcome i
                (agent.initialize_xfer write (agent.get_xfer_descs ids) (take (length ids) descs))
                hf settles)),
        rw (pull_kv, all)
            (ap (λ (t : Option Bool). ok t)
              (run_xfer-outcome i (agent.initialize_xfer read (agent.get_xfer_descs ids) descs) hf
                settles)),
      )
