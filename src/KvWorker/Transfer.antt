-- ===== src/KvWorker/Transfer.antt =====
-- `get_descriptors`, `push_kv` and `pull_kv`: transfers of host blocks between workers by the NIXL
-- agent, whose functions are parameters.
use lmserve.Prelude.{
  ℕ, zero, suc, ◌+◌, ◌-◌, ◌≤◌, ◌<◌, ◌≡◌, ◌≢◌, refl, ap, sym, ◌∙◌, inl, inr, Bool, true, false, not,
  ◌&&◌, List, [], ◌∷◌, Option, none, some, arith, ltb, leb, if◌then◌else◌, All, length, take,
  length-take, min, map, Result, ok, raise, index_error, Bool-cases, Option-cases, ltb→lt, ltb→le,
  lt→ltb,
}
pub mod Outcome

pub data XferOp : Type 0 where
  write read : XferOp

-- The texts that the agent answers: "ERR", "DONE" and any other.
pub data XferState : Type 0 where
  err finished busy : XferState

-- `[self.host_kv_caches_tensor[bid] for bid in block_ids]`: a block stands for its tensor.
unfoldable pub host_tensors : ℕ → List ℕ → Result (List ℕ)
host_tensors n [] = ok []
host_tensors n (b ∷ bs) =
    if ltb b n
    then elim (host_tensors n bs) [ ok ts ↦ ok (b ∷ ts) | raise e ↦ raise e ]
    else raise index_error

-- The loop on the state of a transfer, with the agent's answers in order.
unfoldable pub poll : ℕ → (ℕ → XferState) → ℕ → Option Bool
poll zero answers i = none
poll (suc fuel) answers i =
    let rest = poll fuel answers (suc i) in
    elim (answers i) [ err ↦ some false | finished ↦ some true | busy ↦ rest ]

module _ {D : Type 0} where
  unfoldable pub drop_last : List D → List D
  drop_last [] = []
  drop_last (x ∷ []) = []
  drop_last (x ∷ y ∷ l) = x ∷ drop_last (y ∷ l)

  -- `while remote_descs.descCount() > n: remote_descs.remDesc(remote_descs.descCount() - 1)`
  unfoldable pub trim_descs : ℕ → ℕ → List D → List D
  trim_descs zero n l = l
  trim_descs (suc fuel) n l =
      let rest = trim_descs fuel n (drop_last l) in if ltb n (length l) then rest else l

-- `get_xfer_descs`, `get_serialized_descs`, `deserialize_descs`, `initialize_xfer`, `transfer` and
-- `check_xfer_state`, the last with the number of times it was asked before.
pub record Agent : Type 1 where
  pub Desc : Type 0
  pub Bytes : Type 0
  pub Handle : Type 0
  pub get_xfer_descs : List ℕ → List Desc
  pub get_serialized_descs : List Desc → Bytes
  pub deserialize_descs : Bytes → List Desc
  pub initialize_xfer : XferOp → List Desc → List Desc → Option Handle
  pub transfer : Handle → XferState
  pub check_xfer_state : Handle → ℕ → XferState

-- `self.kv_agent`, the number of host blocks, and how often a transfer is asked for its state at most.
module _ (agent : Agent) (num_host_blocks : ℕ) (fuel : ℕ) where
  unfoldable pub get_descriptors : List ℕ → Result agent.Bytes
  unfolding host_tensors
  get_descriptors ids = elim (host_tensors num_host_blocks ids) [
    | raise e ↦ raise e
    | ok ts ↦ ok (agent.get_serialized_descs (agent.get_xfer_descs ts))
  ]

  -- From `transfer` on; `none` while the transfer has not ended.
  unfoldable pub run_xfer : Option agent.Handle → Option Bool
  unfolding poll
  run_xfer none = some false
  run_xfer (some h) = elim (agent.transfer h) [
    | err ↦ some false
    | _ ↦ poll fuel (agent.check_xfer_state h) 0
  ]

  unfoldable pub push_kv : agent.Bytes → List ℕ → Result (Option Bool)
  unfolding host_tensors trim_descs run_xfer
  push_kv remote ids = elim (host_tensors num_host_blocks ids) [
    | raise e ↦ raise e
    | ok ts ↦
        let local_descs = agent.get_xfer_descs ts in
        let remote_descs = agent.deserialize_descs remote in
        let trimmed = trim_descs (length remote_descs) (length ids) remote_descs in
        ok (run_xfer (agent.initialize_xfer write local_descs trimmed))
  ]

  unfoldable pub pull_kv : agent.Bytes → List ℕ → Result (Option Bool)
  unfolding host_tensors run_xfer
  pull_kv remote ids = elim (host_tensors num_host_blocks ids) [
    | raise e ↦ raise e
    | ok ts ↦
        let local_descs = agent.get_xfer_descs ts in
        let remote_descs = agent.deserialize_descs remote in
        ok (run_xfer (agent.initialize_xfer read local_descs remote_descs))
  ]
