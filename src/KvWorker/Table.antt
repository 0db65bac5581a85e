-- ===== src/KvWorker/Table.antt =====
-- A plain table of the blocks of each device, and `CopyKV` requests as assignments in it.
use lmserve.Prelude.{
  ℕ, ◌≡◌, refl, ◌∙◌, inl, inr, Bool, true, false, ◌&&◌, List, [], ◌∷◌, arith, ◌==◌, if◌then◌else◌,
  concat, Option-cases,
}
use lmserve.KvWorker.Store.{Entry, BlockMapping}
use lmserve.KvWorker.Copy.{Device, gpu, host, disk}
use lmserve.KvWorker.Contents.{source_of, pick}
use lmserve.KvWorker.CopyKv.{supported}

-- The message `CopyKVRequest`.
pub record CopyKvRequest : Type 0 where
  pub block_mappings : List BlockMapping
  pub src_device : Device
  pub dst_device : Device

-- The abstract state: each block of each device, as a whole.
abbrev pub Blocks : Type 0 → Type 0
Blocks A = Device → ℕ → ℕ → A

unfoldable pub same_device : Device → Device → Bool
same_device gpu gpu = true
same_device host host = true
same_device disk disk = true
same_device _ _ = false

module _ {A : Type 0} where
  -- One assignment of a whole block.
  unfoldable pub move : Device → Device → Entry → Blocks A → Blocks A
  unfolding same_device
  move src dst e c dev b =
      if same_device dev dst && (e.dst_block_id == b) then c src e.src_block_id else c dev b

  unfoldable pub move_all : Device → Device → List Entry → Blocks A → Blocks A
  unfolding move
  move_all src dst [] c = c
  move_all src dst (e ∷ es) c = move_all src dst es (move src dst e c)

  unfoldable pub replay : List CopyKvRequest → Blocks A → Blocks A
  unfolding move_all
  replay [] c = c
  replay (r ∷ rs) c = replay rs (move_all r.src_device r.dst_device (concat r.block_mappings) c)

pub supported_apart : (src dst : Device) → supported src dst ≡ true → same_device src dst ≡ false
unfolding same_device
supported_apart gpu gpu h = cc
supported_apart gpu host h = refl
supported_apart gpu disk h = refl
supported_apart host gpu h = refl
supported_apart host host h = cc
supported_apart host disk h = refl
supported_apart disk gpu h = refl
supported_apart disk host h = refl
supported_apart disk disk h = cc

pub same_device_eq : (a b : Device) → same_device a b ≡ true → a ≡ b
unfolding same_device
same_device_eq gpu gpu h = refl
same_device_eq gpu host h = cc
same_device_eq gpu disk h = cc
same_device_eq host gpu h = cc
same_device_eq host host h = refl
same_device_eq host disk h = cc
same_device_eq disk gpu h = cc
same_device_eq disk host h = cc
same_device_eq disk disk h = refl

pub same_device_self : (a : Device) → same_device a a ≡ true
unfolding same_device
same_device_self gpu = refl
same_device_self host = refl
same_device_self disk = refl

module _ {A : Type 0} (src dst : Device) (apart : same_device src dst ≡ false) where
  -- The assignments leave in each block of the target what the last entry for it names.
  pub move_all-others :
      (es : List Entry) (c : Blocks A) (dev : Device) (b : ℕ)
      → same_device dev dst ≡ false
      → move_all src dst es c dev b ≡ c dev b
  unfolding move_all move
  move_all-others [] c dev b other = refl
  move_all-others (e ∷ es) c dev b other =
      move_all-others es (move src dst e c) dev b other ∙ rw other

  pub move_all-target :
      (es : List Entry) (c : Blocks A) (b : ℕ)
      → move_all src dst es c dst b ≡ pick (source_of es b) (c dst b) (c src)
  unfolding move_all move source_of
  move_all-target [] c b = refl
  move_all-target (e ∷ es) c b =
      let later = move_all-target es (move src dst e c) b in
      elim (Option-cases (source_of es b)) [
        | inl x ↦ later ∙ rw x (ground (arith, same_device_self dst))
        | inr (a, x) ↦ later ∙ rw x (rw apart)
      ]
