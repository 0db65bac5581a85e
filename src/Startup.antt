-- ===== src/Startup.antt =====
-- What a worker does before it serves: `cpu_affinity_ids`, `set_cpu_affinity_for_gpu` and
-- `init_distributed` of runtime/worker/llm_worker/utils.py. A text is its code points; Python's `int`
-- and `str` of a number are parameters.
use lmserve.Prelude.{
  ℕ, ◌+◌, ◌-◌, Bool, true, false, ◌||◌, ◌&&◌, leb, length, drop, List, [], ◌∷◌, ◌++◌, Option, none,
  some, ◌==◌, if◌then◌else◌, range_from, Result, ok, raise, ◌>>=◌, ◌>>◌, assertion_error,
  attribute_error, value_error,
}
use lmserve.ModelWorker.Modules.{lower, starts_with}
use lmserve.Loading.Names.{codes}
pub mod Affinity
mod Tests

-- `text.split(sep)` at a character.
unfoldable pub cons_head : ℕ → List (List ℕ) → List (List ℕ)
cons_head c [] = (c ∷ []) ∷ []
cons_head c (part ∷ parts) = (c ∷ part) ∷ parts

unfoldable pub split : ℕ → List ℕ → List (List ℕ)
unfolding cons_head
split sep [] = [] ∷ []
split sep (c ∷ cs) = let rest = split sep cs in if c == sep then [] ∷ rest else cons_head c rest

-- `sep in text`
unfoldable pub has : ℕ → List ℕ → Bool
has sep [] = false
has sep (c ∷ cs) = (c == sep) || has sep cs

abbrev pub comma : ℕ
comma = b','

abbrev pub minus : ℕ
minus = b'-'

-- `a, b = parts`
abbrev pub pair_of : List (List ℕ) → Result (List ℕ × List ℕ)
pair_of (a ∷ b ∷ []) = ok (a, b)
pair_of _ = raise value_error

module _ (int : List ℕ → Result ℕ) where
  -- `start, end = map(int, part.split('-'))` and `range(start, end + 1)`
  unfoldable pub range_ids : List ℕ → Result (List ℕ)
  unfolding split
  range_ids part = do
    (a, b) ← pair_of (split minus part)
    start ← int a
    end ← int b
    ok (range_from start (end + 1 - start))

  -- The ids of one part of the list of processors.
  unfoldable pub part_ids : List ℕ → Result (List ℕ)
  unfolding range_ids has
  part_ids part = if has minus part then range_ids part else (int part >>= (λ id. ok (id ∷ [])))

  -- The loop over the parts.
  unfoldable pub parts_ids : List (List ℕ) → Result (List ℕ)
  unfolding part_ids
  parts_ids [] = ok []
  parts_ids (part ∷ parts) = do ids ← part_ids part; rest ← parts_ids parts; ok (ids ++ rest)

  -- `PCIBus.cpu_affinity_ids`, of the text that `cpu_affinity` has read, if there is one.
  unfoldable pub cpu_affinity_ids : Option (List ℕ) → Result (Option (List ℕ))
  unfolding parts_ids split
  cpu_affinity_ids none = ok none
  cpu_affinity_ids (some affinity_str) = do
    cpu_ids ← parts_ids (split comma affinity_str)
    ok (some cpu_ids)

-- `text.strip()`, of the white space of ASCII.
abbrev pub is_space : ℕ → Bool
is_space c = (c == b' ') || (leb 9 c && leb c 13)

unfoldable pub lstrip : List ℕ → List ℕ
lstrip [] = []
lstrip (c ∷ cs) = let rest = lstrip cs in if is_space c then rest else c ∷ cs

unfoldable pub rstrip : List ℕ → List ℕ
rstrip [] = []
rstrip (c ∷ cs) = elim (rstrip cs) [ [] ↦ if is_space c then [] else c ∷ [] | d ∷ ds ↦ c ∷ d ∷ ds ]

unfoldable pub strip : List ℕ → List ℕ
unfolding lstrip rstrip
strip text = rstrip (lstrip text)

-- `text.removeprefix(prefix)`
unfoldable pub remove_prefix : List ℕ → List ℕ → List ℕ
unfolding starts_with
remove_prefix prefix text = if starts_with prefix text then drop (length prefix) text else text

-- `PCIBus.path`
unfoldable pub bus_path : List ℕ → List ℕ → List ℕ
unfolding remove_prefix lower
bus_path domain number =
    codes "/sys/class/pci_bus/"
    ++ lower (remove_prefix (codes "0x") domain)
    ++ b':' ∷ lower (remove_prefix (codes "0x") number)

-- `PCIBus.cpu_affinity`; `read` is the text of a file, if there is one.
unfoldable pub cpu_affinity : (List ℕ → Option (List ℕ)) → List ℕ → List ℕ → Option (List ℕ)
unfolding bus_path strip
cpu_affinity read domain number = elim (read (bus_path domain number ++ codes "/cpulistaffinity")) [
  | none ↦ none
  | some text ↦ some (strip text)
]

-- `set_cpu_affinity_for_gpu`: what nvidia-smi prints, which is `none` if the command fails; the ids that
-- `os.sched_setaffinity` gets, if it is called.
unfoldable pub set_cpu_affinity_for_gpu :
    (List ℕ → Result ℕ) → Option (List ℕ) → (List ℕ → Option (List ℕ)) → Result (Option (List ℕ))
unfolding cpu_affinity_ids cpu_affinity split strip
set_cpu_affinity_for_gpu int none read = raise attribute_error
set_cpu_affinity_for_gpu int (some answer) read = do
  (domain, number) ← pair_of (split comma (strip answer))
  cpu_affinity_ids int (cpu_affinity read (strip domain) (strip number))

-- The variables of the environment that `init_distributed` needs.
pub record Environ : Type 0 where
  pub rank : Option (List ℕ)
  pub world_size : Option (List ℕ)
  pub master_addr : Option (List ℕ)
  pub master_port : Option (List ℕ)

-- `assert name in os.environ`
abbrev pub set_in_environ : Option (List ℕ) → Result (List ℕ)
set_in_environ none = raise assertion_error
set_in_environ (some value) = ok value

-- `init_distributed`: the rank and the number of ranks; `setup` makes the process group and the groups of
-- the model.
unfoldable pub init_distributed :
    (List ℕ → Result ℕ) → (ℕ → ℕ → Result (Unit {0})) → Environ → Result (ℕ × ℕ)
init_distributed int setup environ = do
  rank_text ← set_in_environ environ.rank
  world_text ← set_in_environ environ.world_size
  _ ← set_in_environ environ.master_addr
  _ ← set_in_environ environ.master_port
  rank ← int rank_text
  world_size ← int world_text
  setup rank world_size
  ok (rank, world_size)
