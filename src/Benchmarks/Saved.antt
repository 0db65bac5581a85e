-- ===== src/Benchmarks/Saved.antt =====
-- `save_request_stats`: the rows that it writes before the rounding, and the search for a name that is
-- free, which `save_request_trace` and `save_results` share. A name is its suffix, 0 for none.
use lmserve.Prelude.{
  ℕ, zero, suc, ◌+◌, ◌-◌, ◌≤◌, ◌<◌, ◌≡◌, refl, ap, ◌∙◌, ◌⊎◌, leb, inl, inr, Bool, true, false, List,
  [], ◌∷◌, map, Option, none, some, ltb, if◌then◌else◌, All, length, sum, Result, ok, raise,
  type_error, arith, Bool-cases,
}
use lmserve.Benchmarks.Stats.{ReqResult}
use lmserve.Benchmarks.Trace.{insert_result, sort_results}
use lmserve.Benchmarks.Windows.{sum-sort_results}

-- `while True`, for at most so many rounds.
unfoldable pub free_suffix : (ℕ → Bool) → ℕ → ℕ → Option ℕ
free_suffix exists zero suffix = none
free_suffix exists (suc fuel) suffix =
    let rest = free_suffix exists fuel (suc suffix) in if exists suffix then rest else some suffix

unfoldable pub candidate : (ℕ → Bool) → ℕ → Option ℕ
unfolding free_suffix
candidate exists fuel =
    let searched = free_suffix exists fuel 1 in if exists 0 then searched else some 0

pub record StatsRow : Type 0 where
  pub index : ℕ
  pub start_time : ℕ
  pub input_len : ℕ
  pub output_len : ℕ
  pub ttft : ℕ
  pub tpot : ℕ × ℕ

-- `for i, result in enumerate(results)`; a missing mean cannot be multiplied.
unfoldable pub stats_loop : ℕ → ℕ → List ReqResult → Result (List StatsRow)
stats_loop base i [] = ok []
stats_loop base i (r ∷ rs) =
    let rest = stats_loop base (suc i) rs in
    if ltb r.output_len 2 then rest else elim r.tpot [
      | none ↦ raise type_error
      | some tpot ↦ elim rest [
        | raise e ↦ raise e
        | ok rows ↦ ok (
            record {
              index = i;
              start_time = r.start_time - base;
              input_len = r.total_len - r.output_len;
              output_len = r.output_len;
              ttft = r.ttft;
              tpot = tpot;
            }
            ∷ rows)
      ]
    ]

unfoldable pub stats_sorted : List ReqResult → Result (List StatsRow)
unfolding stats_loop
stats_sorted [] = ok []
stats_sorted (r ∷ rs) = stats_loop r.start_time 0 (r ∷ rs)

unfoldable pub request_stats : List ReqResult → Result (List StatsRow)
unfolding sort_results stats_sorted
request_stats results = stats_sorted (sort_results results)

-- The first free name.
abbrev pub IsFirstFree : (ℕ → Bool) → ℕ → Type 0
IsFirstFree exists n = (exists n ≡ false) × ((m : ℕ) → m < n → exists m ≡ true)

free_suffix-first :
    (exists : ℕ → Bool) (fuel suffix n : ℕ)
    → IsFirstFree exists n
    → suffix ≤ n
    → n < suffix + fuel
    → free_suffix exists fuel suffix ≡ some n
unfolding free_suffix
free_suffix-first exists zero suffix n h le lt = absurd (omega arith)
free_suffix-first exists (suc fuel) suffix n h le lt = elim (Bool-cases (ltb suffix n)) [
  | inl x ↦
      let taken : exists suffix ≡ true = h.1 suffix (ground (arith, x)) in
      rw (free_suffix, taken)
        (free_suffix-first exists fuel (suc suffix) n h (ground (arith, x)) (omega arith))
  | inr x ↦
      let same : suffix ≡ n = ground (arith, x) in
      let free : exists suffix ≡ false = ap exists same ∙ h.0 in
      rw (free_suffix, free) (ap (λ (t : ℕ). some t) same)
]

-- The search returns the first suffix whose name is free, in as many rounds as this suffix.
pub candidate-first :
    (exists : ℕ → Bool) (fuel n : ℕ)
    → IsFirstFree exists n
    → n ≤ fuel
    → candidate exists fuel ≡ some n
unfolding candidate
candidate-first exists fuel zero h le = rw (candidate, h.0) refl
candidate-first exists fuel (suc n) h le =
    let taken : exists 0 ≡ true = h.1 0 (omega arith) in
    rw (candidate, taken) (free_suffix-first exists fuel 1 (suc n) h (omega arith) (omega arith))

-- With two tokens there is a mean.
abbrev pub HasTpot : ReqResult → Type 0
HasTpot r = (r.output_len < 2) ⊎ ((p : ℕ × ℕ) × (r.tpot ≡ some p))

insert_result-HasTpot :
    (x : ReqResult) (rs : List ReqResult)
    → HasTpot x
    → All HasTpot rs
    → All HasTpot (insert_result x rs)
unfolding insert_result
insert_result-HasTpot x [] px h = (px, tt)
insert_result-HasTpot x (r ∷ rs) px h = elim (Bool-cases (leb x.start_time r.start_time)) [
  | inl e ↦ rw (insert_result, e) (px, h)
  | inr e ↦ rw (insert_result, e) (h.0, insert_result-HasTpot x rs px h.1)
]

sort_results-HasTpot : (rs : List ReqResult) → All HasTpot rs → All HasTpot (sort_results rs)
unfolding sort_results
sort_results-HasTpot [] h = tt
sort_results-HasTpot (r ∷ rs) h =
    insert_result-HasTpot r (sort_results rs) h.0 (sort_results-HasTpot rs h.1)

-- The results with two tokens or more.
abbrev pub weigh : (ReqResult → ℕ) → ReqResult → ℕ
weigh f r = if ltb r.output_len 2 then 0 else f r

stats_loop-sums :
    (base i : ℕ) (rs : List ReqResult)
    → All HasTpot rs
    → (rows : List StatsRow) × (stats_loop base i rs ≡ ok rows)
      × (length rows ≡ sum (map (weigh (λ r. 1)) rs))
      × (sum (map (λ row. row.output_len) rows) ≡ sum (map (weigh (λ r. r.output_len)) rs))
unfolding stats_loop
stats_loop-sums base i [] h = ([], refl, refl, refl)
stats_loop-sums base i (r ∷ rs) h =
    let rest = stats_loop-sums base (suc i) rs h.1 in
    elim (Bool-cases (ltb r.output_len 2)) [
      | inl x ↦ (
        rest.0,
        rw (stats_loop, x) rest.1,
        rw x (omega (arith, rest.2)),
        rw x (omega (arith, rest.3)),
      )
      | inr x ↦ elim h.0 [
        | inl y ↦ ground (arith, x, y)
        | inr (p, y) ↦ (
          record {
            index = i;
            start_time = r.start_time - base;
            input_len = r.total_len - r.output_len;
            output_len = r.output_len;
            ttft = r.ttft;
            tpot = p;
          }
              ∷ rest.0,
          rw (stats_loop, x, y, rest.1) refl,
          rw x (omega (arith, rest.2)),
          rw x (omega (arith, rest.3)),
        )
      ]
    ]

stats_sorted-sums :
    (rs : List ReqResult)
    → All HasTpot rs
    → (rows : List StatsRow) × (stats_sorted rs ≡ ok rows)
      × (length rows ≡ sum (map (weigh (λ r. 1)) rs))
      × (sum (map (λ row. row.output_len) rows) ≡ sum (map (weigh (λ r. r.output_len)) rs))
unfolding stats_sorted
stats_sorted-sums [] h = ([], refl, refl, refl)
stats_sorted-sums (r ∷ rs) h = stats_loop-sums r.start_time 0 (r ∷ rs) h

-- For results that have a mean whenever they have two tokens the statistics are written without an
-- error: one row for each result with two tokens or more, and the rows together have as many output
-- tokens as these results.
request_stats-sums :
    (results : List ReqResult)
    → All HasTpot results
    → (rows : List StatsRow) × (request_stats results ≡ ok rows)
      × (length rows ≡ sum (map (weigh (λ r. 1)) results))
      × (sum (map (λ row. row.output_len) rows) ≡ sum (map (weigh (λ r. r.output_len)) results))
unfolding request_stats
request_stats-sums results h =
    let sorted = stats_sorted-sums (sort_results results) (sort_results-HasTpot results h) in
    (
      sorted.0,
      sorted.1,
      sorted.2 ∙ sum-sort_results (weigh (λ r. 1)) results,
      sorted.3 ∙ sum-sort_results (weigh (λ r. r.output_len)) results,
    )
