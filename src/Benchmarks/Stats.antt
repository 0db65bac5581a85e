-- ===== src/Benchmarks/Stats.antt =====
-- `ReqResult.from_response`, and what `summarize_results` sums and counts. Times are whole numbers of
-- a unit of time, a mean is the pair of its sum and its count; numpy's percentiles, the mean of the
-- latencies and the divisions by the elapsed time are not modelled.
use lmserve.Prelude.{
  ℕ, ◌*◌, Bool, true, false, ◌&&◌, List, [], ◌∷◌, map, Option, none, some, ltb, leb, if◌then◌else◌,
  length, sum, Result, ok, raise, index_error,
}

pub record Response : Type 0 where
  pub start_time : ℕ
  pub token_ids : List ℕ
  pub token_latencies : List ℕ

pub record ReqResult : Type 0 where
  pub start_time : ℕ
  pub total_len : ℕ
  pub output_len : ℕ
  pub latency : ℕ
  pub ttft : ℕ
  pub tpot : Option (ℕ × ℕ)
  pub second_tok_lat : Option ℕ

unfoldable pub from_response : Response → Result ReqResult
from_response res = elim res.token_latencies [
  | [] ↦ raise index_error
  | first ∷ rest ↦ ok (record {
    start_time = res.start_time;
    total_len = length res.token_ids;
    output_len = length (first ∷ rest);
    latency = sum (first ∷ rest);
    ttft = first;
    tpot = if ltb 1 (length (first ∷ rest)) then some (sum rest, length (first ∷ rest)) else none;
    second_tok_lat = elim rest [ [] ↦ none | second ∷ _ ↦ some second ];
  })
]

-- The two service levels.
pub record Slo : Type 0 where
  pub ttft_slo : ℕ
  pub tpot_slo : ℕ

abbrev pub ttft_met : Slo → ReqResult → Bool
ttft_met slo r = leb r.ttft slo.ttft_slo

-- `tpot is None or tpot <= tpot_slo`
abbrev pub tpot_met : Slo → ReqResult → Bool
tpot_met slo r = elim r.tpot [
  | none ↦ true
  | some (total, count) ↦ leb total (slo.tpot_slo * count)
]

-- A test as Python adds it up.
abbrev pub one_if : Bool → ℕ
one_if true = 1
one_if false = 0

pub record Summary : Type 0 where
  pub num_reqs : ℕ
  pub total_num_tokens : ℕ
  pub total_num_output_tokens : ℕ
  pub num_good_reqs : ℕ
  pub num_good_ttft : ℕ
  pub num_good_tpot : ℕ

unfoldable pub summarize_results : Slo → List ReqResult → Summary
summarize_results slo results = record {
  num_reqs = length results;
  total_num_tokens = sum (map (λ r. r.total_len) results);
  total_num_output_tokens = sum (map (λ r. r.output_len) results);
  num_good_reqs = sum (map (λ r. one_if (ttft_met slo r && tpot_met slo r)) results);
  num_good_ttft = sum (map (λ r. one_if (ttft_met slo r)) results);
  num_good_tpot = sum (map (λ r. one_if (tpot_met slo r)) results);
}
