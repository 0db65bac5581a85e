-- ===== src/Benchmarks/Tests.antt =====
-- Witnesses: three requests in two seconds of ten units each, and three requests from two rows.
use lmserve.Prelude.{
  ℕ, All, length, ◌<◌, ◌≤◌, true, false, ◌≡◌, refl, List, [], ◌∷◌, map, none, some, sum, arith,
}
use lmserve.Benchmarks.Requests.{
  Options, DataRow, ApiRequest, generate_requests, usable, generate_requests-Servable,
}
use lmserve.Benchmarks.Stats.{ReqResult, Slo, summarize_results}
use lmserve.Benchmarks.Trace.{request_trace}
use lmserve.Benchmarks.Totals.{request_trace-summarize_results}

program : Unit {0}
unfolding summarize_results request_trace
program = tt

abbrev slo : Slo
slo = record { ttft_slo = 5; tpot_slo = 2 }

abbrev results : List ReqResult
results =
    record {
      start_time = 119;
      total_len = 9;
      output_len = 2;
      latency = 9;
      ttft = 6;
      tpot = some (3, 2);
      second_tok_lat = some 3;
    }
    ∷ record {
      start_time = 103;
      total_len = 7;
      output_len = 1;
      latency = 4;
      ttft = 4;
      tpot = none;
      second_tok_lat = none;
    }
    ∷ record {
      start_time = 106;
      total_len = 8;
      output_len = 3;
      latency = 14;
      ttft = 2;
      tpot = some (12, 3);
      second_tok_lat = some 7;
    }
    ∷ []

rows_run : map (λ row. row.num_requests) (request_trace slo 10 results) ≡ 2 ∷ 1 ∷ []
unfolding program
rows_run = refl

request_trace-summarize_results_example :
    (sum (map (λ row. row.num_requests) (request_trace slo 10 results)) ≡ 3)
    × (sum (map (λ row. row.total_output_len) (request_trace slo 10 results)) ≡ 6)
    × (sum (map (λ row. row.num_good_requests) (request_trace slo 10 results)) ≡ 1)
    × (sum (map (λ row. row.num_good_ttft) (request_trace slo 10 results)) ≡ 2)
    × (sum (map (λ row. row.num_good_tpot) (request_trace slo 10 results)) ≡ 2)
unfolding program
request_trace-summarize_results_example =
    request_trace-summarize_results slo 10 results (omega arith)

abbrev options : Options
options = record {
  max_seq_len = 9;
  num_requests = 3;
  num_samples = 1;
  ignore_eos = true;
  disable_cache = false;
}

abbrev dataset : List (DataRow ℕ)
dataset =
    record { prompt = 1; input_ids = 5 ∷ []; output_ids = 1 ∷ 2 ∷ 3 ∷ 4 ∷ [] }
    ∷ record { prompt = 2; input_ids = 5 ∷ []; output_ids = 1 ∷ 2 ∷ 3 ∷ 4 ∷ 5 ∷ [] }
    ∷ []

generate_requests-Servable_example :
    (out : List (ApiRequest ℕ)) × (generate_requests options 3 dataset ≡ some out)
    × (length out ≡ 3)
    × All (λ r. (4 < r.max_output_len) × (r.max_output_len ≤ 9)) out
unfolding usable
generate_requests-Servable_example = generate_requests-Servable options dataset (omega arith)
