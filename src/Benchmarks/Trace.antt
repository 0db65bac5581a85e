-- ===== src/Benchmarks/Trace.antt =====
-- `save_request_trace`: the rows that it writes, before numpy's percentiles of the two lists and the
-- rounding. `second` is a second in units of time.
use lmserve.Prelude.{
  ℕ, zero, suc, ◌+◌, ◌-◌, ◌*◌, ◌/◌, ◌&&◌, List, [], ◌∷◌, ◌++◌, none, some, leb, if◌then◌else◌,
}
use lmserve.Benchmarks.Stats.{ReqResult, Slo, ttft_met, tpot_met, one_if}

-- `sorted(results, key=lambda x: x.start_time)`
unfoldable pub insert_result : ReqResult → List ReqResult → List ReqResult
insert_result x [] = x ∷ []
insert_result x (y ∷ ys) =
    let rest = insert_result x ys in if leb x.start_time y.start_time then x ∷ y ∷ ys else y ∷ rest

unfoldable pub sort_results : List ReqResult → List ReqResult
unfolding insert_result
sort_results [] = []
sort_results (x ∷ xs) = insert_result x (sort_results xs)

pub record TraceRow : Type 0 where
  pub time_s : ℕ
  pub num_requests : ℕ
  pub total_input_len : ℕ
  pub total_output_len : ℕ
  pub ttfts : List ℕ
  pub tpots : List (ℕ × ℕ)
  pub num_good_requests : ℕ
  pub num_good_ttft : ℕ
  pub num_good_tpot : ℕ

abbrev pub empty_row : ℕ → TraceRow
empty_row time = record {
  time_s = time;
  num_requests = 0;
  total_input_len = 0;
  total_output_len = 0;
  ttfts = [];
  tpots = [];
  num_good_requests = 0;
  num_good_ttft = 0;
  num_good_tpot = 0;
}

-- One request of the time step.
unfoldable pub add_result : Slo → TraceRow → ReqResult → TraceRow
add_result slo row res = record row {
  num_requests = row.num_requests + 1;
  total_input_len = row.total_input_len + (res.total_len - res.output_len);
  total_output_len = row.total_output_len + res.output_len;
  ttfts = row.ttfts ++ res.ttft ∷ [];
  tpots = elim res.tpot [ none ↦ row.tpots | some tpot ↦ row.tpots ++ tpot ∷ [] ];
  num_good_requests = row.num_good_requests + one_if (ttft_met slo res && tpot_met slo res);
  num_good_ttft = row.num_good_ttft + one_if (ttft_met slo res);
  num_good_tpot = row.num_good_tpot + one_if (tpot_met slo res);
}

-- `while len(results) > 0`: the row of a time step that ends at `limit`, and the results that are left.
unfoldable pub fill_row : Slo → ℕ → ℕ → TraceRow → List ReqResult → TraceRow × List ReqResult
unfolding add_result
fill_row slo base limit row [] = (row, [])
fill_row slo base limit row (r ∷ rs) =
    let rest = fill_row slo base limit (add_result slo row r) rs in
    if leb limit (r.start_time - base) then (row, r ∷ rs) else rest

-- `for time in range(time, time + n)`
unfoldable pub trace_loop : Slo → ℕ → ℕ → ℕ → ℕ → List ReqResult → List TraceRow
unfolding fill_row
trace_loop slo second base zero time rs = []
trace_loop slo second base (suc n) time rs =
    let (row, rs') = fill_row slo base ((time + 1) * second) (empty_row time) rs in
    row ∷ trace_loop slo second base n (suc time) rs'

unfoldable pub last_start : ℕ → List ReqResult → ℕ
last_start t [] = t
last_start t (r ∷ rs) = last_start r.start_time rs

-- The rows from the sorted results; without results nothing is written.
unfoldable pub trace_sorted : Slo → ℕ → List ReqResult → List TraceRow
unfolding trace_loop last_start
trace_sorted slo second [] = []
trace_sorted slo second (r ∷ rs) =
    let total_time = last_start r.start_time rs - r.start_time in
    trace_loop slo second r.start_time (total_time / second + 1) 0 (r ∷ rs)

unfoldable pub request_trace : Slo → ℕ → List ReqResult → List TraceRow
unfolding sort_results trace_sorted
request_trace slo second results = trace_sorted slo second (sort_results results)
