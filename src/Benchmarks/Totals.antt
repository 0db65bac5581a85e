-- ===== src/Benchmarks/Totals.antt =====
-- The rows of a trace and the summary count the same requests.
use lmserve.Prelude.{
  ℕ, zero, suc, ◌+◌, ◌-◌, ◌*◌, ◌/◌, ◌<◌, ◌≡◌, refl, ap, ◌∙◌, inl, inr, ◌&&◌, List, [], ◌∷◌, map,
  leb, All, length, sum, arith, Bool-cases,
}
use lmserve.Benchmarks.Stats.{ReqResult, Slo, ttft_met, tpot_met, one_if, summarize_results}
use lmserve.Benchmarks.Windows.{
  sum-sort_results, fill_row-All, fill_row-nil, Ascending, sort_results-Ascending, last_start-ge,
  within_trace,
}
use lmserve.Benchmarks.Trace.{
  sort_results, TraceRow, empty_row, add_result, fill_row, trace_loop, last_start, trace_sorted,
  request_trace,
}

-- A column that sums a weight of the requests.
module _ (slo : Slo) (column : TraceRow → ℕ) (weight : ReqResult → ℕ)
    (empty : (t : ℕ) → column (empty_row t) ≡ 0)
    (adds : (row : TraceRow) (r : ReqResult)
      → column (add_result slo row r) ≡ column row + weight r) where
  fill_row-weigh :
      (base limit : ℕ) (row : TraceRow) (rs : List ReqResult)
      → column (fill_row slo base limit row rs).0
          + sum (map weight (fill_row slo base limit row rs).1)
        ≡ column row + sum (map weight rs)
  unfolding fill_row
  fill_row-weigh base limit row [] = refl
  fill_row-weigh base limit row (r ∷ rs) = elim (Bool-cases (leb limit (r.start_time - base))) [
    | inl x ↦ rw x refl
    | inr x ↦ rw x (fill_row-weigh base limit (add_result slo row r) rs ∙ omega (arith, adds row r))
  ]

  -- All requests that start before the last limit are counted.
  trace_loop-weigh :
      (second base n time : ℕ) (rs : List ReqResult)
      → All (λ r. r.start_time - base < (time + suc n) * second) rs
      → sum (map column (trace_loop slo second base (suc n) time rs)) ≡ sum (map weight rs)
  unfolding trace_loop
  trace_loop-weigh second base zero time rs h =
      let limit = (time + 1) * second in
      let (row, left) = fill_row slo base limit (empty_row time) rs in
      let spent : left ≡ [] = fill_row-nil slo base limit (empty_row time) rs h in
      let total : column row + sum (map weight left)
          ≡ column (empty_row time) + sum (map weight rs) =
        fill_row-weigh base limit (empty_row time) rs in
      let none_left : sum (map weight left) ≡ 0 =
        ap (λ (l : List ReqResult). sum (map weight l)) spent in
      omega (arith, total, none_left, empty time)
  trace_loop-weigh second base (suc n) time rs h =
      let limit = (time + 1) * second in
      let left = (fill_row slo base limit (empty_row time) rs).1 in
      let later : All (λ r. r.start_time - base < (time + suc (suc n)) * second) left =
        fill_row-All (λ r. r.start_time - base < (time + suc (suc n)) * second) slo base limit
          (empty_row time) rs h in
      let bound : (time + suc (suc n)) * second ≡ (suc time + suc n) * second =
        ap (λ (t : ℕ). t * second) (omega arith) in
      let rest = trace_loop-weigh second base n (suc time) left (rw (← bound) later) in
      omega (arith, rest, fill_row-weigh base limit (empty_row time) rs, empty time)

  trace_sorted-weigh :
      (second : ℕ) (rs : List ReqResult)
      → 0 < second
      → Ascending rs
      → sum (map column (trace_sorted slo second rs)) ≡ sum (map weight rs)
  unfolding trace_sorted
  trace_sorted-weigh second [] pos a = refl
  trace_sorted-weigh second (r ∷ rs) pos a =
      let ends = last_start-ge r.start_time rs a.0 a.1 in
      let top = last_start r.start_time rs in
      let within = within_trace second r.start_time top (r ∷ rs) pos (ends.0, ends.1) in
      let steps = (top - r.start_time) / second in
      let one_more : steps + 1 ≡ suc steps = omega arith in
      ap (λ (n : ℕ). sum (map column (trace_loop slo second r.start_time n 0 (r ∷ rs)))) one_more
      ∙ trace_loop-weigh second r.start_time steps 0 (r ∷ rs) within

  request_trace-weigh :
      (second : ℕ) (rs : List ReqResult)
      → 0 < second
      → sum (map column (request_trace slo second rs)) ≡ sum (map weight rs)
  unfolding request_trace
  request_trace-weigh second rs pos =
      trace_sorted-weigh second (sort_results rs) pos (sort_results-Ascending rs)
      ∙ sum-sort_results weight rs

sum-ones : (rs : List ReqResult) → sum (map (λ r. 1) rs) ≡ length rs
sum-ones [] = refl
sum-ones (r ∷ rs) = omega (arith, sum-ones rs)

-- With time steps of positive length the rows of a trace count every request in exactly one time step:
-- their requests, output tokens and requests that meet each service level, added up over the rows,
-- are those of the summary.
pub request_trace-summarize_results :
    (slo : Slo) (second : ℕ) (results : List ReqResult)
    → 0 < second
    → (sum (map (λ row. row.num_requests) (request_trace slo second results))
        ≡ (summarize_results slo results).num_reqs)
      × (sum (map (λ row. row.total_output_len) (request_trace slo second results))
          ≡ (summarize_results slo results).total_num_output_tokens)
      × (sum (map (λ row. row.num_good_requests) (request_trace slo second results))
          ≡ (summarize_results slo results).num_good_reqs)
      × (sum (map (λ row. row.num_good_ttft) (request_trace slo second results))
          ≡ (summarize_results slo results).num_good_ttft)
      × (sum (map (λ row. row.num_good_tpot) (request_trace slo second results))
          ≡ (summarize_results slo results).num_good_tpot)
unfolding summarize_results add_result
request_trace-summarize_results slo second results pos = (
  request_trace-weigh slo (λ row. row.num_requests) (λ r. 1) (λ t. refl) (λ row r. refl) second
        results pos
      ∙ sum-ones results,
  request_trace-weigh slo (λ row. row.total_output_len) (λ r. r.output_len) (λ t. refl)
      (λ row r. refl) second results pos,
  request_trace-weigh slo (λ row. row.num_good_requests)
      (λ r. one_if (ttft_met slo r && tpot_met slo r)) (λ t. refl) (λ row r. refl) second results
      pos,
  request_trace-weigh slo (λ row. row.num_good_ttft) (λ r. one_if (ttft_met slo r)) (λ t. refl)
      (λ row r. refl) second results pos,
  request_trace-weigh slo (λ row. row.num_good_tpot) (λ r. one_if (tpot_met slo r)) (λ t. refl)
      (λ row r. refl) second results pos,
)
