-- ===== src/Benchmarks/Timed.antt =====
-- `generate_trace` of benchmarks/generator/request_generator.py: requests at the times of a recorded
-- trace, and the pauses between them. Times are whole numbers of a unit of time, and in order.
use lmserve.Prelude.{
  ℕ, suc, ◌+◌, ◌-◌, ◌<◌, ◌≡◌, refl, ap, sym, min, length-append, leb→le, leb→lt, ◌∙◌, inl, inr,
  Bool, true, List, [], ◌∷◌, ◌++◌, leb, if◌then◌else◌, length, arith, Bool-cases,
}
use lmserve.Benchmarks.Requests.{ApiRequest}

pub record TimedRow (Text : Type 0) : Type 0 where
  pub prompt : Text
  pub output_ids : List ℕ
  pub timestamp : ℕ

-- `timestamps[i] - timestamps[i - 1]` for each `i` from 1 on.
unfoldable pub differences : ℕ → List ℕ → List ℕ
differences before [] = []
differences before (t ∷ ts) = (t - before) ∷ differences t ts

-- `[0] + ...`: the 0 is there without timestamps, too.
unfoldable pub intervals_of : List ℕ → List ℕ
unfolding differences
intervals_of [] = 0 ∷ []
intervals_of (t ∷ ts) = 0 ∷ differences t ts

length-differences : (t : ℕ) (ts : List ℕ) → length (differences t ts) ≡ length ts
unfolding differences
length-differences t [] = refl
length-differences t (u ∷ ts) = ap suc (length-differences u ts)

length-intervals_of : (ts : List ℕ) → 0 < length ts → length (intervals_of ts) ≡ length ts
unfolding intervals_of
length-intervals_of [] h = absurd (omega arith)
length-intervals_of (t ∷ ts) h = ap suc (length-differences t ts)

module _ {Text : Type 0} (num_requests : ℕ) (disable_cache : Bool) where
  unfoldable pub timed_request : TimedRow Text → ApiRequest Text
  timed_request row = record {
    prompt = row.prompt;
    num_samples = 1;
    max_output_len = length row.output_ids;
    ignore_eos = true;
    disable_cache = disable_cache;
  }

  -- The loop over the dataset, which ends after the append that reaches the number.
  unfoldable pub trace_rows :
      List (TimedRow Text) → List (ApiRequest Text) → List ℕ → List (ApiRequest Text) × List ℕ
  unfolding timed_request
  trace_rows [] requests timestamps = (requests, timestamps)
  trace_rows (row ∷ rest) requests timestamps =
      let requests' = requests ++ timed_request row ∷ [] in
      let timestamps' = timestamps ++ row.timestamp ∷ [] in
      let go_on = trace_rows rest requests' timestamps' in
      if leb num_requests (length requests') then (requests', timestamps') else go_on

  unfoldable pub generate_trace : List (TimedRow Text) → List (ApiRequest Text) × List ℕ
  unfolding trace_rows intervals_of
  generate_trace dataset =
      let (requests, timestamps) = trace_rows dataset [] [] in (requests, intervals_of timestamps)

  trace_rows-length :
      (dataset : List (TimedRow Text)) (requests : List (ApiRequest Text)) (timestamps : List ℕ)
      → length requests ≡ length timestamps
      → (length (trace_rows dataset requests timestamps).0
          ≡ length (trace_rows dataset requests timestamps).1)
        × (length requests < num_requests
            → length (trace_rows dataset requests timestamps).0
              ≡ min num_requests (length requests + length dataset))
        × (0 < length dataset → 0 < length (trace_rows dataset requests timestamps).0)
  unfolding trace_rows
  trace_rows-length [] requests timestamps h = (h, λ lt. omega arith, λ p. omega arith)
  trace_rows-length (row ∷ rest) requests timestamps h =
      let requests' = requests ++ timed_request row ∷ [] in
      let timestamps' = timestamps ++ row.timestamp ∷ [] in
      let len = length-append requests (timed_request row ∷ []) in
      let len' = length-append timestamps (row.timestamp ∷ []) in
      elim (Bool-cases (leb num_requests (length requests'))) [
        | inl x ↦
            let x' = leb→le num_requests (length requests') x in
            (
              rw (trace_rows, x) (omega (arith, len, len')),
              λ lt. rw (trace_rows, x) (omega (arith, len, x', lt)),
              λ p. rw (trace_rows, x) (omega (arith, len)),
            )
        | inr x ↦
            let x' = leb→lt num_requests (length requests') x in
            let more = trace_rows-length rest requests' timestamps' (omega (arith, len, len')) in
            let count = more.1 x' in
            (
              rw (trace_rows, x) (more.0),
              λ lt. rw (trace_rows, x) (omega (arith, count, len)),
              λ p. rw (trace_rows, x) (omega (arith, count, len, x')),
            )
      ]

  -- From a dataset with a row and for a number of requests above 0, as many requests are taken as the
  -- number and the dataset allow, and there is one pause for each.
  pub generate_trace-length :
      (dataset : List (TimedRow Text))
      → 0 < num_requests
      → 0 < length dataset
      → (length (generate_trace dataset).0 ≡ min num_requests (length dataset))
        × (length (generate_trace dataset).1 ≡ length (generate_trace dataset).0)
  unfolding generate_trace
  generate_trace-length dataset pos some_row =
      let rows = trace_rows-length dataset [] [] refl in
      let count = rows.1 pos in
      let timed : 0 < length (trace_rows dataset [] []).1 =
        omega (arith, rows.0, rows.2 some_row) in
      (omega (arith, count), length-intervals_of (trace_rows dataset [] []).1 timed ∙ sym rows.0)
