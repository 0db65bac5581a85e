-- ===== src/Benchmarks/Requests.antt =====
-- `generate_requests` of benchmarks/generator/request_generator.py: the requests that it takes from a
-- dataset, in as many passes over it as it needs.
use lmserve.Prelude.{
  ℕ, zero, suc, ◌+◌, ◌≤◌, ◌<◌, ◌≡◌, refl, inl, inr, Bool, false, ◌||◌, List, [], ◌∷◌, ◌++◌, Option,
  none, some, ltb, leb, if◌then◌else◌, All, length, length-append, min, arith, Bool-cases, ltb→lt,
  ltb→le, leb→le, leb→lt,
}

-- A row of the tokenized dataset; a text is of an arbitrary type.
pub record DataRow (Text : Type 0) : Type 0 where
  pub prompt : Text
  pub input_ids : List ℕ
  pub output_ids : List ℕ

-- `APIRequest` of benchmarks/generator/request.py, as this function fills it.
pub record ApiRequest (Text : Type 0) : Type 0 where
  pub prompt : Text
  pub num_samples : ℕ
  pub max_output_len : ℕ
  pub ignore_eos : Bool
  pub disable_cache : Bool

-- The arguments that all requests share.
pub record Options : Type 0 where
  pub max_seq_len : ℕ
  pub num_requests : ℕ
  pub num_samples : ℕ
  pub ignore_eos : Bool
  pub disable_cache : Bool

All_snoc :
    {A : Type 0} (P : A → Type 0) (xs : List A) (x : A) → All P xs → P x → All P (xs ++ x ∷ [])
All_snoc P [] x hs h = (h, tt)
All_snoc P (y ∷ ys) x hs h = (hs.0, All_snoc P ys x hs.1 h)

module _ {Text : Type 0} (opts : Options) where
  -- `(output_len <= 4) or ((input_len + output_len) > max_seq_len)`
  unfoldable pub is_skipped : DataRow Text → Bool
  is_skipped row =
      leb (length row.output_ids) 4
      || ltb opts.max_seq_len (length row.input_ids + length row.output_ids)

  unfoldable pub request_of : DataRow Text → ApiRequest Text
  request_of row = record {
    prompt = row.prompt;
    num_samples = opts.num_samples;
    max_output_len = length row.output_ids;
    ignore_eos = opts.ignore_eos;
    disable_cache = opts.disable_cache;
  }

  -- `for data in dataset`, with its `continue` and `break`.
  unfoldable pub one_pass : List (DataRow Text) → List (ApiRequest Text) → List (ApiRequest Text)
  unfolding is_skipped request_of
  one_pass [] requests = requests
  one_pass (row ∷ rest) requests =
      let requests' = requests ++ request_of row ∷ [] in
      let skip = one_pass rest requests in
      let go_on = one_pass rest requests' in
      if is_skipped row
      then skip
      else if leb opts.num_requests (length requests')
      then requests'
      else go_on

  -- `while len(requests) < num_requests`, for at most so many passes.
  unfoldable pub request_loop :
      ℕ → List (DataRow Text) → List (ApiRequest Text) → Option (List (ApiRequest Text))
  unfolding one_pass
  request_loop zero dataset requests =
      if ltb (length requests) opts.num_requests then none else some requests
  request_loop (suc fuel) dataset requests =
      let rest = request_loop fuel dataset (one_pass dataset requests) in
      if ltb (length requests) opts.num_requests then rest else some requests

  unfoldable pub generate_requests : ℕ → List (DataRow Text) → Option (List (ApiRequest Text))
  unfolding request_loop
  generate_requests fuel dataset = request_loop fuel dataset []

  -- What one pass could add.
  unfoldable pub usable : List (DataRow Text) → List (ApiRequest Text)
  unfolding is_skipped request_of
  usable [] = []
  usable (row ∷ rest) =
      let more = usable rest in if is_skipped row then more else request_of row ∷ more

  -- A request that the model can serve.
  abbrev pub Servable : ApiRequest Text → Type 0
  Servable r = (4 < r.max_output_len) × (r.max_output_len ≤ opts.max_seq_len)

  request_of-Servable : (row : DataRow Text) → is_skipped row ≡ false → Servable (request_of row)
  unfolding is_skipped request_of
  request_of-Servable row x = ground arith

  one_pass-Servable :
      (dataset : List (DataRow Text)) (requests : List (ApiRequest Text))
      → All Servable requests
      → All Servable (one_pass dataset requests)
  unfolding one_pass
  one_pass-Servable [] requests h = h
  one_pass-Servable (row ∷ rest) requests h = elim (Bool-cases (is_skipped row)) [
    | inl x ↦ rw (one_pass, x) (one_pass-Servable rest requests h)
    | inr x ↦
        let h' = All_snoc Servable requests (request_of row) h (request_of-Servable row x) in
        elim (Bool-cases (leb opts.num_requests (length (requests ++ request_of row ∷ [])))) [
          | inl y ↦ rw (one_pass, x, y) h'
          | inr y ↦
              rw (one_pass, x, y) (one_pass-Servable rest (requests ++ request_of row ∷ []) h')
        ]
  ]

  -- A pass over a dataset with a usable row adds a request, and never goes beyond the number.
  one_pass-length :
      (dataset : List (DataRow Text)) (requests : List (ApiRequest Text))
      → length requests < opts.num_requests
      → (length (one_pass dataset requests) ≤ opts.num_requests)
        × (min opts.num_requests (length requests + length (usable dataset))
            ≤ length (one_pass dataset requests))
  unfolding one_pass usable
  one_pass-length [] requests h = (omega arith, omega arith)
  one_pass-length (row ∷ rest) requests h =
      let requests' = requests ++ request_of row ∷ [] in
      let longer = length-append requests (request_of row ∷ []) in
      elim (Bool-cases (is_skipped row)) [
        | inl x ↦ rw (one_pass, usable, x) (one_pass-length rest requests h)
        | inr x ↦ elim (Bool-cases (leb opts.num_requests (length requests'))) [
          | inl y ↦
              rw (one_pass, usable, x, y)
                (
                  omega (arith, longer),
                  omega (arith, longer, leb→le opts.num_requests (length requests') y),
                )
          | inr y ↦
              let more =
                one_pass-length rest requests' (leb→lt opts.num_requests (length requests') y) in
              rw (one_pass, usable, x, y) (more.0, omega (arith, longer, more.1))
        ]
      ]

  request_loop-total :
      (fuel : ℕ) (dataset : List (DataRow Text)) (requests : List (ApiRequest Text))
      → 0 < length (usable dataset)
      → length requests ≤ opts.num_requests
      → opts.num_requests ≤ length requests + fuel
      → All Servable requests
      → (out : List (ApiRequest Text)) × (request_loop fuel dataset requests ≡ some out)
        × (length out ≡ opts.num_requests)
        × All Servable out
  unfolding request_loop
  request_loop-total zero dataset requests some_row le enough h =
      (requests, ground arith, omega arith, h)
  request_loop-total (suc fuel) dataset requests some_row le enough h =
      elim (Bool-cases (ltb (length requests) opts.num_requests)) [
        | inl x ↦
            let grown =
              one_pass-length dataset requests (ltb→lt (length requests) opts.num_requests x) in
            let rest =
              request_loop-total fuel dataset (one_pass dataset requests) some_row grown.0
                (omega (arith, grown.1, some_row)) (one_pass-Servable dataset requests h) in
            (rest.0, rw (request_loop, x) (rest.1), rest.2, rest.3)
        | inr x ↦ (
          requests,
          rw (request_loop, x) refl,
          omega (arith, ltb→le (length requests) opts.num_requests x),
          h,
        )
      ]

  -- If a row of the dataset is usable, as many passes as requests are asked for are enough: exactly
  -- that many requests are returned, and each asks for more than 4 tokens and no more than the limit.
  pub generate_requests-Servable :
      (dataset : List (DataRow Text))
      → 0 < length (usable dataset)
      → (out : List (ApiRequest Text)) × (generate_requests opts.num_requests dataset ≡ some out)
        × (length out ≡ opts.num_requests)
        × All Servable out
  unfolding generate_requests
  generate_requests-Servable dataset some_row =
      request_loop-total opts.num_requests dataset [] some_row (omega arith) (omega arith) tt
