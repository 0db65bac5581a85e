-- ===== src/Benchmarks/Windows.antt =====
-- The order of the results, and what a time step leaves.
use lmserve.Prelude.{
  map, sum, ◌∙◌, ℕ, suc, ◌+◌, ◌-◌, ◌*◌, ◌/◌, ◌≤◌, ◌<◌, ◌≡◌, refl, inl, inr, List, [], ◌∷◌, leb, All,
  arith, Bool-cases, leb→le, leb→lt,
}
use native.Mathlib.Nat.{div-add-mod', mod-lt}
use lmserve.Benchmarks.Stats.{ReqResult, Slo}
use lmserve.Benchmarks.Trace.{
  insert_result, sort_results, TraceRow, add_result, fill_row, last_start,
}

pub fill_row-All :
    (P : ReqResult → Type 0) (slo : Slo) (base limit : ℕ) (row : TraceRow) (rs : List ReqResult)
    → All P rs
    → All P (fill_row slo base limit row rs).1
unfolding fill_row
fill_row-All P slo base limit row [] h = tt
fill_row-All P slo base limit row (r ∷ rs) h = elim (Bool-cases (leb limit (r.start_time - base))) [
  | inl x ↦ rw x h
  | inr x ↦ rw x (fill_row-All P slo base limit (add_result slo row r) rs h.1)
]

pub fill_row-nil :
    (slo : Slo) (base limit : ℕ) (row : TraceRow) (rs : List ReqResult)
    → All (λ r. r.start_time - base < limit) rs
    → (fill_row slo base limit row rs).1 ≡ []
unfolding fill_row
fill_row-nil slo base limit row [] h = refl
fill_row-nil slo base limit row (r ∷ rs) h = elim (Bool-cases (leb limit (r.start_time - base))) [
  | inl x ↦ absurd (ground (arith, leb→le limit (r.start_time - base) x, h.0))
  | inr x ↦ rw x (fill_row-nil slo base limit (add_result slo row r) rs h.1)
]

-- The order of the results.
abbrev pub Ascending : List ReqResult → Type 0
Ascending [] = Unit
Ascending (r ∷ rs) = All (λ x. r.start_time ≤ x.start_time) rs × Ascending rs

insert_result-All :
    (P : ReqResult → Type 0) (x : ReqResult) (rs : List ReqResult)
    → P x
    → All P rs
    → All P (insert_result x rs)
unfolding insert_result
insert_result-All P x [] px h = (px, tt)
insert_result-All P x (r ∷ rs) px h = elim (Bool-cases (leb x.start_time r.start_time)) [
  | inl e ↦ rw e (px, h)
  | inr e ↦ rw e (h.0, insert_result-All P x rs px h.1)
]

All-ge_trans :
    {m n : ℕ} (rs : List ReqResult)
    → m ≤ n
    → All (λ x. n ≤ x.start_time) rs
    → All (λ x. m ≤ x.start_time) rs
All-ge_trans [] h a = tt
All-ge_trans (r ∷ rs) h a = (omega (arith, a.0), All-ge_trans rs h a.1)

insert_result-Ascending :
    (x : ReqResult) (rs : List ReqResult) → Ascending rs → Ascending (insert_result x rs)
unfolding insert_result
insert_result-Ascending x [] h = (tt, tt)
insert_result-Ascending x (r ∷ rs) h = elim (Bool-cases (leb x.start_time r.start_time)) [
  | inl e ↦ let le = leb→le x.start_time r.start_time e in rw e ((le, All-ge_trans rs le h.0), h)
  | inr e ↦
      let lt = leb→lt x.start_time r.start_time e in
      rw e (
        insert_result-All (λ y. r.start_time ≤ y.start_time) x rs (omega arith) h.0,
        insert_result-Ascending x rs h.1,
      )
]

pub sort_results-Ascending : (rs : List ReqResult) → Ascending (sort_results rs)
unfolding sort_results
sort_results-Ascending [] = tt
sort_results-Ascending (r ∷ rs) =
    insert_result-Ascending r (sort_results rs) (sort_results-Ascending rs)

pub last_start-ge :
    (t : ℕ) (rs : List ReqResult)
    → All (λ x. t ≤ x.start_time) rs
    → Ascending rs
    → (t ≤ last_start t rs) × All (λ x. x.start_time ≤ last_start t rs) rs
unfolding last_start
last_start-ge t [] h a = (omega arith, tt)
last_start-ge t (r ∷ rs) h a =
    let rest = last_start-ge r.start_time rs a.0 a.1 in
    (omega (arith, rest.0, h.0), (rest.0, rest.1))

pub within_trace :
    (second base top : ℕ) (rs : List ReqResult)
    → 0 < second
    → All (λ x. x.start_time ≤ top) rs
    → All (λ x. x.start_time - base < (0 + suc ((top - base) / second)) * second) rs
within_trace second base top [] pos h = tt
within_trace second base top (r ∷ rs) pos h = (
  omega (arith, div-add-mod' (top - base) second, mod-lt (top - base) pos, h.0),
  within_trace second base top rs pos h.1,
)

module _ (weight : ReqResult → ℕ) where
  sum-insert_result :
      (x : ReqResult) (rs : List ReqResult)
      → sum (map weight (insert_result x rs)) ≡ weight x + sum (map weight rs)
  unfolding insert_result
  sum-insert_result x [] = refl
  sum-insert_result x (r ∷ rs) = elim (Bool-cases (leb x.start_time r.start_time)) [
    | inl e ↦ rw e refl
    | inr e ↦ rw e (omega (arith, sum-insert_result x rs))
  ]

  pub sum-sort_results :
      (rs : List ReqResult) → sum (map weight (sort_results rs)) ≡ sum (map weight rs)
  unfolding sort_results
  sum-sort_results [] = refl
  sum-sort_results (r ∷ rs) =
      sum-insert_result r (sort_results rs) ∙ omega (arith, sum-sort_results rs)
