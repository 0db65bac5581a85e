-- ===== src/Startup/Tests.antt =====
-- A list of processors, with numbers written as so many strokes.
use lmserve.Prelude.{
  ℕ, zero, suc, ◌≡◌, refl, ap, false, List, [], ◌∷◌, map, concat, some, length, replicate,
  length-replicate, Result, ok,
}
use lmserve.Startup.{has, comma, minus, cpu_affinity_ids}
use lmserve.Startup.Affinity.{Decimals, ids_of, print_ranges, cpu_affinity_ids-print_ranges}

abbrev stroke : ℕ
stroke = b'1'

abbrev int : List ℕ → Result ℕ
int text = ok (length text)

abbrev str : ℕ → List ℕ
str n = replicate n stroke

no_comma : (n : ℕ) → has comma (str n) ≡ false
unfolding has
no_comma zero = refl
no_comma (suc n) = no_comma n

no_minus : (n : ℕ) → has minus (str n) ≡ false
unfolding has
no_minus zero = refl
no_minus (suc n) = no_minus n

strokes-Decimals : Decimals int str
strokes-Decimals = record {
  reads = λ n. ap ok (length-replicate n stroke);
  no_comma = no_comma;
  no_minus = no_minus;
}

-- "0-3,8,10-11" in strokes.
cpu_affinity_ids_run :
    cpu_affinity_ids int (some (print_ranges str (0, 3) ((8, 8) ∷ (10, 11) ∷ [])))
    ≡ ok (some (0 ∷ 1 ∷ 2 ∷ 3 ∷ 8 ∷ 10 ∷ 11 ∷ []))
unfolding cpu_affinity_ids print_ranges
cpu_affinity_ids_run = refl

cpu_affinity_ids-print_ranges_example :
    cpu_affinity_ids int (some (print_ranges str (0, 3) ((8, 8) ∷ (10, 11) ∷ [])))
    ≡ ok (some (concat (map ids_of ((0, 3) ∷ (8, 8) ∷ (10, 11) ∷ []))))
cpu_affinity_ids-print_ranges_example =
    cpu_affinity_ids-print_ranges int str strokes-Decimals (0, 3) ((8, 8) ∷ (10, 11) ∷ [])
