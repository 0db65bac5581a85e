-- ===== src/Startup/Affinity.antt =====
-- The list of processors that the kernel prints is read back.
use lmserve.Prelude.{
  ℕ, ◌+◌, ◌-◌, ◌≡◌, refl, ap, sym, ◌∙◌, inl, inr, true, false, List, [], ◌∷◌, ◌++◌, map, concat,
  some, ◌==◌, ◌||◌, if◌then◌else◌, range_from, Result, ok, arith, Bool-cases,
}
use lmserve.Startup.{
  cons_head, split, has, comma, minus, range_ids, part_ids, parts_ids, cpu_affinity_ids,
}

-- Python's decimal numbers: they are read back, and have no comma and no minus.
pub record Decimals (int : List ℕ → Result ℕ) (str : ℕ → List ℕ) : Type 0 where
  pub reads : (n : ℕ) → int (str n) ≡ ok n
  pub no_comma : (n : ℕ) → has comma (str n) ≡ false
  pub no_minus : (n : ℕ) → has minus (str n) ≡ false

split_at :
    (sep : ℕ) (xs ys : List ℕ) → has sep xs ≡ false → split sep (xs ++ sep ∷ ys) ≡ xs ∷ split sep ys
unfolding split has cons_head
split_at sep [] ys h = ground arith
split_at sep (c ∷ xs) ys h =
    let later : has sep xs ≡ false = ground arith in ground (arith, split_at sep xs ys later)

split_whole : (sep : ℕ) (xs : List ℕ) → has sep xs ≡ false → split sep xs ≡ xs ∷ []
unfolding split has cons_head
split_whole sep [] h = refl
split_whole sep (c ∷ xs) h =
    let later : has sep xs ≡ false = ground arith in ground (arith, split_whole sep xs later)

has-append : (sep : ℕ) (xs ys : List ℕ) → has sep (xs ++ ys) ≡ (has sep xs || has sep ys)
unfolding has
has-append sep [] ys = refl
has-append sep (c ∷ xs) ys = ground (arith, has-append sep xs ys)

-- The ids from the first to the last of a range.
abbrev pub ids_of : ℕ × ℕ → List ℕ
ids_of (first, last) = range_from first (last + 1 - first)

module _ (str : ℕ → List ℕ) where
  -- How the kernel prints a range, and ranges with commas between them.
  unfoldable pub print_range : ℕ × ℕ → List ℕ
  print_range (first, last) = if first == last then str first else str first ++ minus ∷ str last

  unfoldable pub print_ranges : ℕ × ℕ → List (ℕ × ℕ) → List ℕ
  unfolding print_range
  print_ranges r [] = print_range r
  print_ranges r (r' ∷ rs) = print_range r ++ comma ∷ print_ranges r' rs

module _ (int : List ℕ → Result ℕ) (str : ℕ → List ℕ) (laws : Decimals int str) where
  range_marked : (first last : ℕ) → has minus (str first ++ minus ∷ str last) ≡ true
  unfolding has
  range_marked first last =
      has-append minus (str first) (minus ∷ str last) ∙ rw (laws.no_minus first) refl

  range_ids_lem :
      (first last : ℕ) → range_ids int (str first ++ minus ∷ str last) ≡ ok (ids_of (first, last))
  unfolding range_ids
  range_ids_lem first last =
      let parts : split minus (str first ++ minus ∷ str last) ≡ str first ∷ str last ∷ [] =
        split_at minus (str first) (str last) (laws.no_minus first)
        ∙ ap (◌∷◌ (str first)) (split_whole minus (str last) (laws.no_minus last)) in
      rw (range_ids, parts, laws.reads first, laws.reads last) refl

  part_ids-print_range : (r : ℕ × ℕ) → part_ids int (print_range str r) ≡ ok (ids_of r)
  unfolding part_ids print_range
  part_ids-print_range (first, last) = elim (Bool-cases (first == last)) [
    | inl same ↦
        let once : last + 1 - first ≡ 1 = ground arith in
        rw (part_ids, print_range, same, laws.no_minus first, laws.reads first)
          (ap (λ (n : ℕ). ok (range_from first n)) (sym once))
    | inr other ↦
        rw (part_ids, print_range, other, range_marked first last) (range_ids_lem first last)
  ]

  no_comma_in : (r : ℕ × ℕ) → has comma (print_range str r) ≡ false
  unfolding print_range has
  no_comma_in (first, last) = elim (Bool-cases (first == last)) [
    | inl same ↦ rw (print_range, same) (laws.no_comma first)
    | inr other ↦
        rw (print_range, other)
          (has-append comma (str first) (minus ∷ str last)
            ∙ rw (laws.no_comma first) (laws.no_comma last))
  ]

  parts_ids-print_ranges :
      (r : ℕ × ℕ) (rs : List (ℕ × ℕ))
      → parts_ids int (split comma (print_ranges str r rs)) ≡ ok (concat (map ids_of (r ∷ rs)))
  unfolding parts_ids print_ranges
  parts_ids-print_ranges r [] =
      rw (split_whole comma (print_range str r) (no_comma_in r), parts_ids, part_ids-print_range r)
        refl
  parts_ids-print_ranges r (r' ∷ rs) =
      rw
        (
          split_at comma (print_range str r) (print_ranges str r' rs) (no_comma_in r),
          parts_ids,
          part_ids-print_range r,
          parts_ids-print_ranges r' rs,
        )
        refl

  -- For a reader and a printer of decimal numbers, the ids of a list of processors are read back from
  -- how the kernel prints the list: ranges with commas between them, a range of one processor as one
  -- number, a longer one as its first and its last number.
  pub cpu_affinity_ids-print_ranges :
      (r : ℕ × ℕ) (rs : List (ℕ × ℕ))
      → cpu_affinity_ids int (some (print_ranges str r rs))
        ≡ ok (some (concat (map ids_of (r ∷ rs))))
  unfolding cpu_affinity_ids
  cpu_affinity_ids-print_ranges r rs = rw (cpu_affinity_ids, parts_ids-print_ranges r rs) refl
