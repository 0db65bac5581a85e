-- ===== src/Warmup/Spread.antt =====
-- The tokens of the warmup are spread evenly over the places of the batch.
use native.Mathlib.Nat.{mod-lt, div-add-mod, div-le_of_le-mul, zero-mod, zero-div}
use lmserve.Prelude.{
  ℕ, zero, ◌≢◌, suc, ◌+◌, ◌*◌, ◌/◌, ◌%◌, ◌≤◌, ◌<◌, ◌≡◌, refl, ap, ◌∙◌, inl, inr, List, [], ◌∷◌,
  ◌==◌, ltb, if◌then◌else◌, arith, length, length-append, replicate, sum, map, Bool-cases,
  div_mod-suc, div_mod-suc_carry, ltb→le,
}
use lmserve.Warmup.{append_at, spread}

-- The length of list number `j` of `n` after `i` tokens.
pub share : ℕ → ℕ → ℕ → ℕ
share n i j = if ltb j (i % n) then i / n + 1 else i / n

share-suc :
    (n i j : ℕ) → j < n → share n (suc i) j ≡ (if j == i % n then share n i j + 1 else share n i j)
unfolding share
share-suc n i j h = elim (Bool-cases (ltb (suc (i % n)) n)) [
  | inl e ↦ ground (arith, div_mod-suc i n (ground arith))
  | inr e ↦
      ground
        (arith, div_mod-suc_carry i n (omega (arith, mod-lt i {m = n}, ltb→le (suc (i % n)) n e)))
]

-- List number `k` has length `f k`, and so on.
abbrev pub Lengths : (ℕ → ℕ) → ℕ → List (List ℕ) → Type 0
Lengths f k [] = Unit
Lengths f k (l ∷ ls) = (length l ≡ f k) × Lengths f (suc k) ls

Lengths-ext :
    (f g : ℕ → ℕ) (k : ℕ) (ls : List (List ℕ))
    → ((m : ℕ) → k ≤ m → m < k + length ls → f m ≡ g m)
    → Lengths f k ls
    → Lengths g k ls
Lengths-ext f g k [] e h = tt
Lengths-ext f g k (l ∷ ls) e h = (
  h.0 ∙ e k (omega arith) (omega arith),
  Lengths-ext f g (suc k) ls (λ m lo hi. e m (omega arith) (omega arith)) h.1,
)

append_at-Lengths :
    (f g : ℕ → ℕ) (k j t : ℕ) (ls : List (List ℕ))
    → ((m : ℕ) → k ≤ m → m < k + length ls → g m ≡ (if m == k + j then f m + 1 else f m))
    → Lengths f k ls
    → Lengths g k (append_at j t ls)
unfolding append_at
append_at-Lengths f g k j t [] e h = tt
append_at-Lengths f g k zero t (l ∷ ls) e h = (
  ground (arith, e k (omega arith) (omega arith), h.0, length-append l (t ∷ [])),
  Lengths-ext f g (suc k) ls (λ m lo hi. ground (arith, e m (omega arith) (omega arith))) h.1,
)
append_at-Lengths f g k (suc j) t (l ∷ ls) e h = (
  ground (arith, e k (omega arith) (omega arith), h.0),
  append_at-Lengths f g (suc k) j t ls (λ m lo hi. ground (arith, e m (omega arith) (omega arith)))
      h.1,
)

length-append_at : (j t : ℕ) (ls : List (List ℕ)) → length (append_at j t ls) ≡ length ls
unfolding append_at
length-append_at j t [] = refl
length-append_at zero t (l ∷ ls) = refl
length-append_at (suc j) t (l ∷ ls) = ap suc (length-append_at j t ls)

pub spread-Lengths :
    (n i : ℕ) (ts : List ℕ) (ls : List (List ℕ))
    → length ls ≡ n
    → Lengths (share n i) 0 ls
    → Lengths (share n (i + length ts)) 0 (spread n i ts ls)
unfolding spread
spread-Lengths n i [] ls len h =
    Lengths-ext (share n i) (share n (i + 0)) 0 ls
      (λ m lo hi. ap (λ (t : ℕ). share n t m) (omega arith)) h
spread-Lengths n i (t ∷ ts) ls len h =
    let next : Lengths (share n (suc i)) 0 (append_at (i % n) t ls) =
      append_at-Lengths (share n i) (share n (suc i)) 0 (i % n) t ls
        (λ m lo hi. ground (arith, share-suc n i m (omega arith))) h in
    let e : suc i + length ts ≡ i + suc (length ts) = omega arith in
    rw (← e) (
      spread-Lengths n (suc i) ts (append_at (i % n) t ls) (length-append_at (i % n) t ls ∙ len)
        next)

pub length-spread :
    (n i : ℕ) (ts : List ℕ) (ls : List (List ℕ)) → length (spread n i ts ls) ≡ length ls
unfolding spread
length-spread n i [] ls = refl
length-spread n i (t ∷ ts) ls =
    length-spread n (suc i) ts (append_at (i % n) t ls) ∙ length-append_at (i % n) t ls

sum_lengths-append_at :
    (j t : ℕ) (ls : List (List ℕ))
    → j < length ls
    → sum (map length (append_at j t ls)) ≡ sum (map length ls) + 1
unfolding append_at
sum_lengths-append_at j t [] h = absurd (omega arith)
sum_lengths-append_at zero t (l ∷ ls) h = omega (arith, length-append l (t ∷ []))
sum_lengths-append_at (suc j) t (l ∷ ls) h =
    omega (arith, sum_lengths-append_at j t ls (omega arith))

pub sum_lengths-spread :
    (n i : ℕ) (ts : List ℕ) (ls : List (List ℕ))
    → 0 < n
    → length ls ≡ n
    → sum (map length (spread n i ts ls)) ≡ sum (map length ls) + length ts
unfolding spread
sum_lengths-spread n i [] ls hn len = omega arith
sum_lengths-spread n i (t ∷ ts) ls hn len =
    let rest = append_at (i % n) t ls in
    omega (
      arith,
      sum_lengths-spread n (suc i) ts rest hn (length-append_at (i % n) t ls ∙ len),
      sum_lengths-append_at (i % n) t ls (omega (arith, mod-lt i {m = n})),
    )

pub replicate-Lengths : (n k c : ℕ) → Lengths (share c 0) k (replicate n [])
unfolding share
replicate-Lengths zero k c = tt
replicate-Lengths (suc n) k c =
    (ground (arith, zero-mod c, zero-div c), replicate-Lengths n (suc k) c)

pub sum_lengths-replicate : (n : ℕ) → sum (map (length {A = ℕ}) (replicate n [])) ≡ 0
sum_lengths-replicate zero = refl
sum_lengths-replicate (suc n) = omega (arith, sum_lengths-replicate n)

pub share-le : (n i j m : ℕ) → 0 < n → i ≤ n * m → share n i j ≤ m
unfolding share
share-le n i j m hn h =
    let at_most : i / n ≤ m = div-le_of_le-mul n h in
    elim (Bool-cases (ltb (i / n) m)) [
      | inl below ↦ ground arith
      | inr full ↦
          let e : i / n ≡ m = omega (arith, ltb→le (i / n) m full) in
          let even : i % n ≡ 0 = omega (arith, div-add-mod i n, ap (λ (t : ℕ). n * t) e) in
          ground arith
    ]

pub share-pos : (n i j : ℕ) → 0 < n → n ≤ i → 0 < share n i j
unfolding share
share-pos n i j hn h =
    let some_round : i / n ≢ 0 =
      λ e. absurd (omega (arith, div-add-mod i n, mod-lt i {m = n}, ap (λ (t : ℕ). n * t) e)) in
    ground (arith, some_round)
