-- ===== src/Kernels/RotaryNumbers.antt =====
-- The numbers of the table of cosines and sines.
use lmserve.Prelude.{
  ℕ, zero, suc, ◌+◌, ◌*◌, ◌<◌, ◌≡◌, ap, ◌∙◌, List, ◌++◌, map, some, length, length-map,
  length-append, get_elem?, get_elem?-lt, get_elem?-map, get_elem?-append_left,
  get_elem?-append_right, concat, range_from, arith,
}
use lmserve.Kernels.RotaryTable.{Floats, cos_sin_row}

pub get_elem?-range_from :
    (start n i : ℕ) → i < n → get_elem? (range_from start n) i ≡ some (start + i)
get_elem?-range_from start zero i h = absurd (omega arith)
get_elem?-range_from start (suc n) zero h = ap (λ (t : ℕ). some t) (omega arith)
get_elem?-range_from start (suc n) (suc i) h =
    get_elem?-range_from (start + 1) n i (omega arith) ∙ ap (λ (t : ℕ). some t) (omega arith)

-- Rows of one width, one behind the other.
pub get_elem?-rows :
    {A : Type 0} (row : ℕ → List A) (width start n i c : ℕ)
    → ((t : ℕ) → length (row t) ≡ width)
    → i < n
    → c < width
    → get_elem? (concat (map row (range_from start n))) (i * width + c)
      ≡ get_elem? (row (start + i)) c
get_elem?-rows row width start zero i c len hi hc = absurd (omega arith)
get_elem?-rows row width start (suc n) zero c len hi hc =
    let rest = concat (map row (range_from (start + 1) n)) in
    ap (get_elem? (row start ++ rest)) (omega arith)
    ∙ get_elem?-append_left (row start) rest c (omega (arith, len start))
    ∙ ap (λ (t : ℕ). get_elem? (row t) c) (omega arith)
get_elem?-rows row width start (suc n) (suc i) c len hi hc =
    let rest = concat (map row (range_from (start + 1) n)) in
    let behind : suc i * width + c ≡ length (row start) + (i * width + c) =
      grind (arith, len start) in
    get_elem?-append_right (row start) rest (suc i * width + c) (i * width + c) behind
    ∙ get_elem?-rows row width (start + 1) n i c len (omega arith) hc
    ∙ ap (λ (t : ℕ). get_elem? (row t) c) (omega arith)

module _ {F A : Type 0} (fl : Floats F A) (freq : List F) where
  pub length-cos_sin_row : (t : ℕ) → length (cos_sin_row fl freq t) ≡ 4 * length freq
  unfolding cos_sin_row
  length-cos_sin_row t =
      let freqs = map (fl.mul (fl.float t)) freq in
      omega (
        arith,
        length-append (map (λ x. fl.cast (fl.cos x)) (freqs ++ freqs))
            (map (λ x. fl.cast (fl.sin x)) (freqs ++ freqs)),
        length-map (λ x. fl.cast (fl.cos x)) (freqs ++ freqs),
        length-map (λ x. fl.cast (fl.sin x)) (freqs ++ freqs),
        length-append freqs freqs,
        length-map (fl.mul (fl.float t)) freq,
      )

  module _ (t j : ℕ) {f : F} (at : get_elem? freq j ≡ some f) where
    -- Both halves of `emb` have the angles of the frequencies.
    halves :
        (g : F → A)
        → (get_elem? (map g (map (fl.mul (fl.float t)) freq ++ map (fl.mul (fl.float t)) freq)) j
            ≡ some (g (fl.mul (fl.float t) f)))
          × (get_elem?
                (map g (map (fl.mul (fl.float t)) freq ++ map (fl.mul (fl.float t)) freq))
                (length freq + j)
              ≡ some (g (fl.mul (fl.float t) f)))
    halves g =
        let freqs = map (fl.mul (fl.float t)) freq in
        let count = length-map (fl.mul (fl.float t)) freq in
        let one : get_elem? freqs j ≡ some (fl.mul (fl.float t) f) =
          get_elem?-map (fl.mul (fl.float t)) freq j at in
        let below = get_elem?-lt freq j f at in
        (
          get_elem?-map g (freqs ++ freqs) j
              (get_elem?-append_left freqs freqs j (omega (arith, count, below)) ∙ one),
          get_elem?-map g (freqs ++ freqs) (length freq + j)
              (get_elem?-append_right freqs freqs (length freq + j) j (omega (arith, count)) ∙ one),
        )

    pub row_numbers :
        (get_elem? (cos_sin_row fl freq t) j ≡ some (fl.cast (fl.cos (fl.mul (fl.float t) f))))
        × (get_elem? (cos_sin_row fl freq t) (length freq + j)
            ≡ some (fl.cast (fl.cos (fl.mul (fl.float t) f))))
        × (get_elem? (cos_sin_row fl freq t) (2 * length freq + j)
            ≡ some (fl.cast (fl.sin (fl.mul (fl.float t) f))))
        × (get_elem? (cos_sin_row fl freq t) (2 * length freq + (length freq + j))
            ≡ some (fl.cast (fl.sin (fl.mul (fl.float t) f))))
    unfolding cos_sin_row
    row_numbers =
        let freqs = map (fl.mul (fl.float t)) freq in
        let cosines = map (λ x. fl.cast (fl.cos x)) (freqs ++ freqs) in
        let sines = map (λ x. fl.cast (fl.sin x)) (freqs ++ freqs) in
        let below = get_elem?-lt freq j f at in
        let count : length cosines ≡ 2 * length freq = omega (
          arith,
          length-map (λ x. fl.cast (fl.cos x)) (freqs ++ freqs),
          length-append freqs freqs,
          length-map (fl.mul (fl.float t)) freq,
        ) in
        let c = halves (λ x. fl.cast (fl.cos x)) in
        let s = halves (λ x. fl.cast (fl.sin x)) in
        (
          get_elem?-append_left cosines sines j (omega (arith, count, below)) ∙ c.0,
          get_elem?-append_left cosines sines (length freq + j) (omega (arith, count, below)) ∙ c.1,
          get_elem?-append_right cosines sines (2 * length freq + j) j (omega (arith, count)) ∙ s.0,
          get_elem?-append_right cosines sines (2 * length freq + (length freq + j))
                (length freq + j) (omega (arith, count))
              ∙ s.1,
        )
