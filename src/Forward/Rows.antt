-- ===== src/Forward/Rows.antt =====
-- The rows that `forward` of the three `*ForCausalLM` classes reads: `hidden_states[cu[1:] - 1]`.
use lmserve.Prelude.{
  ℕ, zero, suc, ◌+◌, ◌-◌, ◌<◌, ◌≡◌, refl, ap, ap₂, sym, ◌∙◌, List, [], ◌∷◌, ◌++◌, append_assoc,
  none, some, arith, ◌==◌, if◌then◌else◌, length, length-append, get_elem?, get_elem?-append_right,
  take, drop, take-append-drop, length-take, length-drop, sum, All, nil_of_length, Result, ok,
  raise, ◌>>=◌, index_error,
}
use lmserve.Batch.Pages.{cumsum_from, cumsum}

module _ {ℓ} {A : Type ℓ} where
  -- `hidden_states[c - 1]`: the index -1 is the last row.
  unfoldable pub row_before : List A → ℕ → Result A
  row_before hidden c = elim (get_elem? hidden (if c == 0 then length hidden - 1 else c - 1)) [
    | none ↦ raise index_error
    | some a ↦ ok a
  ]

  unfoldable pub select_rows : List A → List ℕ → Result (List A)
  unfolding row_before
  select_rows hidden [] = ok []
  select_rows hidden (c ∷ cs) = do
    a ← row_before hidden c
    rest ← select_rows hidden cs
    ok (a ∷ rest)

  -- A list cut into segments that are not empty: each is what stands before its last, and its last.
  abbrev pub join : List (List A × A) → List A
  join [] = []
  join ((before, final) ∷ segs) = before ++ final ∷ join segs

  abbrev pub segment_lens : List (List A × A) → List ℕ
  segment_lens [] = []
  segment_lens ((before, final) ∷ segs) = suc (length before) ∷ segment_lens segs

  abbrev pub finals : List (List A × A) → List A
  finals [] = []
  finals ((before, final) ∷ segs) = final ∷ finals segs

  row_before-final :
      (front before : List A) (final : A) (back : List A) (c : ℕ)
      → c ≡ length front + suc (length before)
      → row_before (front ++ (before ++ final ∷ back)) c ≡ ok final
  unfolding row_before
  row_before-final front before final back c h =
      let at : get_elem? (front ++ (before ++ final ∷ back)) (c - 1) ≡ some final =
        get_elem?-append_right front (before ++ final ∷ back) (c - 1) (length before) (omega arith)
        ∙ get_elem?-append_right before (final ∷ back) (length before) 0 (omega arith) in
      ground arith

  select_rows-finals_from :
      (front : List A) (segs : List (List A × A)) (c : ℕ)
      → c ≡ length front
      → select_rows (front ++ join segs) (cumsum_from c (segment_lens segs)) ≡ ok (finals segs)
  unfolding select_rows cumsum_from
  select_rows-finals_from front [] c h = refl
  select_rows-finals_from front ((before, final) ∷ segs) c h =
      let front' = front ++ (before ++ final ∷ []) in
      let e : front ++ (before ++ final ∷ join segs) ≡ front' ++ join segs = simp append_assoc in
      let len : c + suc (length before) ≡ length front' =
        omega
          (arith, length-append front (before ++ final ∷ []), length-append before (final ∷ [])) in
      let ends = cumsum_from (c + suc (length before)) (segment_lens segs) in
      let rest : select_rows (front ++ (before ++ final ∷ join segs)) ends ≡ ok (finals segs) =
        ap (λ (t : List A). select_rows t ends) e
        ∙ select_rows-finals_from front' segs (c + suc (length before)) len in
      rw (
        row_before-final front before final (join segs) (c + suc (length before)) (omega arith),
        rest,
      )

  -- The rows before the ends of the segments are their last rows.
  pub select_rows-finals :
      (segs : List (List A × A))
      → select_rows (join segs) (drop 1 (cumsum (segment_lens segs))) ≡ ok (finals segs)
  unfolding cumsum cumsum_from
  select_rows-finals segs = select_rows-finals_from [] segs 0 refl

  snoc :
      (x : A) (xs : List A)
      → (s : List A × A) × (x ∷ xs ≡ s.0 ++ s.1 ∷ []) × (length s.0 ≡ length xs)
  snoc x [] = (([], x), refl, refl)
  snoc x (y ∷ ys) = let (s, e, l) = snoc y ys in ((x ∷ s.0, s.1), ap (◌∷◌ x) e, omega (arith, l))

  -- A list as long as the sum of positive lengths has segments of these lengths.
  pub segment :
      (ns : List ℕ) (xs : List A)
      → All (λ n. 0 < n) ns
      → length xs ≡ sum ns
      → (segs : List (List A × A)) × (xs ≡ join segs) × (segment_lens segs ≡ ns)
  segment [] xs pos len = ([], nil_of_length xs len, refl)
  segment (n ∷ ns) [] pos len = absurd (omega arith)
  segment (zero ∷ ns) (x ∷ xs) pos len = absurd (omega arith)
  segment (suc n ∷ ns) (x ∷ xs) pos len =
      let (s, e, l) = snoc x (take n xs) in
      let (segs, e', l') = segment ns (drop n xs) pos.1 (omega (arith, length-drop n xs)) in
      (
        s ∷ segs,
        ap (◌∷◌ x) (sym (take-append-drop n xs))
            ∙ ap₂ ◌++◌ e e'
            ∙ append_assoc s.0 (s.1 ∷ []) (join segs),
        ap₂ ◌∷◌ (omega (arith, l, length-take n xs)) l',
      )
