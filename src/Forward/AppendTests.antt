-- ===== src/Forward/AppendTests.antt =====
-- An implementation of `append_paged_kv_cache` for rows of numbers, with what flashinfer documents of it.
use lmserve.Prelude.{
  ℕ, ◌+◌, ◌/◌, ◌%◌, ◌≡◌, refl, ◌⊎◌, inl, inr, List, ◌∷◌, map, length-map, Option, none, some, arith,
  get_elem?, Bool-cases, if◌then◌else◌, ◌&&◌, ◌==◌,
}
use lmserve.Forward.Attend.{Kernels, KeepsRows}
use lmserve.Forward.Appends.{Cache, Write, Written, Writes, no_token, token, IsAppend}

abbrev put : ℕ → ℕ → ℕ × ℕ → Cache ℕ → Cache ℕ
put b o e cache = λ b' o'. if (b == b') && (o == o') then e else cache b' o'

-- The write of one token, when its sequence and its page are in the tables.
abbrev put_block : Option ℕ → ℕ → ℕ × ℕ → Cache ℕ → Cache ℕ
put_block none q e cache = cache
put_block (some block) q e cache = put block (q % 4) e cache

abbrev put_token : Option ℕ → List ℕ → ℕ → ℕ × ℕ → Cache ℕ → Cache ℕ
put_token none indices q e cache = cache
put_token (some first) indices q e cache = put_block (get_elem? indices (first + q / 4)) q e cache

-- An implementation of `append_paged_kv_cache` that goes through the tokens.
abbrev append : List ℕ → List ℕ → List ℕ → List ℕ → Cache ℕ → List ℕ → List ℕ → List ℕ → Cache ℕ
append (key ∷ keys) (value ∷ values) (i ∷ is) (q ∷ qs) cache indices indptr lasts =
    put_token (get_elem? indptr i) indices q (key, value)
      (append keys values is qs cache indices indptr lasts)
append _ _ _ _ cache indices indptr lasts = cache

abbrev pub kernels : Kernels ℕ (Cache ℕ)
kernels = record {
  blank = 999;
  append_paged_kv_cache = append;
  prefill_run = λ w q c. map (λ x. x + (c 7 0).0) q;
  decode_run = λ w q c. map (λ x. x + (c 7 2).1) q;
  single_prefill = λ q key value. q;
}

pub kernels-KeepsRows : KeepsRows kernels
kernels-KeepsRows = record {
  prefill = λ w q c. length-map (λ x. x + (c 7 0).0) q;
  decode = λ w q c. length-map (λ x. x + (c 7 2).1) q;
  single = λ q key value. refl;
}

append-stored :
    {indices indptr is qs keys values : List ℕ} {ws : List (Write ℕ)}
    → Writes 4 indices indptr is qs keys values ws
    → (cache : Cache ℕ) (lasts : List ℕ) (b o : ℕ)
    → ((e : ℕ × ℕ) × Written b o e ws
        × (append keys values is qs cache indices indptr lasts b o ≡ e))
      ⊎ (((e : ℕ × ℕ) → ¬ Written b o e ws)
          × (append keys values is qs cache indices indptr lasts b o ≡ cache b o))
append-stored no_token cache lasts b o = inr (λ e h. elim h [ ], refl)
append-stored {indices} {indptr}
      (token {i} {q} {start} {block} {key} {value} {is} {qs} {keys} {values} {ws} at page rest)
      cache lasts b o =
    let before = append keys values is qs cache indices indptr lasts in
    let now : append (key ∷ keys) (value ∷ values) (i ∷ is) (q ∷ qs) cache indices indptr lasts
        ≡ put block (q % 4) (key, value) before =
      rw (at, page) refl in
    rw now (elim (Bool-cases ((block == b) && (q % 4 == o))) [
      | inl hit ↦
          inl ((key, value), inl (ground (arith, hit), ground (arith, hit), refl), rw hit refl)
      | inr miss ↦ elim (append-stored rest cache lasts b o) [
        | inl (e, written, is_e) ↦ inl (e, inr written, rw miss is_e)
        | inr (none_written, same) ↦ inr (
          λ e h. elim h [
            | inl (is_b, is_o, is_e) ↦ absurd (ground (arith, miss, is_b, is_o))
            | inr later ↦ none_written e later
          ],
          rw miss same,
        )
      ]
    ])

pub kernels-IsAppend : IsAppend kernels 4 8
kernels-IsAppend = record { stored = λ writes small. append-stored writes }
