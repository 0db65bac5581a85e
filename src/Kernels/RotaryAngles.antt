-- ===== src/Kernels/RotaryAngles.antt =====
-- The rotary embedding turns each pair of numbers by the angle of its position and frequency.
use lmserve.Prelude.{
  ◌^◌, ℕ, ◌+◌, ◌*◌, ◌/◌, ◌≤◌, ◌<◌, ◌≡◌, ap, ◌∙◌, inl, inr, true, List, map, some, length,
  length-map, length-range_from, get_elem?, get_elem?-map, concat, range_from, Result-cases, ok,
  arith,
}
use lmserve.Loading.Config.{floor_div}
use lmserve.Kernels.Rotary.{
  Arith, Launch, rotary_programs, rotary_pos_emb, is_power_of_two, is_power_of_two-pow,
}
use lmserve.Kernels.RotaryHeads.{rotated}
use lmserve.Kernels.RotaryTokens.{among, rotary_programs-rotated}
use lmserve.Kernels.RotaryTable.{
  Floats, RopeConfig, get_or, RotaryEmbedding, inv_freq_at, scaled, inv_freqs, cos_sin_row,
  rotary_embedding_init, flat, RotaryInputs, launch_of, rotary_embedding_forward,
}
use lmserve.Kernels.RotaryNumbers.{
  get_elem?-range_from, get_elem?-rows, length-cos_sin_row, row_numbers,
}
use lmserve.Kernels.RotaryTurns.{rotated_first, rotated_second}

-- The numbers `j` and `half + j` of a head, turned by the angle with cosine `c` and sine `s`.
abbrev pub Turned : {A : Type 0} → Arith A → (ℕ → A) → (ℕ → A) → ℕ → ℕ → ℕ → A → A → Type 0
Turned ops source result head half j c s =
    (result (head + j)
      ≡ ops.sub (ops.mul (source (head + j)) c) (ops.mul (source (head + (half + j))) s))
    × (result (head + (half + j))
        ≡ ops.add (ops.mul (source (head + (half + j))) c) (ops.mul (source (head + j)) s))

module _ {F A : Type 0} (fl : Floats F A) (config : RopeConfig F) {e : RotaryEmbedding A}
    (made : rotary_embedding_init fl config ≡ ok e) where
  abbrev freqs_of : List F
  freqs_of =
      inv_freqs fl config.rope_scaling (get_or config.rope_theta (fl.float 10000)) e.rotary_dim

  -- The frequency of pair `j`, and its angle at a position.
  abbrev pub freq_of : ℕ → F
  freq_of j =
      scaled fl config.rope_scaling
        (inv_freq_at fl (get_or config.rope_theta (fl.float 10000)) e.rotary_dim j)

  abbrev pub angle : ℕ → ℕ → F
  angle position j = fl.mul (fl.float position) (freq_of j)

  table_of :
      (e.cos_sin_cached
        ≡ map (cos_sin_row fl freqs_of) (range_from 0 config.max_position_embeddings))
      × (e.cos_sin_width ≡ 4 * length freqs_of)
  unfolding rotary_embedding_init
  table_of = elim (Result-cases (floor_div config.hidden_size config.num_attention_heads)) [
    | inl (x, failed) ↦ ground (arith, failed, made)
    | inr (n, done) ↦ ground (arith, done, made)
  ]

  length-freqs_of : length freqs_of ≡ (e.rotary_dim + 1) / 2
  unfolding inv_freqs
  length-freqs_of =
      length-map
        (λ i.
          scaled fl config.rope_scaling
            (inv_freq_at fl (get_or config.rope_theta (fl.float 10000)) e.rotary_dim i))
        (range_from 0 ((e.rotary_dim + 1) / 2))
      ∙ length-range_from 0 ((e.rotary_dim + 1) / 2)

  freqs_of-at : (j : ℕ) → j < (e.rotary_dim + 1) / 2 → get_elem? freqs_of j ≡ some (freq_of j)
  unfolding inv_freqs
  freqs_of-at j hj =
      get_elem?-map freq_of (range_from 0 ((e.rotary_dim + 1) / 2)) j
        (get_elem?-range_from 0 ((e.rotary_dim + 1) / 2) j hj)
      ∙ ap (λ (i : ℕ). some (freq_of i)) (omega arith)

  module _ (half : ℕ) (even : e.rotary_dim ≡ 2 * half) (beyond : ℕ → A) where
    count : length freqs_of ≡ half
    count = omega (arith, length-freqs_of, even)

    width : e.cos_sin_width ≡ 4 * half
    width = omega (arith, table_of.1, count)

    lookup :
        (position column a : ℕ) (v : A)
        → position < config.max_position_embeddings
        → column < 4 * half
        → get_elem? (cos_sin_row fl freqs_of position) column ≡ some v
        → a ≡ position * (4 * half) + column
        → flat (concat e.cos_sin_cached) beyond a ≡ v
    lookup position column a v room small here e' =
        let rows =
          get_elem?-rows (cos_sin_row fl freqs_of) (4 * half) 0 config.max_position_embeddings
            position column (λ t. omega (arith, length-cos_sin_row fl freqs_of t, count)) room
            small in
        let there : get_elem? (concat e.cos_sin_cached) a ≡ some v =
          ap (λ (l : List (List A)). get_elem? (concat l) a) table_of.0
          ∙ ap
              (λ (k : ℕ).
                get_elem?
                  (concat
                    (map (cos_sin_row fl freqs_of) (range_from 0 config.max_position_embeddings)))
                  k)
              e'
          ∙ rows
          ∙ ap (λ (k : ℕ). get_elem? (cos_sin_row fl freqs_of k) column) (omega arith)
          ∙ here in
        rw (there, flat)

    module _ (ops : Arith A) (i : RotaryInputs A) (num_heads num_kv_heads t j : ℕ) (hj : j < half)
        (known : i.position t < config.max_position_embeddings) where
      abbrev launch : Launch A
      launch = launch_of ops e beyond i num_heads num_kv_heads

      abbrev cosine : A
      cosine = fl.cast (fl.cos (angle (i.position t) j))

      abbrev sine : A
      sine = fl.cast (fl.sin (angle (i.position t) j))

      -- What the kernel computes for the pair.
      turned :
          (src : ℕ → A) (head : ℕ) (old : A)
          → (rotated ops launch t src head j old
              ≡ ops.sub (ops.mul (src (head + j)) cosine) (ops.mul (src (head + (half + j))) sine))
            × (rotated ops launch t src head (half + j) old
                ≡ ops.add
                    (ops.mul (src (head + (half + j))) cosine)
                    (ops.mul (src (head + j)) sine))
      turned src head old =
          let position = i.position t in
          let at : get_elem? freqs_of j ≡ some (freq_of j) =
            freqs_of-at j (omega (arith, length-freqs_of, count)) in
          let r = row_numbers fl freqs_of position j at in
          let row = λ (k : ℕ). get_elem? (cos_sin_row fl freqs_of position) k in
          let wide : launch.rotary_dim ≡ 2 * half = omega (arith, width) in
          let start : position * (launch.rotary_dim * 2) ≡ position * (4 * half) =
            ap (λ (k : ℕ). position * k) (omega (arith, wide)) in
          let find = λ (column a : ℕ) (v : A). lookup position column a v known in
          let cx =
            find j (position * (launch.rotary_dim * 2) + j) cosine (omega arith) r.0
              (omega (arith, start)) in
          let cy =
            find (half + j) (position * (launch.rotary_dim * 2) + (half + j)) cosine (omega arith)
              (ap row (omega (arith, count)) ∙ r.1) (omega (arith, start)) in
          let sx =
            find (2 * half + j) (position * (launch.rotary_dim * 2) + launch.rotary_dim + j) sine
              (omega arith) (ap row (omega (arith, count)) ∙ r.2) (omega (arith, start, wide)) in
          let sy =
            find (2 * half + (half + j))
              (position * (launch.rotary_dim * 2) + launch.rotary_dim + (half + j)) sine
              (omega arith) (ap row (omega (arith, count)) ∙ r.3) (omega (arith, start, wide)) in
          (
            rotated_first ops launch t half j cosine sine wide hj cx cy sx sy src head old,
            rotated_second ops launch t half j cosine sine wide hj cx cy sx sy src head old,
          )

  -- With a rotary dimension that fits a head and whose half is a power of two, at positions that the table has and with no more key heads
  -- than query heads, `forward` raises nothing, and in every order of the programs it turns each
  -- pair of numbers, half a rotary dimension apart, in each query head and key head of a token by
  -- the angle of the token's position and the frequency of the pair, in the model's precision.
  pub rotary_embedding_forward-Turned :
      (half : ℕ) (beyond : ℕ → A) (ops : Arith A) (i : RotaryInputs A) (tokens : List ℕ)
      (out : (ℕ → A) × (ℕ → A)) (t j h g n : ℕ)
      → e.rotary_dim ≡ 2 * half
      → half ≡ 2 ^ n
      → e.rotary_dim ≤ e.head_dim
      → j < half
      → i.position t < config.max_position_embeddings
      → i.key_width ≤ i.query_width
      → among t tokens ≡ true
      → h < i.query_width / e.head_dim
      → g < i.key_width / e.head_dim
      → (r : (ℕ → A) × (ℕ → A)) × (rotary_embedding_forward ops e beyond i tokens out ≡ ok r)
        × Turned ops i.query r.0
            ((t * (i.query_width / e.head_dim) + h) * e.head_dim)
            half
            j
            (fl.cast (fl.cos (angle (i.position t) j)))
            (fl.cast (fl.sin (angle (i.position t) j)))
        × Turned ops i.key r.1
            ((t * (i.key_width / e.head_dim) + g) * e.head_dim)
            half
            j
            (fl.cast (fl.cos (angle (i.position t) j)))
            (fl.cast (fl.sin (angle (i.position t) j)))
  unfolding rotary_embedding_forward rotary_pos_emb floor_div
  rotary_embedding_forward-Turned half beyond ops i tokens out t j h g n even power fits hj known
        fewer ran hh hg =
      let p = launch_of ops e beyond i (i.query_width / e.head_dim) (i.key_width / e.head_dim) in
      let wide : e.cos_sin_width / 2 / 2 ≡ half = omega (arith, width half even beyond) in
      let grouped : i.key_width / e.head_dim ≤ i.query_width / e.head_dim = grind arith in
      let at = λ (k : ℕ) (hk : k < e.head_dim).
        rotary_programs-rotated ops p (omega (arith, wide)) (omega (arith, wide, even)) t k hk
          tokens out h g grouped ran hh hg in
      let compiled : is_power_of_two (p.rotary_dim / 2) ≡ true =
        ap is_power_of_two (wide ∙ power) ∙ is_power_of_two-pow n in
      let first = at j (omega (arith, even)) in
      let second = at (half + j) (omega (arith, even)) in
      let q = (t * p.num_heads + h) * e.head_dim in
      let k = (t * p.num_kv_heads + g) * e.head_dim in
      let turn =
        turned half even beyond ops i (i.query_width / e.head_dim) (i.key_width / e.head_dim) t j hj
          known in
      (
        rotary_programs ops p tokens out,
        ground (arith, compiled),
        (
          first.0 ∙ (turn i.query q (out.0 (q + j))).0,
          second.0 ∙ (turn i.query q (out.0 (q + (half + j)))).1,
        ),
        (
          first.1 ∙ (turn i.key k (out.1 (k + j))).0,
          second.1 ∙ (turn i.key k (out.1 (k + (half + j)))).1,
        ),
      )
