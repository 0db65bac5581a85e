-- ===== src/Kernels/RotaryTurns.antt =====
-- The two numbers of a pair that the kernel of the rotary embedding computes from a row of the table.
use lmserve.Prelude.{ℕ, ◌-◌, ◌+◌, ◌*◌, ◌/◌, ◌<◌, ◌≡◌, ap, arith}
use lmserve.Kernels.Rotary.{Arith, Launch}
use lmserve.Kernels.RotaryHeads.{rotated}

module _ {A : Type 0} (ops : Arith A) (p : Launch A) (t half j : ℕ) (c s : A)
    (even : p.rotary_dim ≡ 2 * half) (hj : j < half)
    (cos_x : p.cos_sin_cache (p.position t * (p.rotary_dim * 2) + j) ≡ c)
    (cos_y : p.cos_sin_cache (p.position t * (p.rotary_dim * 2) + (half + j)) ≡ c)
    (sin_x : p.cos_sin_cache (p.position t * (p.rotary_dim * 2) + p.rotary_dim + j) ≡ s)
    (sin_y : p.cos_sin_cache (p.position t * (p.rotary_dim * 2) + p.rotary_dim + (half + j))
      ≡ s) where
  pub rotated_first :
      (src : ℕ → A) (head : ℕ) (old : A)
      → rotated ops p t src head j old
        ≡ ops.sub (ops.mul (src (head + j)) c) (ops.mul (src (head + (half + j))) s)
  rotated_first src head old =
      let e : p.rotary_dim / 2 ≡ half = omega (arith, even) in
      let y = ap (λ (k : ℕ). src (head + (k + j))) e in ground (arith, e, y, cos_x, sin_x)

  pub rotated_second :
      (src : ℕ → A) (head : ℕ) (old : A)
      → rotated ops p t src head (half + j) old
        ≡ ops.add (ops.mul (src (head + (half + j))) c) (ops.mul (src (head + j)) s)
  rotated_second src head old =
      let e : p.rotary_dim / 2 ≡ half = omega (arith, even) in
      let x : half + j - p.rotary_dim / 2 ≡ j = omega (arith, e) in
      let y : p.rotary_dim / 2 + (half + j - p.rotary_dim / 2) ≡ half + j = omega (arith, e) in
      let start = p.position t * (p.rotary_dim * 2) in
      ground (
        arith,
        e,
        ap (λ (k : ℕ). src (head + k)) x,
        ap (λ (k : ℕ). src (head + k)) y,
        ap (λ (k : ℕ). p.cos_sin_cache (start + k)) y,
        ap (λ (k : ℕ). p.cos_sin_cache (start + p.rotary_dim + k)) y,
        cos_y,
        sin_y,
      )
