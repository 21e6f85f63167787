-- ===== src/Coding/Frames.antt =====
-- What `coding_expand` and `coding_reduce` of coding/sphone_coding.c do to a buffer of whole samples: a cell
-- is one sample of `b` bytes, and a frame is one cell for each of `f` channels.
use native.Mathlib.Nat.{le_refl, mul-le-mul_left, mul-div_cancel, div-eq_of_lt-le, mul-mod_left}
use sphone.Prelude.{
  ℕ, zero, suc, ◌+◌, ◌-◌, ◌*◌, ◌/◌, ◌≤◌, ◌<◌, ◌≡◌, refl, sym, ap, ◌∙◌, ◌⊎◌, inl, inr, false,
  Bool-cases, ltb, ◌==◌, ltb→lt, ltb_false→le, some, arith,
}
use sphone.Prelude.Memory.{Block, copy}
use sphone.Coding.Channels.{expand_sample, expand_loop, coding_expand, reduce_loop, coding_reduce}
use sphone.Coding.Cells.{cell, copy-cell, copy-cell_other}

module _ (b f : ℕ) where
  mul-le-mul-left-pos : (n : ℕ) {j : ℕ} → j < f → n * 1 ≤ n * f
  mul-le-mul-left-pos n {j} h = mul-le-mul_left n (omega arith)

  frame-place : (k n : ℕ) → k * b * f + n * b ≡ (k * f + n) * b
  frame-place k n = omega arith

  -- The inner loop of an expansion: cell `k` goes to the first `n` cells of frame `k`, and the others stay.
  sample-outside :
      (k n x t : ℕ) (m : Block)
      → t < b
      → (x < k * f) ⊎ (k * f + n ≤ x)
      → cell b (expand_sample b f (k * b) n m) x t ≡ cell b m x t
  unfolding expand_sample
  sample-outside k zero x t m h out = refl
  sample-outside k (suc n) x t m h out = rw (frame-place k n) (
      sample-outside k n x t _ h (ground arith)
      ∙ copy-cell_other b (k * f + n) k x t m h (λ e. ground arith))

  -- A copy onto any cell leaves cell `k` as it was, whether it is that cell or not.
  source-kept :
      (q k t : ℕ) (m : Block) → t < b → cell b (copy b (q * b) (k * b) m) k t ≡ cell b m k t
  source-kept q k t m h = elim (Bool-cases (k == q)) [
    | inl same ↦ let e : q ≡ k = ground arith in rw e (copy-cell b k k t m h)
    | inr other ↦ copy-cell_other b q k k t m h (λ e. ground arith)
  ]

  sample-inside :
      (k n j t : ℕ) (m : Block)
      → t < b
      → j < n
      → cell b (expand_sample b f (k * b) n m) (k * f + j) t ≡ cell b m k t
  unfolding expand_sample
  sample-inside k zero j t m h hj = absurd (omega arith)
  sample-inside k (suc n) j t m h hj = elim (Bool-cases (ltb j n)) [
    | inl lower ↦
        rw (frame-place k n)
          (sample-inside k n j t _ h (ltb→lt j n lower) ∙ source-kept (k * f + n) k t m h)
    | inr last ↦
        let e : j ≡ n = omega (arith, ltb_false→le j n last) in
        rw (e, frame-place k n)
          (sample-outside k n (k * f + n) t _ h (inr (le_refl _)) ∙ copy-cell b (k * f + n) k t m h)
  ]

  -- The outer loop: `n` cells are left to expand.
  loop-outside :
      (n x t : ℕ) (m : Block)
      → t < b
      → n * f ≤ x
      → cell b (expand_loop b f 0 n m) x t ≡ cell b m x t
  unfolding expand_loop
  loop-outside zero x t m h out = refl
  loop-outside (suc n) x t m h out =
      let start : 0 + n * b ≡ n * b = omega arith in
      rw start
        (loop-outside n x t _ h (omega arith) ∙ sample-outside n f x t m h (inr (omega arith)))

  loop-inside :
      (n k j t : ℕ) (m : Block)
      → t < b
      → k < n
      → j < f
      → cell b (expand_loop b f 0 n m) (k * f + j) t ≡ cell b m k t
  unfolding expand_loop
  loop-inside zero k j t m h hk hj = absurd (omega arith)
  loop-inside (suc n) k j t m h hk hj =
      let start : 0 + n * b ≡ n * b = omega arith in
      elim (Bool-cases (ltb k n)) [
        | inl lower ↦
            let wide : n * 1 ≤ n * f = mul-le-mul-left-pos n hj in
            rw start (
              loop-inside n k j t _ h (ltb→lt k n lower) hj
              ∙ sample-outside n f k t m h (inl (omega (arith, wide, ltb→lt k n lower))))
        | inr last ↦
            let e : k ≡ n = omega (arith, ltb_false→le k n last) in
            rw (e, start)
              (loop-outside n (n * f + j) t _ h (omega arith) ∙ sample-inside n f j t m h hj)
      ]

  -- The loop of a reduction, from frame `r` on: cells in front stay, and each frame's first cell takes its
  -- number.
  reduce-outside :
      (n r x t : ℕ) (m : Block)
      → 0 < f
      → t < b
      → x < r
      → cell b (reduce_loop b f (r * b * f) n m) x t ≡ cell b m x t
  unfolding reduce_loop
  reduce-outside zero r x t m hf h hx = refl
  reduce-outside (suc n) r x t m hf h hx =
      let next : r * b * f + b * f ≡ suc r * b * f = omega arith in
      let source : r * b * f ≡ r * f * b = omega arith in
      rw (next, mul-div_cancel (r * b) hf)
        (reduce-outside n (suc r) x t _ hf h (omega arith)
          ∙ ap (λ s. cell b (copy b (r * b) s m) x t) source
          ∙ copy-cell_other b r (r * f) x t m h (λ e. ground arith))

  reduce-inside :
      (n r k t : ℕ) (m : Block)
      → 0 < f
      → t < b
      → r ≤ k
      → k < r + n
      → cell b (reduce_loop b f (r * b * f) n m) k t ≡ cell b m (k * f) t
  unfolding reduce_loop
  reduce-inside zero r k t m hf h lo hi = absurd (omega arith)
  reduce-inside (suc n) r k t m hf h lo hi =
      let next : r * b * f + b * f ≡ suc r * b * f = omega arith in
      let source : r * b * f ≡ r * f * b = omega arith in
      elim (Bool-cases (ltb r k)) [
        | inl later ↦
            let wide : k * 1 ≤ k * f = mul-le-mul_left k hf in
            rw (next, mul-div_cancel (r * b) hf)
              (reduce-inside n (suc r) k t _ hf h (ltb→lt r k later) (omega arith)
                ∙ ap (λ s. cell b (copy b (r * b) s m) (k * f) t) source
                ∙ copy-cell_other b r (r * f) (k * f) t m h
                    (λ e. omega (arith, wide, e, ltb→lt r k later)))
        | inr first ↦
            let e : k ≡ r = omega (arith, ltb_false→le r k first) in
            rw (e, next, mul-div_cancel (r * b) hf)
              (reduce-outside n (suc r) r t _ hf h (omega arith)
                ∙ ap (λ s. cell b (copy b (r * b) s m) r t) source
                ∙ copy-cell b r (r * f) t m h)
      ]

-- Expanding `n` whole samples to `f` channels gives `n` frames, and puts sample `k` on every channel `j` of
-- frame `k`, byte by byte.
coding_expand-frames :
    (buf : Block) (b n f precision k j t : ℕ)
    → precision / 8 ≡ b
    → 0 < b
    → k < n
    → j < f
    → t < b
    → (out : Block) × (coding_expand buf (n * b) precision f ≡ some (out, n * b * f))
      × (cell b out (k * f + j) t ≡ cell b buf k t)
unfolding coding_expand
coding_expand-frames buf b n f precision k j t e hb hk hj ht =
    let some_byte : (b == 0) ≡ false = ground arith in
    (
      expand_loop b f 0 n buf,
      rw (e, some_byte, mul-div_cancel n hb, mul-mod_left n b) refl,
      loop-inside b f n k j t buf ht hk hj,
    )

-- Rounding up a multiple
whole_rounds : (s n : ℕ) → 0 < s → (x : ℕ) → x ≡ n * s + s - 1 → x / s ≡ n
whole_rounds s n h x e = div-eq_of_lt-le s (omega (arith, e)) (omega (arith, e))

reduced :
    (buf : Block) (b n f precision : ℕ)
    → precision / 8 ≡ b
    → 0 < b
    → 0 < f
    → coding_reduce buf (n * b * f) precision f ≡ some (reduce_loop b f (0 * b * f) n buf, n * b)
unfolding coding_reduce
reduced buf b n f precision e hb hf =
    let positive : 0 < b * f = omega (arith, mul-le-mul_left b hf) in
    let some_step : (b * f == 0) ≡ false = ground arith in
    let rounds : (n * b * f + b * f - 1) / (b * f) ≡ n =
      whole_rounds (b * f) n positive (n * b * f + b * f - 1) (omega arith) in
    let start : 0 ≡ 0 * b * f = omega arith in
    rw (e, some_step, rounds, mul-div_cancel (n * b) hf)
      (ap (λ i. some (reduce_loop b f i n buf, n * b)) start)

-- What was expanded is reduced to the samples that it was expanded from: both succeed, the second on what the
-- first gives, and every byte `t` of every sample `k` is back in its place.
pub coding_reduce-expand :
    (buf : Block) (b n f precision k t : ℕ)
    → precision / 8 ≡ b
    → 0 < b
    → 0 < f
    → k < n
    → t < b
    → (wide narrow : Block) × (coding_expand buf (n * b) precision f ≡ some (wide, n * b * f))
      × (coding_reduce wide (n * b * f) precision f ≡ some (narrow, n * b))
      × (cell b narrow k t ≡ cell b buf k t)
coding_reduce-expand buf b n f precision k t e hb hf hk ht =
    let (wide, expanded, same) = coding_expand-frames buf b n f precision k 0 t e hb hk hf ht in
    let place : k * f + 0 ≡ k * f = omega arith in
    (
      wide,
      reduce_loop b f (0 * b * f) n wide,
      expanded,
      reduced wide b n f precision e hb hf,
      reduce-inside b f n 0 k t wide hf ht (omega arith) (omega arith)
          ∙ ap (λ x. cell b wide x t) (sym place)
          ∙ same,
    )
