-- ===== src/Coding/Cells.antt =====
-- Memory seen as cells of `b` bytes: what `memcpy` of one cell onto another does, in the loops of
-- coding/sphone_coding.c.
use native.Mathlib.Nat.{le_refl, mul-le-mul_right}
use sphone.Prelude.{
  ℕ, zero, suc, ◌+◌, ◌*◌, ◌≤◌, ◌<◌, ◌≡◌, refl, ap, ◌∙◌, ◌≢◌, ◌⊎◌, inl, inr, Bool-cases, ltb, ltb→lt,
  ltb_false→le, arith,
}
use sphone.Prelude.Memory.{Block, store, copy}

lt_trichotomy : (a b : ℕ) → (a < b) ⊎ ((a ≡ b) ⊎ (b < a))
lt_trichotomy a b = omega arith

store-same : (m : Block) (i v : ℕ) → store m i v i ≡ v
unfolding store
store-same m i v = ground arith

store-other : (m : Block) (i v k : ℕ) → k ≢ i → store m i v k ≡ m k
unfolding store
store-other m i v k ne = ground arith

-- Two places of `n` bytes are the same or do not overlap.
abbrev Apart : ℕ → ℕ → ℕ → Type 0
Apart n dst src = (dst ≡ src) ⊎ ((dst + n ≤ src) ⊎ (src + n ≤ dst))

Apart-less : (n dst src : ℕ) → Apart (suc n) dst src → Apart n dst src
Apart-less n dst src a = ground arith

copy-outside : (n dst src x : ℕ) (m : Block) → (x < dst) ⊎ (dst + n ≤ x) → copy n dst src m x ≡ m x
unfolding copy
copy-outside zero dst src x m out = refl
copy-outside (suc n) dst src x m out =
    copy-outside n dst src x _ (ground arith) ∙ store-other m (dst + n) _ x (λ e. ground arith)

copy-inside :
    (n dst src t : ℕ) (m : Block)
    → Apart n dst src
    → t < n
    → copy n dst src m (dst + t) ≡ m (src + t)
unfolding copy
copy-inside zero dst src t m a h = absurd (omega arith)
copy-inside (suc n) dst src t m a h = elim (Bool-cases (ltb t n)) [
  | inl lower ↦
      copy-inside n dst src t _ (Apart-less n dst src a) (ltb→lt t n lower)
      ∙ store-other m (dst + n) _ (src + t) (λ e. ground (arith, ltb→lt t n lower))
  | inr last ↦
      let e : t ≡ n = omega (arith, ltb_false→le t n last) in
      rw e (copy-outside n dst src (dst + n) _ (inr (le_refl _)) ∙ store-same m (dst + n) _)
]

-- Byte `t` of cell `q`
abbrev pub cell : ℕ → Block → ℕ → ℕ → ℕ
cell b m q t = m (q * b + t)

cells-Apart : (b q p : ℕ) → Apart b (q * b) (p * b)
cells-Apart b q p = elim (lt_trichotomy q p) [
  | inl less ↦ inr (inl (omega (arith, mul-le-mul_right b less)))
  | inr (inl same) ↦ inl (ap (λ x. x * b) same)
  | inr (inr more) ↦ inr (inr (omega (arith, mul-le-mul_right b more)))
]

-- After cell `p` is copied to cell `q`, cell `q` is what `p` was, and every other is as before.
pub copy-cell :
    (b q p t : ℕ) (m : Block) → t < b → cell b (copy b (q * b) (p * b) m) q t ≡ cell b m p t
copy-cell b q p t m h = copy-inside b (q * b) (p * b) t m (cells-Apart b q p) h

pub copy-cell_other :
    (b q p x t : ℕ) (m : Block)
    → t < b
    → x ≢ q
    → cell b (copy b (q * b) (p * b) m) x t ≡ cell b m x t
copy-cell_other b q p x t m h ne =
    copy-outside b (q * b) (p * b) (x * b + t) m (elim (lt_trichotomy x q) [
      | inl less ↦ inl (omega (arith, mul-le-mul_right b less))
      | inr (inl same) ↦ absurd (ne same)
      | inr (inr more) ↦ inr (omega (arith, mul-le-mul_right b more))
    ])
