-- ===== src/Playout/Shbuf/Silence.antt =====
-- Background audio: `silentbuf_init` and `silentout_play` of src/sphone_playout_shbuf.c. Lengths and
-- cursors are below 2^31, so `int` arithmetic on them is exact; the loop's `tmp_len` counts here
-- from 0, since the loop only asks whether it is above 0. The loop has fuel, and `none` is a loop
-- that does not end.
use native.Mathlib.Nat.{mod-add-mod, mod-lt, mod-eq_of_lt, le_refl}
use sphone.Prelude.Memory.{Block}
use sphone.Prelude.{
  ℕ, zero, suc, ◌+◌, ◌-◌, ◌*◌, ◌/◌, ◌%◌, ◌≤◌, ◌<◌, ◌≡◌, refl, sym, ap, ◌∙◌, ◌⊎◌, inl, inr, Bool,
  true, false, not, ltb, ◌==◌, if◌then◌else◌, Bool-cases, Option, none, some, arith, ltb→lt,
  ltb_false→le, Option-cases, ◌≢◌,
}
use sphone.Prelude.Int.{ℤ, pos, negsuc, ltb_ℤ}
use sphone.Playout.Device.{Device}
use sphone.Playout.Shbuf.{Shbuf}

module _ {W : Type 0} (dev : Device W) (buf : Block) (len plen : ℕ) where
  -- `while (tmp_len > 0)`: whether `pa_play` always succeeded, and `ps_nextsilence`.
  unfoldable pub silence_loop : ℕ → ℕ → ℕ → W → Option (Bool × ℕ × W)
  silence_loop zero next tmp_len w = if ltb 0 tmp_len then none else some (true, next, w)
  silence_loop (suc fuel) next tmp_len w =
      let (retval, w') = dev.play buf len next w in
      let rest = silence_loop fuel ((next + len) % plen) (tmp_len - len) w' in
      if ltb 0 tmp_len
      then (if ltb_ℤ retval (pos 0) then some (false, next, w') else rest)
      else some (true, next, w)

  -- `k` whole buffers from `next` on end at `next'`, and cover a gap of `tmp_len` bytes just so.
  abbrev pub Covers : ℕ → ℕ → ℕ → ℕ → Type 0
  Covers next tmp_len next' k =
      (next' ≡ (next + k * len) % plen) × (tmp_len ≤ k * len) × (k * len < tmp_len + len)

  Covers-zero : (next : ℕ) → 0 < len → next < plen → Covers next 0 next 0
  Covers-zero next hl hn =
      let e : next + 0 * len ≡ next = omega arith in
      (sym (ap (λ n. n % plen) e ∙ mod-eq_of_lt hn), omega arith, omega arith)

  Covers-suc :
      (next tmp_len next' k : ℕ)
      → 0 < tmp_len
      → Covers ((next + len) % plen) (tmp_len - len) next' k
      → Covers next tmp_len next' (suc k)
  Covers-suc next tmp_len next' k ht (e, lo, hi) =
      let shift : next + len + k * len ≡ next + suc k * len = omega arith in
      (
        e ∙ mod-add-mod (next + len) plen (k * len) ∙ ap (λ n. n % plen) shift,
        omega arith,
        last k hi,
      )
    where
      last : (k : ℕ) → k * len < tmp_len - len + len → suc k * len < tmp_len + len
      last zero h = omega arith
      last (suc k) h = omega arith

  -- With a buffer of silence that is not empty the loop ends: as many rounds as there are bytes to
  -- fill are enough. Where no call of `pa_play` fails, it has laid whole buffers end to end, as many
  -- as cover the gap and no more.
  silence_loop-ends :
      (fuel next tmp_len : ℕ) (w : W)
      → 0 < len
      → tmp_len ≤ fuel
      → next < plen
      → (ok : Bool) × (next' : ℕ) × (w' : W) × (silence_loop fuel next tmp_len w
          ≡ some (ok, next', w'))
        × ((ok ≡ false) ⊎ ((k : ℕ) × Covers next tmp_len next' k))
  unfolding silence_loop
  silence_loop-ends zero next tmp_len w hl hf hn =
      let e : tmp_len ≡ 0 = omega arith in
      rw e (true, next, w, refl, inr (0, Covers-zero next hl hn))
  silence_loop-ends (suc fuel) next tmp_len w hl hf hn = elim (Bool-cases (ltb 0 tmp_len)) [
    | inr done ↦
        let e : tmp_len ≡ 0 = omega (arith, ltb_false→le _ _ done) in
        rw e (true, next, w, refl, inr (0, Covers-zero next hl hn))
    | inl more ↦ elim (Bool-cases (ltb_ℤ (dev.play buf len next w).0 (pos 0))) [
      | inl failed ↦ (false, next, (dev.play buf len next w).1, rw (more, failed), inl refl)
      | inr played ↦
          let positive : 0 < tmp_len = ltb→lt _ _ more in
          let (ok, next', w', e, covers) =
            silence_loop-ends fuel ((next + len) % plen) (tmp_len - len) (dev.play buf len next w).1
              hl (omega arith) (mod-lt (next + len) (omega arith)) in
          (
            ok,
            next',
            w',
            rw (more, played) e,
            elim covers [
              | inl failed ↦ inl failed
              | inr (k, covered) ↦ inr (suc k, Covers-suc next tmp_len next' k positive covered)
            ],
          )
    ]
  ]

-- `silentout_play`: `none` is a loop that does not end. A `nextsilence` of 0 is the first time.
module _ {D : Type 0} {W : Type 0} (dev : Device W) where
  unfoldable pub next_silence : Shbuf D → ℕ → ℕ × ℕ
  next_silence ps p =
      let (next, gap) =
        if not (ps.nextsilence == 0)
        then (ps.nextsilence, (p + ps.playbuflen - ps.nextsilence) % ps.playbuflen)
        else ((p + ps.playbuflen - ps.silentlen) % ps.playbuflen, ps.silentlen) in
      (if next % 2 == 1 then next - 1 else next, gap - ps.silentlen)

  unfoldable pub silentout_play : Shbuf D → W → Option (ℤ × Shbuf D × W)
  unfolding silence_loop next_silence
  silentout_play ps w =
      let (cursors, w1) = dev.play_pos w in
      elim cursors [
        | none ↦ some (negsuc 0, ps, w1)
        | some (p, _) ↦
            let (start, tmp_len) = next_silence ps p in
            elim (silence_loop dev ps.silentbuf ps.silentlen ps.playbuflen tmp_len start tmp_len
              w1) [
                | none ↦ none
                | some (ok, next, w2) ↦
                    let ps' = record ps { nextsilence = next } in
                    if ok
                    then (let (registered, w3) = dev.reg_silence w2 in
                        if registered then some (pos 0, ps', w3) else some (negsuc 0, ps', w3))
                    else some (negsuc 0, ps', w2)
              ]
      ]

  next_silence-lt :
      (ps : Shbuf D) (p : ℕ)
      → 0 < ps.playbuflen
      → ps.nextsilence < ps.playbuflen
      → (next_silence ps p).0 < ps.playbuflen
  unfolding next_silence
  next_silence-lt ps p h hn = ground (arith, mod-lt (p + ps.playbuflen - ps.silentlen) h)

  -- With a play buffer of three bytes at least, of which `playout_shbuf_init` takes a third for
  -- silence, a round of background audio always returns.
  silentout_play-returns :
      (ps : Shbuf D) (w : W)
      → 3 ≤ ps.playbuflen
      → ps.silentlen ≡ ps.playbuflen / 3
      → ps.nextsilence < ps.playbuflen
      → silentout_play ps w ≢ none
  unfolding silentout_play
  silentout_play-returns ps w h hl hn = elim (Option-cases (dev.play_pos w).0) [
    | inl e ↦ rw (e, silentout_play) (λ q. cc)
    | inr ((p, cw), e) ↦
        let (start, gap) = next_silence ps p in
        let (ok, next, w2, ends, _) =
          silence_loop-ends dev ps.silentbuf ps.silentlen ps.playbuflen gap start gap
            (dev.play_pos w).1 (omega arith) (le_refl gap)
            (next_silence-lt ps p (omega arith) hn) in
        rw (e, silentout_play, ends) (λ q. ground arith)
  ]
