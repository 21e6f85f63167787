-- ===== src/Playout/Shbuf/Stream.antt =====
-- A run of packets in sequence, and a device that fails.
use native.Mathlib.Nat.{mod-add-mod, mod-eq_of_lt}
use sphone.Prelude.Memory.{Block}
use sphone.Prelude.{ℕ, ◌+◌, ◌%◌, ◌<◌, ◌≡◌, refl, sym, ap, ◌∙◌, none, some, List, [], ◌∷◌, arith}
use sphone.Prelude.Int.{negsuc}
use sphone.Playout.Device.{Device, Double}
use sphone.Playout.Shbuf.{Shbuf, SeqType, seq_normal, playout_shbuf_play}
use sphone.Playout.Shbuf.Position.{IsReady, playout_shbuf_play-position}

-- The bytes of a run
abbrev pub total : List (Block × ℕ) → ℕ
total [] = 0
total ((_, len) ∷ rest) = len + total rest

module _ (dbl : Double) {W : Type 0} (dev : Device W) where
  open dbl use {D}

  -- The packets of a run, each with its bytes and its length, played as in sequence.
  unfoldable pub play_run : Shbuf D → List (Block × ℕ) → W → Shbuf D × W
  play_run ps [] w = (ps, w)
  play_run ps ((buf, len) ∷ rest) w =
      let (_, ps', w') = playout_shbuf_play dbl dev ps buf len seq_normal 0 0 w in
      play_run ps' rest w'

  -- In a session whose buffer is not empty and small enough for 32-bit offsets, whose samples are of 8 bits, whose
  -- `drop` is clear and whose last packet is in the buffer, and where the device gives its cursors at every call,
  -- packets in sequence lie end to end: after a run the next position has moved on by the run's total length, round the
  -- buffer, and the session is again such. Neither the cursors that the device gives nor what `pa_play` returns make a
  -- difference, also where the running mean of the queue leaves the bounds that are set for it.
  pub play_run-total :
      (packets : List (Block × ℕ)) (ps : Shbuf D) (w : W)
      → IsReady dbl dev ps
      → ps.c_old < ps.playbuflen
      → ((w : W) → (r : ℕ) × (cw : ℕ) × (w1 : W) × (dev.play_pos w ≡ (some (r, cw), w1)))
      → ((play_run ps packets w).0.c_old ≡ (ps.c_old + total packets) % ps.playbuflen)
        × IsReady dbl dev (play_run ps packets w).0
  unfolding play_run
  play_run-total [] ps w ready inside always =
      let e : ps.c_old + 0 ≡ ps.c_old = omega arith in
      (sym (ap (λ k. k % ps.playbuflen) e ∙ mod-eq_of_lt inside), ready)
  play_run-total ((buf, len) ∷ rest) ps w ready inside always =
      let (r, cw, w1, e) = always w in
      let s = playout_shbuf_play-position dbl dev ps buf len seq_normal 0 0 r cw w w1 ready tt e in
      let ih = play_run-total rest _ _ s.6 (omega (arith, s.0, s.3, s.4)) always in
      let e : ps.c_old + len + total rest ≡ ps.c_old + (len + total rest) = omega arith in
      (ih.0 ∙ rw (s.4, s.3, mod-add-mod, e) refl, ih.1)

  -- Where the device gives no cursors, the call fails, plays nothing, and leaves the position for
  -- the next packet as it stands.
  pub playout_shbuf_play-no_cursors :
      (ps : Shbuf D) (buf : Block) (len : ℕ) (t : SeqType) (cur prev : ℕ) (w w1 : W)
      → dev.play_pos w ≡ (none, w1)
      → playout_shbuf_play dbl dev ps buf len t cur prev w
        ≡ (negsuc 0, record ps { len = len; c_old = ps.c; drop = 0 }, w1)
  unfolding playout_shbuf_play
  playout_shbuf_play-no_cursors ps buf len t cur prev w w1 e = ground arith
