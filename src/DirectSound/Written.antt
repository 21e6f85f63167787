-- ===== src/DirectSound/Written.antt =====
-- What audio/sphone_audio_directsound_play.c writes lies round the play buffer.
use sphone.Prelude.{
  ℕ, zero, suc, ◌+◌, ◌<◌, ◌≤◌, ◌≡◌, ◌≢◌, ◌⊎◌, inl, inr, refl, true, ltb, Bool-cases, none, some,
  List, length, arith, ltb_false→le,
}
use sphone.DirectSound.Packets.{circle}
use sphone.DirectSound.Play.{
  Driver, Player, ok, audio_directsound_play_play, buffer_lost, restored, restore_failed,
  after_restore, restore_loop, max_no_restores,
}
use sphone.DirectSound.Regions.{
  circle-reads, first_region, second_region, copied, untouched, regions_length,
}

module _ {W : Type 0} (io : Driver W) where
  -- Where `Lock` gives the regions that it should, a packet that is no longer than the buffer lies in it from the
  -- cursor on, round its end, and nothing outside of the buffer is written to.
  pub audio_directsound_play_play-Written :
      (base cursor a : ℕ) (buf : List ℕ) (ap : Player W)
      → cursor < ap.ap_playbuflen
      → length buf ≤ ap.ap_playbuflen
      → (io.lock cursor (length buf) ap.net).0
        ≡ some (
          first_region base ap.ap_playbuflen cursor (length buf),
          second_region base ap.ap_playbuflen cursor (length buf),
        )
      → (io.unlock (io.lock cursor (length buf) ap.net).1).0 ≡ true
      → (a < base) ⊎ (base + ap.ap_playbuflen ≤ a)
      → let (r, ap') = audio_directsound_play_play io buf cursor ap in
        (r ≡ ok)
        × (circle (λ k. ap'.memory (base + k)) ap.ap_playbuflen cursor (length buf) ≡ buf)
        × (ap'.memory a ≡ ap.memory a)
  unfolding audio_directsound_play_play
  audio_directsound_play_play-Written base cursor a buf pl inside fits locked unlocked out =
      let sum = regions_length base pl.ap_playbuflen cursor buf pl.memory inside fits in
      rw (locked, sum, unlocked, audio_directsound_play_play)
        (
          refl,
          circle-reads _ pl.ap_playbuflen cursor buf
              (copied base pl.ap_playbuflen cursor buf pl.memory inside fits),
          untouched base pl.ap_playbuflen cursor buf pl.memory inside fits a out,
        )

  -- A lost buffer is restored, or given up after a hundred and one attempts: the loop ends.
  restore_loop-ends :
      (fuel nr : ℕ) (w : W)
      → max_no_restores < fuel + nr
      → 0 < fuel
      → (restore_loop io fuel nr w).0 ≢ none
  unfolding restore_loop
  restore_loop-ends zero nr w enough h = absurd (omega (arith, h))
  restore_loop-ends (suc fuel) nr w enough h =
      let (hr2, w1) = io.restore w in
      elim hr2 as (λ x. (after_restore io (restore_loop io fuel (suc nr)) nr (x, w1)).0 ≢ none) [
        | buffer_lost ↦ elim (Bool-cases (ltb max_no_restores (suc nr))) [
          | inl t ↦ rw (t, after_restore) (λ e. cc)
          | inr f ↦
              let left = ltb_false→le _ _ f in
              rw (f, after_restore)
                (restore_loop-ends fuel (suc nr) (io.sleep w1) (omega (arith, enough, left))
                  (omega (arith, enough, left)))
        ]
        | restored ↦ λ e. cc
        | restore_failed ↦ λ e. cc
      ]
