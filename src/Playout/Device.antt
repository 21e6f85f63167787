-- ===== src/Playout/Device.antt =====
-- What the playout code uses and does not implement: the audio device behind `play_api` of
-- audio/sphone_audio_play.h, with `sphone_error` and the event loop of the process around it, and
-- C's `double`.
use sphone.Prelude.Memory.{Block}
use sphone.Prelude.{ℕ, Option, Bool}
use sphone.Prelude.Int.{ℤ}

-- A world that the device and the process change. `play` is given the bytes, their number and where to put
-- them; `play_pos` gives the read and the write cursor, or `none` for a negative result.
pub record Device (W : Type 0) : Type 0 where
  pub play_pos : W → Option (ℕ × ℕ) × W
  pub play : Block → ℕ → ℕ → W → ℤ × W
  pub sphone_error : W → W
  -- `pa_ioctl` with SPHONE_AUDIO_IOCTL_PLAYBUFLEN; `none` is a negative result.
  pub playbuflen : W → Option ℕ × W
  -- `eventloop_reg_timeout` for the next round of background audio; `false` is -1.
  pub reg_silence : W → Bool × W

-- The type `double`, with the value that `memset` with 0 leaves, and the two products and the sum of a weighted mean.
pub record Double : Type 1 where
  pub D : Type 0
  pub of_ℕ : ℕ → D
  pub zero_bits : D
  pub smoother : D
  pub one_minus_smoother : D
  pub ◌⊗◌ : D → D → D
  pub ◌⊕◌ : D → D → D
