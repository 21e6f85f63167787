-- ===== src/DevAudio/Polls.antt =====
-- How many packets a poll of audio/sphone_audio_devaudio_record.c takes, and what it leaves allocated.
use sphone.Prelude.{ℕ, suc, ◌+◌, ◌*◌, ◌<◌, ◌≤◌, ◌≡◌, ◌⊎◌, Bool, true, false}
use sphone.Prelude.Words.{u32}
use sphone.DevAudio.Record.{Input, Recorder}

module _ {W : Type 0} (io : Input W) where
  -- With `n` packets counted: the device was not ready and a buffer is left over, or all rounds were used, or the
  -- result is -1.
  abbrev pub PolledBy : ℕ → ℕ → Recorder W → Bool × Recorder W → Type 0
  PolledBy rounds n ar r =
      (n ≤ rounds)
      × (u32 r.1.sst_rpkt ≡ u32 (ar.sst_rpkt + n))
      × (u32 r.1.sst_rbytes ≡ u32 (ar.sst_rbytes + n * ar.cp_size_bytes))
      × (((r.0 ≡ true) × (n < rounds) × (r.1.buffers ≡ suc ar.buffers))
          ⊎ ((r.0 ≡ true) × (n ≡ rounds) × (r.1.buffers ≡ ar.buffers))
          ⊎ ((r.0 ≡ false) × (r.1.buffers ≡ ar.buffers)))

  abbrev pub Polled : ℕ → Recorder W → Bool × Recorder W → Type 0
  Polled rounds ar r = (n : ℕ) × PolledBy rounds n ar r
