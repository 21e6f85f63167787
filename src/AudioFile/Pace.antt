-- ===== src/AudioFile/Pace.antt =====
-- How audio/sphone_audio_file_record.c paces its packets, and that its loops end.
use sphone.Prelude.{ℕ, suc, ◌+◌, ◌-◌, ◌*◌, ◌<◌, ◌≤◌, ◌≡◌, ◌⊎◌, ltb}
use sphone.Prelude.Int.{pos, ◌+ℤ◌}
use sphone.Prelude.Words.{u32}
use sphone.TimeVal.{micros}
use sphone.TimeVal.Arithmetic.{IsNormal}
use sphone.AudioFile.{Outcome, ok, failed, Files, Recorder}

module _ {D W : Type 0} (io : Files D W) where
  -- The next packet is expected `n` packet times later.
  abbrev pub MovedBy : ℕ → Recorder W → Recorder W → Type 0
  MovedBy n ar ar' =
      (micros ar'.ar_T ≡ micros ar.ar_T +ℤ pos (n * (ar.cp_size_ms * 1000)))
      × IsNormal ar'.ar_T
      × (ar'.cp_size_ms ≡ ar.cp_size_ms)

  -- With `n` packets handed on the end is 0 and `n` are counted, or it is -1 and one more is counted.
  abbrev pub OkBy : ℕ → Recorder W → Outcome × Recorder W → Type 0
  OkBy n ar r = (r.0 ≡ ok) × MovedBy n ar r.1 × (u32 r.1.sst_rpkt ≡ u32 (ar.sst_rpkt + n))

  abbrev pub FailedBy : ℕ → Recorder W → Outcome × Recorder W → Type 0
  FailedBy n ar r =
      (r.0 ≡ failed) × MovedBy n ar r.1 × (u32 r.1.sst_rpkt ≡ u32 (ar.sst_rpkt + suc n))

  -- `n` packets of `p` microseconds are as many as it takes to make up for those that are owed.
  abbrev pub IsDue : ℕ → ℕ → ℕ → Type 0
  IsDue n p owed = (owed ≤ n * p) × (n * p < owed + p)

  -- All packets that are due, or a failure at one of them
  abbrev pub Paced : ℕ → Recorder W → Outcome × Recorder W → Type 0
  Paced owed ar r =
      (n : ℕ) × ((OkBy n ar r × IsDue n (ar.cp_size_ms * 1000) owed)
        ⊎ (FailedBy n ar r × (n * (ar.cp_size_ms * 1000) < owed)))

  -- What a `double` of milliseconds is in microseconds, rounded up, and 0 where it is not positive. A whole number taken
  -- off is exact, as it is in a `double` below 2 ^ 53.
  pub record IsMicros (micros_of : D → ℕ) : Type 0 where
    pub positive : (ms : D) → io.is_positive ms ≡ ltb 0 (micros_of ms)
    pub less : (ms : D) (n : ℕ) → micros_of (io.less_ms ms n) ≡ micros_of ms - n * 1000
