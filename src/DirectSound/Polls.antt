-- ===== src/DirectSound/Polls.antt =====
-- A poll of audio/sphone_audio_directsound_record.c.
use sphone.Prelude.{ℕ, List}
use sphone.DirectSound.Record.{Outcome, Driver, Recorder}
use sphone.DirectSound.Capture.{behind_cursor, IsTaken}
use sphone.DirectSound.Packets.{Sent}

-- The position up to which the capture is taken for safe
abbrev safe_position : {W : Type 0} → Recorder W → ℕ → ℕ
safe_position ar cursor =
    behind_cursor ar.cp_precision ar.ar_capture_offset ar.ar_ds_capbuflen cursor

module _ {W : Type 0} (io : Driver W) (ring : ℕ → ℕ) (log : W → List ℕ) where
  -- As many packets as are taken up to a position, handed on
  abbrev SentUpTo : ℕ → ℕ → Recorder W → Outcome × Recorder W → Type 0
  SentUpTo pos i ar r =
      (n : ℕ) × IsTaken ar.ar_ds_capbuflen ar.cp_size_bytes ar.ar_r pos n
      × Sent io ring log n i ar r

  -- What a poll hands on where the device gives this capture cursor
  abbrev pub PollSent : ℕ → ℕ → Recorder W → Outcome × Recorder W → Type 0
  PollSent cursor i ar r = SentUpTo (safe_position ar cursor) i ar r
