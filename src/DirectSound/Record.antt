-- ===== src/DirectSound/Record.antt =====
-- audio/sphone_audio_directsound_record.c. An `int` is its bit pattern.
use sphone.Prelude.{
  ℕ, zero, suc, ◌+◌, ◌/◌, ◌%◌, Bool, true, false, not, ◌&&◌, ◌||◌, ltb, ◌==◌, if◌then◌else◌, Option,
  none, some, List, ◌++◌, length, take,
}
use sphone.Prelude.Words.{u32, sub32, is_negative}
use sphone.TimeVal.{TimeVal}
use sphone.Units.{ms2bytes}
use sphone.EventLoop.{Loop, eventloop_reg_timeout}
use sphone.AudioFile.{next_expected}

-- How a call ends: with 0, with -1, or with a division by 0 or a write past the end of a buffer
pub data Outcome : Type 0 where
  ok failed fault : Outcome

-- The calls of DirectSound (`none` and `false` are a negative result), the function that takes a packet, and the clock.
-- `lock` is given an offset and a length, and gives what stands in the one or two regions.
pub record Driver (W : Type 0) : Type 0 where
  pub capture_create : W → Bool × W
  pub capture_caps : W → Bool × W
  pub create_capture_buffer : ℕ → W → Bool × W
  pub buffer_caps : W → Bool × W
  pub start_looping : W → Bool × W
  pub get_current_position : W → Option ℕ × W
  pub lock : ℕ → ℕ → W → Option (List ℕ × Option (List ℕ)) × W
  pub unlock : W → Bool × W
  pub ar_callback : List ℕ → W → Bool × W
  pub gettimestamp : W → TimeVal × W
  pub directsound_error : W → W

-- `struct audio_directsound_record` with what it uses of its session, and everything else
pub record Recorder (W : Type 0) : Type 0 where
  pub ar_ds_capbuflen : ℕ
  pub ar_T : TimeVal
  pub ar_capture_offset : ℕ
  pub ar_cap_nr : ℕ
  pub ar_r : ℕ
  pub sst_rpkt : ℕ
  pub sst_rbytes : ℕ
  pub cp_precision : ℕ
  pub cp_size_ms : ℕ
  pub cp_size_bytes : ℕ
  pub net : W

abbrev pub poll_wrapper_fn : ℕ
poll_wrapper_fn = 1

abbrev pub record_arg : ℕ
record_arg = 0

abbrev pub capture_offset_ms : ℕ
capture_offset_ms = 60

-- `int`s: a + b and a - b, with the length added where it is negative
abbrev pub wrap_up : ℕ → ℕ → ℕ
wrap_up n len = if is_negative n then u32 (n + len) else n

-- The position that is safe to read up to
unfoldable pub read_position : ℕ → ℕ → ℕ → ℕ → ℕ
read_position precision capture_offset buflen cursor =
    let pos = wrap_up (sub32 cursor capture_offset) buflen in
    if ltb 8 precision && not (pos % 2 == 0) then sub32 pos 1 else pos

-- A packet's length of 0 matters only where the condition holds.
abbrev pub divides_by_zero : ℕ → ℕ → ℕ → ℕ → Bool
divides_by_zero buflen len r pos = buflen == 0 || (len == 0 && ltb (u32 (r + len) % buflen) pos)

-- How many packets can be read between `r` and `pos`, where nothing is divided by 0
unfoldable pub packets_ready : ℕ → ℕ → ℕ → ℕ → ℕ
packets_ready buflen len r pos =
    if ltb (u32 (r + len) % buflen) pos
    then (if is_negative (sub32 pos r) then u32 (sub32 pos r + buflen) / len else sub32 pos r / len)
    else 0

module _ {W : Type 0} (io : Driver W) where
  abbrev pub set_net : W → Recorder W → Recorder W
  set_net w ar = record ar { net = w }

  unfoldable pub audio_directsound_record_settings : ℕ → ℕ → ℕ → Recorder W → Recorder W
  audio_directsound_record_settings samp_sec precision channels ar = record ar {
    ar_capture_offset = ms2bytes samp_sec precision channels capture_offset_ms;
  }

  -- What is copied from the two regions to the buffer of the packet
  unfoldable pub copied : List ℕ × Option (List ℕ) → List ℕ
  copied (first, none) = first
  copied (first, some second) = first ++ second

  -- A packet that has been copied: `Unlock`, the counters, and the callback, which is given `len` bytes
  unfoldable pub hand_on :
      (Recorder W → Outcome × Recorder W) → List ℕ → Recorder W → Outcome × Recorder W
  hand_on go buf ar =
      let (unlocked, w) = io.unlock ar.net in
      if unlocked
      then (let (taken, w1) = io.ar_callback (take ar.cp_size_bytes buf) w in
          let ar' = record ar {
            ar_r = u32 (ar.ar_r + ar.cp_size_bytes) % ar.ar_ds_capbuflen;
            sst_rpkt = u32 (ar.sst_rpkt + 1);
            sst_rbytes = u32 (ar.sst_rbytes + ar.cp_size_bytes);
            net = w1;
          } in
          if taken then go (record ar' { ar_cap_nr = u32 (ar'.ar_cap_nr + 1) }) else (failed, ar'))
      else (failed, set_net (io.directsound_error w) ar)

  -- The buffer has ten bytes more than a packet.
  unfoldable pub after_lock :
      (Recorder W → Outcome × Recorder W)
      → Option (List ℕ × Option (List ℕ))
      → Recorder W
      → Outcome × Recorder W
  unfolding copied hand_on
  after_lock go none ar = (failed, set_net (io.directsound_error ar.net) ar)
  after_lock go (some regions) ar =
      if ltb (ar.cp_size_bytes + 10) (length (copied regions))
      then (fault, ar)
      else hand_on go (copied regions) ar

  -- `while (nr_send > 0)`
  unfoldable pub send_packets : ℕ → Recorder W → Outcome × Recorder W
  unfolding after_lock
  send_packets zero ar = (ok, ar)
  send_packets (suc nr_send) ar =
      let (regions, w) = io.lock ar.ar_r ar.cp_size_bytes ar.net in
      after_lock (send_packets nr_send) regions (set_net w ar)

  -- With the position that is safe to read up to: the first time, and later
  unfoldable pub poll_at : ℕ → Recorder W → Outcome × Recorder W
  unfolding packets_ready send_packets
  poll_at pos ar =
      if ar.ar_cap_nr == 0
      then (
        ok,
        record ar {
          ar_r = wrap_up (sub32 pos ar.cp_size_bytes) ar.ar_ds_capbuflen;
          ar_cap_nr = u32 (ar.ar_cap_nr + 1);
        },
      )
      else (if divides_by_zero ar.ar_ds_capbuflen ar.cp_size_bytes ar.ar_r pos
          then (fault, ar)
          else (let nr_send = packets_ready ar.ar_ds_capbuflen ar.cp_size_bytes ar.ar_r pos in
              if is_negative nr_send then (ok, ar) else send_packets nr_send ar))

  unfoldable pub audio_directsound_record_poll : Recorder W → Outcome × Recorder W
  unfolding read_position poll_at
  audio_directsound_record_poll ar =
      let (cursor, w) = io.get_current_position ar.net in
      elim cursor [
        | none ↦ (failed, set_net (io.directsound_error w) ar)
        | some pos ↦
            poll_at (read_position ar.cp_precision ar.ar_capture_offset ar.ar_ds_capbuflen pos)
              (set_net w ar)
      ]

  unfoldable pub audio_directsound_record_poll_wrapper :
      Loop (Recorder W) → Outcome × Loop (Recorder W)
  unfolding audio_directsound_record_poll next_expected
  audio_directsound_record_poll_wrapper l =
      let (polled, ar) = audio_directsound_record_poll l.world in
      elim polled [
        | ok ↦
            let (now, w) = io.gettimestamp ar.net in
            let ar' = record ar { ar_T = next_expected ar.cp_size_ms now; net = w } in
            (
              ok,
              eventloop_reg_timeout ar'.ar_T poll_wrapper_fn record_arg (record l { world = ar' }),
            )
        | r ↦ (r, record l { world = ar })
      ]

  -- `CreateCaptureBuffer`: a failure sets the length to 0.
  unfoldable pub create_buffer : Recorder W → Bool × Recorder W
  create_buffer ar =
      let lost = λ (w : W). record (set_net (io.directsound_error w) ar) { ar_ds_capbuflen = 0 } in
      let (created, w) = io.create_capture_buffer ar.ar_ds_capbuflen ar.net in
      if created
      then (let (known, w1) = io.buffer_caps w in
          if known then (true, set_net w1 ar) else (false, lost w1))
      else (false, lost w)

  -- The calls before the buffer is created, and those after it
  unfoldable pub open_capture : Recorder W → Bool × Recorder W
  open_capture ar =
      let (created, w) = io.capture_create ar.net in
      if created
      then (let (known, w1) = io.capture_caps w in
          if known then (true, set_net w1 ar) else (false, set_net (io.directsound_error w1) ar))
      else (false, set_net (io.directsound_error w) ar)

  unfoldable pub start_capture : Loop (Recorder W) → Outcome × Loop (Recorder W)
  unfolding audio_directsound_record_poll_wrapper
  start_capture l =
      let ar = l.world in
      let (started, w) = io.start_looping ar.net in
      if started
      then audio_directsound_record_poll_wrapper (record l { world = set_net w ar })
      else (failed, record l { world = set_net (io.directsound_error w) ar })

  unfoldable pub audio_directsound_record_start : Loop (Recorder W) → Outcome × Loop (Recorder W)
  unfolding open_capture create_buffer start_capture
  audio_directsound_record_start l =
      let (opened, ar) = open_capture l.world in
      if opened
      then (let (created, ar1) = create_buffer (record ar { ar_ds_capbuflen = 32000 }) in
          if created
          then start_capture (record l { world = ar1 })
          else (failed, record l { world = ar1 }))
      else (failed, record l { world = ar })
