-- ===== src/DevAudio/Record.antt =====
-- audio/sphone_audio_devaudio_record.c: recording on a device. The device's `read`, the clock and the function that
-- takes a packet are parameters.
use sphone.Prelude.{
  ◌%◌, ◌^◌, bit_or, Option, none, some, ℕ, zero, suc, ◌+◌, ◌-◌, Bool, true, false, ◌==◌,
  if◌then◌else◌, List, length,
}
use sphone.Prelude.Words.{u32}
use sphone.Coding.Payload.{CodingType}
use sphone.DevAudio.Play.{PlayInfo, coding2devaudio}
use sphone.TimeVal.{TimeVal}
use sphone.EventLoop.{Loop, eventloop_reg_timeout}
use sphone.AudioFile.{next_expected}

-- What `read` gives: EWOULDBLOCK, another error, or bytes
pub data Read : Type 0 where
  would_block unread : Read
  got : List ℕ → Read

pub record Input (W : Type 0) : Type 0 where
  pub read : ℕ → ℕ → W → Read × W
  pub ar_callback : List ℕ → W → Bool × W
  pub gettimestamp : W → TimeVal × W
  -- AUMODE_RECORD of sys/audioio.h, AUDIO_SETINFO, and AUDIO_GETINFO for the channels
  pub aumode_record : ℕ
  pub setinfo : ℕ → PlayInfo → W → Bool × W
  pub getinfo_channels : ℕ → W → Option ℕ × W
  pub sphone_warning : W → W
  pub sphone_error : W → W

-- `struct audio_devaudio_record` with the descriptor of its device, what it uses of its session, the number of packet
-- buffers that are allocated, and everything else
pub record Recorder (W : Type 0) : Type 0 where
  pub dd_fd : ℕ
  pub ar_T : TimeVal
  pub sst_rpkt : ℕ
  pub sst_rbytes : ℕ
  pub cp_size_ms : ℕ
  pub cp_size_bytes : ℕ
  pub ar_mode : ℕ
  pub cp_type : CodingType
  pub cp_precision : ℕ
  pub cp_samp_sec : ℕ
  pub cp_channels : ℕ
  pub buffers : ℕ
  pub net : W

abbrev pub poll_wrapper_fn : ℕ
poll_wrapper_fn = 1

abbrev pub record_arg : ℕ
record_arg = 0

module _ {W : Type 0} (io : Input W) where
  -- A packet that has been read whole; `go` is the next round of the loop. `sfree` comes on both ways.
  unfoldable pub take_packet :
      (Recorder W → Bool × Recorder W) → List ℕ → Recorder W → Bool × Recorder W
  take_packet go buf ar =
      let (taken, w) = io.ar_callback buf ar.net in
      let ar' = record ar {
        sst_rpkt = u32 (ar.sst_rpkt + 1);
        sst_rbytes = u32 (ar.sst_rbytes + ar.cp_size_bytes);
        buffers = ar.buffers - 1;
        net = w;
      } in
      if taken then go ar' else (false, ar')

  -- What follows a `read`
  unfoldable pub after_read :
      (Recorder W → Bool × Recorder W) → Read → Recorder W → Bool × Recorder W
  unfolding take_packet
  after_read go would_block ar = (true, ar)
  after_read go unread ar =
      (false, record ar { buffers = ar.buffers - 1; net = io.sphone_error ar.net })
  after_read go (got buf) ar =
      if length buf == ar.cp_size_bytes
      then take_packet go buf ar
      else (false, record ar { buffers = ar.buffers - 1; net = io.sphone_error ar.net })

  -- The loop, with so many rounds left
  unfoldable pub poll_rounds : ℕ → Recorder W → Bool × Recorder W
  unfolding after_read
  poll_rounds zero ar = (true, ar)
  poll_rounds (suc n) ar =
      let (r, w) = io.read ar.dd_fd ar.cp_size_bytes ar.net in
      after_read (poll_rounds n) r (record ar { buffers = suc ar.buffers; net = w })

  -- "To avoid livelock": two rounds
  unfoldable pub audio_devaudio_record_poll : Recorder W → Bool × Recorder W
  unfolding poll_rounds
  audio_devaudio_record_poll ar = poll_rounds 2 ar

  unfoldable pub audio_devaudio_record_poll_wrapper : Loop (Recorder W) → Bool × Loop (Recorder W)
  unfolding audio_devaudio_record_poll
  audio_devaudio_record_poll_wrapper l =
      let (polled, ar) = audio_devaudio_record_poll l.world in
      if polled
      then (let (now, w) = io.gettimestamp ar.net in
          let ar' = record ar { ar_T = next_expected ar.cp_size_ms now; net = w } in
          (
            true,
            eventloop_reg_timeout ar'.ar_T poll_wrapper_fn record_arg (record l { world = ar' }),
          ))
      else (false, record l { world = ar })

  abbrev pub set_net : W → Recorder W → Recorder W
  set_net w ar = record ar { net = w }

  -- What follows AUDIO_GETINFO: the channels may have changed.
  unfoldable pub adopt_channels : Option ℕ → Recorder W → Bool × Recorder W
  adopt_channels none ar = (false, set_net (io.sphone_error ar.net) ar)
  adopt_channels (some n) ar =
      if ar.cp_channels == n
      then (true, ar)
      else (true, record (set_net (io.sphone_warning ar.net) ar) { cp_channels = n % 2 ^ 8 })

  abbrev pub record_info : Recorder W → PlayInfo
  record_info ar = record {
    encoding = coding2devaudio ar.cp_type;
    precision = ar.cp_precision;
    sample_rate = ar.cp_samp_sec;
    channels = ar.cp_channels;
    mode = ar.ar_mode;
  }

  -- The settings of the device
  unfoldable pub set_info : Recorder W → Bool × Recorder W
  unfolding adopt_channels coding2devaudio
  set_info ar =
      let ar1 = record ar { ar_mode = bit_or ar.ar_mode io.aumode_record } in
      let (set, w) = io.setinfo ar1.dd_fd (record_info ar1) ar1.net in
      if set
      then (let (channels, w1) = io.getinfo_channels ar1.dd_fd w in
          adopt_channels channels (set_net w1 ar1))
      else (false, set_net (io.sphone_error w) ar1)

  -- The device is open.
  unfoldable pub audio_devaudio_record_start : Loop (Recorder W) → Bool × Loop (Recorder W)
  unfolding set_info audio_devaudio_record_poll_wrapper
  audio_devaudio_record_start l =
      let (set, ar) = set_info l.world in
      if set
      then audio_devaudio_record_poll_wrapper (record l { world = ar })
      else (false, record l { world = ar })
