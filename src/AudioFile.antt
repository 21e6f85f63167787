-- ===== src/AudioFile.antt =====
-- audio/sphone_audio_file_record.c and audio/sphone_audio_file_play.c: files in the place of audio devices. What
-- is recorded is read from a file and handed on packet by packet; what is played is written to one. Allocations
-- succeed.
pub mod Fill
pub mod Short
pub mod Pace
mod Tests
use sphone.Prelude.{
  ℕ, zero, suc, ◌+◌, ◌-◌, ◌*◌, Bool, true, false, ltb, ◌==◌, if◌then◌else◌, Option, none, some,
  List, [], ◌∷◌, ◌++◌, length,
}
use sphone.Prelude.Int.{pos, ◌+ℤ◌}
use sphone.Prelude.Words.{u32}
use sphone.TimeVal.{TimeVal, timevalfix, timersub, timercmp_lt}
use sphone.EventLoop.{Loop, eventloop_reg_timeout}

-- What `read` returns: -1, or the bytes, none at the end of the file
pub data Read : Type 0 where
  unread : Read
  got : List ℕ → Read

-- How `add_buffer` ends: with the buffer full, with `*eof` set, with -1, or out of fuel
pub data Filled : Type 0 where
  full : List ℕ → Filled
  at_eof fill_failed fill_no_fuel : Filled

-- How the callbacks end: with 0, with -1, by a failed assertion, or out of fuel
pub data Outcome : Type 0 where
  ok failed aborted no_fuel : Outcome

-- The clock, the files and the function that takes a packet; `false` is a negative result. `D` is C's double, in
-- which the milliseconds that have passed are counted down.
pub record Files (D W : Type 0) : Type 0 where
  pub gettimestamp : W → TimeVal × W
  pub read : ℕ → ℕ → W → Read × W
  -- To the beginning of the file
  pub lseek : ℕ → W → Bool × W
  pub open_file : W → Option ℕ × W
  pub close : ℕ → W → W
  pub write : ℕ → List ℕ → W → Bool × W
  pub ar_callback : List ℕ → W → Bool × W
  pub sphone_error : W → W
  pub sphone_warning : W → W
  pub passed_ms : TimeVal → D
  pub is_positive : D → Bool
  pub less_ms : D → ℕ → D

-- `struct audio_file_record`, with what it uses of its session and everything else. A number of a file is an
-- `int`, as its bit pattern.
pub record Recorder (W : Type 0) : Type 0 where
  pub ar_fd : ℕ
  pub ar_loop : Bool
  pub ar_T : TimeVal
  pub sst_rpkt : ℕ
  pub sst_rbytes : ℕ
  pub cp_size_ms : ℕ
  pub cp_size_bytes : ℕ
  pub net : W

abbrev pub poll_wrapper_fn : ℕ
poll_wrapper_fn = 1

abbrev pub record_arg : ℕ
record_arg = 0

abbrev pub minus_one : ℕ
minus_one = 0xffffffff

-- `ar_T.tv_usec += cp_size_ms*1000` and `timevalfix`
unfoldable pub next_expected : ℕ → TimeVal → TimeVal
unfolding timevalfix
next_expected size_ms t = timevalfix (record t { tv_usec = t.tv_usec +ℤ pos (size_ms * 1000) })

module _ {D W : Type 0} (io : Files D W) where
  abbrev pub set_net : W → Recorder W → Recorder W
  set_net w ar = record ar { net = w }

  abbrev fail : W → Filled × W
  fail w = (fill_failed, io.sphone_error w)

  -- What follows a `read` of at most `len` bytes; `go` is the way back to `again`, and `done` is in the buffer.
  unfoldable pub after_read :
      (Bool → ℕ → List ℕ → W → Filled × W) → ℕ → Bool → Bool → ℕ → List ℕ → Read → W → Filled × W
  after_read go fd loop looped len done unread w = fail w
  after_read go fd loop true len done (got []) w = fail w
  after_read go fd false false len done (got []) w = (at_eof, w)
  after_read go fd true false len done (got []) w =
      let (sought, w1) = io.lseek fd w in if sought then go true len done w1 else fail w1
  after_read go fd loop looped len done (got (b ∷ bs)) w =
      let n = length (b ∷ bs) in
      if ltb n len then go looped (len - n) (done ++ b ∷ bs) w else (full (done ++ b ∷ bs), w)

  unfoldable pub add_buffer : ℕ → ℕ → Bool → Bool → ℕ → List ℕ → W → Filled × W
  unfolding after_read
  add_buffer zero fd loop looped len done w = (fill_no_fuel, w)
  add_buffer (suc fuel) fd loop looped len done w =
      let (r, w1) = io.read fd len w in
      after_read (add_buffer fuel fd loop) fd loop looped len done r w1

  -- What follows the filling of a packet's buffer: whether to go on, and how the call ends if not
  unfoldable pub hand_on : Filled → Recorder W → Outcome × Recorder W
  unfolding next_expected
  hand_on fill_failed ar = (failed, ar)
  hand_on fill_no_fuel ar = (no_fuel, ar)
  hand_on at_eof ar = (failed, set_net (io.sphone_warning ar.net) ar)
  hand_on (full buf) ar =
      let (taken, w) = io.ar_callback buf ar.net in
      if taken
      then (ok, record ar { ar_T = next_expected ar.cp_size_ms ar.ar_T; net = w })
      else (failed, set_net w ar)

  -- One round of the loop over the packets
  unfoldable pub record_packet : Recorder W → Outcome × Recorder W
  unfolding add_buffer hand_on
  record_packet ar =
      let len = ar.cp_size_bytes in
      let (filled, w) = add_buffer (len + 2) ar.ar_fd ar.ar_loop false len [] ar.net in
      hand_on filled (record ar {
        sst_rpkt = u32 (ar.sst_rpkt + 1);
        sst_rbytes = u32 (ar.sst_rbytes + len);
        net = w;
      })

  -- The rest of the loop, where a round has ended with 0
  unfoldable pub go_on :
      (Recorder W → Outcome × Recorder W) → Outcome × Recorder W → Outcome × Recorder W
  go_on go (ok, ar) = go ar
  go_on go (r, ar) = (r, ar)

  -- `while (ms > 0)`
  unfoldable pub record_packets : ℕ → D → Recorder W → Outcome × Recorder W
  unfolding record_packet go_on
  record_packets zero ms ar = if io.is_positive ms then (no_fuel, ar) else (ok, ar)
  record_packets (suc rounds) ms ar =
      let rest = go_on (record_packets rounds (io.less_ms ms ar.cp_size_ms)) (record_packet ar) in
      if io.is_positive ms then rest else (ok, ar)

  unfoldable pub audio_file_record_poll : ℕ → Recorder W → Outcome × Recorder W
  unfolding record_packets
  audio_file_record_poll rounds ar =
      let (now, w) = io.gettimestamp ar.net in
      let ar1 = set_net w ar in
      if timercmp_lt now ar.ar_T
      then (ok, ar1)
      else record_packets rounds (io.passed_ms (timersub now ar.ar_T)) ar1

  abbrev pub expect : Loop (Recorder W) → Loop (Recorder W)
  expect l = eventloop_reg_timeout l.world.ar_T poll_wrapper_fn record_arg l

  -- Registered again for the next packet, where the poll has ended with 0
  unfoldable pub after_poll : Outcome × Recorder W → Loop (Recorder W) → Outcome × Loop (Recorder W)
  after_poll (ok, ar) l = (ok, expect (record l { world = ar }))
  after_poll (r, ar) l = (r, record l { world = ar })

  unfoldable pub audio_file_record_poll_wrapper :
      ℕ → Loop (Recorder W) → Outcome × Loop (Recorder W)
  unfolding audio_file_record_poll after_poll
  audio_file_record_poll_wrapper rounds l = after_poll (audio_file_record_poll rounds l.world) l

  unfoldable pub audio_file_record_start : Loop (Recorder W) → Outcome × Loop (Recorder W)
  unfolding next_expected
  audio_file_record_start l =
      let ar = l.world in
      let (now, w) = io.gettimestamp ar.net in
      if ar.ar_fd == 0 then (aborted, l) else (
        ok,
        expect (record l { world = record ar { ar_T = next_expected ar.cp_size_ms now; net = w } }),
      )

  unfoldable pub audio_file_record_open : Recorder W → Bool × Recorder W
  audio_file_record_open ar =
      let w = if ar.ar_fd == 0 then ar.net else io.close ar.ar_fd ar.net in
      let (fd, w1) = io.open_file w in
      elim fd [
        | none ↦ (false, record ar { ar_fd = minus_one; net = io.sphone_error w1 })
        | some n ↦ (true, record ar { ar_fd = n; net = w1 })
      ]

-- `struct audio_file_play`, with what it uses of its session and everything else
pub record Player (W : Type 0) : Type 0 where
  pub ap_fd : ℕ
  pub rst_pbytes : ℕ
  pub rst_ppkt : ℕ
  pub net : W

module _ {D W : Type 0} (io : Files D W) where
  unfoldable pub audio_file_play_play : List ℕ → Player W → Bool × Player W
  audio_file_play_play pkt ap =
      let (written, w) = io.write ap.ap_fd pkt ap.net in
      if written
      then (
        true,
        record ap {
          rst_pbytes = u32 (ap.rst_pbytes + length pkt);
          rst_ppkt = u32 (ap.rst_ppkt + 1);
          net = w;
        },
      )
      else (false, record ap { net = io.sphone_error w })

  unfoldable pub audio_file_play_open : Player W → Bool × Player W
  audio_file_play_open ap =
      let w = if ap.ap_fd == 0 then ap.net else io.close ap.ap_fd ap.net in
      let (fd, w1) = io.open_file w in
      elim fd [
        | none ↦ (false, record ap { ap_fd = minus_one; net = io.sphone_error w1 })
        | some n ↦ (true, record ap { ap_fd = n; net = w1 })
      ]
