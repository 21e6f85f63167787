-- ===== src/DevAudio/Tests.antt =====
-- Examples of devices that sessions share.
use sphone.Prelude.{
  inl, ◌-◌, none, ℕ, suc, ◌+◌, ◌<◌, ◌≡◌, refl, Bool, true, false, ◌==◌, if◌then◌else◌, some, List,
  [], ◌∷◌, ◌++◌, get_elem?, arith,
}
use sphone.DevAudio.{
  Device, Driver, MixerDevinfo, opened, mute, find_addr, unmute_from, audio_devaudio_init,
  audio_devaudio_exit,
}
use sphone.DevAudio.Table.{refcnt_at}
use sphone.DevAudio.Sessions.{
  Process, opens, exits, Reach, here, next, IsCounted, references, Reach-IsCounted,
  audio_devaudio_exit-last, devices_gone,
}
use sphone.DevAudio.Mixer.{WroteToMutes, unmute_from-Wrote}
use sphone.Prelude.Int.{pos}
use sphone.Coding.Payload.{linear16}
use sphone.Playout.Dispatch.{fifo}
use sphone.DevAudio.Holders.{count, release, Counts}
use sphone.DevAudio.Record.{Input, Recorder, would_block, got, audio_devaudio_record_poll}
use sphone.DevAudio.Play.{
  Output, Player, ok, bad_access, audio_devaudio_play_play_mmap,
  audio_devaudio_play_play_mmap_faults, audio_devaudio_play_open, audio_devaudio_play_close,
}
use sphone.DevAudio.Playing.{audio_devaudio_play_open_close}
use sphone.DevAudio.Refusals.{audio_devaudio_init_after_failure}

-- The controls that the mixer has, of which the second and the fourth mute
abbrev controls : List MixerDevinfo
controls =
    record { is_enum = true; label = 112 ∷ [] }
    ∷ record { is_enum = true; label = mute }
    ∷ record { is_enum = false; label = mute }
    ∷ record { is_enum = true; label = mute }
    ∷ []

-- The world is the next descriptor and the writes and closed descriptors so far. `duplex` is whether AUDIO_SETFD works.
abbrev World : Type 0
World = ℕ × List ℕ × List ℕ

abbrev driver : Bool → Driver World
driver duplex = record {
  open_device = λ name w. (some w.0, (suc w.0, w.1, w.2));
  open_mixer = λ n w. (some w.0, (suc w.0, w.1, w.2));
  getprops = λ fd w. (some (record { prop_fullduplex = true; prop_mmap = false }), w);
  setfd = λ fd w. (duplex, w);
  mixer_devinfo = λ fd i w. (get_elem? controls i, w);
  mixer_write = λ fd i v w. (true, (w.0, w.1 ++ i ∷ [], w.2));
  close = λ fd w. (w.0, w.1, fd ∷ w.2);
  sphone_error = λ w. w;
}

-- "audio0"
abbrev audio0 : List ℕ
audio0 = 97 ∷ 117 ∷ 100 ∷ 105 ∷ 111 ∷ 48 ∷ []

abbrev none_open : Process World
none_open = record {
  devices = record { devicelist = []; next_addr = 5; world = (3, [], []) };
  holders = [];
  left_behind = [];
}

none_open-IsCounted : IsCounted none_open
unfolding count refcnt_at
none_open-IsCounted = record {
  counted = λ a. refl;
  positive = tt;
  old = tt;
  one_addr = tt;
  one_name = tt;
}

-- Two sessions share a device; one has given it back, and then the other.
abbrev shared : Process World
shared = record {
  devices =
      (audio_devaudio_init (driver true) 9 audio0
        (audio_devaudio_init (driver true) 9 audio0 none_open.devices).1).1;
  holders = 5 ∷ 5 ∷ [];
  left_behind = [];
}

shared-Reach : Reach (driver true) 9 none_open shared
unfolding audio_devaudio_init
shared-Reach = next (next here (opens audio0 5 refl)) (opens audio0 5 refl)

shared-held : 0 < count 5 shared.holders
unfolding count
shared-held = omega arith

Reach-IsCounted_example : IsCounted shared
Reach-IsCounted_example =
    Reach-IsCounted (driver true) 9 none_open shared none_open-IsCounted shared-Reach

audio_devaudio_exit-last_example :
    (dd : Device) × (find_addr 5 shared.devices.devicelist ≡ some dd)
    × ((audio_devaudio_exit (driver true) 5 shared.devices).0 ≡ true)
    × ((audio_devaudio_exit (driver true) 5 shared.devices).1.world ≡ (
        if references shared 5 == 1
        then (driver true).close dd.dd_fd shared.devices.world
        else shared.devices.world))
audio_devaudio_exit-last_example =
    audio_devaudio_exit-last (driver true) 9 none_open shared 5 none_open-IsCounted shared-Reach
      shared-held

abbrev given : Process World
given = record shared {
  devices =
      (audio_devaudio_exit (driver true) 5
        (audio_devaudio_exit (driver true) 5 shared.devices).1).1;
  holders = [];
}

given-Reach : Reach (driver true) 9 none_open given
unfolding count release
given-Reach = next (next shared-Reach (exits 5 shared-held)) (exits 5 (omega arith))

devices_gone_example : given.devices.devicelist ≡ []
devices_gone_example =
    devices_gone (driver true) 9 none_open given none_open-IsCounted given-Reach refl refl

unmute_from-Wrote_example :
    WroteToMutes
      (driver true)
      4
      (λ (w : World). w.1)
      0
      controls
      (5, [], [])
      (unmute_from (driver true) 5 4 0 (5, [], []))
unmute_from-Wrote_example =
    unmute_from-Wrote (driver true) 4 (λ (w : World). w.1) 5 0 controls (5, [], [])
      (record {
        lists = λ k w. let e : 0 + k ≡ k = omega arith in rw e refl;
        reads = λ k w. refl;
        writes = λ k w. refl;
        errors = λ w. refl;
        closes = λ w. refl;
      })
      (omega arith)

audio_devaudio_init_after_failure_example :
    let failed = (audio_devaudio_init (driver false) 9 audio0 none_open.devices).1 in
    let again = audio_devaudio_init (driver false) 9 audio0 failed in
    (again.0 ≡ opened 5) × (again.1.world ≡ failed.world)
unfolding audio_devaudio_init
audio_devaudio_init_after_failure_example =
    audio_devaudio_init_after_failure (driver false) 9 audio0 none_open.devices 0 refl refl
      (λ e. omega (arith, e))

-- A device that has one packet of three bytes and then none. The world is the packets that are left.
abbrev input : Input ℕ
input = record {
  read = λ fd len w. if w == 0 then (would_block, w) else (got (1 ∷ 2 ∷ 3 ∷ []), w - 1);
  ar_callback = λ buf w. (true, w);
  gettimestamp = λ w. (record { tv_sec = pos 1; tv_usec = pos 0 }, w);
  aumode_record = 2;
  setinfo = λ fd info w. (true, w);
  getinfo_channels = λ fd w. (some 1, w);
  sphone_warning = λ w. w;
  sphone_error = λ w. w;
}

abbrev recorder : Recorder ℕ
recorder = record {
  dd_fd = 3;
  ar_T = record { tv_sec = pos 0; tv_usec = pos 0 };
  sst_rpkt = 0;
  sst_rbytes = 0;
  cp_size_ms = 20;
  cp_size_bytes = 3;
  ar_mode = 0;
  cp_type = linear16;
  cp_precision = 16;
  cp_samp_sec = 8000;
  cp_channels = 1;
  buffers = 0;
  net = 1;
}

-- One packet is counted, and a buffer is left over.
poll_once : (audio_devaudio_record_poll input recorder).1.buffers ≡ 1
unfolding audio_devaudio_record_poll
poll_once = refl

abbrev output : Output World
output = record {
  write = λ fd pkt w. (true, w);
  aumode_play = 5;
  setinfo = λ fd info w. (true, w);
  getinfo_channels = λ fd w. (some 1, w);
  getinfo_buffer_size = λ fd w. (some 65536, w);
  getooffs = λ fd w. (some 0, w);
  mmap = λ fd n w. (some 0x40000000, w);
  sphone_error = λ w. w;
  sphone_warning = λ w. w;
}

abbrev player : Player World
player = record {
  ap_devaudio = none;
  ap_mode = 0;
  ap_playout_type = fifo;
  ap_mmap_buffer_size = 65536;
  ap_mmap_buffer = 0x40000000;
  rst_pbytes = 0;
  rst_ppkt = 0;
  cp_type = linear16;
  cp_precision = 16;
  cp_samp_sec = 8000;
  cp_channels = 1;
  memory = λ a. 0;
  devices = none_open.devices;
}

audio_devaudio_play_play_mmap_faults_example :
    (audio_devaudio_play_play_mmap output (7 ∷ 8 ∷ []) 320 player).0 ≡ bad_access
audio_devaudio_play_play_mmap_faults_example =
    audio_devaudio_play_play_mmap_faults output (7 ∷ 8 ∷ []) 320 player (omega arith) (omega arith)
      (inl (omega arith)) (omega arith) (omega arith)

audio_devaudio_play_open_close_example :
    let opened_pl = (audio_devaudio_play_open output (driver true) 9 audio0 player).1 in
    let closed = audio_devaudio_play_close output (driver true) opened_pl in
    (opened_pl.ap_devaudio ≡ some 5)
    × (closed.0 ≡ ok)
    × Counts (references none_open) closed.1.devices
unfolding audio_devaudio_init
audio_devaudio_play_open_close_example =
    audio_devaudio_play_open_close output (driver true) 9 audio0 (references none_open) 5 player
      none_open-IsCounted refl
