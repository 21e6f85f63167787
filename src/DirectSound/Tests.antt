-- ===== src/DirectSound/Tests.antt =====
-- Examples of capture and play buffers of eight bytes.
use sphone.Prelude.{ℕ, ◌+◌, ◌*◌, ◌≤◌, ◌≡◌, inl, refl, true, none, some, List, [], ◌∷◌, ◌++◌, arith}
use sphone.Prelude.Int.{pos}
use sphone.DirectSound.Record.{
  Recorder, read_position, packets_ready, audio_directsound_record_poll,
}
use sphone.DirectSound.Capture.{ahead, packets_ready_stalls}
use sphone.DirectSound.Packets.{circle}
use sphone.DirectSound.Play.{
  Player, Region, buffer_lost, ok, audio_directsound_play_play, restore_loop,
}
use sphone.DirectSound.Regions.{first_region, second_region}
use sphone.DirectSound.Written.{audio_directsound_play_play-Written}
use sphone.DirectSound.Record
use sphone.DirectSound.Play

packets_ready_stalls_example :
    (packets_ready 32000 320 31000 500 ≡ 0) × (320 ≤ ahead 32000 31000 500)
packets_ready_stalls_example =
    packets_ready_stalls 32000 320 31000 500 (omega arith) (omega arith) (omega arith) (omega arith)
      (omega arith) (omega arith) (omega arith)

-- What is captured at each place
abbrev ring : ℕ → ℕ
ring k = k * k

-- The world is what the callback has been given.
abbrev capture : Record.Driver (List ℕ)
capture = record {
  capture_create = λ w. (true, w);
  capture_caps = λ w. (true, w);
  create_capture_buffer = λ n w. (true, w);
  buffer_caps = λ w. (true, w);
  start_looping = λ w. (true, w);
  get_current_position = λ w. (some 4, w);
  lock = λ i n w. (some (circle ring 8 i n, none), w);
  unlock = λ w. (true, w);
  ar_callback = λ bs w. (true, w ++ bs);
  gettimestamp = λ w. (record { tv_sec = pos 1; tv_usec = pos 0 }, w);
  directsound_error = λ w. w;
}

-- The pointer is at 6, which the index 14 stands for.
abbrev recorder : Recorder (List ℕ)
recorder = record {
  ar_ds_capbuflen = 8;
  ar_T = record { tv_sec = pos 0; tv_usec = pos 0 };
  ar_capture_offset = 0;
  ar_cap_nr = 3;
  ar_r = 6;
  sst_rpkt = 2;
  sst_rbytes = 4;
  cp_precision = 16;
  cp_size_ms = 20;
  cp_size_bytes = 2;
  net = [];
}

-- Three packets are handed on, round the end of the buffer.
three_sent : (audio_directsound_record_poll capture recorder).1.net ≡ 36 ∷ 49 ∷ 0 ∷ 1 ∷ 4 ∷ 9 ∷ []
unfolding audio_directsound_record_poll circle
three_sent = refl

-- A play buffer from the address 100 on. The world is the number of restores that fail.
abbrev device : Play.Driver ℕ
device = record {
  directsound_create = λ w. (true, w);
  set_cooperative_level = λ w. (true, w);
  create_sound_buffer = λ f w. (true, w);
  play_looping = λ w. (true, w);
  lock = λ i n w. (some (first_region 100 8 i n, second_region 100 8 i n), w);
  unlock = λ w. (true, w);
  get_current_position = λ w. (some (0, 4), w);
  stop = λ w. (true, w);
  restore = λ w. (buffer_lost, w);
  sleep = λ w. w;
  warning = λ w. w;
  directsound_error = λ w. w;
}

abbrev player : Player ℕ
player = record {
  ap_playbuflen = 8;
  rst_pbytes = 0;
  rst_ppkt = 0;
  cp_channels = 1;
  cp_samp_sec = 8000;
  cp_precision = 16;
  memory = λ a. 0;
  net = 0;
}

abbrev packet : List ℕ
packet = 1 ∷ 2 ∷ 3 ∷ []

audio_directsound_play_play-Written_example :
    let (r, ap') = audio_directsound_play_play device packet 6 player in
    (r ≡ ok) × (circle (λ k. ap'.memory (100 + k)) 8 6 3 ≡ packet) × (ap'.memory 99 ≡ 0)
audio_directsound_play_play-Written_example =
    audio_directsound_play_play-Written device 100 6 99 packet player (omega arith) (omega arith)
      refl refl (inl (omega arith))
