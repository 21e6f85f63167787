-- ===== src/Playout/Samples.antt =====
-- A device and a session of src/sphone_playout_shbuf.c for the tests.
use sphone.Prelude.{ℕ, ◌+◌, ◌*◌, true, some}
use sphone.Prelude.Memory.{Block}
use sphone.Prelude.Int.{pos}
use sphone.Playout.Device.{Device, Double}
use sphone.Playout.Shbuf.{Shbuf}

-- `double` cut to whole numbers
abbrev pub whole : Double
whole = record {
  D = ℕ;
  of_ℕ = λ n. n;
  zero_bits = 0;
  smoother = 0;
  one_minus_smoother = 1;
  ◌⊗◌ = λ a b. a * b;
  ◌⊕◌ = λ a b. a + b;
}

-- A device whose cursors are 10 and 20 in a buffer of 1000 bytes, and that counts the calls of `play`
abbrev pub device : Device ℕ
device = record {
  play_pos = λ w. (some (10, 20), w);
  play = λ buf len p w. (pos 0, w + 1);
  sphone_error = λ w. w;
  playbuflen = λ w. (some 1000, w);
  reg_silence = λ w. (true, w);
}

abbrev pub quiet : Block
quiet = λ i. 0

abbrev pub state : Shbuf ℕ
state = record {
  bits_samp = 0;
  len = 0;
  cursor_r = 0;
  cursor_w = 0;
  cursor_w_prev = 0;
  playbuflen = 1000;
  c = 0;
  c_old = 950;
  qmean = 100;
  d = 0;
  d_s = 0;
  drop = 0;
  silentbuf = quiet;
  silentlen = 333;
  nextsilence = 0;
}
