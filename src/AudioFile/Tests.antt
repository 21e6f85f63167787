-- ===== src/AudioFile/Tests.antt =====
-- Examples of audio files: a file of five bytes, read in packets of four.
use sphone.Prelude.{
  ◌*◌, ℕ, zero, suc, ◌-◌, ◌<◌, ◌≤◌, ◌≡◌, ◌⊎◌, refl, true, false, ltb, some, List, [], ◌∷◌, take,
  drop, arith,
}
use sphone.Prelude.Int.{pos}
use sphone.TimeVal.{TimeVal}
use sphone.AudioFile.{Files, Read, got, Recorder, add_buffer}
use sphone.AudioFile.Fill.{GivesPiece, IsFile, FillsTo, FillsOver, add_buffer-Fills}

abbrev bytes : List ℕ
bytes = 1 ∷ 2 ∷ 3 ∷ []

-- A byte at a time
abbrev read_byte : ℕ → Read × ℕ
read_byte zero = (got (1 ∷ []), 1)
read_byte (suc zero) = (got (2 ∷ []), 2)
read_byte (suc (suc zero)) = (got (3 ∷ []), 3)
read_byte (suc (suc (suc w))) = (got [], suc (suc (suc w)))

abbrev now : TimeVal
now = record { tv_sec = pos 10; tv_usec = pos 990000 }

-- The state is the position in the file; packets are taken. A `double` of milliseconds is its microseconds.
abbrev io : Files ℕ ℕ
io = record {
  gettimestamp = λ w. (now, w);
  read = λ fd n w. read_byte w;
  lseek = λ fd w. (true, 0);
  open_file = λ w. (some 4, w);
  close = λ fd w. w;
  write = λ fd bs w. (true, w);
  ar_callback = λ bs w. (true, w);
  sphone_error = λ w. w;
  sphone_warning = λ w. w;
  passed_ms = λ t. 50000;
  is_positive = λ us. ltb 0 us;
  less_ms = λ us n. us - n * 1000;
}

file : IsFile io 4 bytes (λ w. w)
file = record { gives = gives; ends = ends; rewinds = λ w. (refl, refl) }
  where
    gives : (n w : ℕ) → 0 < n → w < 3 → GivesPiece io 4 bytes (λ w. w) n w
    gives n zero h k = (1 ∷ [], omega arith, omega (arith, h), refl, refl, omega arith, refl)
    gives n (suc zero) h k = (2 ∷ [], omega arith, omega (arith, h), refl, refl, omega arith, refl)
    gives n (suc (suc zero)) h k =
        (3 ∷ [], omega arith, omega (arith, h), refl, refl, omega arith, refl)
    gives n (suc (suc (suc w))) h k = absurd (omega (arith, k))

    ends : (n w : ℕ) → w ≡ 3 → ((read_byte w).0 ≡ got []) × ((read_byte w).1 ≡ w)
    ends n zero e = absurd (omega (arith, e))
    ends n (suc zero) e = absurd (omega (arith, e))
    ends n (suc (suc zero)) e = absurd (omega (arith, e))
    ends n (suc (suc (suc w))) e = (refl, refl)

add_buffer-Fills_example :
    ((4 ≤ 3)
      × FillsTo io 4 bytes (λ w. w) (add_buffer io 4 4 true false 2 [] 2) (take 2 (drop 2 bytes)) 4)
    ⊎ ((3 < 4) × FillsOver io 4 bytes (λ w. w) true 2 [] 2 (add_buffer io 4 4 true false 2 [] 2))
add_buffer-Fills_example =
    add_buffer-Fills io 4 bytes (λ w. w) 2 true 2 file (omega arith) (omega arith) (omega arith)

-- Packets of 20 ms and two bytes
abbrev recorder : Recorder ℕ
recorder = record {
  ar_fd = 4;
  ar_loop = true;
  ar_T = now;
  sst_rpkt = 0;
  sst_rbytes = 0;
  cp_size_ms = 20;
  cp_size_bytes = 2;
  net = 0;
}
