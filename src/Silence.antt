-- ===== src/Silence.antt =====
-- src/sphone_silence.c: voice activity detection by a few samples of a packet. A buffer is its bytes,
-- and the host is little-endian. An index below 0, a read in front of the buffer, is a fault.
pub mod Detect
mod Tests
use sphone.Prelude.{
  ℕ, zero, suc, ◌+◌, ◌-◌, ◌*◌, ◌/◌, Bool, true, false, ltb, ◌==◌, if◌then◌else◌, Option, none, some,
}
use sphone.Prelude.Memory.{Block}

abbrev pub nr_samples : ℕ
nr_samples = 4

-- SILENCE_LEVEL_8 and SILENCE_LEVEL_16 of include/sphone_silence.h
abbrev pub silence_level_8 : ℕ
silence_level_8 = 3

abbrev pub silence_level_16 : ℕ
silence_level_16 = 100

-- `if (value < min) min = value;` and `if (value > max) max = value;`
unfoldable pub narrow : ℕ → ℕ → ℕ
narrow min value = if ltb value min then value else min

unfoldable pub widen : ℕ → ℕ → ℕ
widen max value = if ltb max value then value else max

-- The loop of `silence8`: `rounds` are left, from `i` on. It gives the least and the greatest sample.
unfoldable pub range8 : Block → ℕ → ℕ → ℕ → ℕ → ℕ → Option (ℕ × ℕ)
range8 buf len zero i min max = some (min, max)
range8 buf len (suc rounds) i min max =
    if ltb (len * i / nr_samples) 1
    then none
    else (let value = buf (len * i / nr_samples - 1) in
        range8 buf len rounds (i + 1) (narrow min value) (widen max value))

-- `true` is 1.
unfoldable pub silence8 : Block → ℕ → ℕ → Option Bool
silence8 buf len threshold = elim (range8 buf len nr_samples 1 (buf 0) (buf 0)) [
  | none ↦ none
  | some (min, max) ↦ some (ltb (max - min) threshold)
]

-- `((uint16_t *)buf)[index]`
unfoldable pub sample16 : Block → ℕ → ℕ
sample16 buf index = buf (2 * index) + 0x100 * buf (2 * index + 1)

unfoldable pub range16 : Block → ℕ → ℕ → ℕ → ℕ → ℕ → Option (ℕ × ℕ)
range16 buf len zero i min max = some (min, max)
range16 buf len (suc rounds) i min max =
    if ltb (len * i / (2 * nr_samples)) 2
    then none
    else (let value = sample16 buf (len * i / (2 * nr_samples) - 2) in
        range16 buf len rounds (i + 1) (narrow min value) (widen max value))

unfoldable pub silence16 : Block → ℕ → ℕ → Option Bool
silence16 buf len threshold =
    elim (range16 buf len nr_samples 1 (sample16 buf 0) (sample16 buf 0)) [
      | none ↦ none
      | some (min, max) ↦ some (ltb (max - min) threshold)
    ]

-- What `silence` says of a packet: 1, 0, -1 with a `sphone_error`, or a fault
pub data Verdict : Type 0 where
  silent sounding unsupported bad_read : Verdict

-- The verdict and the count of quiet packets in a row
unfoldable pub silence : Block → ℕ → ℕ → ℕ → ℕ → Verdict × ℕ
silence buf len bits_samp silence_nr threshold =
    if bits_samp == 8
    then judge (silence8 buf len silence_level_8)
    else (if bits_samp == 16
        then judge (silence16 buf len silence_level_16)
        else (unsupported, silence_nr))
  where
    judge : Option Bool → Verdict × ℕ
    judge none = (bad_read, silence_nr)
    judge (some quiet) =
        let nr = if quiet then silence_nr + 1 else 0 in
        (if ltb threshold nr then silent else sounding, nr)
