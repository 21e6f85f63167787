-- ===== src/Coding/Tests.antt =====
-- Examples of the codings.
use sphone.Prelude.{◌+◌, ◌*◌, ◌/◌, ◌≡◌, ◌≢◌, ◌⊎◌, refl, none, some, arith}
use sphone.Prelude.Memory.{Block}
use sphone.Coding.Channels.{coding_expand, coding_reduce}
use sphone.Coding.Cells.{cell}
use sphone.Coding.Frames.{coding_reduce-expand}
use sphone.Coding.Payload.{linear16, ulaw, linear8}
use sphone.Coding.Convert.{G711, run_coding}
use sphone.Coding.Setup.{
  coding_alaw2ulaw, CodingParams, CodingFn, is_linear8, coding_mapping, coding_init, coding_sanity,
  coding_init_iff,
}

abbrev audio : CodingParams
audio = record {
  cp_type = linear16;
  cp_samp_sec = 8000;
  cp_precision = 0;
  cp_channels = 1;
  cp_size_ms = 20;
  cp_size_bytes = 0;
}

abbrev network : CodingParams
network = record audio { cp_type = ulaw }

linear8_is_sized_as_linear16 :
    (coding_sanity (record audio { cp_type = linear8 })).cp_precision ≡ 16
unfolding coding_sanity
linear8_is_sized_as_linear16 = refl

coding_init_iff_example :
    ((is_linear8 linear16 ≡ is_linear8 ulaw)
      × (encode decode : CodingFn) × ((coding_init audio network).0 ≡ some (encode, decode))
      × (coding_mapping linear16 ulaw ≡ some encode)
      × (coding_mapping ulaw linear16 ≡ some decode))
    ⊎ ((is_linear8 linear16 ≢ is_linear8 ulaw) × ((coding_init audio network).0 ≡ none))
coding_init_iff_example = coding_init_iff audio network

-- Two samples of two bytes
abbrev stereo : Block
stereo = λ i. 10 + i

coding_reduce-expand_example :
    (wide narrow : Block) × (coding_expand stereo 4 16 3 ≡ some (wide, 12))
    × (coding_reduce wide 12 16 3 ≡ some (narrow, 4))
    × (cell 2 narrow 1 1 ≡ 13)
coding_reduce-expand_example =
    coding_reduce-expand stereo 2 2 3 16 1 1 refl (omega arith) (omega arith) (omega arith)
      (omega arith)

-- A coding whose samples are the byte and a byte of 0
abbrev g711 : G711
g711 = record {
  linear2alaw = λ v. v / 256;
  alaw2linear = λ b. b * 256;
  linear2ulaw = λ v. v / 256;
  ulaw2linear = λ b. b * 256;
  alaw2ulaw = λ b. b;
  ulaw2alaw = λ b. b;
}

-- A packet of three bytes comes out as the bytes at 0, 2 and 4.
every_second : run_coding g711 coding_alaw2ulaw stereo 3 (λ i. 0) 3 2 ≡ 14
unfolding run_coding
every_second = refl
