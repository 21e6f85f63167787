-- ===== src/Silence/Tests.antt =====
-- Examples of silence detection.
use sphone.Prelude.{◌+◌, ◌≡◌, refl, [], ◌∷◌}
use sphone.Prelude.Memory.{Block}
use sphone.Silence.{silence16, range16, sample16, silent, silence, narrow, widen}
use sphone.Silence.Detect.{of_16_bits, silence_run, silence_run-verdict}

abbrev flat : Block
flat = λ i. 128

abbrev ramp : Block
ramp = λ i. 100 + i

-- A run of 16-bit samples, of packets of two lengths
silence_run-verdict_example :
    let count = silence_run ((ramp, 16) ∷ (flat, 16) ∷ (flat, 32) ∷ []) 16 5 2 in
    (count ≡ 2) × ((silence flat 16 16 count 2).0 ≡ silent)
unfolding silence16 range16 sample16 narrow widen
silence_run-verdict_example =
    silence_run-verdict (ramp, 16) ((flat, 16) ∷ (flat, 32) ∷ []) (flat, 16) 16 5 2
      (of_16_bits refl) (of_16_bits refl, (of_16_bits refl, tt)) (of_16_bits refl)
