-- ===== src/Silence/Detect.antt =====
-- Which packets src/sphone_silence.c takes for silence.
use sphone.Prelude.Memory.{Block}
use sphone.Wire.{some-eq}
use sphone.Silence.{
  silent, sounding, narrow, widen, range8, silence8, silence16, silence, silence_level_8,
  silence_level_16,
}
use sphone.Prelude.{
  ℕ, ◌+◌, ◌-◌, ◌*◌, ◌/◌, ◌≤◌, ◌<◌, ◌≡◌, ◌↔◌, refl, true, false, ltb, ltb→lt, lt→ltb, Bool-cases,
  inl, inr, ap, if◌then◌else◌, some, List, [], ◌∷◌, All, length, ◌∙◌, arith, Bool,
}

-- The samples that `silence8` looks at: the first, and the last of each quarter
abbrev pub looked_at : Block → ℕ → List ℕ
looked_at buf len =
    buf 0
    ∷ buf (len * 1 / 4 - 1)
    ∷ buf (len * 2 / 4 - 1)
    ∷ buf (len * 3 / 4 - 1)
    ∷ buf (len * 4 / 4 - 1)
    ∷ []

-- Any two of the samples differ by less than the threshold.
abbrev pub Close : ℕ → List ℕ → Type 0
Close threshold samples = All (λ a. All (λ b. a < b + threshold) samples) samples

narrow-low : (a b : ℕ) → (narrow a b ≤ a) × (narrow a b ≤ b)
unfolding narrow
narrow-low a b = ground arith

widen-high : (a b : ℕ) → (a ≤ widen a b) × (b ≤ widen a b)
unfolding widen
widen-high a b = ground arith

-- What holds of both numbers holds of the lesser and of the greater.
narrow-holds : (P : ℕ → Type 0) (a b : ℕ) → P a → P b → P (narrow a b)
unfolding narrow
narrow-holds P a b p q = elim (Bool-cases (ltb b a)) [ inl h ↦ rw h q | inr h ↦ rw h p ]

widen-holds : (P : ℕ → Type 0) (a b : ℕ) → P a → P b → P (widen a b)
unfolding widen
widen-holds P a b p q = elim (Bool-cases (ltb a b)) [ inl h ↦ rw h q | inr h ↦ rw h p ]

-- The least and the greatest of five numbers
abbrev least : ℕ → ℕ → ℕ → ℕ → ℕ → ℕ
least a b c d e = narrow (narrow (narrow (narrow a b) c) d) e

abbrev greatest : ℕ → ℕ → ℕ → ℕ → ℕ → ℕ
greatest a b c d e = widen (widen (widen (widen a b) c) d) e

spread-Close :
    (a b c d e t : ℕ) → greatest a b c d e < least a b c d e + t → Close t (a ∷ b ∷ c ∷ d ∷ e ∷ [])
spread-Close a b c d e t h = omega (
  arith,
  narrow-low a b,
  narrow-low (narrow a b) c,
  narrow-low (narrow (narrow a b) c) d,
  narrow-low (narrow (narrow (narrow a b) c) d) e,
  widen-high a b,
  widen-high (widen a b) c,
  widen-high (widen (widen a b) c) d,
  widen-high (widen (widen (widen a b) c) d) e,
)

Close-spread :
    (a b c d e t : ℕ) → Close t (a ∷ b ∷ c ∷ d ∷ e ∷ []) → greatest a b c d e < least a b c d e + t
Close-spread a b c d e t h =
    all_low (above a (omega arith)) (above b (omega arith)) (above c (omega arith))
      (above d (omega arith)) (above e (omega arith))
  where
    above :
        (x : ℕ)
        → (a < x + t) × (b < x + t) × (c < x + t) × (d < x + t) × (e < x + t)
        → greatest a b c d e < x + t
    above x (p, q, r, s, u) =
        let P : ℕ → Type 0 = λ y. y < x + t in
        widen-holds P _ e (widen-holds P _ d (widen-holds P _ c (widen-holds P a b p q) r) s) u

    all_low :
        greatest a b c d e < a + t
        → greatest a b c d e < b + t
        → greatest a b c d e < c + t
        → greatest a b c d e < d + t
        → greatest a b c d e < e + t
        → greatest a b c d e < least a b c d e + t
    all_low p q r s u =
        let P : ℕ → Type 0 = λ x. greatest a b c d e < x + t in
        narrow-holds P _ e (narrow-holds P _ d (narrow-holds P _ c (narrow-holds P a b p q) r) s) u

silence8-spread :
    (buf : Block) (len threshold : ℕ)
    → 4 ≤ len
    → let b : ℕ → ℕ = λ i. buf (len * i / 4 - 1) in
      silence8 buf len threshold
      ≡ some (
          ltb
            (greatest (buf 0) (b 1) (b 2) (b 3) (b 4) - least (buf 0) (b 1) (b 2) (b 3) (b 4))
            threshold)
unfolding silence8 range8
silence8-spread buf len threshold h =
    let e1 : ltb (len * 1 / 4) 1 ≡ false = ground arith in
    let e2 : ltb (len * 2 / 4) 1 ≡ false = ground arith in
    let e3 : ltb (len * 3 / 4) 1 ≡ false = ground arith in
    let e4 : ltb (len * 4 / 4) 1 ≡ false = ground arith in ground (arith, e1, e2, e3, e4)

-- A packet of four samples at least is quiet exactly where any two of the five samples that are looked at
-- differ by less than the threshold.
silence8_iff :
    (buf : Block) (len threshold : ℕ)
    → 4 ≤ len
    → (silence8 buf len threshold ≡ some true) ↔ Close threshold (looked_at buf len)
silence8_iff buf len threshold h = rw (silence8-spread buf len threshold h) (
  λ e. spread-Close _ _ _ _ _ threshold (ground (arith, ltb→lt _ _ (some-eq e))),
  λ c. ap some (lt→ltb _ _ (omega (arith, c.0, Close-spread _ _ _ _ _ threshold c))),
)

-- A packet, with its length
abbrev pub Packet : Type 0
Packet = Block × ℕ

-- The count of quiet packets after some packets
unfoldable pub silence_run : List Packet → ℕ → ℕ → ℕ → ℕ
silence_run [] bits nr threshold = nr
silence_run ((buf, len) ∷ rest) bits nr threshold =
    silence_run rest bits (silence buf len bits nr threshold).1 threshold

-- What the detector for the samples' width says of a packet
pub data Detects : ℕ → Packet → Bool → Type 0 where
  of_8_bits :
      {buf : Block} {len : ℕ} {quiet : Bool}
      → silence8 buf len silence_level_8 ≡ some quiet
      → Detects 8 (buf, len) quiet
  of_16_bits :
      {buf : Block} {len : ℕ} {quiet : Bool}
      → silence16 buf len silence_level_16 ≡ some quiet
      → Detects 16 (buf, len) quiet

silence-Detects :
    (bits : ℕ) (p : Packet) (quiet : Bool) (nr threshold : ℕ)
    → Detects bits p quiet
    → let count = if quiet then nr + 1 else 0 in
      silence p.0 p.1 bits nr threshold ≡ (if ltb threshold count then silent else sounding, count)
unfolding silence
silence-Detects _ _ quiet nr threshold (of_8_bits d) = rw d refl
silence-Detects _ _ quiet nr threshold (of_16_bits d) = rw d refl

silence_run-Detects :
    (bufs : List Packet) (bits nr threshold : ℕ)
    → All (λ p. Detects bits p true) bufs
    → silence_run bufs bits nr threshold ≡ nr + length bufs
unfolding silence_run
silence_run-Detects [] bits nr threshold q = omega arith
silence_run-Detects ((buf, len) ∷ rest) bits nr threshold (q, qs) =
    rw (silence-Detects bits (buf, len) true nr threshold q)
      (silence_run-Detects rest bits (nr + 1) threshold qs ∙ omega arith)

-- Packets of 8-bit or of 16-bit samples, each of its own length: after one that the detector for that width finds to
-- sound, those that it finds quiet are still sent until more than the threshold of them have come in a row, and every
-- one from then on is suppressed.
pub silence_run-verdict :
    (loud : Packet) (bufs : List Packet) (p : Packet) (bits nr threshold : ℕ)
    → Detects bits loud false
    → All (λ q. Detects bits q true) bufs
    → Detects bits p true
    → let count = silence_run (loud ∷ bufs) bits nr threshold in
      (count ≡ length bufs)
      × ((silence p.0 p.1 bits count threshold).0
          ≡ (if ltb (length bufs) threshold then sounding else silent))
unfolding silence_run
silence_run-verdict (buf, len) bufs p bits nr threshold l qs q =
    let reset = silence-Detects bits (buf, len) false nr threshold l in
    let zero_left : 0 + length bufs ≡ length bufs = omega arith in
    let count = silence_run-Detects bufs bits 0 threshold qs ∙ zero_left in
    rw (reset, count, silence-Detects bits p true (length bufs) threshold q) (refl, ground arith)
