-- ===== src/Coding/Setup.antt =====
-- `coding_init` of coding/sphone_coding.c and what it calls, built without iLBC. The factors are the
-- `float` values 1 and 2, with which lengths and precisions are exact below 2^23. Allocations succeed.
use sphone.Prelude.{
  ℕ, ◌*◌, ◌/◌, ◌^◌, ◌<◌, ◌≡◌, refl, sym, ◌≢◌, ◌⊎◌, inl, inr, Bool, true, false, Option, none, some,
  arith,
}
use sphone.Units.{ms2bytes}
use sphone.Coding.Payload.{CodingType, linear16, ulaw, alaw, linear8}

-- `coding_params`
pub record CodingParams : Type 0 where
  pub cp_type : CodingType
  pub cp_samp_sec : ℕ
  pub cp_precision : ℕ
  pub cp_channels : ℕ
  pub cp_size_ms : ℕ
  pub cp_size_bytes : ℕ

-- The precision that a type takes, and the length of a packet with it
abbrev sized : CodingParams → ℕ → CodingParams
sized cp precision = record cp {
  cp_precision = precision;
  cp_size_bytes = ms2bytes cp.cp_samp_sec precision cp.cp_channels cp.cp_size_ms;
}

-- The case of `linear8` falls through to that of `linear16`.
unfoldable pub coding_sanity : CodingParams → CodingParams
coding_sanity cp = elim cp.cp_type [
  | linear8 ↦ sized (sized cp 8) 16
  | linear16 ↦ sized cp 16
  | alaw ↦ sized cp 8
  | ulaw ↦ sized cp 8
]

unfoldable pub coding_lenfactor : CodingType → ℕ
coding_lenfactor linear8 = 1
coding_lenfactor linear16 = 1
coding_lenfactor alaw = 2
coding_lenfactor ulaw = 2

unfoldable pub coding_transformlen_generic : CodingParams → CodingParams → ℕ → ℕ
coding_transformlen_generic c1 c2 len1 =
    len1 * coding_lenfactor c1.cp_type / coding_lenfactor c2.cp_type

-- The functions that the matrix holds
pub data CodingFn : Type 0 where
  coding_null : CodingFn
  coding_l16_2ulaw : CodingFn
  coding_l16_2alaw : CodingFn
  coding_ulaw2_l16 : CodingFn
  coding_ulaw2alaw : CodingFn
  coding_alaw2_l16 : CodingFn
  coding_alaw2ulaw : CodingFn

-- `none` is `coding_err`.
unfoldable pub coding_mapping : CodingType → CodingType → Option CodingFn
coding_mapping linear16 linear16 = some coding_null
coding_mapping linear16 ulaw = some coding_l16_2ulaw
coding_mapping linear16 alaw = some coding_l16_2alaw
coding_mapping linear16 linear8 = none
coding_mapping ulaw linear16 = some coding_ulaw2_l16
coding_mapping ulaw ulaw = some coding_null
coding_mapping ulaw alaw = some coding_ulaw2alaw
coding_mapping ulaw linear8 = none
coding_mapping alaw linear16 = some coding_alaw2_l16
coding_mapping alaw ulaw = some coding_alaw2ulaw
coding_mapping alaw alaw = some coding_null
coding_mapping alaw linear8 = none
coding_mapping linear8 linear8 = some coding_null
coding_mapping linear8 _ = none

-- Step 2: the parameters on the network from those of the audio
unfoldable pub network_params : CodingParams → CodingParams → CodingParams
network_params c1 c2 =
    let precision = c1.cp_precision * coding_lenfactor c1.cp_type / coding_lenfactor c2.cp_type in
    record c2 {
      cp_samp_sec = c1.cp_samp_sec;
      cp_channels = 1;
      cp_precision = precision;
      cp_size_ms = c1.cp_size_ms;
      cp_size_bytes = ms2bytes c1.cp_samp_sec precision 1 c1.cp_size_ms;
    }

-- Step 3: the encoder and the decoder, or `none` for NULL
unfoldable pub coding_functions : CodingType → CodingType → Option (CodingFn × CodingFn)
coding_functions s t = elim (coding_mapping s t) [
  | none ↦ none
  | some encode ↦ elim (coding_mapping t s) [ none ↦ none | some decode ↦ some (encode, decode) ]
]

-- The result, and both parameters as they are left
unfoldable pub coding_init :
    CodingParams → CodingParams → Option (CodingFn × CodingFn) × CodingParams × CodingParams
coding_init c1 c2 =
    let from = coding_sanity c1 in
    let to = network_params from c2 in (coding_functions from.cp_type to.cp_type, from, to)

-- Whether a type is the linear one of 8 bits
abbrev pub is_linear8 : CodingType → Bool
is_linear8 linear8 = true
is_linear8 _ = false

-- There is a way from a type to another exactly where there is one back: where both or neither are
-- linear of 8 bits.
mapping-none :
    (s t : CodingType)
    → ((coding_mapping s t ≡ none) × (is_linear8 s ≢ is_linear8 t))
      ⊎ ((fn : CodingFn) × (coding_mapping s t ≡ some fn) × (is_linear8 s ≡ is_linear8 t))
unfolding coding_mapping
mapping-none linear16 linear16 = inr (coding_null, refl, refl)
mapping-none linear16 ulaw = inr (coding_l16_2ulaw, refl, refl)
mapping-none linear16 alaw = inr (coding_l16_2alaw, refl, refl)
mapping-none linear16 linear8 = inl (refl, λ h. cc)
mapping-none ulaw linear16 = inr (coding_ulaw2_l16, refl, refl)
mapping-none ulaw ulaw = inr (coding_null, refl, refl)
mapping-none ulaw alaw = inr (coding_ulaw2alaw, refl, refl)
mapping-none ulaw linear8 = inl (refl, λ h. cc)
mapping-none alaw linear16 = inr (coding_alaw2_l16, refl, refl)
mapping-none alaw ulaw = inr (coding_alaw2ulaw, refl, refl)
mapping-none alaw alaw = inr (coding_null, refl, refl)
mapping-none alaw linear8 = inl (refl, λ h. cc)
mapping-none linear8 linear16 = inl (refl, λ h. cc)
mapping-none linear8 ulaw = inl (refl, λ h. cc)
mapping-none linear8 alaw = inl (refl, λ h. cc)
mapping-none linear8 linear8 = inr (coding_null, refl, refl)

sanity-type : (cp : CodingParams) → (coding_sanity cp).cp_type ≡ cp.cp_type
unfolding coding_sanity
sanity-type cp = ground arith

coding_functions_iff :
    (s t : CodingType)
    → ((is_linear8 s ≡ is_linear8 t)
        × (encode decode : CodingFn) × (coding_functions s t ≡ some (encode, decode))
        × (coding_mapping s t ≡ some encode)
        × (coding_mapping t s ≡ some decode))
      ⊎ ((is_linear8 s ≢ is_linear8 t) × (coding_functions s t ≡ none))
unfolding coding_functions
coding_functions_iff s t = elim (mapping-none s t) [
  | inl (e, ne) ↦ inr (ne, rw (coding_functions, e) refl)
  | inr (encode, e, same) ↦ elim (mapping-none t s) [
    | inl (_, ne) ↦ absurd (ne (sym same))
    | inr (decode, d, _) ↦ inl (same, encode, decode, rw (coding_functions, e, d) refl, e, d)
  ]
]

-- Setting a coding up succeeds exactly where both types or neither of them are linear of 8 bits, and
-- it then has an encoder and a decoder that the matrix holds for the two ways.
pub coding_init_iff :
    (c1 c2 : CodingParams)
    → ((is_linear8 c1.cp_type ≡ is_linear8 c2.cp_type)
        × (encode decode : CodingFn) × ((coding_init c1 c2).0 ≡ some (encode, decode))
        × (coding_mapping c1.cp_type c2.cp_type ≡ some encode)
        × (coding_mapping c2.cp_type c1.cp_type ≡ some decode))
      ⊎ ((is_linear8 c1.cp_type ≢ is_linear8 c2.cp_type) × ((coding_init c1 c2).0 ≡ none))
unfolding coding_init network_params
coding_init_iff c1 c2 = rw (sanity-type c1) (coding_functions_iff c1.cp_type c2.cp_type)

factor-cases : (t : CodingType) → (coding_lenfactor t ≡ 1) ⊎ (coding_lenfactor t ≡ 2)
unfolding coding_lenfactor
factor-cases t = ground arith

bytes-of :
    (samp ms k : ℕ)
    → samp * ms ≡ k * 1000
    → k < 2 ^ 17
    → (ms2bytes samp 16 1 ms ≡ 2 * k) × (ms2bytes samp 8 1 ms ≡ k)
unfolding ms2bytes
bytes-of samp ms k whole small =
    let sixteen : samp * 16 * 1 * ms ≡ 16 * (samp * ms) = omega arith in
    let eight : samp * 8 * 1 * ms ≡ 8 * (samp * ms) = omega arith in
    (omega (arith, sixteen, whole), omega (arith, eight, whole))

sanity-precision :
    (cp : CodingParams)
    → cp.cp_channels ≡ 1
    → let from = coding_sanity cp in
      (from.cp_samp_sec ≡ cp.cp_samp_sec)
      × (from.cp_size_ms ≡ cp.cp_size_ms)
      × (from.cp_size_bytes ≡ ms2bytes cp.cp_samp_sec from.cp_precision 1 cp.cp_size_ms)
      × (((from.cp_precision ≡ 16) × (coding_lenfactor from.cp_type ≡ 1))
          ⊎ ((from.cp_precision ≡ 8) × (coding_lenfactor from.cp_type ≡ 2)))
unfolding coding_sanity coding_lenfactor
sanity-precision cp mono = ground arith

-- On one channel, for packets of a whole number of milliseconds' samples and no product that wraps,
-- the length that the coding gives a packet of audio is the length that the network's parameters say.
coding_init-size :
    (c1 c2 : CodingParams) (k : ℕ)
    → c1.cp_channels ≡ 1
    → c1.cp_samp_sec * c1.cp_size_ms ≡ k * 1000
    → k < 2 ^ 17
    → let (_, from, to) = coding_init c1 c2 in
      coding_transformlen_generic from to from.cp_size_bytes ≡ to.cp_size_bytes
unfolding coding_init network_params coding_transformlen_generic
coding_init-size c1 c2 k mono whole small =
    let (samp, ms, size, precision) = sanity-precision c1 mono in
    let (sixteen, eight) = bytes-of c1.cp_samp_sec c1.cp_size_ms k whole small in
    elim precision [
      | inl (p, f) ↦ elim (factor-cases c2.cp_type) [
        | inl g ↦ rw (size, samp, ms, p, f, g) (omega (arith, sixteen, eight))
        | inr g ↦ rw (size, samp, ms, p, f, g) (omega (arith, sixteen, eight))
      ]
      | inr (p, f) ↦ elim (factor-cases c2.cp_type) [
        | inl g ↦ rw (size, samp, ms, p, f, g) (omega (arith, sixteen, eight))
        | inr g ↦ rw (size, samp, ms, p, f, g) (omega (arith, sixteen, eight))
      ]
    ]
