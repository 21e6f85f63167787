-- ===== src/Coding/Convert.antt =====
-- The conversion loops of coding/sphone_coding.c, with the G.711 functions as parameters. A sample of 16 bits lies in
-- memory with its low byte first, as on the machines that the program is built for.
use sphone.Prelude.{
  ℕ, zero, suc, ◌+◌, ◌*◌, ◌/◌, ◌<◌, ◌≡◌, refl, ◌∙◌, inl, inr, ltb, lt→ltb, ltb_false→le, ltb→lt,
  Bool-cases, true, false, ◌==◌, if◌then◌else◌, arith,
}
use sphone.Prelude.Words.{u8, u16}
use sphone.Prelude.Memory.{Block, store}
use sphone.Coding.Setup.{
  CodingFn, coding_null, coding_l16_2ulaw, coding_l16_2alaw, coding_ulaw2_l16, coding_ulaw2alaw,
  coding_alaw2_l16, coding_alaw2ulaw,
}

-- The functions of coding/g711.c, on bytes and on samples as bit patterns of 16 bits
pub record G711 : Type 0 where
  pub linear2alaw : ℕ → ℕ
  pub alaw2linear : ℕ → ℕ
  pub linear2ulaw : ℕ → ℕ
  pub ulaw2linear : ℕ → ℕ
  pub alaw2ulaw : ℕ → ℕ
  pub ulaw2alaw : ℕ → ℕ

-- `((uint16_t *)buf)[i]`
unfoldable pub sample : Block → ℕ → ℕ
sample buf i = u8 (buf (2 * i)) + 256 * u8 (buf (2 * i + 1))

unfoldable pub store_sample : Block → ℕ → ℕ → Block
unfolding store
store_sample buf i v = store (store buf (2 * i) (u8 v)) (2 * i + 1) (u16 v / 256)

-- `buf_enc[i] = f(((uint16_t *)buf_dec)[i])` for `i` below the number of rounds
unfoldable pub encode_loop : (ℕ → ℕ) → Block → ℕ → Block → Block
unfolding sample store
encode_loop f from zero to = to
encode_loop f from (suc n) to = store (encode_loop f from n to) n (u8 (f (sample from n)))

-- `((uint16_t *)buf_dec)[i] = f(buf_enc[i])`
unfoldable pub decode_loop : (ℕ → ℕ) → Block → ℕ → Block → Block
unfolding store_sample
decode_loop f from zero to = to
decode_loop f from (suc n) to = store_sample (decode_loop f from n to) n (f (u8 (from n)))

-- `buf2[i] = buf1[i]`
unfoldable pub null_loop : Block → ℕ → Block → Block
unfolding store
null_loop from zero to = to
null_loop from (suc n) to = store (null_loop from n to) n (u8 (from n))

-- A call through `ca_encode` or `ca_decode`: the two buffers, each with its length. The copy goes by the first length,
-- a decoder by the first, which is the encoded one, and an encoder by the second.
unfoldable pub run_coding : G711 → CodingFn → Block → ℕ → Block → ℕ → Block
unfolding encode_loop decode_loop null_loop
run_coding g coding_null from len1 to len2 = null_loop from len1 to
run_coding g coding_l16_2alaw from len1 to len2 = encode_loop g.linear2alaw from len2 to
run_coding g coding_l16_2ulaw from len1 to len2 = encode_loop g.linear2ulaw from len2 to
run_coding g coding_alaw2_l16 from len1 to len2 = decode_loop g.alaw2linear from len1 to
run_coding g coding_ulaw2_l16 from len1 to len2 = decode_loop g.ulaw2linear from len1 to
run_coding g coding_alaw2ulaw from len1 to len2 = encode_loop (λ v. g.alaw2ulaw (u8 v)) from len2 to
run_coding g coding_ulaw2alaw from len1 to len2 = encode_loop (λ v. g.ulaw2alaw (u8 v)) from len2 to

-- What the loops leave at each place
encode_loop-at :
    (f : ℕ → ℕ) (from : Block) (n i : ℕ) (to : Block)
    → encode_loop f from n to i ≡ (if ltb i n then u8 (f (sample from i)) else to i)
unfolding encode_loop
encode_loop-at f from zero i to = ground arith
encode_loop-at f from (suc n) i to = ground (arith, encode_loop-at f from n i to)

low_byte : (from : Block) (i : ℕ) → u8 (sample from i) ≡ u8 (from (2 * i))
unfolding sample
low_byte from i = omega arith

store_sample-same : (buf : Block) (i v : ℕ) → sample (store_sample buf i v) i ≡ u16 v
unfolding sample store_sample store
store_sample-same buf i v =
    let low : (2 * i == 2 * i + 1) ≡ false = ground arith in
    let first : (2 * i == 2 * i) ≡ true = ground arith in
    let second : (2 * i + 1 == 2 * i + 1) ≡ true = ground arith in
    rw (low, first, second) (omega arith)

store_sample-other :
    (buf : Block) (i j v : ℕ) → i < j → sample (store_sample buf j v) i ≡ sample buf i
unfolding sample store_sample store
store_sample-other buf i j v h =
    let a : (2 * i == 2 * j + 1) ≡ false = ground arith in
    let b : (2 * i == 2 * j) ≡ false = ground arith in
    let c : (2 * i + 1 == 2 * j + 1) ≡ false = ground arith in
    let d : (2 * i + 1 == 2 * j) ≡ false = ground arith in rw (a, b, c, d) refl

decode_loop-sample :
    (f : ℕ → ℕ) (from : Block) (n i : ℕ) (to : Block)
    → i < n
    → sample (decode_loop f from n to) i ≡ u16 (f (u8 (from i)))
unfolding decode_loop
decode_loop-sample f from zero i to h = absurd (omega (arith, h))
decode_loop-sample f from (suc n) i to h = elim (Bool-cases (ltb i n)) [
  | inl t ↦
      let before = ltb→lt _ _ t in
      store_sample-other (decode_loop f from n to) i n _ before
      ∙ decode_loop-sample f from n i to before
  | inr last ↦
      let same : i ≡ n = omega (arith, h, ltb_false→le _ _ last) in
      rw same (store_sample-same (decode_loop f from n to) n (f (u8 (from n))))
]

-- Bytes of A-law that are decoded and encoded again are as they were, for a G.711 in which each byte has a sample of
-- its own that is encoded as this byte.
run_coding-alaw_back :
    (g : G711) (from out to : Block) (len_enc len_dec i : ℕ)
    → ((b : ℕ) → b < 256 → g.linear2alaw (u16 (g.alaw2linear b)) ≡ b)
    → i < len_enc
    → let samples = run_coding g coding_alaw2_l16 from len_enc out len_dec in
      run_coding g coding_l16_2alaw samples len_dec to len_enc i ≡ u8 (from i)
unfolding run_coding
run_coding-alaw_back g from out to len_enc len_dec i inverse h =
    let samples = decode_loop g.alaw2linear from len_enc out in
    let inside = lt→ltb _ _ h in
    let byte = inverse (u8 (from i)) (omega arith) in
    encode_loop-at g.linear2alaw samples len_enc i to
    ∙ rw (inside, decode_loop-sample g.alaw2linear from len_enc i out h, byte) (omega arith)

-- The two conversions between A-law and u-law read a byte as if it were a sample of 16 bits: at each place stands what
-- comes of the byte at twice the place, which from the middle of the packet on is behind its end.
run_coding-alaw2ulaw_skips :
    (g : G711) (from to : Block) (len1 len2 i : ℕ)
    → i < len2
    → (run_coding g coding_alaw2ulaw from len1 to len2 i ≡ u8 (g.alaw2ulaw (u8 (from (2 * i)))))
      × (run_coding g coding_ulaw2alaw from len1 to len2 i ≡ u8 (g.ulaw2alaw (u8 (from (2 * i)))))
unfolding run_coding
run_coding-alaw2ulaw_skips g from to len1 len2 i h =
    let inside = lt→ltb _ _ h in
    let low : u8 (sample from i) ≡ u8 (from (2 * i)) = low_byte from i in
    (
      encode_loop-at (λ v. g.alaw2ulaw (u8 v)) from len2 i to ∙ rw (inside, low) refl,
      encode_loop-at (λ v. g.ulaw2alaw (u8 v)) from len2 i to ∙ rw (inside, low) refl,
    )
