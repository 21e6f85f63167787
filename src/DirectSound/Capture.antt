-- ===== src/DirectSound/Capture.antt =====
-- How many packets audio/sphone_audio_directsound_record.c takes from the capture buffer.
use native.Mathlib.Nat.{div-mul-le_self, lt-div-mul-add, mod-eq_of_lt, mod-eq-sub-mod}
use sphone.Prelude.{
  ltb→lt, ℕ, ◌+◌, ◌-◌, ◌*◌, ◌/◌, ◌%◌, ◌^◌, ◌<◌, ◌≤◌, ◌≡◌, ◌⊎◌, inl, inr, true, false, ltb, leb,
  if◌then◌else◌, Bool-cases, leb→le, leb_false→lt, refl, ◌∙◌, arith,
}
use sphone.Prelude.Words.{u32, sub32, is_negative}
use sphone.DirectSound.Record.{read_position, packets_ready}

-- The way forward from one position in a circular buffer to another
abbrev pub ahead : ℕ → ℕ → ℕ → ℕ
ahead buflen r pos = if leb r pos then pos - r else pos + buflen - r

-- How many packets are taken from a position up to another: none where the packet behind the next one, round the
-- buffer, starts at or past that, and otherwise all that lie whole in front of it
abbrev pub IsTaken : ℕ → ℕ → ℕ → ℕ → ℕ → Type 0
IsTaken buflen len r pos n =
    ((pos ≤ (r + len) % buflen) × (n ≡ 0))
    ⊎ (((r + len) % buflen < pos)
        × (n * len ≤ ahead buflen r pos)
        × (ahead buflen r pos < n * len + len))

-- So many bytes behind the cursor in a circular buffer, and for samples of more than 8 bits at an even byte
abbrev pub behind_cursor : ℕ → ℕ → ℕ → ℕ → ℕ
behind_cursor precision offset buflen cursor =
    let pos = (cursor + buflen - offset) % buflen in if ltb 8 precision then pos - pos % 2 else pos

round_once :
    (n buflen : ℕ) → n < buflen + buflen → n % buflen ≡ (if ltb n buflen then n else n - buflen)
round_once n buflen h = elim (Bool-cases (ltb n buflen)) [
  | inl t ↦ rw t (mod-eq_of_lt (ltb→lt _ _ t))
  | inr f ↦
      let le : buflen ≤ n = ground (arith, f) in
      rw f (mod-eq-sub-mod le ∙ mod-eq_of_lt (omega (arith, h, le)))
]

-- The position that is safe is the capture's offset behind the cursor, inside the buffer.
pub read_position_lem :
    (precision offset buflen cursor : ℕ)
    → cursor < buflen
    → offset ≤ buflen
    → buflen < 2 ^ 31
    → let pos = read_position precision offset buflen cursor in
      (pos ≡ behind_cursor precision offset buflen cursor) × (pos < buflen)
unfolding read_position
read_position_lem precision offset buflen cursor inside small h =
    let round = round_once (cursor + buflen - offset) buflen (omega (arith, inside)) in
    rw round (ground arith)

module _ (buflen len r pos : ℕ) (some_bytes : 0 < len) (fits : len ≤ buflen)
    (small : buflen < 2 ^ 31) (r_inside : r < buflen) (pos_inside : pos < buflen) where
  -- The packets that are ready
  packets_ready_lem :
      packets_ready buflen len r pos
      ≡ (if ltb ((r + len) % buflen) pos then ahead buflen r pos / len else 0)
  unfolding packets_ready
  packets_ready_lem =
      let next : u32 (r + len) ≡ r + len = omega arith in
      elim (Bool-cases (leb r pos)) [
        | inl t ↦
            let front : sub32 pos r ≡ pos - r = omega (arith, leb→le _ _ t) in
            let forward : is_negative (pos - r) ≡ false = ground arith in
            rw (next, front, forward, t) refl
        | inr f ↦
            let back : is_negative (sub32 pos r) ≡ true = ground (arith, leb_false→lt _ _ f) in
            let round : u32 (sub32 pos r + buflen) ≡ pos + buflen - r =
              omega (arith, leb_false→lt _ _ f) in
            rw (next, back, round, f) refl
      ]

  pub packets_ready-IsTaken : IsTaken buflen len r pos (packets_ready buflen len r pos)
  packets_ready-IsTaken =
      let most = div-mul-le_self (ahead buflen r pos) len in
      let all = lt-div-mul-add {a = ahead buflen r pos} some_bytes in
      rw packets_ready_lem (elim (Bool-cases (ltb ((r + len) % buflen) pos)) [
        | inl t ↦ rw t (inr (ltb→lt _ _ t, most, all))
        | inr f ↦ rw f (inl (ground (arith, f), refl))
      ])

  -- Where the capture has gone round the end of the buffer and the next packet ends before that, nothing is taken,
  -- though a packet is there.
  pub packets_ready_stalls :
      pos < r → r + len < buflen → (packets_ready buflen len r pos ≡ 0) × (len ≤ ahead buflen r pos)
  packets_ready_stalls wrapped before_end =
      let next : (r + len) % buflen ≡ r + len = mod-eq_of_lt before_end in
      let waits : ltb (r + len) pos ≡ false = ground arith in
      let round : leb r pos ≡ false = ground arith in
      (packets_ready_lem ∙ rw (next, waits) refl, rw round (omega arith))
