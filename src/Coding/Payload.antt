-- ===== src/Coding/Payload.antt =====
-- `coding2rtp` and `rtp2coding` of coding/sphone_coding.c.
use sphone.Prelude.{ℕ, ◌==◌, ◌≡◌, ◌↔◌, if◌then◌else◌, Option, none, some, arith}

-- `enum coding_type` of coding/sphone_coding.h
pub data CodingType : Type 0 where
  linear16 ulaw alaw linear8 : CodingType

-- RTP_PT_PCMU, RTP_PT_PCMA, RTP_PT_L16 and RTP_PT_DYNAMIC of include/sphone_rtp.h
unfoldable pub coding2rtp : CodingType → ℕ
coding2rtp linear8 = 101
coding2rtp linear16 = 11
coding2rtp alaw = 8
coding2rtp ulaw = 0

-- `none` is -1.
unfoldable pub rtp2coding : ℕ → Option CodingType
rtp2coding pt =
    if pt == 101
    then some linear8
    else (if pt == 11
        then some linear16
        else (if pt == 8 then some alaw else (if pt == 0 then some ulaw else none)))

-- The payload types and the codings determine each other: every coding is found again from its
-- payload type, and no other payload type is taken for a coding.
rtp2coding_iff : (pt : ℕ) (t : CodingType) → (rtp2coding pt ≡ some t) ↔ (pt ≡ coding2rtp t)
unfolding rtp2coding coding2rtp
rtp2coding_iff pt linear16 = ground arith
rtp2coding_iff pt _ = ground arith
