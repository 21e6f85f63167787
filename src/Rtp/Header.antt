-- ===== src/Rtp/Header.antt =====
-- The header's type (include/sphone_rtp.h), and `marshal_rtp_hdr` and `unmarshal_rtp_hdr` of
-- src/sphone_rtp.c. The pointer that they return is the list that is left.
use sphone.Prelude.{ℕ, Option, some, List, ◌++◌}
use sphone.Wire.{◌>>=◌, put16, put32, get16, get32}

-- `struct NTP_timestamp`
pub record NtpTimestamp : Type 0 where
  pub sec : ℕ
  pub frac : ℕ

-- `struct rtp_header`
pub record RtpHeader : Type 0 where
  pub flags : ℕ
  pub seq : ℕ
  pub ts : NtpTimestamp
  pub ssrc : ℕ

-- `sizeof(rtp_header)`: three 16-bit pairs and a 32-bit word, with no padding.
abbrev pub sizeof_rtp_header : ℕ
sizeof_rtp_header = 12

unfoldable pub marshal_rtp_hdr : RtpHeader → List ℕ
marshal_rtp_hdr o =
    put16 o.flags ++ (put16 o.seq ++ (put16 o.ts.sec ++ (put16 o.ts.frac ++ put32 o.ssrc)))

unfoldable pub unmarshal_rtp_hdr : List ℕ → Option (RtpHeader × List ℕ)
unmarshal_rtp_hdr ptr = do
  (flags, p1) ← get16 ptr
  (seq, p2) ← get16 p1
  (sec, p3) ← get16 p2
  (frac, p4) ← get16 p3
  (ssrc, p5) ← get32 p4
  some
      (record { flags = flags; seq = seq; ts = record { sec = sec; frac = frac }; ssrc = ssrc }, p5)
