-- ===== src/Rtcp/Packets.antt =====
-- The types of include/sphone_rtcp.h, and their encoders and decoders of src/sphone_rtcp.c. The pointer
-- that they return is the list that is left. `lost` is the bit pattern of an `int32_t`.
use sphone.Prelude.{ℕ, Option, some, List, ◌++◌}
use sphone.Wire.{◌>>=◌, put16, put32, get16, get32}

-- `rtcp_common_t`
pub record RtcpCommon : Type 0 where
  pub flags : ℕ
  pub length : ℕ
  pub ssrc : ℕ

-- `rtcp_si_t`, without its report blocks, of which none is ever sent
pub record RtcpSi : Type 0 where
  pub ntp_sec : ℕ
  pub ntp_frac : ℕ
  pub rtp_ts : ℕ
  pub psent : ℕ
  pub osent : ℕ

-- `rtcp_rr_t`
pub record RtcpRr : Type 0 where
  pub ssrc : ℕ
  pub lost : ℕ
  pub last_seq : ℕ
  pub jitter : ℕ
  pub lsr : ℕ
  pub dlsr : ℕ

unfoldable pub encode_rtcp_header : RtcpCommon → List ℕ
encode_rtcp_header o = put16 o.flags ++ (put16 o.length ++ put32 o.ssrc)

unfoldable pub encode_sender_info : RtcpSi → List ℕ
encode_sender_info o =
    put32 o.ntp_sec ++ (put32 o.ntp_frac ++ (put32 o.rtp_ts ++ (put32 o.psent ++ put32 o.osent)))

unfoldable pub encode_report_block : RtcpRr → List ℕ
encode_report_block o =
    put32 o.ssrc
    ++ (put32 o.lost ++ (put32 o.last_seq ++ (put32 o.jitter ++ (put32 o.lsr ++ put32 o.dlsr))))

unfoldable pub decode_rtcp_header : List ℕ → Option (RtcpCommon × List ℕ)
decode_rtcp_header ptr = do
  (flags, p1) ← get16 ptr
  (length, p2) ← get16 p1
  (ssrc, p3) ← get32 p2
  some (record { flags = flags; length = length; ssrc = ssrc }, p3)

unfoldable pub decode_sender_info : List ℕ → Option (RtcpSi × List ℕ)
decode_sender_info ptr = do
  (ntp_sec, p1) ← get32 ptr
  (ntp_frac, p2) ← get32 p1
  (rtp_ts, p3) ← get32 p2
  (psent, p4) ← get32 p3
  (osent, p5) ← get32 p4
  some (
    record {
      ntp_sec = ntp_sec;
      ntp_frac = ntp_frac;
      rtp_ts = rtp_ts;
      psent = psent;
      osent = osent;
    },
    p5,
  )

unfoldable pub decode_report_block : List ℕ → Option (RtcpRr × List ℕ)
decode_report_block ptr = do
  (ssrc, p1) ← get32 ptr
  (lost, p2) ← get32 p1
  (last_seq, p3) ← get32 p2
  (jitter, p4) ← get32 p3
  (lsr, p5) ← get32 p4
  (dlsr, p6) ← get32 p5
  some (
    record {
      ssrc = ssrc;
      lost = lost;
      last_seq = last_seq;
      jitter = jitter;
      lsr = lsr;
      dlsr = dlsr;
    },
    p6,
  )
