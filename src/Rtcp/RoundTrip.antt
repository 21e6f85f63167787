-- ===== src/Rtcp/RoundTrip.antt =====
-- The wire forms of the RTCP header and of its blocks determine them, and are determined by them.
use mathlib.Core.List.{append_assoc}
use mathlib.Core.Path.{subst}
use sphone.Prelude.{ℕ, ◌<◌, ◌^◌, ◌≡◌, some, List, ◌++◌}
use sphone.Wire.{AreBytes, get16-put16, get32-put32, read32, some-eq}
use sphone.Rtcp.Packets.{
  RtcpCommon, RtcpSi, RtcpRr, encode_rtcp_header, encode_sender_info, encode_report_block,
  decode_rtcp_header, decode_sender_info, decode_report_block,
}

-- Each field fits its C type.
pub record CommonFits (o : RtcpCommon) : Type 0 where
  pub flags : o.flags < 2 ^ 16
  pub length : o.length < 2 ^ 16
  pub ssrc : o.ssrc < 2 ^ 32

pub record SiFits (o : RtcpSi) : Type 0 where
  pub ntp_sec : o.ntp_sec < 2 ^ 32
  pub ntp_frac : o.ntp_frac < 2 ^ 32
  pub rtp_ts : o.rtp_ts < 2 ^ 32
  pub psent : o.psent < 2 ^ 32
  pub osent : o.osent < 2 ^ 32

pub record RrFits (o : RtcpRr) : Type 0 where
  pub ssrc : o.ssrc < 2 ^ 32
  pub lost : o.lost < 2 ^ 32
  pub last_seq : o.last_seq < 2 ^ 32
  pub jitter : o.jitter < 2 ^ 32
  pub lsr : o.lsr < 2 ^ 32
  pub dlsr : o.dlsr < 2 ^ 32

-- Encoding a header that fits its C types and decoding it again, with any bytes behind it, gives the
-- header and leaves those bytes.
pub decode-encode_header :
    (o : RtcpCommon) (rest : List ℕ)
    → CommonFits o
    → decode_rtcp_header (encode_rtcp_header o ++ rest) ≡ some (o, rest)
unfolding encode_rtcp_header decode_rtcp_header
decode-encode_header o rest f = simp append_assoc (
    rw (
      get16-put16 o.flags _ f.flags,
      get16-put16 o.length _ f.length,
      get32-put32 o.ssrc rest f.ssrc,
    ))

-- The same holds of the sender's information.
pub decode-encode_sender_info :
    (o : RtcpSi) (rest : List ℕ)
    → SiFits o
    → decode_sender_info (encode_sender_info o ++ rest) ≡ some (o, rest)
unfolding encode_sender_info decode_sender_info
decode-encode_sender_info o rest f = simp append_assoc (
    rw (
      get32-put32 o.ntp_sec _ f.ntp_sec,
      get32-put32 o.ntp_frac _ f.ntp_frac,
      get32-put32 o.rtp_ts _ f.rtp_ts,
      get32-put32 o.psent _ f.psent,
      get32-put32 o.osent rest f.osent,
    ))

-- The same holds of a report block.
pub decode-encode_report_block :
    (o : RtcpRr) (rest : List ℕ)
    → RrFits o
    → decode_report_block (encode_report_block o ++ rest) ≡ some (o, rest)
unfolding encode_report_block decode_report_block
decode-encode_report_block o rest f = simp append_assoc (
    rw (
      get32-put32 o.ssrc _ f.ssrc,
      get32-put32 o.lost _ f.lost,
      get32-put32 o.last_seq _ f.last_seq,
      get32-put32 o.jitter _ f.jitter,
      get32-put32 o.lsr _ f.lsr,
      get32-put32 o.dlsr rest f.dlsr,
    ))

-- Decoding a report block loses nothing of the bytes that it reads: where it succeeds on a buffer of
-- bytes, the block fits its C types and encoding it gives those bytes back.
encode-decode_report_block :
    (bs : List ℕ) {o : RtcpRr} {rest : List ℕ}
    → AreBytes bs
    → decode_report_block bs ≡ some (o, rest)
    → (encode_report_block o ++ rest ≡ bs) × RrFits o
unfolding encode_report_block decode_report_block
encode-decode_report_block bs ok e = read32 _ bs ok e λ ssrc p1 e1 f1 ok1 k1.
    read32 _ p1 ok1 k1 λ lost p2 e2 f2 ok2 k2. read32 _ p2 ok2 k2 λ last_seq p3 e3 f3 ok3 k3.
      read32 _ p3 ok3 k3 λ jitter p4 e4 f4 ok4 k4. read32 _ p4 ok4 k4 λ lsr p5 e5 f5 ok5 k5.
        read32 _ p5 ok5 k5 λ dlsr p6 e6 f6 ok6 k6.
          subst (λ (x : RtcpRr × List ℕ). (encode_report_block x.0 ++ x.1 ≡ bs) × RrFits x.0)
            (some-eq k6)
            (
              simp append_assoc (rw (e6, e5, e4, e3, e2) e1),
              record { ssrc = f1; lost = f2; last_seq = f3; jitter = f4; lsr = f5; dlsr = f6 },
            )
