-- ===== src/Rtp/RoundTrip.antt =====
-- The wire form of the RTP header and the header determine each other.
use sphone.Prelude.{ℕ, ◌<◌, ◌^◌, ◌≡◌, some, List, ◌++◌, length, arith}
use mathlib.Core.List.{append_assoc}
use mathlib.Core.Path.{subst}
use sphone.Wire.{AreBytes, put16, put32, get16-put16, get32-put32, read16, read32, some-eq}
use sphone.Rtp.Header.{RtpHeader, sizeof_rtp_header, marshal_rtp_hdr, unmarshal_rtp_hdr}

-- Each field fits its C type.
pub record Fits (h : RtpHeader) : Type 0 where
  pub flags : h.flags < 2 ^ 16
  pub seq : h.seq < 2 ^ 16
  pub sec : h.ts.sec < 2 ^ 16
  pub frac : h.ts.frac < 2 ^ 16
  pub ssrc : h.ssrc < 2 ^ 32

-- Encoding a header that fits its C types and decoding it again, with any bytes behind it, gives
-- the header and leaves those bytes.
pub unmarshal-marshal :
    (h : RtpHeader) (rest : List ℕ)
    → Fits h
    → unmarshal_rtp_hdr (marshal_rtp_hdr h ++ rest) ≡ some (h, rest)
unfolding marshal_rtp_hdr unmarshal_rtp_hdr
unmarshal-marshal h rest f = simp append_assoc (
    rw (
      get16-put16 h.flags _ f.flags,
      get16-put16 h.seq _ f.seq,
      get16-put16 h.ts.sec _ f.sec,
      get16-put16 h.ts.frac _ f.frac,
      get32-put32 h.ssrc rest f.ssrc,
    ))

-- Decoding reads the first twelve bytes only and loses nothing of them: where it succeeds on a
-- buffer of bytes, the header fits its C types and encoding it gives back the bytes that were read.
pub marshal-unmarshal :
    (bs : List ℕ) {h : RtpHeader} {rest : List ℕ}
    → AreBytes bs
    → unmarshal_rtp_hdr bs ≡ some (h, rest)
    → (marshal_rtp_hdr h ++ rest ≡ bs) × Fits h
unfolding marshal_rtp_hdr unmarshal_rtp_hdr
marshal-unmarshal bs ok e = read16 _ bs ok e λ flags p1 e1 f1 ok1 k1.
    read16 _ p1 ok1 k1 λ seq p2 e2 f2 ok2 k2. read16 _ p2 ok2 k2 λ sec p3 e3 f3 ok3 k3.
      read16 _ p3 ok3 k3 λ frac p4 e4 f4 ok4 k4. read32 _ p4 ok4 k4 λ ssrc p5 e5 f5 ok5 k5.
        subst (λ (x : RtpHeader × List ℕ). (marshal_rtp_hdr x.0 ++ x.1 ≡ bs) × Fits x.0)
          (some-eq k5)
          (
            simp append_assoc (rw (e5, e4, e3, e2) e1),
            record { flags = f1; seq = f2; sec = f3; frac = f4; ssrc = f5 },
          )

-- The encoding has exactly `sizeof(rtp_header)` bytes, as `rtp_init` checks at run time, and each
-- of them is a byte.
pub length-marshal :
    (h : RtpHeader)
    → (length (marshal_rtp_hdr h) ≡ sizeof_rtp_header) × AreBytes (marshal_rtp_hdr h)
unfolding marshal_rtp_hdr put16 put32
length-marshal h = omega arith
