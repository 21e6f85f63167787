-- ===== src/Rtp/Tests.antt =====
-- Examples of the RTP header.
use sphone.Prelude.{ℕ, ◌≡◌, refl, some, List, [], ◌∷◌, ◌++◌, arith}
use sphone.Prelude.Int.{pos}
use sphone.TimeVal.{TimeVal}
use sphone.Wire.{put16, put32, get16, get32}
use sphone.Rtp.Header.{RtpHeader, marshal_rtp_hdr, unmarshal_rtp_hdr}
use sphone.Rtp.RoundTrip.{Fits, unmarshal-marshal, marshal-unmarshal}

abbrev header : RtpHeader
header = record { flags = 0x8065; seq = 258; ts = record { sec = 3; frac = 4 }; ssrc = 0x01020304 }

-- The header on the wire
abbrev wire : List ℕ
wire = 128 ∷ 101 ∷ 1 ∷ 2 ∷ 0 ∷ 3 ∷ 0 ∷ 4 ∷ 1 ∷ 2 ∷ 3 ∷ 4 ∷ []

abbrev now : TimeVal
now = record { tv_sec = pos 1000000010; tv_usec = pos 0 }

marshal_example : marshal_rtp_hdr header ≡ wire
unfolding marshal_rtp_hdr put16 put32
marshal_example = refl

unmarshal-marshal_example :
    unmarshal_rtp_hdr (marshal_rtp_hdr header ++ 7 ∷ []) ≡ some (header, 7 ∷ [])
unmarshal-marshal_example = unmarshal-marshal header (7 ∷ []) (omega arith)

decoded : unmarshal_rtp_hdr (wire ++ 7 ∷ []) ≡ some (header, 7 ∷ [])
unfolding unmarshal_rtp_hdr get16 get32
decoded = refl

marshal-unmarshal_example : (marshal_rtp_hdr header ++ 7 ∷ [] ≡ wire ++ 7 ∷ []) × Fits header
marshal-unmarshal_example = marshal-unmarshal (wire ++ 7 ∷ []) (omega arith) decoded
