-- ===== src/Rtp/Session.antt =====
-- `rtp_set_hdr`, `rtp_check_hdr` and `rtp_init` of src/sphone_rtp.c.
use sphone.Prelude.{
  ℕ, ◌%◌, ◌^◌, ◌<◌, ◌≡◌, refl, ◌↔◌, Bool, true, false, not, ◌==◌, if◌then◌else◌, Option, none, some,
  length, List, ◌++◌, ◌/◌, arith,
}
use sphone.TimeVal.{TimeVal}
use sphone.Rtp.Header.{RtpHeader, sizeof_rtp_header, marshal_rtp_hdr, unmarshal_rtp_hdr}
use sphone.Rtp.RoundTrip.{unmarshal-marshal, length-marshal}
use sphone.Rtp.Flags.{rtp_version, rtp_pt_dynamic, rtp_get_v, rtp_get_pt, rtp_set_v, rtp_set_pt}
use sphone.Rtp.Flags.Fields.{get_v, get-set_v, get-set_pt}
use sphone.Rtp.Time.{tv2ntp}

-- `seq` is left as it was. `now` is the clock, read where `T0` is NULL.
unfoldable pub rtp_set_hdr : TimeVal → RtpHeader → Option TimeVal → ℕ → RtpHeader
rtp_set_hdr now hdr t0 ssrc = record hdr {
  flags = rtp_set_pt (rtp_set_v 0 rtp_version) rtp_pt_dynamic;
  ts = tv2ntp (elim t0 [ some t ↦ t | none ↦ now ]);
  ssrc = ssrc;
}

-- 0 is `true`, -1 is `false`.
unfoldable pub rtp_check_hdr : RtpHeader → Bool
rtp_check_hdr hdr = if not (rtp_get_v hdr.flags == rtp_version) then false else true

-- `rtp_init`: a fresh `ssrc` where none is set, and the test of the encoder on whatever the
-- uninitialised header `hdr` holds. `random` is `random_ssrc(0)`; `none` is -1.
unfoldable pub rtp_init : ℕ → RtpHeader → ℕ → Option ℕ
rtp_init random hdr ssrc =
    let ssrc' = if ssrc == 0 then random else ssrc in
    if not (sizeof_rtp_header == length (marshal_rtp_hdr hdr)) then none else some ssrc'

-- The header that a sender puts on the wire: `record_and_send` of src/sphone_send.c sets the
-- session's payload type and the sequence number in what `rtp_set_hdr` gives.
unfoldable pub outgoing_hdr : TimeVal → RtpHeader → ℕ → ℕ → ℕ → RtpHeader
unfolding rtp_set_hdr
outgoing_hdr now hdr ssrc payload seq =
    let filled = rtp_set_hdr now hdr none ssrc in
    record filled { flags = rtp_set_pt filled.flags payload; seq = seq % 0x10000 }

-- `rtp_check_hdr` accepts a header exactly when the version in its top two bits is 2. It puts no
-- condition on the payload type.
rtp_check_hdr_iff :
    (h : RtpHeader) → (rtp_check_hdr h ≡ true) ↔ (h.flags / 2 ^ 14 % 4 ≡ rtp_version)
unfolding rtp_check_hdr
rtp_check_hdr_iff h = ground (arith, get_v h.flags)

-- A header that the sender builds arrives as it was sent, whatever follows it in the packet; the
-- receiver's check accepts it, and reads from it the session's payload type.
outgoing_hdr-arrives :
    (now : TimeVal) (hdr : RtpHeader) (ssrc payload seq : ℕ) (rest : List ℕ)
    → ssrc < 2 ^ 32
    → payload < 128
    → let sent = outgoing_hdr now hdr ssrc payload seq in
      (unmarshal_rtp_hdr (marshal_rtp_hdr sent ++ rest) ≡ some (sent, rest))
      × (rtp_check_hdr sent ≡ true)
      × (rtp_get_pt sent.flags ≡ payload)
unfolding outgoing_hdr tv2ntp
outgoing_hdr-arrives now hdr ssrc payload seq rest hs hp =
    let v = get-set_v 0 rtp_version in
    let base = get-set_pt (rtp_set_v 0 rtp_version) rtp_pt_dynamic v.6 in
    let flags = get-set_pt (rtp_set_pt (rtp_set_v 0 rtp_version) rtp_pt_dynamic) payload base.6 in
    (
      unmarshal-marshal _ rest (record {
        flags = flags.6;
        seq = omega arith;
        sec = omega arith;
        frac = omega arith;
        ssrc = hs;
      }),
      (rtp_check_hdr_iff _).1 (omega (arith, flags.1, base.1, v.0, get_v _)),
      omega (arith, flags.0),
    )

-- The encoder's test never fails, so `rtp_init` always succeeds: it keeps a source identifier that
-- is set, and takes the random one where it is 0.
pub rtp_init_lem :
    (random : ℕ) (hdr : RtpHeader) (ssrc : ℕ)
    → rtp_init random hdr ssrc ≡ some (if ssrc == 0 then random else ssrc)
unfolding rtp_init
rtp_init_lem random hdr ssrc = rw ((length-marshal hdr).0) refl
