-- ===== src/Rtcp/Taken.antt =====
-- How `rtcp_receive` of src/sphone_rtcp_rcv.c takes what src/sphone_rtcp_send.c builds, step by step.
use sphone.Prelude.{
  ℕ, suc, ◌+◌, ◌-◌, ◌/◌, ◌^◌, ◌<◌, ◌≡◌, refl, ◌⊎◌, inl, inr, leb, if◌then◌else◌, some, List, ◌++◌,
  bit_and, arith,
}
use sphone.Prelude.Words.{u16, u32}
use sphone.Prelude.Masks.{bit_and-shift, bit_and-ones}
use sphone.Prelude.Int.{ℤ, pos, negsuc}
use sphone.TimeVal.{TimeVal}
use sphone.Rcv.Receive.{ok}
use sphone.Rtcp.Packets.{
  RtcpSi, RtcpRr, encode_rtcp_header, encode_sender_info, encode_report_block,
}
use sphone.Rtcp.RoundTrip.{
  SiFits, RrFits, decode-encode_header, decode-encode_sender_info, decode-encode_report_block,
}
use sphone.Rtcp.Header.{rtcp_sr, rtcp_rr, rtcp_set_hdr, rtcp_set_hdr-flags}
use sphone.Rtcp.Time.{
  Doubles, bits32, ntp2lsr, tv2ntp_64, timeval2dlsr, rtp_timestamp2ms, calculate_rtt,
}
use sphone.Rtcp.Send.{SendStats, RcvStats, sender_info, report_block}
use sphone.Rtcp.Receive.{
  RtcpSession, Stats, of_sender, of_receiver, rtcp_get_lost_frac, shift_lost, rtcp_receive_rr,
  rtcp_receive_sr, rtcp_by_type, rtcp_receive,
}

-- The byte of the fraction is below 256, so its 256th part is 0.
pub lost_frac-small : (lost : ℕ) → lost < 2 ^ 32 → rtcp_get_lost_frac lost / 256 ≡ 0
unfolding rtcp_get_lost_frac
lost_frac-small lost h = omega (arith, bit_and-shift 24 lost 0xFF, bit_and-ones 8 (lost / 2 ^ 24))

pub shift_lost-byte :
    (lost : ℕ)
    → lost < 2 ^ 32
    → shift_lost lost
      ≡ (if leb 128 (lost / 2 ^ 24) then 2 ^ 32 - 2 ^ 8 + lost / 2 ^ 24 else lost / 2 ^ 24)
unfolding shift_lost
shift_lost-byte lost h = ground arith

module _ (dbl : Doubles) where
  -- The session takes a packet's source: it is the one that it is locked to, or it has none yet.
  abbrev pub Takes : RtcpSession → ℕ → Type 0
  Takes rtp ssrc = (rtp.rtp_ssrc ≡ 0) ⊎ (rtp.rtp_ssrc ≡ ssrc)

  set_hdr-ssrc : (type ssrc : ℕ) → (rtcp_set_hdr 0 type ssrc).ssrc ≡ ssrc
  unfolding rtcp_set_hdr
  set_hdr-ssrc type ssrc = refl

  -- A packet of a type from a source that the session takes goes to the handler of the type.
  pub receive-taken :
      (rtp : RtcpSession) (stats stats' : Stats) (expected type ssrc from : ℕ) (p : List ℕ)
      (now : TimeVal)
      → type < 256
      → ssrc < 2 ^ 32
      → Takes rtp ssrc
      → rtcp_by_type dbl type expected p stats now ≡ some stats'
      → let r =
          rtcp_receive dbl rtp stats expected
            (some (encode_rtcp_header (rtcp_set_hdr 0 type ssrc) ++ p, from))
            now in
        (r.0 ≡ ok) × (r.1.rtp_ssrc ≡ ssrc) × (r.2 ≡ stats')
  unfolding rtcp_receive
  receive-taken rtp stats stats' expected type ssrc from p now ht hs takes e =
      let (_, t, fits) = rtcp_set_hdr-flags 0 type ssrc (omega arith) ht hs in
      let decoded = decode-encode_header (rtcp_set_hdr 0 type ssrc) p fits in
      elim takes [
        | inl fresh ↦
            rw (rtcp_receive, decoded, t, e) (ground (arith, set_hdr-ssrc type ssrc, fresh))
        | inr locked ↦
            rw (rtcp_receive, decoded, t, e) (ground (arith, set_hdr-ssrc type ssrc, locked))
      ]

  -- The receiver's statistics after a sender report
  abbrev pub after_sr : RtcpSi → RcvStats → TimeVal → RcvStats
  after_sr si rrs now = record rrs {
    rrs_timestamp_sr = now;
    rrs_sr_pkts = u32 (suc rrs.rrs_sr_pkts);
    rrs_timestamp_sr_ntp = record {
      sec = u16 (bit_and si.ntp_sec 0xffff);
      frac = u16 (si.ntp_frac / 2 ^ 16);
    };
    rrs_packets_sent2us = si.psent;
    rrs_bytes_sent2us = si.osent;
  }

  pub received-sr :
      (si : RtcpSi) (rrs : RcvStats) (now : TimeVal) (rest : List ℕ)
      → SiFits si
      → rtcp_by_type dbl rtcp_sr rtcp_sr (encode_sender_info si ++ rest) (of_receiver rrs) now
        ≡ some (of_receiver (after_sr si rrs now))
  unfolding rtcp_by_type rtcp_receive_sr
  received-sr si rrs now rest fits = rw (decode-encode_sender_info si rest fits) refl

  pub sender_info-SiFits :
      (now : TimeVal) (samp_sec packets bytes : ℕ)
      → packets < 2 ^ 32
      → bytes < 2 ^ 32
      → SiFits (sender_info dbl now samp_sec packets bytes)
  unfolding sender_info tv2ntp_64
  sender_info-SiFits now samp_sec packets bytes hp hb = record {
    ntp_sec = bits now.tv_sec;
    ntp_frac = omega arith;
    rtp_ts = omega arith;
    psent = hp;
    osent = hb;
  }
    where
      bits : (t : ℤ) → bits32 t < 2 ^ 32
      bits (pos n) = omega arith
      bits (negsuc n) = omega arith

  pub sender_info-fields :
      (now : TimeVal) (samp_sec packets bytes : ℕ)
      → let si = sender_info dbl now samp_sec packets bytes in
        (si.psent ≡ packets)
        × (si.osent ≡ bytes)
        × (si.ntp_sec ≡ (tv2ntp_64 dbl now).sec)
        × (si.ntp_frac ≡ (tv2ntp_64 dbl now).frac)
  unfolding sender_info
  sender_info-fields now samp_sec packets bytes = (refl, refl, refl, refl)

  pub report_block-fields :
      (ssrc : ℕ) (rrs : RcvStats) (jitter last : ℕ) (now : TimeVal) (lost : ℕ)
      → let rr = report_block dbl ssrc rrs jitter last now lost in
        (rr.lost ≡ lost) × (rr.last_seq ≡ last)
  unfolding report_block
  report_block-fields ssrc rrs jitter last now lost = (refl, refl)

  -- The sender's statistics after a receiver report
  abbrev pub after_rr : RtcpRr → SendStats → TimeVal → SendStats
  after_rr rr rss now = record rss {
    rss_rr_pkts = u32 (suc rss.rss_rr_pkts);
    rss_peer_fraction_lost = rtcp_get_lost_frac rr.lost / 256;
    rss_peer_jitter = rtp_timestamp2ms dbl rr.jitter;
    rss_rtt_delay = calculate_rtt dbl rr.lsr rr.dlsr now;
    rss_peer_culm_lost = shift_lost rr.lost;
    rss_peer_last_seq = rr.last_seq;
  }

  pub received-rr :
      (rr : RtcpRr) (rss : SendStats) (now : TimeVal) (rest : List ℕ)
      → RrFits rr
      → rtcp_by_type dbl rtcp_rr rtcp_rr (encode_report_block rr ++ rest) (of_sender rss) now
        ≡ some (of_sender (after_rr rr rss now))
  unfolding rtcp_by_type rtcp_receive_rr
  received-rr rr rss now rest fits = rw (decode-encode_report_block rr rest fits) refl

  pub report_block-RrFits :
      (ssrc : ℕ) (rrs : RcvStats) (jitter last : ℕ) (now : TimeVal) (lost : ℕ)
      → ssrc < 2 ^ 32
      → jitter < 2 ^ 32
      → last < 2 ^ 32
      → lost < 2 ^ 32
      → RrFits (report_block dbl ssrc rrs jitter last now lost)
  unfolding report_block ntp2lsr timeval2dlsr
  report_block-RrFits ssrc rrs jitter last now lost hs hj hl hx = record {
    ssrc = hs;
    lost = hx;
    last_seq = hl;
    jitter = hj;
    lsr = omega arith;
    dlsr = omega arith;
  }
