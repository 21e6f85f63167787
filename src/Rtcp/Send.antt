-- ===== src/Rtcp/Send.antt =====
-- `rtcp_send_sr`, `rtcp_send_rr` and `rtcp_send_bye` of src/sphone_rtcp_send.c. The network and the clock
-- are parameters; the clock does not give times below 0. Allocations succeed.
use sphone.Prelude.{ℕ, suc, ◌+◌, ◌*◌, ◌/◌, Bool, true, false, ◌==◌, if◌then◌else◌, List, ◌++◌}
use sphone.Prelude.Words.{u32}
use sphone.Prelude.Int.{pos_part}
use sphone.TimeVal.{TimeVal, timevalsub}
use sphone.Rtp.Header.{NtpTimestamp}
use sphone.Rtcp.Packets.{
  RtcpSi, RtcpRr, encode_rtcp_header, encode_sender_info, encode_report_block,
}
use sphone.Rtcp.Header.{rtcp_sr, rtcp_rr, rtcp_bye, rtcp_set_hdr}
use sphone.Rtcp.Time.{Doubles, tv2ntp_64, timeval2dlsr, ntp2lsr}

-- `struct rtcp_send_stats` of include/sphone_rtcp_send.h
pub record SendStats : Type 0 where
  pub rss_rr_pkts : ℕ
  pub rss_sr_pkts : ℕ
  pub rss_peer_fraction_lost : ℕ
  pub rss_peer_jitter : ℕ
  pub rss_rtt_delay : ℕ
  pub rss_peer_culm_lost : ℕ
  pub rss_peer_last_seq : ℕ

-- `struct rtcp_rcv_stats` of include/sphone_rtcp_rcv.h, without the two counters of RTP packets
pub record RcvStats : Type 0 where
  pub rrs_rr_pkts : ℕ
  pub rrs_sr_pkts : ℕ
  pub rrs_timestamp_sr : TimeVal
  pub rrs_timestamp_sr_ntp : NtpTimestamp
  pub rrs_bytes_sent2us : ℕ
  pub rrs_packets_sent2us : ℕ
  pub rrs_prev_pkt_lost : ℕ
  pub rrs_prev_pkt_seq : ℕ

-- The clock, `sendto` (`false` is a negative result), and `sphone_error`
pub record Net (W : Type 0) : Type 0 where
  pub gettimestamp : W → TimeVal × W
  pub sendto : List ℕ → W → Bool × W
  pub sphone_error : W → W

module _ (dbl : Doubles) where
  -- What a sender report holds at the time `now`
  unfoldable pub sender_info : TimeVal → ℕ → ℕ → ℕ → RtcpSi
  sender_info now samp_sec packets_sent bytes_sent =
      let ntp = tv2ntp_64 dbl now in
      record {
        ntp_sec = ntp.sec;
        ntp_frac = ntp.frac;
        rtp_ts = u32 (samp_sec * pos_part now.tv_sec + samp_sec * pos_part now.tv_usec / 1000000);
        psent = packets_sent;
        osent = bytes_sent;
      }

  -- What a receiver report holds. `lost` is never set: it is what the stack held. `jitter` is
  -- `ms2rtpTimestamp(ia_jitter)`.
  unfoldable pub report_block : ℕ → RcvStats → ℕ → ℕ → TimeVal → ℕ → RtcpRr
  report_block ssrc rrs jitter curr_pkt_seq now lost = record {
    ssrc = ssrc;
    lost = lost;
    last_seq = curr_pkt_seq;
    jitter = jitter;
    lsr = ntp2lsr rrs.rrs_timestamp_sr_ntp;
    dlsr = timeval2dlsr dbl (timevalsub now rrs.rrs_timestamp_sr);
  }

  -- The bytes of the two reports
  abbrev pub sr_packet : ℕ → TimeVal → ℕ → ℕ → ℕ → List ℕ
  sr_packet ssrc now samp_sec packets_sent bytes_sent =
      encode_rtcp_header (rtcp_set_hdr 0 rtcp_sr ssrc)
      ++ encode_sender_info (sender_info now samp_sec packets_sent bytes_sent)

  abbrev pub rr_packet : ℕ → RcvStats → ℕ → ℕ → TimeVal → ℕ → List ℕ
  rr_packet ssrc rrs jitter curr_pkt_seq now lost =
      encode_rtcp_header (rtcp_set_hdr 0 rtcp_rr ssrc)
      ++ encode_report_block (report_block ssrc rrs jitter curr_pkt_seq now lost)

module _ (dbl : Doubles) {W : Type 0} (net : Net W) where
  -- `false` is -1. The header's length before is what the stack held; each of the three types sets it.
  unfoldable pub rtcp_send_sr : ℕ → SendStats → ℕ → ℕ → ℕ → W → Bool × SendStats × W
  rtcp_send_sr ssrc rss samp_sec packets_sent bytes_sent w =
      let (now, w1) = net.gettimestamp w in
      let (sent, w2) = net.sendto (sr_packet dbl ssrc now samp_sec packets_sent bytes_sent) w1 in
      if sent
      then (true, record rss { rss_sr_pkts = u32 (suc rss.rss_sr_pkts) }, w2)
      else (false, rss, net.sphone_error w2)

  unfoldable pub rtcp_send_rr : ℕ → RcvStats → ℕ → ℕ → ℕ → ℕ → W → Bool × RcvStats × W
  rtcp_send_rr ssrc rrs jitter curr_pkt_lost curr_pkt_seq lost w =
      if ssrc == 0
      then (true, rrs, w)
      else (let (now, w1) = net.gettimestamp w in
          let (sent, w2) = net.sendto (rr_packet dbl ssrc rrs jitter curr_pkt_seq now lost) w1 in
          if sent
          then (
            true,
            record rrs {
              rrs_prev_pkt_lost = curr_pkt_lost;
              rrs_prev_pkt_seq = curr_pkt_seq;
              rrs_rr_pkts = u32 (suc rrs.rrs_rr_pkts);
            },
            w2,
          )
          else (false, rrs, net.sphone_error w2))

  -- The buffer is of `sizeof(int)` bytes, and the header of 8 is written past its end: the
  -- bytes that are sent are those that are written.
  unfoldable pub rtcp_send_bye : ℕ → W → Bool × W
  rtcp_send_bye ssrc w =
      let (sent, w1) = net.sendto (encode_rtcp_header (rtcp_set_hdr 0 rtcp_bye ssrc)) w in
      if sent then (true, w1) else (false, net.sphone_error w1)
