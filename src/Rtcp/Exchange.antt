-- ===== src/Rtcp/Exchange.antt =====
-- A report from the one end to the other: src/sphone_rtcp_send.c against src/sphone_rtcp_rcv.c.
use mathlib.Core.List.{append_assoc}
use sphone.Prelude.{
  ℕ, ◌+◌, ◌-◌, ◌*◌, ◌/◌, ◌%◌, ◌^◌, ◌<◌, ◌≡◌, refl, ◌∙◌, ap, leb, if◌then◌else◌, some, List, ◌++◌,
  arith,
}
use sphone.TimeVal.{TimeVal}
use sphone.Rcv.Receive.{ok}
use sphone.Rtcp.Packets.{encode_sender_info, encode_report_block}
use sphone.Rtcp.Header.{rtcp_sr, rtcp_rr}
use sphone.Rtcp.Time.{Doubles, ntp2lsr, tv2ntp_64, ntp2lsr-middle, calculate_rtt}
use sphone.Rtcp.Send.{SendStats, RcvStats, sender_info, report_block, sr_packet, rr_packet}
use sphone.Rtcp.Receive.{
  RtcpSession, of_sender, of_receiver, shift_lost, rtcp_send_rcv_dispatch, rtcp_rcv_rcv_dispatch,
}
use sphone.Rtcp.Taken.{
  Takes, receive-taken, received-sr, received-rr, sender_info-SiFits, report_block-RrFits,
  sender_info-fields, report_block-fields, lost_frac-small, shift_lost-byte,
}

module _ (dbl : Doubles) where
  -- A sender report that is sent at `sent_at` arrives at a receiver that takes its source, whatever bytes
  -- follow it in the buffer: the receiver locks to the source, notes the time, and learns how many packets
  -- and bytes were sent. What it will send back as the last report's time is the middle 32 bits of the
  -- sender's 64-bit timestamp.
  pub sender_report-arrives :
      (rtp : RtcpSession) (rrs : RcvStats) (ssrc from samp_sec packets bytes : ℕ)
      (sent_at now : TimeVal) (rest : List ℕ)
      → ssrc < 2 ^ 32
      → packets < 2 ^ 32
      → bytes < 2 ^ 32
      → Takes dbl rtp ssrc
      → let r =
          rtcp_rcv_rcv_dispatch dbl rtp rrs
            (some (sr_packet dbl ssrc sent_at samp_sec packets bytes ++ rest, from))
            now in
        let ntp = tv2ntp_64 dbl sent_at in
        (r.0 ≡ ok)
        × (r.1.rtp_ssrc ≡ ssrc)
        × (rrs' : RcvStats) × (r.2 ≡ of_receiver rrs')
        × (rrs'.rrs_packets_sent2us ≡ packets)
        × (rrs'.rrs_bytes_sent2us ≡ bytes)
        × (rrs'.rrs_timestamp_sr ≡ now)
        × (ntp2lsr rrs'.rrs_timestamp_sr_ntp ≡ (ntp.sec * 2 ^ 32 + ntp.frac) / 2 ^ 16 % 2 ^ 32)
  unfolding rtcp_rcv_rcv_dispatch
  sender_report-arrives rtp rrs ssrc from samp_sec packets bytes sent_at now rest hs hp hb takes =
      let fits = sender_info-SiFits dbl sent_at samp_sec packets bytes hp hb in
      let received =
        received-sr dbl (sender_info dbl sent_at samp_sec packets bytes) rrs now rest fits in
      let taken =
        receive-taken dbl rtp (of_receiver rrs) _ rtcp_sr rtcp_sr ssrc from
          (encode_sender_info (sender_info dbl sent_at samp_sec packets bytes) ++ rest) now
          (omega arith) hs takes received in
      let (counted, sent, sec, frac) = sender_info-fields dbl sent_at samp_sec packets bytes in
      let lsr =
        ntp2lsr-middle (sender_info dbl sent_at samp_sec packets bytes).ntp_sec _ fits.ntp_frac in
      simp append_assoc ((taken.0, taken.1, _, taken.2, counted, sent, refl, rw⁻¹ (sec, frac) lsr))

  -- A receiver report that a receiver sends arrives at the sender that takes its source: it learns the
  -- last sequence number and takes the round-trip time from the report's two times. The fraction of
  -- lost packets that it notes is 0 for every report, and what it notes as the number of lost packets is
  -- decided by the fraction's byte alone.
  pub receiver_report-arrives :
      (rtp : RtcpSession) (rss : SendStats) (rrs : RcvStats) (ssrc from jitter last lost : ℕ)
      (sent_at now : TimeVal) (rest : List ℕ)
      → ssrc < 2 ^ 32
      → jitter < 2 ^ 32
      → last < 2 ^ 32
      → lost < 2 ^ 32
      → Takes dbl rtp ssrc
      → let r =
          rtcp_send_rcv_dispatch dbl rtp rss
            (some (rr_packet dbl ssrc rrs jitter last sent_at lost ++ rest, from))
            now in
        let block = report_block dbl ssrc rrs jitter last sent_at lost in
        (r.0 ≡ ok)
        × (r.1.rtp_ssrc ≡ ssrc)
        × (rss' : SendStats) × (r.2 ≡ of_sender rss')
        × (rss'.rss_peer_last_seq ≡ last)
        × (rss'.rss_rtt_delay ≡ calculate_rtt dbl block.lsr block.dlsr now)
        × (rss'.rss_peer_fraction_lost ≡ 0)
        × (rss'.rss_peer_culm_lost
            ≡ (if leb 128 (lost / 2 ^ 24) then 2 ^ 32 - 2 ^ 8 + lost / 2 ^ 24 else lost / 2 ^ 24))
  unfolding rtcp_send_rcv_dispatch
  receiver_report-arrives rtp rss rrs ssrc from jitter last lost sent_at now rest hs hj hl hx
        takes =
      let fits = report_block-RrFits dbl ssrc rrs jitter last sent_at lost hs hj hl hx in
      let received =
        received-rr dbl (report_block dbl ssrc rrs jitter last sent_at lost) rss now rest fits in
      let taken =
        receive-taken dbl rtp (of_sender rss) _ rtcp_rr rtcp_rr ssrc from
          (encode_report_block (report_block dbl ssrc rrs jitter last sent_at lost) ++ rest) now
          (omega arith) hs takes received in
      let (kept, seq) = report_block-fields dbl ssrc rrs jitter last sent_at lost in
      simp append_assoc (
        (
          taken.0,
          taken.1,
          _,
          taken.2,
          seq,
          refl,
          lost_frac-small _ fits.lost,
          ap shift_lost kept ∙ shift_lost-byte lost hx,
        ))
