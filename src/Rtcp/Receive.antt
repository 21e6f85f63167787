-- ===== src/Rtcp/Receive.antt =====
-- `rtcp_receive` of src/sphone_rtcp_rcv.c, with the handlers of the packet types and the two callbacks
-- that call it.
use sphone.Prelude.{
  ℕ, suc, ◌+◌, ◌-◌, ◌/◌, ◌^◌, bit_and, not, ◌==◌, if◌then◌else◌, Option, none, some, List,
}
use sphone.Prelude.Words.{u16, u32, is_negative}
use sphone.TimeVal.{TimeVal}
use sphone.Rcv.Receive.{Outcome, fault, ok, failed}
use sphone.Rtcp.Packets.{decode_rtcp_header, decode_sender_info, decode_report_block}
use sphone.Rtcp.Header.{rtcp_sr, rtcp_rr, rtcp_get_t}
use sphone.Rtcp.Time.{Doubles, rtp_timestamp2ms, calculate_rtt}
use sphone.Rtcp.Send.{SendStats, RcvStats}

-- The fields of `struct rtp_session` that are used
pub record RtcpSession : Type 0 where
  pub rtp_ssrc : ℕ
  pub rtcp_dst_addr : ℕ

-- What the `void *stats` points to
pub data Stats : Type 0 where
  of_sender : SendStats → Stats
  of_receiver : RcvStats → Stats

-- rtcp_get_lost_frac, and `lost >> 24` of an `int32_t` as a `uint32_t`
unfoldable pub rtcp_get_lost_frac : ℕ → ℕ
rtcp_get_lost_frac val = bit_and val 0xFF000000 / 2 ^ 24

unfoldable pub shift_lost : ℕ → ℕ
shift_lost lost = if is_negative lost then 2 ^ 32 - 2 ^ 8 + lost / 2 ^ 24 else lost / 2 ^ 24

module _ (dbl : Doubles) where
  -- The quotient by 256.0 is cut to a `uint32_t`.
  unfoldable pub rtcp_receive_rr : List ℕ → SendStats → TimeVal → Option SendStats
  rtcp_receive_rr p rss now = elim (decode_report_block p) [
    | none ↦ none
    | some (rr, _) ↦ some (record rss {
      rss_rr_pkts = u32 (suc rss.rss_rr_pkts);
      rss_peer_fraction_lost = rtcp_get_lost_frac rr.lost / 256;
      rss_peer_jitter = rtp_timestamp2ms dbl rr.jitter;
      rss_rtt_delay = calculate_rtt dbl rr.lsr rr.dlsr now;
      rss_peer_culm_lost = shift_lost rr.lost;
      rss_peer_last_seq = rr.last_seq;
    })
  ]

  unfoldable pub rtcp_receive_sr : List ℕ → RcvStats → TimeVal → Option RcvStats
  rtcp_receive_sr p rrs now = elim (decode_sender_info p) [
    | none ↦ none
    | some (si, _) ↦ some (record rrs {
      rrs_timestamp_sr = now;
      rrs_sr_pkts = u32 (suc rrs.rrs_sr_pkts);
      rrs_timestamp_sr_ntp = record {
        sec = u16 (bit_and si.ntp_sec 0xffff);
        frac = u16 (si.ntp_frac / 2 ^ 16);
      };
      rrs_packets_sent2us = si.psent;
      rrs_bytes_sent2us = si.osent;
    })
  ]

  -- The `switch`; `none` is a read past the buffer, or through the wrong pointer.
  unfoldable pub rtcp_by_type : ℕ → ℕ → List ℕ → Stats → TimeVal → Option Stats
  rtcp_by_type type expected p stats now =
      if type == rtcp_sr
      then (if not (type == expected) then some stats else elim stats [
        | of_sender _ ↦ none
        | of_receiver rrs ↦ elim (rtcp_receive_sr p rrs now) [
          | none ↦ none
          | some rrs' ↦ some (of_receiver rrs')
        ]
      ])
      else (if type == rtcp_rr
          then (if not (type == expected) then some stats else elim stats [
            | of_receiver _ ↦ none
            | of_sender rss ↦ elim (rtcp_receive_rr p rss now) [
              | none ↦ none
              | some rss' ↦ some (of_sender rss')
            ]
          ])
          else some stats)

  -- `none` is an `inet_input` that fails; otherwise the buffer and the sender's address. `now` is the
  -- clock, which only a report reads.
  unfoldable pub rtcp_receive :
      RtcpSession → Stats → ℕ → Option (List ℕ × ℕ) → TimeVal → Outcome × RtcpSession × Stats
  rtcp_receive rtp stats expected none now = (failed, rtp, stats)
  rtcp_receive rtp stats expected (some (inbuf, from)) now = elim (decode_rtcp_header inbuf) [
    | none ↦ (fault, rtp, stats)
    | some (hdr, p) ↦
        let rtp' =
          if rtp.rtp_ssrc == 0
          then record rtp { rtp_ssrc = hdr.ssrc; rtcp_dst_addr = from }
          else rtp in
        if not (rtp'.rtp_ssrc == hdr.ssrc)
        then (ok, rtp', stats)
        else elim (rtcp_by_type (rtcp_get_t hdr.flags) expected p stats now) [
          | none ↦ (fault, rtp', stats)
          | some stats' ↦ (ok, rtp', stats')
        ]
  ]

  unfoldable pub rtcp_send_rcv_dispatch :
      RtcpSession → SendStats → Option (List ℕ × ℕ) → TimeVal → Outcome × RtcpSession × Stats
  rtcp_send_rcv_dispatch rtp rss input now = rtcp_receive rtp (of_sender rss) rtcp_rr input now

  unfoldable pub rtcp_rcv_rcv_dispatch :
      RtcpSession → RcvStats → Option (List ℕ × ℕ) → TimeVal → Outcome × RtcpSession × Stats
  rtcp_rcv_rcv_dispatch rtp rrs input now = rtcp_receive rtp (of_receiver rrs) rtcp_sr input now
