-- ===== src/Rtcp/Tests.antt =====
-- Examples of RTCP reports.
use sphone.Prelude.{
  ℕ, suc, true, ◌+◌, ◌-◌, ◌*◌, ◌/◌, ◌%◌, ◌^◌, ◌≡◌, refl, inl, leb, if◌then◌else◌, some, List, [],
  ◌∷◌, ◌++◌, arith,
}
use sphone.TimeVal.{timeradd, TimeVal}
use sphone.Rcv.Receive.{ok}
use sphone.Wire.{get32}
use sphone.Rtcp.Packets.{RtcpRr, RtcpSi, decode_report_block}
use sphone.Rtcp.Time.{Doubles, ntp2lsr, tv2ntp_64, calculate_rtt}
use sphone.Rtcp.Receive.{
  RtcpSession, of_sender, of_receiver, rtcp_send_rcv_dispatch, rtcp_rcv_rcv_dispatch,
}
use sphone.Prelude.Int.{pos, pos_part}
use sphone.EventLoop.{eventloop_reg_timeout, insert, Loop}
use sphone.TimeVal.Arithmetic.{IsNormal}
use sphone.Rtcp.Send.{SendStats, RcvStats, report_block, sr_packet, rr_packet, Net}
use sphone.Rtcp.Timers.{Sender, rtcp_send_init}
use sphone.Rtcp.Exchange.{sender_report-arrives, receiver_report-arrives}

-- The conversions as exact arithmetic rounds them
abbrev exact : Doubles
exact = record {
  usec_frac = λ t. pos_part t * 2 ^ 16 / 1000000;
  usec_frac_64 = λ t. pos_part t * 2 ^ 32 / 1000000;
  frac_ms = λ f. (f * 1000 + 2 ^ 15) / 2 ^ 16;
}

abbrev noon : TimeVal
noon = record { tv_sec = pos 43200; tv_usec = pos 250000 }

abbrev later : TimeVal
later = record { tv_sec = pos 43201; tv_usec = pos 0 }

abbrev fresh_rcv : RcvStats
fresh_rcv = record {
  rrs_rr_pkts = 0;
  rrs_sr_pkts = 0;
  rrs_timestamp_sr = noon;
  rrs_timestamp_sr_ntp = record { sec = 0; frac = 0 };
  rrs_bytes_sent2us = 0;
  rrs_packets_sent2us = 0;
  rrs_prev_pkt_lost = 0;
  rrs_prev_pkt_seq = 0;
}

abbrev fresh_send : SendStats
fresh_send = record {
  rss_rr_pkts = 0;
  rss_sr_pkts = 0;
  rss_peer_fraction_lost = 0;
  rss_peer_jitter = 0;
  rss_rtt_delay = 0;
  rss_peer_culm_lost = 0;
  rss_peer_last_seq = 0;
}

abbrev session : RtcpSession
session = record { rtp_ssrc = 0; rtcp_dst_addr = 0 }

sender_report-arrives_example :
    let r =
      rtcp_rcv_rcv_dispatch exact session fresh_rcv
        (some (sr_packet exact 77 noon 8000 100 16000 ++ [], 5))
        later in
    let ntp = tv2ntp_64 exact noon in
    (r.0 ≡ ok)
    × (r.1.rtp_ssrc ≡ 77)
    × (rrs' : RcvStats) × (r.2 ≡ of_receiver rrs')
    × (rrs'.rrs_packets_sent2us ≡ 100)
    × (rrs'.rrs_bytes_sent2us ≡ 16000)
    × (rrs'.rrs_timestamp_sr ≡ later)
    × (ntp2lsr rrs'.rrs_timestamp_sr_ntp ≡ (ntp.sec * 2 ^ 32 + ntp.frac) / 2 ^ 16 % 2 ^ 32)
sender_report-arrives_example =
    sender_report-arrives exact session fresh_rcv 77 5 8000 100 16000 noon later [] (omega arith)
      (omega arith) (omega arith) (inl refl)

receiver_report-arrives_example :
    let r =
      rtcp_send_rcv_dispatch exact session fresh_send
        (some (rr_packet exact 77 fresh_rcv 3 9 noon 0xFF000002 ++ [], 5))
        later in
    let block = report_block exact 77 fresh_rcv 3 9 noon 0xFF000002 in
    (r.0 ≡ ok)
    × (r.1.rtp_ssrc ≡ 77)
    × (rss' : SendStats) × (r.2 ≡ of_sender rss')
    × (rss'.rss_peer_last_seq ≡ 9)
    × (rss'.rss_rtt_delay ≡ calculate_rtt exact block.lsr block.dlsr later)
    × (rss'.rss_peer_fraction_lost ≡ 0)
    × (rss'.rss_peer_culm_lost ≡ (
        if leb 128 (0xFF000002 / 2 ^ 24)
        then 2 ^ 32 - 2 ^ 8 + 0xFF000002 / 2 ^ 24
        else 0xFF000002 / 2 ^ 24))
receiver_report-arrives_example =
    receiver_report-arrives exact session fresh_send fresh_rcv 77 5 3 9 0xFF000002 noon later []
      (omega arith) (omega arith) (omega arith) (omega arith) (inl refl)

abbrev block_bytes : List ℕ
block_bytes =
    0 ∷ 0 ∷ 0 ∷ 77 ∷ 1 ∷ 0 ∷ 0 ∷ 2 ∷ 0 ∷ 0 ∷ 0 ∷ 9 ∷ 0 ∷ 0 ∷ 0 ∷ 3 ∷ 0 ∷ 0 ∷ 0 ∷ 4 ∷ 0 ∷ 0 ∷ 0 ∷ 5
    ∷ 6 ∷ []

abbrev block : RtcpRr
block = record { ssrc = 77; lost = 0x01000002; last_seq = 9; jitter = 3; lsr = 4; dlsr = 5 }

block_decoded : decode_report_block block_bytes ≡ some (block, 6 ∷ [])
unfolding decode_report_block get32
block_decoded = refl

abbrev info : RtcpSi
info = record { ntp_sec = 1; ntp_frac = 2; rtp_ts = 3; psent = 4; osent = 5 }

-- A network that takes all, seen by the number of packets that it has taken
abbrev network : Net ℕ
network = record {
  gettimestamp = λ w. (noon, w);
  sendto = λ p w. (true, suc w);
  sphone_error = λ w. w;
}

abbrev starting : Loop (Sender ℕ)
starting = record {
  ee = [];
  ee_timers = [];
  next_addr = 0;
  sphone_exit = 0;
  world = record {
    addr = 1;
    rtp_ssrc = 77;
    rtcp_timer = noon;
    ss_rtcp = fresh_send;
    cp_samp_sec = 8000;
    sst_spkt = 10;
    sst_sbytes = 1720;
    net = 0;
  };
}

-- The session after its set-up, which waits for the first report
abbrev reporting : Loop (Sender ℕ)
unfolding rtcp_send_init timeradd eventloop_reg_timeout insert
reporting = rtcp_send_init exact network 3 starting

noon-IsNormal : IsNormal noon
noon-IsNormal = record { nonneg = refl; below = omega arith }
