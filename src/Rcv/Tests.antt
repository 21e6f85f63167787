-- ===== src/Rcv/Tests.antt =====
-- Examples of the receiver.
use sphone.Prelude.{ℕ, ◌+◌, ◌*◌, ◌≡◌, ◌≢◌, ◌⊎◌, refl, false, some, [], ◌∷◌, arith}
use sphone.Units.{bytes2samples}
use sphone.Wire.{get16, get32}
use sphone.Rtp.Header.{RtpHeader, unmarshal_rtp_hdr}
use sphone.Rtp.Flags.{rtp_get_v}
use sphone.Rtp.Session.{rtp_check_hdr}
use sphone.Playout.Shbuf.{seq_normal, seq_gap, seq_reset, seq_bad}
use sphone.Playout.Dispatch.{fifo, playout_play}
use sphone.Playout.Samples.{whole, device, state}
use sphone.Rcv.Sequence.{SeqState, update_seq}
use sphone.Rcv.Classify.{IsStarted, ahead, update_seq-in_order, update_seq_restart}
use sphone.Rcv.Receive.{
  Packet, CodingApi, RcvSession, ok, lock_sender, set_current, accept_class, play_decoded,
  decode_and_play, receive_and_playout,
}
use sphone.Rcv.Outcomes.{counted, IsAdmitted}
use sphone.Rcv.Counters.{receive_and_playout-in_sync}

-- A coding that keeps lengths and gives silence
abbrev api : CodingApi ℕ
api = record { transformlen = λ n. some n; decode = λ payload len dec_len w. (some (λ i. 0), w) }

-- The last number is 65534, and the one noted after a bad packet 500.
abbrev seqs : SeqState
seqs = record { seq_initial = 1; bad = 500; seq_cycles = 0; seq_cur = 65534; seq_prev = 65534 }

abbrev session : RcvSession ℕ
session = record {
  rtp_ssrc = 77;
  rtp_payload = 101;
  rtcp_dst_addr = 5;
  rtcp_stats_bytes = 0;
  accept_all_ssrc = false;
  lost_pkts = 10;
  seqs = seqs;
  ts_cur = 0;
  ts_prev = 0;
  playout_type = fifo;
  playout = state;
  audio_precision = 8;
  audio_channels = 1;
  nw_channels = 1;
}

abbrev header : ℕ → RtpHeader
header seq = record { flags = 0x8065; seq = seq; ts = record { sec = 3; frac = 4 }; ssrc = 77 }

-- A packet of two samples, with a sequence number of two bytes
abbrev packet : ℕ → ℕ → Packet
packet high low = record {
  inbuf = 128 ∷ 101 ∷ high ∷ low ∷ 0 ∷ 3 ∷ 0 ∷ 4 ∷ 0 ∷ 0 ∷ 0 ∷ 77 ∷ 8 ∷ 9 ∷ [];
  len = 14;
  from = 5;
}

seqs-IsStarted : IsStarted seqs
seqs-IsStarted = record { started = λ h. omega (arith, h); prev = omega arith }

admitted :
    (high low : ℕ)
    → IsAdmitted session
        (packet high low)
        (header (high * 256 + low))
        (8 ∷ 9 ∷ [])
        (counted session 14)
unfolding unmarshal_rtp_hdr get16 get32 rtp_check_hdr rtp_get_v lock_sender
admitted high low = record {
  header = refl;
  version = refl;
  sender = refl;
  length = omega arith;
  fits = omega arith;
}

-- Number 65535 is in order.
arrives : (receive_and_playout whole device api session (some (packet 255 255)) 0).0 ≡ ok
unfolding receive_and_playout unmarshal_rtp_hdr get16 get32 rtp_check_hdr rtp_get_v lock_sender
    accept_class update_seq set_current bytes2samples decode_and_play play_decoded playout_play
arrives = refl

receive_and_playout-in_sync_example :
    (receive_and_playout whole device api session (some (packet 255 255)) 0).1.seqs.seq_cur
    ≡ (receive_and_playout whole device api session (some (packet 255 255)) 0).1.seqs.seq_prev
receive_and_playout-in_sync_example =
    receive_and_playout-in_sync whole device api session (some (packet 255 255)) 0 refl arrives

abbrev stereo : RcvSession ℕ
stereo = record session { audio_precision = 16; audio_channels = 2 }

stereo-IsAdmitted :
    IsAdmitted stereo (packet 255 255) (header 65535) (8 ∷ 9 ∷ []) (counted stereo 14)
unfolding unmarshal_rtp_hdr get16 get32 rtp_check_hdr rtp_get_v lock_sender
stereo-IsAdmitted = record {
  header = refl;
  version = refl;
  sender = refl;
  length = omega arith;
  fits = omega arith;
}

abbrev five : ℕ
five = 5

update_seq-in_order_example :
    let (s', t) = update_seq seqs (ahead seqs five) in
    (((t ≡ seq_normal) × (five ≡ 1) × (ahead seqs five ≢ 0))
      ⊎ ((t ≡ seq_gap) × ((five ≢ 1) ⊎ (ahead seqs five ≡ 0))))
    × (s'.seq_cycles + ahead seqs five ≡ seqs.seq_cycles + seqs.seq_prev + five)
update_seq-in_order_example = update_seq-in_order seqs 5 seqs-IsStarted (omega arith) (omega arith)

bad_first : (update_seq seqs 5998).1 ≡ seq_bad
unfolding update_seq
bad_first = refl

update_seq_restart_example : (update_seq (update_seq seqs 5998).0 5999).1 ≡ seq_reset
update_seq_restart_example =
    update_seq_restart seqs 6000 seqs-IsStarted (omega arith) (omega arith) bad_first
