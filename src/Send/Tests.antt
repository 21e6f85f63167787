-- ===== src/Send/Tests.antt =====
-- Examples of sending.
use sphone.Prelude.{ℕ, ◌+◌, ◌≡◌, ◌≢◌, ◌⊎◌, refl, sym, true, false, some, [], ◌∷◌, arith}
use sphone.Prelude.Memory.{Block}
use sphone.Prelude.Int.{pos}
use sphone.Rtp.Session.{outgoing_hdr}
use sphone.Rcv.Receive.{fault}
use sphone.Rcv.Sequence.{SeqState, update_seq}
use sphone.Rcv.Classify.{IsStarted}
use sphone.Playout.Shbuf.{seq_normal, seq_gap}
use sphone.Send.{
  SendSession, Recorder, encode_and_send, detect_and_send, size_and_send, record_and_send,
}
use sphone.Send.Packets.{record_and_send_overflow, record_and_send-in_order}

-- A coding that keeps lengths, and a network that counts packets
abbrev recorder : Recorder ℕ
recorder = record {
  transformlen = λ n. some n;
  encode = λ buf len n w. (some (7 ∷ 8 ∷ []), w);
  gettimestamp = λ w. (record { tv_sec = pos 1; tv_usec = pos 2 }, w);
  sendto = λ packet w. (true, w + 1);
  sphone_error = λ w. w;
}

abbrev session : SendSession
session = record {
  hdr = record { flags = 0; seq = 0; ts = record { sec = 0; frac = 0 }; ssrc = 0 };
  rtp_ssrc = 77;
  rtp_payload = 11;
  ss_seq = 41;
  silence_detection = false;
  silence_nr = 0;
  silence_threshold = 0;
  sst_sbytes = 0;
  audio_precision = 8;
  audio_channels = 1;
  audio_size_ms = 20;
  nw_channels = 1;
}

abbrev samples : Block
samples = λ i. 0

abbrev after : SendSession
after = (record_and_send recorder session samples 2 0).1

after_next : after.ss_seq ≡ 42
unfolding record_and_send size_and_send detect_and_send encode_and_send
after_next = refl

second_next : (record_and_send recorder after samples 2 1).1.ss_seq ≡ 43
unfolding record_and_send size_and_send detect_and_send encode_and_send
second_next = refl

first_seq : after.hdr.seq ≡ 41
unfolding record_and_send size_and_send detect_and_send encode_and_send outgoing_hdr
first_seq = refl

record_and_send_overflow_example :
    record_and_send recorder session samples 1470 0 ≡ (fault, session, 0)
record_and_send_overflow_example =
    record_and_send_overflow recorder session samples 1470 1470 (7 ∷ 8 ∷ []) 0 0
      (λ h. omega (arith, h)) refl refl refl (omega arith) (omega arith) refl

-- A receiver whose last packet was number 41
abbrev seqs : SeqState
seqs = record { seq_initial = 1; bad = 0; seq_cycles = 0; seq_cur = 41; seq_prev = 41 }

seqs-IsStarted : IsStarted seqs
seqs-IsStarted = record { started = λ h. omega (arith, h); prev = omega arith }

record_and_send-in_order_example :
    let second = (record_and_send recorder after samples 2 1).1 in
    let t = (update_seq seqs second.hdr.seq).1 in
    ((t ≡ seq_normal) × (second.hdr.seq ≢ 0)) ⊎ ((t ≡ seq_gap) × (second.hdr.seq ≡ 0))
record_and_send-in_order_example =
    record_and_send-in_order recorder session samples samples 2 2 0 1 seqs (omega arith)
      (λ h. omega (arith, h, after_next)) (λ h. omega (arith, h, after_next, second_next))
      seqs-IsStarted (sym first_seq) (omega arith)
