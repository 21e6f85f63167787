-- ===== src/Send/Packets.antt =====
-- The packets that `record_and_send` of src/sphone_send.c puts on the wire, and how a receiver takes them.
use native.Mathlib.Nat.{div_self}
use sphone.Prelude.{
  ℕ, suc, ◌+◌, ◌-◌, ◌/◌, ◌%◌, ◌^◌, ◌≤◌, ◌<◌, ◌≡◌, refl, ◌≢◌, ◌⊎◌, inl, inr, false, ltb, ◌==◌, some,
  List, arith,
}
use sphone.Prelude.Words.{u32}
use sphone.Prelude.Memory.{Block}
use sphone.TimeVal.{TimeVal}
use sphone.Rtp.Header.{RtpHeader}
use sphone.Rtp.Session.{outgoing_hdr}
use sphone.Rcv.Receive.{fault}
use sphone.Rcv.Sequence.{SeqState, rtp_seq_mod, update_seq}
use sphone.Rcv.Classify.{IsStarted, ahead, update_seq-in_order}
use sphone.Playout.Shbuf.{seq_normal, seq_gap}
use sphone.Send.{
  SendSession, Recorder, max_pkt_size, encode_and_send, detect_and_send, size_and_send,
  record_and_send,
}

outgoing_hdr-fields :
    (now : TimeVal) (hdr : RtpHeader) (ssrc payload seq : ℕ)
    → ((outgoing_hdr now hdr ssrc payload seq).seq ≡ seq % 0x10000)
      × ((outgoing_hdr now hdr ssrc payload seq).ssrc ≡ ssrc)
unfolding outgoing_hdr
outgoing_hdr-fields now hdr ssrc payload seq = (refl, refl)

-- Either no header was built and the number of the next packet stands, or a header of the session with that
-- number was built and the number has moved on.
abbrev pub Numbered : SendSession → SendSession → Type 0
Numbered ss ss' =
    ((ss'.ss_seq ≡ ss.ss_seq) × (ss'.hdr ≡ ss.hdr))
    ⊎ ((ss'.ss_seq ≡ u32 (suc ss.ss_seq))
        × (ss'.hdr.seq ≡ ss.ss_seq % 0x10000)
        × (ss'.hdr.ssrc ≡ ss.rtp_ssrc))

module _ {W : Type 0} (rec : Recorder W) where
  encode_and_send-Numbered :
      (ss : SendSession) (buf : Block) (len n : ℕ) (w : W)
      → Numbered ss (encode_and_send rec ss buf len n w).1
  unfolding encode_and_send
  encode_and_send-Numbered ss buf len n w = grind (arith, outgoing_hdr-fields)

  detect_and_send-Numbered :
      (ss : SendSession) (buf : Block) (len n : ℕ) (w : W)
      → Numbered ss (detect_and_send rec ss buf len n w).1
  unfolding detect_and_send
  detect_and_send-Numbered ss buf len n w = grind (arith, encode_and_send-Numbered)

  size_and_send-Numbered :
      (ss : SendSession) (buf : Block) (len : ℕ) (w : W)
      → Numbered ss (size_and_send rec ss buf len w).1
  unfolding size_and_send
  size_and_send-Numbered ss buf len w = grind (arith, detect_and_send-Numbered)

  -- On every way through the call, the number of the next packet moves on by one, modulo 2^32, exactly where
  -- a header is built, which has the old number modulo 2^16 and the session's source; a packet that is
  -- suppressed as silence, too long or not encoded uses no number up.
  record_and_send-Numbered :
      (ss : SendSession) (buf : Block) (len : ℕ) (w : W)
      → Numbered ss (record_and_send rec ss buf len w).1
  unfolding record_and_send
  record_and_send-Numbered ss buf len w = grind (arith, size_and_send-Numbered)

  sized :
      (ss : SendSession) (buf : Block) (len n : ℕ) (payload : List ℕ) (w w1 : W)
      → ss.silence_detection ≡ false
      → rec.transformlen len ≡ some n
      → max_pkt_size - 12 < n
      → n ≤ max_pkt_size
      → rec.encode buf len n w ≡ (some payload, w1)
      → size_and_send rec ss buf len w ≡ (fault, ss, w1)
  unfolding size_and_send detect_and_send encode_and_send
  sized ss buf len n payload w w1 off t lo hi e = ground arith

  -- An encoding that is too long for the header and the payload together, but not for the payload alone,
  -- passes the check and is written past the end of the packet's buffer.
  pub record_and_send_overflow :
      (ss : SendSession) (buf : Block) (len n : ℕ) (payload : List ℕ) (w w1 : W)
      → ss.nw_channels ≢ 0
      → ss.audio_channels ≡ ss.nw_channels
      → ss.silence_detection ≡ false
      → rec.transformlen len ≡ some n
      → max_pkt_size - 12 < n
      → n ≤ max_pkt_size
      → rec.encode buf len n w ≡ (some payload, w1)
      → record_and_send rec ss buf len w ≡ (fault, ss, w1)
  unfolding record_and_send
  record_and_send_overflow ss buf len n payload w w1 nz mono off t lo hi e =
      let some_channel : (ss.nw_channels == 0) ≡ false = ground arith in
      let positive : 0 < ss.nw_channels = ground arith in
      let one_channel : ltb 1 (ss.audio_channels / ss.nw_channels) ≡ false =
        rw (mono, div_self positive) refl in
      rw (some_channel, one_channel) (sized ss buf len n payload w w1 off t lo hi e)

  -- A number that is used up is the one that the header has.
  built :
      (ss ss' : SendSession)
      → Numbered ss ss'
      → ss.ss_seq < 2 ^ 32
      → ss'.ss_seq ≢ ss.ss_seq
      → (ss'.ss_seq ≡ u32 (suc ss.ss_seq)) × (ss'.hdr.seq ≡ ss.ss_seq % 0x10000)
  built ss ss' (inl (same, _)) h ne = absurd (ne same)
  built ss ss' (inr (next, seq, _)) h ne = (next, seq)

  -- Where two calls in a row build a packet each, a receiver whose last packet was the first takes the second
  -- in order: in sequence, or, where its 16-bit number is 0, as a gap.
  pub record_and_send-in_order :
      (ss : SendSession) (buf1 buf2 : Block) (len1 len2 : ℕ) (w1 w2 : W) (s : SeqState)
      → ss.ss_seq < 2 ^ 32
      → let first = (record_and_send rec ss buf1 len1 w1).1 in
        let second = (record_and_send rec first buf2 len2 w2).1 in
        first.ss_seq ≢ ss.ss_seq
        → second.ss_seq ≢ first.ss_seq
        → IsStarted s
        → s.seq_prev ≡ first.hdr.seq
        → s.seq_cycles + rtp_seq_mod < 2 ^ 32
        → let t = (update_seq s second.hdr.seq).1 in
          ((t ≡ seq_normal) × (second.hdr.seq ≢ 0)) ⊎ ((t ≡ seq_gap) × (second.hdr.seq ≡ 0))
  record_and_send-in_order ss buf1 buf2 len1 len2 w1 w2 s h n1 n2 started prev small =
      let first = (record_and_send rec ss buf1 len1 w1).1 in
      let second = (record_and_send rec first buf2 len2 w2).1 in
      let (a1, b1) = built ss first (record_and_send-Numbered ss buf1 len1 w1) h n1 in
      let (_, b2) =
        built first second (record_and_send-Numbered first buf2 len2 w2) (omega (arith, a1)) n2 in
      let number : second.hdr.seq ≡ ahead s 1 = omega (arith, a1, b1, b2, prev) in
      let (class, _) = update_seq-in_order s 1 started (omega arith) small in
      rw number (ground (arith, class))
