-- ===== src/Rcv/Counters.antt =====
-- The sequence numbers and the count of lost packets, over a whole call of `receive_and_playout`.
use sphone.Prelude.{ℕ, ◌+◌, ◌-◌, ◌%◌, ◌^◌, ◌≤◌, ◌<◌, ◌≡◌, ap, ◌∙◌, Option, none, some, List, arith}
use sphone.Rtp.Header.{RtpHeader}
use sphone.Playout.Device.{Device, Double}
use sphone.Playout.Shbuf.{SeqType, seq_gap, seq_bad}
use sphone.Rcv.Sequence.{SeqState, max_dropout, rtp_seq_mod, update_seq}
use sphone.Rcv.Classify.{IsStarted, ahead, update_seq-in_order}
use sphone.Rcv.Receive.{
  Packet, CodingApi, RcvSession, ok, lock_sender, set_current, count_lost, accept_class,
  receive_and_playout,
}
use sphone.Rcv.Outcomes.{IsAdmitted, receive-admitted, decode_and_play-Keeps, accept_class-lost}

module _ {D : Type 0} where
  -- Taking the sender in leaves the numbers and the counters alone.
  pub lock_sender-keeps :
      (rs : RcvSession D) (ssrc from : ℕ) {rs' : RcvSession D}
      → lock_sender rs ssrc from ≡ some rs'
      → (rs'.seqs ≡ rs.seqs)
        × (rs'.lost_pkts ≡ rs.lost_pkts)
        × (rs'.audio_precision ≡ rs.audio_precision)
        × (rs'.audio_channels ≡ rs.audio_channels)
  unfolding lock_sender
  lock_sender-keeps rs ssrc from e = ground arith

-- `update_seq` leaves the current and the previous number alone.
update_seq-keeps :
    (s : SeqState) (seq : ℕ)
    → ((update_seq s seq).0.seq_cur ≡ s.seq_cur) × ((update_seq s seq).0.seq_prev ≡ s.seq_prev)
unfolding update_seq
update_seq-keeps s seq = ground arith

module _ (dbl : Double) {W : Type 0} (dev : Device W) (ca : CodingApi W) where
  open dbl use {D}

  accept_class-in_sync :
      (rs : RcvSession D) (hdr : RtpHeader) (payload : List ℕ) (len : ℕ) (t : SeqType) (w : W)
      → rs.seqs.seq_cur ≡ rs.seqs.seq_prev
      → (accept_class dbl dev ca rs hdr payload len t w).0 ≡ ok
      → (accept_class dbl dev ca rs hdr payload len t w).1.seqs.seq_cur
        ≡ (accept_class dbl dev ca rs hdr payload len t w).1.seqs.seq_prev
  unfolding accept_class set_current
  accept_class-in_sync rs hdr payload len seq_bad w h e = cc
  accept_class-in_sync rs hdr payload len t w h e = grind (arith, decode_and_play-Keeps)

  -- After a call that returns 0 the previous number is the current one, if it was so before.
  pub receive_and_playout-in_sync :
      (rs : RcvSession D) (p : Option Packet) (w : W)
      → rs.seqs.seq_cur ≡ rs.seqs.seq_prev
      → (receive_and_playout dbl dev ca rs p w).0 ≡ ok
      → (receive_and_playout dbl dev ca rs p w).1.seqs.seq_cur
        ≡ (receive_and_playout dbl dev ca rs p w).1.seqs.seq_prev
  unfolding receive_and_playout lock_sender
  receive_and_playout-in_sync rs none w h e = h
  receive_and_playout-in_sync rs (some p) w h e =
      grind (arith, accept_class-in_sync, update_seq-keeps)

  -- Where `n - 1` packets are missing before an admitted one, 1 of them up to 2998, and the session
  -- is in sync, the count of lost packets goes down by one, modulo 2^32, however many were lost.
  receive_and_playout-lost :
      (rs rs' : RcvSession D) (p : Packet) (hdr : RtpHeader) (payload : List ℕ) (n : ℕ) (w : W)
      → IsAdmitted rs p hdr payload rs'
      → IsStarted rs.seqs
      → hdr.seq ≡ ahead rs.seqs n
      → 2 ≤ n
      → n < max_dropout
      → rs.seqs.seq_cycles + rtp_seq_mod < 2 ^ 32
      → rs.seqs.seq_cur ≡ rs.seqs.seq_prev
      → rs.lost_pkts < 2 ^ 32
      → (receive_and_playout dbl dev ca rs (some p) w).1.lost_pkts
        ≡ (rs.lost_pkts + 2 ^ 32 - 1) % 2 ^ 32
  unfolding count_lost
  receive_and_playout-lost rs rs' p hdr payload n w a started e lo hi small sync fits =
      let (same, lost, _, _) = lock_sender-keeps _ _ _ a.sender in
      let (cls, _) = update_seq-in_order rs.seqs n started hi small in
      let gap : (update_seq rs'.seqs hdr.seq).1 ≡ seq_gap = rw (same, e) (ground arith) in
      let keeps = update_seq-keeps rs'.seqs hdr.seq in
      rw (receive-admitted dbl dev ca w a, gap)
        (accept_class-lost dbl dev ca _ hdr payload _ w
          ∙ omega (
            arith,
            lost,
            keeps,
            ap (λ (x : SeqState). x.seq_cur) same,
            ap (λ (x : SeqState). x.seq_prev) same,
          ))
