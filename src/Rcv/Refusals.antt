-- ===== src/Rcv/Refusals.antt =====
-- The packets that `receive_and_playout` does not play.
use sphone.Prelude.Words.{u32}
use sphone.Prelude.{
  ◌⊎◌, inl, inr, ℕ, ◌+◌, ◌-◌, ◌*◌, ◌^◌, ◌<◌, ◌≡◌, refl, ◌≢◌, true, false, none, some, List, arith,
}
use native.Mathlib.Nat.{div-eq_of_lt}
use sphone.Units.{bytes2samples}
use sphone.Rtp.Header.{RtpHeader, unmarshal_rtp_hdr}
use sphone.Rtp.Session.{rtp_check_hdr}
use sphone.Playout.Device.{Device, Double}
use sphone.Playout.Shbuf.{SeqType, seq_normal, seq_gap, seq_dup}
use sphone.Rcv.Sequence.{max_dropout, max_misorder, rtp_seq_mod, update_seq}
use sphone.Rcv.Classify.{IsStarted, ahead, update_seq-in_order, update_seq_behind}
use sphone.Rcv.Receive.{
  Packet, CodingApi, RcvSession, fault, ok, failed, lock_sender, set_current, count_lost,
  accept_class, receive_and_playout,
}
use sphone.Rcv.Outcomes.{counted, IsAdmitted, receive-admitted}
use sphone.Rcv.Counters.{lock_sender-keeps}

module _ (dbl : Double) {W : Type 0} (dev : Device W) (ca : CodingApi W) where
  open dbl use {D}

  -- A packet of another RTP version is ignored: the call returns 0, and only counts its bytes.
  pub receive_and_playout_version :
      (rs : RcvSession D) (p : Packet) (hdr : RtpHeader) (payload : List ℕ) (w : W)
      → unmarshal_rtp_hdr p.inbuf ≡ some (hdr, payload)
      → rtp_check_hdr hdr ≡ false
      → receive_and_playout dbl dev ca rs (some p) w ≡ (ok, counted rs p.len, w)
  unfolding receive_and_playout
  receive_and_playout_version rs p hdr payload w e v = ground arith

  -- A packet from another source than the session is locked to, where not every source is accepted,
  -- makes the call return -1, with its bytes counted and nothing else changed.
  receive_and_playout_stranger :
      (rs : RcvSession D) (p : Packet) (hdr : RtpHeader) (payload : List ℕ) (w : W)
      → unmarshal_rtp_hdr p.inbuf ≡ some (hdr, payload)
      → rtp_check_hdr hdr ≡ true
      → rs.accept_all_ssrc ≡ false
      → rs.rtp_ssrc ≢ 0
      → rs.rtp_ssrc ≢ hdr.ssrc
      → receive_and_playout dbl dev ca rs (some p) w ≡ (failed, counted rs p.len, w)
  unfolding receive_and_playout lock_sender
  receive_and_playout_stranger rs p hdr payload w e v closed locked other = ground arith

  -- An admitted packet up to 99 steps behind the last one, such as one that the network delivers
  -- late, makes the call return -1. Nothing is played, and the session is as the sender's check left it.
  receive_and_playout_behind :
      (rs rs' : RcvSession D) (p : Packet) (hdr : RtpHeader) (payload : List ℕ) (n : ℕ) (w : W)
      → IsAdmitted rs p hdr payload rs'
      → IsStarted rs.seqs
      → hdr.seq ≡ ahead rs.seqs n
      → rtp_seq_mod - max_misorder < n
      → n < rtp_seq_mod
      → receive_and_playout dbl dev ca rs (some p) w ≡ (failed, rs', w)
  unfolding accept_class
  receive_and_playout_behind rs rs' p hdr payload n w a started e lo hi =
      let (same, _, _, _) = lock_sender-keeps _ _ _ a.sender in
      let behind : update_seq rs'.seqs hdr.seq ≡ (rs'.seqs, seq_dup) =
        rw (same, e) (update_seq_behind rs.seqs n started lo hi) in
      rw (receive-admitted dbl dev ca w a, behind) refl

  -- Less than one sample is a division by 0, so an accepted class runs into it.
  set_current-none :
      (rs : RcvSession D) (hdr : RtpHeader) (len : ℕ)
      → u32 (len * 8) < u32 (rs.audio_precision * rs.audio_channels)
      → set_current rs hdr len ≡ none
  unfolding set_current bytes2samples
  set_current-none rs hdr len short = ground (arith, div-eq_of_lt short)

  accept_class-fault :
      (rs : RcvSession D) (hdr : RtpHeader) (payload : List ℕ) (len : ℕ) (t : SeqType) (w : W)
      → (t ≡ seq_normal) ⊎ (t ≡ seq_gap)
      → u32 (len * 8) < u32 (rs.audio_precision * rs.audio_channels)
      → (accept_class dbl dev ca rs hdr payload len t w).0 ≡ fault
  unfolding accept_class count_lost
  accept_class-fault rs hdr payload len t w (inl e) short =
      rw (e, accept_class, set_current-none rs hdr len short) refl
  accept_class-fault rs hdr payload len t w (inr e) short =
      rw (e, accept_class, set_current-none (count_lost rs) hdr len short) refl

  -- An admitted packet in sequence, whose payload is shorter than one sample of every channel, is a
  -- division by 0.
  receive_and_playout_short :
      (rs rs' : RcvSession D) (p : Packet) (hdr : RtpHeader) (payload : List ℕ) (n : ℕ) (w : W)
      → IsAdmitted rs p hdr payload rs'
      → IsStarted rs.seqs
      → hdr.seq ≡ ahead rs.seqs n
      → n < max_dropout
      → rs.seqs.seq_cycles + rtp_seq_mod < 2 ^ 32
      → rs.audio_precision * rs.audio_channels < 2 ^ 32
      → (p.len - 12) * 8 < rs.audio_precision * rs.audio_channels
      → (receive_and_playout dbl dev ca rs (some p) w).0 ≡ fault
  receive_and_playout_short rs rs' p hdr payload n w a started e hi small fits short =
      let (same, _, bits, channels) = lock_sender-keeps _ _ _ a.sender in
      let (cls, _) = update_seq-in_order rs.seqs n started hi small in
      let accepted : ((update_seq rs'.seqs hdr.seq).1 ≡ seq_normal)
          ⊎ ((update_seq rs'.seqs hdr.seq).1 ≡ seq_gap) =
        rw (same, e) (ground arith) in
      rw (receive-admitted dbl dev ca w a)
        (accept_class-fault _ hdr payload _ _ w accepted (rw (bits, channels) (ground arith)))
