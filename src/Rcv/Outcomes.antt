-- ===== src/Rcv/Outcomes.antt =====
-- What `receive_and_playout` does to the session, on each way through it.
use sphone.Prelude.{ℕ, ◌+◌, ◌-◌, ◌%◌, ◌^◌, ◌<◌, ◌≡◌, refl, true, false, ◌==◌, some, List, arith}
use sphone.Prelude.Words.{u32}
use sphone.Prelude.Memory.{Block}
use sphone.Rtp.Header.{RtpHeader, unmarshal_rtp_hdr}
use sphone.Rtp.Session.{rtp_check_hdr}
use sphone.Playout.Device.{Device, Double}
use sphone.Playout.Shbuf.{SeqType, seq_gap}
use sphone.Rcv.Sequence.{update_seq}
use sphone.Rcv.Receive.{
  Packet, CodingApi, RcvSession, Outcome, ok, lock_sender, set_current, count_lost, play_decoded,
  decode_and_play, accept_class, receive_and_playout,
}

module _ {D : Type 0} where
  -- The session as it counts an arriving packet of `len` bytes
  abbrev pub counted : RcvSession D → ℕ → RcvSession D
  counted rs len = record rs { rtcp_stats_bytes = u32 (u32 (rs.rtcp_stats_bytes + len) + 1) }

  -- A packet that passes every check before the sequence number, with its header, its payload, and
  -- the session with the sender taken in.
  pub record IsAdmitted (rs : RcvSession D) (p : Packet) (hdr : RtpHeader) (payload : List ℕ)
      (rs' : RcvSession D) : Type 0 where
    pub header : unmarshal_rtp_hdr p.inbuf ≡ some (hdr, payload)
    pub version : rtp_check_hdr hdr ≡ true
    pub sender : lock_sender (counted rs p.len) hdr.ssrc p.from ≡ some rs'
    pub length : 12 < p.len
    pub fits : p.len < 2 ^ 32

module _ (dbl : Double) {W : Type 0} (dev : Device W) (ca : CodingApi W) where
  open dbl use {D}

  -- An admitted packet goes by its class.
  pub receive-admitted :
      {rs rs' : RcvSession D} {p : Packet} {hdr : RtpHeader} {payload : List ℕ} (w : W)
      → IsAdmitted rs p hdr payload rs'
      → receive_and_playout dbl dev ca rs (some p) w
        ≡ accept_class dbl dev ca
            (record rs' { seqs = (update_seq rs'.seqs hdr.seq).0 })
            hdr
            payload
            (p.len - 12)
            (update_seq rs'.seqs hdr.seq).1
            w
  unfolding receive_and_playout
  receive-admitted {rs} {rs'} {p} {hdr} {payload} w a =
      let e : (p.len + 2 ^ 64 - 12) % 2 ^ 64 ≡ p.len - 12 = omega arith in
      let ne : (p.len - 12 == 0) ≡ false = ground arith in
      rw (a.header, receive_and_playout, a.version, a.sender, e, ne) refl

  -- What the steps after the class is known do to the counters: they leave the lost packets and
  -- the current number alone, and on success take the current number for the previous one.
  abbrev pub Keeps : RcvSession D → Outcome × RcvSession D × W → Type 0
  Keeps rs result =
      (result.1.lost_pkts ≡ rs.lost_pkts)
      × (result.1.seqs.seq_cur ≡ rs.seqs.seq_cur)
      × (result.0 ≡ ok → result.1.seqs.seq_prev ≡ rs.seqs.seq_cur)

  pub play_decoded-Keeps :
      (rs : RcvSession D) (buf : Block) (n : ℕ) (t : SeqType) (w : W)
      → Keeps rs (play_decoded dbl dev ca rs buf n t w)
  unfolding play_decoded
  play_decoded-Keeps rs buf n t w = ground arith

  pub decode_and_play-Keeps :
      (rs : RcvSession D) (pt : ℕ) (payload : List ℕ) (len : ℕ) (t : SeqType) (w : W)
      → Keeps rs (decode_and_play dbl dev ca rs pt payload len t w)
  unfolding decode_and_play
  decode_and_play-Keeps rs pt payload len t w = grind (arith, play_decoded-Keeps)

  -- The session as a gap counts it: `seq_cur` is still the number before.
  pub accept_class-lost :
      (rs : RcvSession D) (hdr : RtpHeader) (payload : List ℕ) (len : ℕ) (w : W)
      → (accept_class dbl dev ca rs hdr payload len seq_gap w).1.lost_pkts
        ≡ (count_lost rs).lost_pkts
  unfolding accept_class set_current
  accept_class-lost rs hdr payload len w = grind (arith, decode_and_play-Keeps)
