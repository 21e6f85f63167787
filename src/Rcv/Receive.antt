-- ===== src/Rcv/Receive.antt =====
-- `receive_and_playout` of src/sphone_rcv.c, called by the event loop when an RTP packet arrives.
-- The decoder, the network and the audio device are parameters; allocations succeed, and the log
-- file is left out.
use sphone.Prelude.{
  ℕ, ◌+◌, ◌-◌, ◌*◌, ◌/◌, ◌%◌, ◌^◌, Bool, not, ltb, ◌==◌, if◌then◌else◌, Option, none, some, List,
}
use sphone.Prelude.Words.{u32}
use sphone.Prelude.Int.{ℤ, pos, negsuc, ltb_ℤ}
use sphone.Prelude.Memory.{Block}
use sphone.Units.{bytes2samples}
use sphone.Coding.Channels.{coding_expand}
use sphone.Rtp.Header.{RtpHeader, sizeof_rtp_header, unmarshal_rtp_hdr}
use sphone.Rtp.Flags.{rtp_get_pt}
use sphone.Rtp.Session.{rtp_check_hdr}
use sphone.Playout.Device.{Device, Double}
use sphone.Playout.Shbuf.{SeqType, seq_gap, seq_bad, seq_dup, Shbuf}
use sphone.Playout.Dispatch.{PlayoutType, playout_play}
use sphone.Rcv.Sequence.{SeqState, update_seq}

-- What `inet_input` delivers: the receive buffer, of which the first `len` bytes are the packet,
-- and the sender's address.
pub record Packet : Type 0 where
  pub inbuf : List ℕ
  pub len : ℕ
  pub from : ℕ

-- The functions of `coding_api` (coding/sphone_coding.h); `none` is a negative result. `decode` is
-- given the payload with the bytes of the buffer behind it, its length, and the decoded length.
pub record CodingApi (W : Type 0) : Type 0 where
  pub transformlen : ℕ → Option ℕ
  pub decode : List ℕ → ℕ → ℕ → W → Option Block × W

-- `struct rcv_session` and the parts of `struct rtp_session`, `struct coding_params`,
-- `struct rcv_stats` and `struct rtcp_rcv_stats` that the function uses
pub record RcvSession (D : Type 0) : Type 0 where
  pub rtp_ssrc : ℕ
  pub rtp_payload : ℕ
  pub rtcp_dst_addr : ℕ
  pub rtcp_stats_bytes : ℕ
  pub accept_all_ssrc : Bool
  pub lost_pkts : ℕ
  pub seqs : SeqState
  pub ts_cur : ℕ
  pub ts_prev : ℕ
  pub playout_type : PlayoutType
  pub playout : Shbuf D
  pub audio_precision : ℕ
  pub audio_channels : ℕ
  pub nw_channels : ℕ

-- How a call ends: with a result, or with a division by 0, a read past the buffer or a loop that
-- does not end.
pub data Outcome : Type 0 where
  returned : ℤ → Outcome
  fault : Outcome

abbrev pub ok : Outcome
ok = returned (pos 0)

abbrev pub failed : Outcome
failed = returned (negsuc 0)

module _ {D : Type 0} where
  -- Accept any new sender; drop others, unless every source is accepted: `none`.
  unfoldable pub lock_sender : RcvSession D → ℕ → ℕ → Option (RcvSession D)
  lock_sender rs ssrc from =
      if rs.rtp_ssrc == 0
      then some (record rs { rtp_ssrc = ssrc; rtcp_dst_addr = from })
      else (if not (rs.rtp_ssrc == ssrc)
          then (if rs.accept_all_ssrc then some (record rs { rtp_ssrc = ssrc }) else none)
          else some rs)

  -- The numbers of the packet become the current ones. `none` is a division by 0.
  unfoldable pub set_current : RcvSession D → RtpHeader → ℕ → Option (RcvSession D)
  set_current rs hdr len = elim (bytes2samples rs.audio_precision len rs.audio_channels) [
    | some samples ↦
        if samples == 0
        then none
        else some (record rs {
          seqs = record rs.seqs { seq_cur = (rs.seqs.seq_cycles + hdr.seq) % 2 ^ 16 };
          ts_cur = u32 (hdr.ts.sec * 0x10000 + hdr.ts.frac) / samples;
        })
    | none ↦ none
  ]

  -- `rst_lost_pkts += seq_cur - seq_prev - 1`, before `seq_cur` is set
  unfoldable pub count_lost : RcvSession D → RcvSession D
  count_lost rs = record rs {
    lost_pkts = u32 (rs.lost_pkts + rs.seqs.seq_cur + 2 ^ 32 - rs.seqs.seq_prev - 1);
  }

module _ (dbl : Double) {W : Type 0} (dev : Device W) (ca : CodingApi W) where
  open dbl use {D}

  -- The end of the function, once the packet is played
  abbrev commit : RcvSession D → RcvSession D
  commit rs = record rs {
    seqs = record rs.seqs { seq_prev = rs.seqs.seq_cur };
    ts_prev = rs.ts_cur;
  }

  -- The last steps: play what is decoded.
  unfoldable pub play_decoded : RcvSession D → Block → ℕ → SeqType → W → Outcome × RcvSession D × W
  play_decoded rs dec_buf dec_len t w =
      let (played, ps, w1) =
        playout_play dbl dev rs.playout_type rs.playout dec_buf dec_len t rs.seqs.seq_cur
          rs.seqs.seq_prev w in
      let rs' = record rs { playout = ps } in
      elim played [
        | none ↦ (fault, rs', w1)
        | some retval ↦ if ltb_ℤ retval (pos 0) then (failed, rs', w1) else (ok, commit rs', w1)
      ]

  -- From the label `Coding` on: `payload` is the buffer from the payload on, of `len` bytes.
  unfoldable pub decode_and_play :
      RcvSession D → ℕ → List ℕ → ℕ → SeqType → W → Outcome × RcvSession D × W
  decode_and_play rs pt payload len t w =
      let w1 = if not (pt == rs.rtp_payload) then dev.sphone_error w else w in
      elim (ca.transformlen len) [
        | none ↦ (failed, rs, w1)
        | some dec_len ↦
            if rs.nw_channels == 0
            then (fault, rs, w1)
            else (let factor = rs.audio_channels / rs.nw_channels in
                let (decoded, w2) = ca.decode payload len dec_len w1 in
                elim decoded [
                  | none ↦ (failed, rs, w2)
                  | some dec_buf ↦
                      if ltb 1 factor
                      then elim (coding_expand dec_buf dec_len rs.audio_precision factor) [
                        | none ↦ (fault, rs, w2)
                        | some (buf, n) ↦ play_decoded rs buf n t w2
                      ]
                      else play_decoded rs dec_buf dec_len t w2
                ])
      ]

  -- The `switch` on the packet's class
  unfoldable pub accept_class :
      RcvSession D → RtpHeader → List ℕ → ℕ → SeqType → W → Outcome × RcvSession D × W
  accept_class rs hdr payload len seq_bad w = (failed, rs, w)
  accept_class rs hdr payload len seq_dup w = (failed, rs, w)
  accept_class rs hdr payload len t w =
      let counted : RcvSession D = elim t [ seq_gap ↦ count_lost rs | _ ↦ rs ] in
      elim (set_current counted hdr len) [
        | none ↦ (fault, counted, w)
        | some rs' ↦ decode_and_play rs' (rtp_get_pt hdr.flags) payload len t w
      ]

  -- `none` is an `inet_input` that fails. `len` is a `size_t`: it wraps below the header's size.
  unfoldable pub receive_and_playout : RcvSession D → Option Packet → W → Outcome × RcvSession D × W
  receive_and_playout rs none w = (ok, rs, w)
  receive_and_playout rs (some packet) w =
      let rs1 = record rs { rtcp_stats_bytes = u32 (u32 (rs.rtcp_stats_bytes + packet.len) + 1) } in
      elim (unmarshal_rtp_hdr packet.inbuf) [
        | none ↦ (fault, rs1, w)
        | some (hdr, payload) ↦
            if not (rtp_check_hdr hdr)
            then (ok, rs1, w)
            else elim (lock_sender rs1 hdr.ssrc packet.from) [
              | none ↦ (failed, rs1, w)
              | some rs2 ↦
                  let (seqs, t) = update_seq rs2.seqs hdr.seq in
                  let rs3 = record rs2 { seqs = seqs } in
                  let len = (packet.len + 2 ^ 64 - sizeof_rtp_header) % 2 ^ 64 in
                  if len == 0 then (ok, rs3, w) else accept_class rs3 hdr payload len t w
            ]
      ]
