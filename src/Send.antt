-- ===== src/Send.antt =====
-- `record_and_send` of src/sphone_send.c: the samples of a recorded packet become an RTP packet. The
-- encoder, the clock and the network are parameters.
pub mod Packets
mod Tests
use sphone.Prelude.{
  ℕ, suc, ◌+◌, ◌-◌, ◌*◌, ◌/◌, ◌%◌, ◌^◌, Bool, true, false, ltb, ◌==◌, if◌then◌else◌, Option, none,
  some, List, ◌++◌, length,
}
use sphone.Prelude.Words.{u32}
use sphone.Prelude.Memory.{Block}
use sphone.TimeVal.{TimeVal}
use sphone.Rtp.Header.{RtpHeader, sizeof_rtp_header, marshal_rtp_hdr}
use sphone.Rtp.Session.{outgoing_hdr}
use sphone.Coding.Channels.{coding_reduce}
use sphone.Rcv.Receive.{Outcome, returned, fault, ok, failed}
use sphone.Silence.{silent, sounding, unsupported, bad_read, silence}

-- The fields of `struct send_session` and what it points to that the function uses, with its static
-- header
pub record SendSession : Type 0 where
  pub hdr : RtpHeader
  pub rtp_ssrc : ℕ
  pub rtp_payload : ℕ
  pub ss_seq : ℕ
  pub silence_detection : Bool
  pub silence_nr : ℕ
  pub silence_threshold : ℕ
  pub sst_sbytes : ℕ
  pub audio_precision : ℕ
  pub audio_channels : ℕ
  pub audio_size_ms : ℕ
  pub nw_channels : ℕ

-- The coding, the clock, `sendto` (`false` is a negative result) and `sphone_error`. `encode` is given
-- the samples, their length and the length to write, and gives the bytes that it writes.
pub record Recorder (W : Type 0) : Type 0 where
  pub transformlen : ℕ → Option ℕ
  pub encode : Block → ℕ → ℕ → W → Option (List ℕ) × W
  pub gettimestamp : W → TimeVal × W
  pub sendto : List ℕ → W → Bool × W
  pub sphone_error : W → W

abbrev pub max_pkt_size : ℕ
max_pkt_size = 1472

abbrev pub silence_threshold_ms : ℕ
silence_threshold_ms = 200

module _ {W : Type 0} (rec : Recorder W) where
  -- From "Encode payload" on. Payload bytes past the end of `outbuf` are a fault.
  unfoldable pub encode_and_send : SendSession → Block → ℕ → ℕ → W → Outcome × SendSession × W
  encode_and_send ss databuf datalen encodelen w =
      let (encoded, w1) = rec.encode databuf datalen encodelen w in
      elim encoded [
        | none ↦ (failed, ss, w1)
        | some payload ↦
            if ltb max_pkt_size (sizeof_rtp_header + encodelen)
            then (fault, ss, w1)
            else (let (now, w2) = rec.gettimestamp w1 in
                let hdr = outgoing_hdr now ss.hdr ss.rtp_ssrc ss.rtp_payload ss.ss_seq in
                let ss' = record ss { hdr = hdr; ss_seq = u32 (suc ss.ss_seq) } in
                let (sent, w3) = rec.sendto (marshal_rtp_hdr hdr ++ payload) w2 in
                if sent
                then (
                  ok,
                  record ss' {
                    sst_sbytes = u32 (u32 (ss'.sst_sbytes + (sizeof_rtp_header + encodelen)) + 1);
                  },
                  w3,
                )
                else (failed, ss', rec.sphone_error w3))
      ]

  -- "Check for silence"
  unfoldable pub detect_and_send : SendSession → Block → ℕ → ℕ → W → Outcome × SendSession × W
  detect_and_send ss databuf datalen encodelen w =
      if ss.silence_detection
      then (if ss.audio_size_ms == 0
          then (fault, ss, w)
          else (let ss' = record ss {
            silence_threshold = silence_threshold_ms / ss.audio_size_ms;
          } in
              let (verdict, nr) =
                silence databuf datalen ss'.audio_precision ss'.silence_nr ss'.silence_threshold in
              let ss2 = record ss' { silence_nr = nr } in
              let rest = encode_and_send ss2 databuf datalen encodelen w in
              elim verdict [
                | silent ↦ (ok, ss2, w)
                | sounding ↦ rest
                | unsupported ↦ (failed, ss2, rec.sphone_error w)
                | bad_read ↦ (fault, ss2, w)
              ]))
      else encode_and_send ss databuf datalen encodelen w

  -- The encoded length, and the check that a packet is not too long
  unfoldable pub size_and_send : SendSession → Block → ℕ → W → Outcome × SendSession × W
  size_and_send ss databuf datalen w = elim (rec.transformlen datalen) [
    | none ↦ (failed, ss, w)
    | some encodelen ↦
        if ltb max_pkt_size encodelen
        then (failed, ss, rec.sphone_error w)
        else detect_and_send ss databuf datalen encodelen w
  ]

  unfoldable pub record_and_send : SendSession → Block → ℕ → W → Outcome × SendSession × W
  record_and_send ss databuf datalen w =
      if ss.nw_channels == 0
      then (fault, ss, w)
      else (let reduce_factor = ss.audio_channels / ss.nw_channels in
          if ltb 1 reduce_factor
          then elim (coding_reduce databuf datalen ss.audio_precision reduce_factor) [
            | none ↦ (fault, ss, w)
            | some (buf, n) ↦ size_and_send ss buf n w
          ]
          else size_and_send ss databuf datalen w)
