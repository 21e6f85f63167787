-- ===== src/Spc/Send.antt =====
-- utils/spc_send.c: a client that sends. It paces its packets by a timer, notes those that come back, and reports
-- to the server at the end.
use sphone.Prelude.{
  ℕ, zero, suc, ◌+◌, ◌-◌, ◌*◌, ◌/◌, ◌%◌, Bool, true, false, not, ◌&&◌, ◌||◌, ltb, ◌==◌,
  if◌then◌else◌, Option, none, some, List, [], ◌∷◌, ◌++◌, length, take, drop, replicate,
}
use sphone.Prelude.Int.{pos, pos_part, ltb_ℤ, ◌+ℤ◌}
use sphone.Prelude.Words.{u32, sub32}
use sphone.TimeVal.{TimeVal, timeradd, timersub, timercmp_lt}
use sphone.Rtp.Header.{RtpHeader, marshal_rtp_hdr, unmarshal_rtp_hdr}
use sphone.Rtp.Flags.{rtp_pt_dynamic}
use sphone.Rtp.Time.{ntp2tv}
use sphone.Rtp.Session.{outgoing_hdr, rtp_check_hdr}
use sphone.EventLoop.{Loop, eventloop_reg_timeout}
use sphone.Sp.{SpProto, StartHdr, report_send, no_register, sp_buflen}
use sphone.Spc.{
  SpcState, ss_server, ss_data_send, ss_data_send_closing, SpSendSession, no_session, sending, Spc,
  Outcome, ok, failed, fault, Net, send_data_wrapper_fn, set_net, set_state, set_session,
  send_session_at,
}

abbrev pub spc_send_timeout_s : ℕ
spc_send_timeout_s = 3

abbrev pub one_second : TimeVal
one_second = record { tv_sec = pos 1; tv_usec = pos 0 }

-- `cp_size_ms` as a time
abbrev pub packet_time : ℕ → TimeVal
packet_time ms = record { tv_sec = pos (ms / 1000); tv_usec = pos (ms % 1000 * 1000) }

-- The number of packets that should have been sent by `now`; the microseconds of a difference are not
-- negative. `passed_ms` is an `int`, as its bit pattern, which the division by `cp_size_ms`, a `uint32_t`, and the
-- comparison with `ss_seq` read as unsigned.
unfoldable pub npackets : TimeVal → TimeVal → ℕ → ℕ
npackets now t0 size_ms =
    let tdiff = timersub now t0 in
    if ltb_ℤ tdiff.tv_sec (pos 0)
    then 0
    else (let passed_ms = u32 (pos_part tdiff.tv_sec * 1000 + pos_part tdiff.tv_usec / 1000) in
        passed_ms / size_ms)

-- The number of the packet that a 16-bit number stands for, where `ss_seq` is the next to send
unfoldable pub echoed_number : ℕ → ℕ → ℕ
echoed_number ss_seq seq =
    let offset =
      if ltb (ss_seq % 0x10000) seq
      then ss_seq % 0x10000 + 0x10000 - seq
      else ss_seq % 0x10000 - seq in
    sub32 ss_seq offset

module _ {W : Type 0} (io : Net W) where
  -- One packet, which fits its buffer: its header, and silence for its payload
  unfoldable pub send_packet : SpSendSession → Loop (Spc W) → Bool × SpSendSession × Loop (Spc W)
  send_packet ss l =
      let (now, w1) = io.gettimestamp l.world.net in
      let hdr = outgoing_hdr now l.world.hdr ss.ss_rtp_ssrc ss.ss_rtp_payload ss.ss_seq in
      let buf = marshal_rtp_hdr hdr ++ replicate l.world.cp_size_bytes 0 in
      let (sent, w2) = io.sendto l.world.sp_ds buf ss.ss_dstaddr w1 in
      (
        sent,
        record ss { ss_seq = u32 (suc ss.ss_seq) },
        record l { world = record l.world { hdr = hdr; net = w2 } },
      )

  -- `while (ss->ss_seq < pkts)`: `rounds` are left.
  unfoldable pub send_data : ℕ → SpSendSession → Loop (Spc W) → Bool × SpSendSession × Loop (Spc W)
  unfolding send_packet
  send_data zero ss l = (true, ss, l)
  send_data (suc rounds) ss l =
      let (sent, ss', l') = send_packet ss l in
      let rest = send_data rounds ss' l' in if sent then rest else (false, ss', l')

  -- The file of the log is read and sent in pieces.
  unfoldable pub send_file : ℕ → List ℕ → Option ℕ → W → Bool × W
  send_file zero text s w = (true, w)
  send_file (suc fuel) [] s w = (true, w)
  send_file (suc fuel) (b ∷ bs) s w =
      let (sent, w1) = io.send_bytes s (take sp_buflen (b ∷ bs)) w in
      let rest = send_file fuel (drop sp_buflen (b ∷ bs)) s w1 in if sent then rest else (false, w1)

  unfoldable pub report_message : ℕ → StartHdr → ℕ → SpProto
  report_message sp_id hdr size = record {
    sp_type = report_send;
    sp_len = io.sizeof_sp + size;
    sp_id = sp_id;
    sp_starthdr = hdr;
    sp_reghdr = no_register;
  }

  -- `false` is -1.
  unfoldable pub send_send_report : SpSendSession → Loop (Spc W) → Bool × Loop (Spc W)
  unfolding send_file report_message
  send_send_report ss l =
      let text = io.log_text ss.ss_log in
      let (opened, w1) = io.open_log l.world.net in
      if not opened
      then (false, set_net w1 l)
      else (let (sent, w2) =
            io.send_sp l.world.sp_s none (report_message l.world.sp_id ss.ss_hdr (length text))
              w1 in
          if not sent
          then (false, set_net w2 l)
          else (let (done, w3) = send_file (length text) text l.world.sp_s w2 in
              (done, set_net w3 l)))

  abbrev pub next_timer : TimeVal → ℕ → Loop (Spc W) → Loop (Spc W)
  next_timer t a l = eventloop_reg_timeout t send_data_wrapper_fn a l

  -- In SS_DATA_SEND_CLOSING: the report, and back to the server
  unfoldable pub finish_sending : SpSendSession → Loop (Spc W) → Outcome × Loop (Spc W)
  unfolding send_send_report
  finish_sending ss l =
      let (reported, l1) = send_send_report ss l in
      if reported then (ok, set_state ss_server (set_session no_session l1)) else (failed, l1)

  -- "Stop sending if duration has passed or if we don't receive any echoes."
  unfoldable pub is_over : SpSendSession → TimeVal → ℕ → Bool
  is_over ss dt size_ms =
      timercmp_lt ss.ss_duration dt
      || (ss.ss_rcvd == 0
          && ltb_ℤ (pos spc_send_timeout_s) dt.tv_sec
          && ltb (spc_send_timeout_s * (1000 / size_ms)) ss.ss_seq)

  -- In SS_DATA_SEND, at the time `tnow`
  unfoldable pub keep_sending : TimeVal → SpSendSession → Loop (Spc W) → Outcome × Loop (Spc W)
  unfolding is_over send_data npackets
  keep_sending tnow ss l =
      let size_ms = l.world.cp_size_ms in
      if is_over ss (timersub tnow ss.ss_t0) size_ms
      then (ok, next_timer (timeradd tnow one_second) ss.addr (set_state ss_data_send_closing l))
      else (let (now, w1) = io.gettimestamp l.world.net in
          let (sent, ss', l1) =
            send_data (npackets now ss.ss_t0 size_ms - ss.ss_seq) ss (set_net w1 l) in
          let l2 = set_session (sending ss') l1 in
          if not sent
          then (failed, l2)
          else (let (t, w2) = io.gettimestamp l2.world.net in
              (ok, next_timer (timeradd t (packet_time size_ms)) ss.addr (set_net w2 l2))))

  -- `cp_size_ms` is 0 where it divides: in the second test of `is_over`, or in `npackets`.
  unfoldable pub divides_by_zero : TimeVal → SpSendSession → Loop (Spc W) → Bool
  divides_by_zero tnow ss l =
      let dt = timersub tnow ss.ss_t0 in
      let now = (io.gettimestamp l.world.net).0 in
      l.world.cp_size_ms == 0
      && not (timercmp_lt ss.ss_duration dt)
      && ((ss.ss_rcvd == 0 && ltb_ℤ (pos spc_send_timeout_s) dt.tv_sec)
          || not (ltb_ℤ (timersub now ss.ss_t0).tv_sec (pos 0)))

  unfoldable pub by_state :
      SpcState → TimeVal → SpSendSession → Loop (Spc W) → Outcome × Loop (Spc W)
  unfolding finish_sending keep_sending divides_by_zero
  by_state ss_data_send_closing tnow ss l = finish_sending ss l
  by_state ss_data_send tnow ss l =
      if divides_by_zero tnow ss l then (fault, l) else keep_sending tnow ss l
  by_state _ tnow ss l = (ok, l)

  -- The timer's argument is read before anything else.
  unfoldable pub send_data_wrapper : ℕ → Loop (Spc W) → Outcome × Loop (Spc W)
  unfolding by_state
  send_data_wrapper arg l = elim (send_session_at arg l.world.sp_data) [
    | none ↦ (fault, l)
    | some ss ↦
        let (tnow, w) = io.gettimestamp l.world.net in
        by_state l.world.sp_state tnow ss (set_net w l)
  ]

  abbrev pub new_session : SpProto → ℕ → TimeVal → Loop (Spc W) → SpSendSession
  new_session sp ssrc now l = record {
    addr = l.world.next_session;
    ss_duration = sp.sp_starthdr.ss_time_duration;
    ss_dstaddr = sp.sp_starthdr.ss_addr_dst_pub;
    ss_t0 = record now { tv_sec = now.tv_sec +ℤ pos 1 };
    ss_hdr = sp.sp_starthdr;
    ss_rtp_payload = rtp_pt_dynamic;
    ss_rtp_ssrc = ssrc;
    ss_seq = 0;
    ss_rcvd = 0;
    ss_log = [];
  }

  abbrev add_session : SpSendSession → W → Loop (Spc W) → Loop (Spc W)
  add_session ss w l = record l {
    world = record l.world {
      sp_data = sending ss;
      next_session = suc l.world.next_session;
      net = w;
    };
  }

  -- The first packets are sent by a call of the timer's function.
  unfoldable pub start_sender : SpProto → Loop (Spc W) → Outcome × Loop (Spc W)
  unfolding send_data_wrapper
  start_sender sp l =
      let (ssrc, w1) = io.random_ssrc l.world.net in
      let (now, w2) = io.gettimestamp w1 in
      let (made, w3) = io.mkstemp w2 in
      let ss = new_session sp ssrc now l in
      let l1 = add_session ss w3 l in
      if not made then (failed, l1) else send_data_wrapper ss.addr (set_state ss_data_send l1)

  -- An echo with a header that is right
  unfoldable pub note_echo : RtpHeader → TimeVal → SpSendSession → SpSendSession
  unfolding echoed_number
  note_echo hdr now ss =
      let sent_at = ntp2tv now hdr.ts in
      record ss {
        ss_rcvd = u32 (suc ss.ss_rcvd);
        ss_log =
            ss.ss_log
            ++ record {
              number = echoed_number ss.ss_seq hdr.seq;
              delay = timersub now sent_at;
              sent = sent_at;
            }
              ∷ [];
      }

  -- A packet shorter than its header reads what the buffer held before, which is not modelled: `none` of the
  -- decoder is a fault.
  unfoldable pub send_data_input : SpSendSession → Loop (Spc W) → Outcome × Loop (Spc W)
  unfolding note_echo
  send_data_input ss l =
      let (input, w1) = io.inet_input l.world.sp_ds l.world.net in
      let l1 = set_net w1 l in
      elim input [
        | none ↦ (ok, l1)
        | some (buf, from) ↦
            let (now, w2) = io.gettimestamp w1 in
            let l2 = set_net w2 l in
            elim (unmarshal_rtp_hdr buf) [
              | none ↦ (fault, l2)
              | some (hdr, rest) ↦
                  if rtp_check_hdr hdr
                  then (ok, set_session (sending (note_echo hdr now ss)) l2)
                  else (ok, l2)
            ]
      ]
