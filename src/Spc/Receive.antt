-- ===== src/Spc/Receive.antt =====
-- utils/spc_rcv.c: a client that receives. It sends every packet back, and reports to the server when its time is
-- over.
use sphone.Prelude.{ℕ, suc, Bool, if◌then◌else◌, none, some}
use sphone.Prelude.Int.{pos, ◌+ℤ◌}
use sphone.TimeVal.{TimeVal, timeradd}
use sphone.Rtp.Header.{unmarshal_rtp_hdr}
use sphone.Rtp.Session.{rtp_check_hdr}
use sphone.EventLoop.{Loop, eventloop_reg_timeout}
use sphone.Sp.{SpProto, StartHdr, report_rcv, no_register}
use sphone.Spc.{
  SpcState, ss_server, ss_data_rcv, SpRcvSession, no_session, receiving, Spc, Outcome, ok, failed,
  fault, Net, rcv_timeout_fn, set_net, set_state, set_session, rcv_session_at,
}

module _ {W : Type 0} (io : Net W) where
  -- `false` is -1.
  unfoldable pub send_rcv_report : StartHdr → Loop (Spc W) → Bool × Loop (Spc W)
  send_rcv_report hdr l =
      let sp : SpProto = record {
        sp_type = report_rcv;
        sp_len = io.sizeof_sp;
        sp_id = l.world.sp_id;
        sp_starthdr = hdr;
        sp_reghdr = no_register;
      } in
      let (sent, w) = io.send_sp l.world.sp_s none sp l.world.net in (sent, set_net w l)

  -- In SS_DATA_RCV: whatever becomes of the report, the session is over.
  unfoldable pub finish_receiving : SpRcvSession → Loop (Spc W) → Outcome × Loop (Spc W)
  unfolding send_rcv_report
  finish_receiving rs l =
      let (sent, l1) = send_rcv_report rs.rs_hdr l in
      (if sent then ok else failed, set_state ss_server (set_session no_session l1))

  unfoldable pub at_timeout : SpcState → SpRcvSession → Loop (Spc W) → Outcome × Loop (Spc W)
  unfolding finish_receiving
  at_timeout ss_data_rcv rs l = finish_receiving rs l
  at_timeout _ rs l = (ok, l)

  -- The timer's argument is read before anything else.
  unfoldable pub rcv_timeout : ℕ → Loop (Spc W) → Outcome × Loop (Spc W)
  unfolding at_timeout
  rcv_timeout arg l = elim (rcv_session_at arg l.world.sp_data) [
    | none ↦ (fault, l)
    | some rs ↦ at_timeout l.world.sp_state rs l
  ]

  -- "Some extra time to wait for data"
  abbrev pub extra_time : TimeVal → TimeVal
  extra_time duration = record duration { tv_sec = duration.tv_sec +ℤ pos 5 }

  unfoldable pub start_receiver : SpProto → Loop (Spc W) → Outcome × Loop (Spc W)
  start_receiver sp l =
      let a = l.world.next_session in
      let rs : SpRcvSession = record { addr = a; rs_hdr = sp.sp_starthdr } in
      let (now, w) = io.gettimestamp l.world.net in
      let l1 = record l {
        world = record l.world {
          sp_data = receiving rs;
          sp_state = ss_data_rcv;
          next_session = suc a;
          net = w;
        };
      } in
      let t = timeradd now (extra_time sp.sp_starthdr.ss_time_duration) in
      (ok, eventloop_reg_timeout t rcv_timeout_fn a l1)

  -- "Echo the message": a packet shorter than its header reads what the buffer held before, which is not modelled.
  unfoldable pub rcv_data_input : Loop (Spc W) → Outcome × Loop (Spc W)
  rcv_data_input l =
      let (input, w1) = io.inet_input l.world.sp_ds l.world.net in
      elim input [
        | none ↦ (ok, set_net w1 l)
        | some (buf, from) ↦
            let (now, w2) = io.gettimestamp w1 in
            elim (unmarshal_rtp_hdr buf) [
              | none ↦ (fault, set_net w2 l)
              | some (hdr, rest) ↦
                  let (sent, w3) = io.sendto l.world.sp_ds buf from w2 in
                  if rtp_check_hdr hdr
                  then (if sent then (ok, set_net w3 l) else (failed, set_net w3 l))
                  else (ok, set_net w2 l)
            ]
      ]
