-- ===== src/Rtcp/Timers.antt =====
-- The timers that send RTCP reports: rtcp_send_init, rtcp_send_send_dispatch and rtcp_rcv_send_dispatch of
-- src/sphone_rtcp_send.c, and rtcp_rcv_init of src/sphone_rtcp_rcv.c.
use sphone.Prelude.{ℕ, zero, suc, ◌+◌, ◌*◌, ◌≡◌, Bool, true, false, if◌then◌else◌, [], ◌∷◌}
use sphone.Prelude.Words.{u32}
use sphone.Prelude.Int.{pos, ◌+ℤ◌}
use sphone.TimeVal.{TimeVal, timeradd, micros}
use sphone.TimeVal.Arithmetic.{IsNormal}
use sphone.EventLoop.{Event, Loop, same_timer, eventloop_reg_timeout, eventloop_reg_fd}
use sphone.Rtcp.Time.{Doubles}
use sphone.Rtcp.Send.{SendStats, RcvStats, Net, rtcp_send_sr, rtcp_send_rr}

abbrev pub rtcp_report_interval_s : ℕ
rtcp_report_interval_s = 5

abbrev pub interval : TimeVal
interval = record { tv_sec = pos rtcp_report_interval_s; tv_usec = pos 0 }

-- The callbacks, as function pointers
abbrev pub send_send_fn : ℕ
send_send_fn = 1

abbrev pub send_rcv_fn : ℕ
send_rcv_fn = 2

abbrev pub rcv_send_fn : ℕ
rcv_send_fn = 3

abbrev pub rcv_rcv_fn : ℕ
rcv_rcv_fn = 4

-- What a sending session and a receiving session have to do with RTCP, and everything else; `addr` is the session's
-- address, and `lost` is what the report's stack holds.
pub record Sender (W : Type 0) : Type 0 where
  pub addr : ℕ
  pub rtp_ssrc : ℕ
  pub rtcp_timer : TimeVal
  pub ss_rtcp : SendStats
  pub cp_samp_sec : ℕ
  pub sst_spkt : ℕ
  pub sst_sbytes : ℕ
  pub net : W

pub record Receiver (W : Type 0) : Type 0 where
  pub addr : ℕ
  pub rtp_ssrc : ℕ
  pub rtcp_timer : TimeVal
  pub rs_rtcp : RcvStats
  pub rst_lost_pkts : ℕ
  pub seq_cur : ℕ
  pub lost : ℕ
  pub net : W

module _ (dbl : Doubles) {W : Type 0} (io : Net W) where
  -- `false` is -1.
  unfoldable pub rtcp_send_send_dispatch : Loop (Sender W) → Bool × Loop (Sender W)
  unfolding rtcp_send_sr timeradd eventloop_reg_timeout
  rtcp_send_send_dispatch l =
      let ss = l.world in
      let (sent, rss, w) =
        rtcp_send_sr dbl io ss.rtp_ssrc ss.ss_rtcp ss.cp_samp_sec ss.sst_spkt ss.sst_sbytes
          ss.net in
      let ss1 = record ss { ss_rtcp = rss; net = w } in
      if sent
      then (let ss2 = record ss1 { rtcp_timer = timeradd ss1.rtcp_timer interval } in
          (
            true,
            eventloop_reg_timeout ss2.rtcp_timer send_send_fn ss2.addr (record l { world = ss2 }),
          ))
      else (false, record l { world = ss1 })

  unfoldable pub rtcp_rcv_send_dispatch : Loop (Receiver W) → Bool × Loop (Receiver W)
  unfolding rtcp_send_rr timeradd eventloop_reg_timeout
  rtcp_rcv_send_dispatch l =
      let rs = l.world in
      let (sent, rrs, w) =
        rtcp_send_rr dbl io rs.rtp_ssrc rs.rs_rtcp 0 rs.rst_lost_pkts rs.seq_cur rs.lost rs.net in
      let rs1 = record rs { rs_rtcp = rrs; net = w } in
      if sent
      then (let rs2 = record rs1 { rtcp_timer = timeradd rs1.rtcp_timer interval } in
          (
            true,
            eventloop_reg_timeout rs2.rtcp_timer rcv_send_fn rs2.addr (record l { world = rs2 }),
          ))
      else (false, record l { world = rs1 })

  unfoldable pub rtcp_send_init : ℕ → Loop (Sender W) → Loop (Sender W)
  unfolding timeradd eventloop_reg_timeout eventloop_reg_fd
  rtcp_send_init s l =
      let (now, w) = io.gettimestamp l.world.net in
      let ss = record l.world { rtcp_timer = timeradd now interval; net = w } in
      let l1 = eventloop_reg_timeout ss.rtcp_timer send_send_fn ss.addr (record l { world = ss }) in
      eventloop_reg_fd s send_rcv_fn ss.addr l1

  unfoldable pub rtcp_rcv_init : ℕ → Loop (Receiver W) → Loop (Receiver W)
  unfolding timeradd eventloop_reg_timeout eventloop_reg_fd
  rtcp_rcv_init s l =
      let (now, w) = io.gettimestamp l.world.net in
      let rs = record l.world { rtcp_timer = timeradd now interval; net = w } in
      let l1 = eventloop_reg_timeout rs.rtcp_timer rcv_send_fn rs.addr (record l { world = rs }) in
      eventloop_reg_fd s rcv_rcv_fn rs.addr l1

  -- What the loop does with the timer that is first, where it is the session's for sender reports: it takes it from the
  -- list and calls the callback.
  unfoldable pub fire_report : Loop (Sender W) → Bool × Loop (Sender W)
  unfolding rtcp_send_send_dispatch
  fire_report l = elim l.ee_timers [
    | [] ↦ (false, l)
    | e ∷ rest ↦
        if same_timer send_send_fn l.world.addr e
        then rtcp_send_send_dispatch (record l { ee_timers = rest })
        else (false, l)
  ]

  unfoldable pub send_reports : ℕ → Loop (Sender W) → Bool × Loop (Sender W)
  unfolding fire_report
  send_reports zero l = (true, l)
  send_reports (suc n) l =
      let (sent, l1) = fire_report l in
      let rest = send_reports n l1 in if sent then rest else (false, l1)

  -- The one timer of the loop is for the session's next sender report.
  abbrev pub IsWaiting : Loop (Sender W) → Type 0
  IsWaiting l =
      (e : Event) × (l.ee_timers ≡ e ∷ [])
      × (e.e_fn ≡ send_send_fn)
      × (e.e_arg ≡ l.world.addr)
      × (e.e_time ≡ l.world.rtcp_timer)

  -- After so many reports the timer has moved on by exactly as many intervals, the reports are counted, and the loop
  -- waits for the next.
  abbrev pub Reported : ℕ → Loop (Sender W) → Bool × Loop (Sender W) → Type 0
  Reported n l r =
      (r.0 ≡ true)
      × (micros r.1.world.rtcp_timer ≡ micros l.world.rtcp_timer +ℤ pos (n * 5000000))
      × IsNormal r.1.world.rtcp_timer
      × (u32 r.1.world.ss_rtcp.rss_sr_pkts ≡ u32 (l.world.ss_rtcp.rss_sr_pkts + n))
      × IsWaiting r.1
