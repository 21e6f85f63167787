-- ===== src/Spc/Control.antt =====
-- utils/spc.c: a client's connection to its server, and what it does with the messages and the packets that come.
use sphone.Prelude.{ℕ, Bool, true, false, not, ◌==◌, if◌then◌else◌, Option, none, some}
use sphone.Prelude.Int.{pos}
use sphone.TimeVal.{timeradd}
use sphone.EventLoop.{Loop, eventloop_reg_fd, eventloop_reg_timeout, eventloop_unreg}
use sphone.Sp.{
  SpType, register, start_send, start_rcv, exit, SpProto, no_start, no_addr, spc_init_interval,
  spc_server_interval,
}
use sphone.Spc.{
  SpcState, ss_init, ss_server, ss_data_rcv, ss_data_send, ss_data_send_closing, Session,
  no_session, sending, receiving, Spc, Outcome, ok, failed, ended, fault, FromServer, Connected,
  Net, server_input_fn, udp_socket_input_fn, sps_wrapper_fn, spc_arg, set_net, set_state,
  sphone_error,
}
use sphone.Spc.Send.{send_data_input, start_sender}
use sphone.Spc.Receive.{rcv_data_input, start_receiver}

-- The number of a socket, where -1 is none
abbrev pub fd_of : Option ℕ → ℕ
fd_of none = 0xffffffff
fd_of (some s) = s

abbrev pub is_busy : SpcState → ℕ
is_busy ss_init = 0
is_busy ss_server = 0
is_busy _ = 1

module _ {W : Type 0} (io : Net W) where
  abbrev pub close_socket : Option ℕ → W → W
  close_socket none w = w
  close_socket (some s) w = io.close s w

  -- The session is freed; its timer is not taken out.
  abbrev pub lost_server : Loop (Spc W) → Loop (Spc W)
  lost_server l = record l {
    world = record l.world {
      sp_s = none;
      sp_data = no_session;
      sp_state = ss_init;
      net = close_socket l.world.sp_s l.world.net;
    };
  }

  -- `false` is -1.
  unfoldable pub spc_state2init : Loop (Spc W) → Bool × Loop (Spc W)
  spc_state2init l =
      let (found, l1) = eventloop_unreg (fd_of l.world.sp_s) server_input_fn spc_arg l in
      if found then (true, lost_server l1) else (false, sphone_error l1)

  -- The process ends. `none` is a socket of -1.
  unfoldable pub exit_with : Option ℕ → Loop (Spc W) → Loop (Spc W)
  exit_with none l = l
  exit_with (some s) l =
      let l1 = (eventloop_unreg s server_input_fn spc_arg l).1 in
      let l2 = (eventloop_unreg l.world.sp_ds udp_socket_input_fn spc_arg l1).1 in
      set_net (io.close s l2.world.net) l2

  unfoldable pub spc_exit : Loop (Spc W) → Outcome × Loop (Spc W)
  unfolding exit_with
  spc_exit l = (ended, exit_with l.world.sp_s l)

  -- A start is taken in SS_SERVER only.
  unfoldable pub in_server :
      SpcState → Outcome × Loop (Spc W) → Loop (Spc W) → Outcome × Loop (Spc W)
  in_server ss_server started l = started
  in_server _ started l = (ok, l)

  unfoldable pub by_type : SpType → SpProto → Loop (Spc W) → Outcome × Loop (Spc W)
  unfolding in_server spc_exit
  by_type start_send sp l = in_server l.world.sp_state (start_sender io sp l) l
  by_type start_rcv sp l = in_server l.world.sp_state (start_receiver io sp l) l
  by_type exit sp l = spc_exit l
  by_type _ sp l = (ok, l)

  unfoldable pub after_recv : FromServer → Loop (Spc W) → Outcome × Loop (Spc W)
  unfolding spc_state2init by_type
  after_recv FromServer.unread l = (ok, l)
  after_recv FromServer.closed l = (ok, (spc_state2init l).1)
  after_recv FromServer.not_ours l = (ok, l)
  after_recv (FromServer.message sp) l =
      if sp.sp_id == l.world.sp_id then by_type sp.sp_type sp l else (ok, l)

  unfoldable pub server_input : Loop (Spc W) → Outcome × Loop (Spc W)
  unfolding after_recv
  server_input l = let (m, w) = io.recv l.world.sp_s l.world.net in after_recv m (set_net w l)

  -- "dummy read"
  abbrev drop_input : Loop (Spc W) → Outcome × Loop (Spc W)
  drop_input l = let (input, w) = io.inet_input l.world.sp_ds l.world.net in (ok, set_net w l)

  -- `sp_data` is taken for what the state says that it is.
  unfoldable pub input_for : SpcState → Session → Loop (Spc W) → Outcome × Loop (Spc W)
  input_for ss_data_rcv (receiving rs) l = rcv_data_input io l
  input_for ss_data_send (sending ss) l = send_data_input io ss l
  input_for ss_data_send_closing (sending ss) l = send_data_input io ss l
  input_for ss_server _ l = drop_input l
  input_for ss_init _ l = drop_input l
  input_for _ _ l = (fault, l)

  unfoldable pub udp_socket_input : Loop (Spc W) → Outcome × Loop (Spc W)
  unfolding input_for
  udp_socket_input l = input_for l.world.sp_state l.world.sp_data l

  -- 1 is `connected`, 0 is `try_again`, -1 is `unconnected`.
  unfoldable pub after_connect : Connected → ℕ → Loop (Spc W) → Connected × Loop (Spc W)
  after_connect Connected.connected s l =
      (Connected.connected, record l { world = record l.world { sp_s = some s } })
  after_connect r s l =
      (r, record l { world = record l.world { sp_s = none; net = io.close s l.world.net } })

  unfoldable pub connect_server : Loop (Spc W) → Connected × Loop (Spc W)
  unfolding after_connect
  connect_server l =
      let (s, w1) = io.socket l.world.net in
      elim s [
        | none ↦
            (Connected.unconnected, record l { world = record l.world { sp_s = none; net = w1 } })
        | some fd ↦
            let (r, w2) = io.connect fd l.world.sp_addr w1 in after_connect r fd (set_net w2 l)
      ]

  unfoldable pub register_message : SpcState → ℕ → SpProto
  register_message state id = record {
    sp_type = register;
    sp_len = io.sizeof_sp;
    sp_id = id;
    sp_starthdr = no_start;
    sp_reghdr = record { sr_addr_pub = no_addr; sr_busy = is_busy state };
  }

  -- `false` is -1.
  unfoldable pub send_register : Option ℕ → Loop (Spc W) → Bool × Loop (Spc W)
  unfolding register_message
  send_register s l =
      let sp = register_message l.world.sp_state l.world.sp_id in
      let (sent, w) = io.send_sp s (some l.world.sp_addr) sp l.world.net in (sent, set_net w l)

  -- The end of `sps_wrapper`
  unfoldable pub wrap_again : ℕ → Loop (Spc W) → Outcome × Loop (Spc W)
  wrap_again interval l =
      let (t, w) = io.gettimestamp l.world.net in
      let t' = timeradd t (record { tv_sec = pos interval; tv_usec = pos 0 }) in
      (ok, eventloop_reg_timeout t' sps_wrapper_fn spc_arg (set_net w l))

  -- By the connection to the server, and then by its UDP port
  unfoldable pub register_twice : Loop (Spc W) → Outcome × Loop (Spc W)
  unfolding send_register wrap_again
  register_twice l =
      let (sent, l1) = send_register l.world.sp_s l in
      if not sent
      then (failed, l1)
      else (let (sent2, l2) = send_register (some l.world.sp_ds) l1 in
          if not sent2 then (failed, l2) else wrap_again spc_server_interval l2)

  -- After `connect_server`
  unfoldable pub after_connect_server : Connected → Loop (Spc W) → Outcome × Loop (Spc W)
  unfolding register_twice wrap_again
  after_connect_server Connected.unconnected l = (failed, l)
  after_connect_server Connected.try_again l = wrap_again spc_init_interval l
  after_connect_server Connected.connected l =
      register_twice
        (eventloop_reg_fd (fd_of l.world.sp_s) server_input_fn spc_arg (set_state ss_server l))

  unfoldable pub wrapper_in : SpcState → Loop (Spc W) → Outcome × Loop (Spc W)
  unfolding connect_server after_connect_server register_twice
  wrapper_in ss_init l = let (r, l1) = connect_server l in after_connect_server r l1
  wrapper_in _ l = register_twice l

  unfoldable pub sps_wrapper : Loop (Spc W) → Outcome × Loop (Spc W)
  unfolding wrapper_in
  sps_wrapper l = wrapper_in l.world.sp_state l
