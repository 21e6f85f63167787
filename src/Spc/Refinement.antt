-- ===== src/Spc/Refinement.antt =====
-- utils/spc.c, spc_send.c and spc_rcv.c: the callbacks together, and the arrows of the state machine
-- that each of them takes.
use mathlib.Core.Path.{subst}
use sphone.Prelude.{arith, ℕ, ◌≡◌, refl, ◌∙◌, inl, inr, Option-cases}
use sphone.EventLoop.{Loop, eventloop_reg_timeout, eventloop_reg_fd}
use sphone.Spc.{
  SpcState, ss_init, ss_server, ss_data_rcv, ss_data_send, ss_data_send_closing, Session,
  no_session, sending, receiving, SpSendSession, Spc, Outcome, Connected, Net, set_net,
}
use sphone.Spc.Send.{send_data_wrapper, send_data_input}
use sphone.Spc.Receive.{rcv_timeout, rcv_data_input}
use sphone.Spc.Control.{
  server_input, input_for, udp_socket_input, after_connect, connect_server, send_register,
  wrap_again, register_twice, after_connect_server, wrapper_in, sps_wrapper,
}
use sphone.Spc.Diagram.{
  Callback, from_server, from_udp, by_wrapper, by_send_timer, by_rcv_timer, found, init_to_server,
  Moves, stays, same, arrow, Follows, after_recv-Follows, send_data_wrapper-Follows,
  rcv_timeout-Follows,
}

module _ {W : Type 0} (io : Net W) where
  -- A callback, called by the event loop
  unfoldable pub run : Callback → Loop (Spc W) → Outcome × Loop (Spc W)
  unfolding server_input udp_socket_input sps_wrapper send_data_wrapper rcv_timeout
  run from_server l = server_input io l
  run from_udp l = udp_socket_input io l
  run by_wrapper l = sps_wrapper io l
  run (by_send_timer a) l = send_data_wrapper io a l
  run (by_rcv_timer a) l = rcv_timeout io a l

  -- The state of the client stays as it is.
  abbrev Keeps : Loop (Spc W) → Outcome × Loop (Spc W) → Type 0
  Keeps l r = r.1.world.sp_state ≡ l.world.sp_state

  send_data_input-Keeps :
      (ss : SpSendSession) (l : Loop (Spc W)) → Keeps l (send_data_input io ss l)
  unfolding send_data_input
  send_data_input-Keeps ss l = ground arith

  rcv_data_input-Keeps : (l : Loop (Spc W)) → Keeps l (rcv_data_input io l)
  unfolding rcv_data_input
  rcv_data_input-Keeps l = ground arith

  input_for-Keeps : (s : SpcState) (d : Session) (l : Loop (Spc W)) → Keeps l (input_for io s d l)
  unfolding input_for
  input_for-Keeps ss_init d l = refl
  input_for-Keeps ss_server d l = refl
  input_for-Keeps ss_data_rcv no_session l = refl
  input_for-Keeps ss_data_rcv (sending ss) l = refl
  input_for-Keeps ss_data_rcv (receiving rs) l = rcv_data_input-Keeps l
  input_for-Keeps ss_data_send no_session l = refl
  input_for-Keeps ss_data_send (sending ss) l = send_data_input-Keeps ss l
  input_for-Keeps ss_data_send (receiving rs) l = refl
  input_for-Keeps ss_data_send_closing no_session l = refl
  input_for-Keeps ss_data_send_closing (sending ss) l = send_data_input-Keeps ss l
  input_for-Keeps ss_data_send_closing (receiving rs) l = refl

  register_twice-Keeps : (l : Loop (Spc W)) → Keeps l (register_twice io l)
  unfolding register_twice send_register wrap_again eventloop_reg_timeout
  register_twice-Keeps l = ground arith

  after_connect-state :
      (r : Connected) (s : ℕ) (l : Loop (Spc W))
      → (after_connect io r s l).1.world.sp_state ≡ l.world.sp_state
  unfolding after_connect
  after_connect-state Connected.connected s l = refl
  after_connect-state Connected.try_again s l = refl
  after_connect-state Connected.unconnected s l = refl

  connect_server-state :
      (l : Loop (Spc W)) → (connect_server io l).1.world.sp_state ≡ l.world.sp_state
  unfolding connect_server after_connect
  connect_server-state l = elim (Option-cases (io.socket l.world.net).0) [
    | inl e ↦ rw (e, connect_server) refl
    | inr (s, e) ↦ rw (e, connect_server) (after_connect-state _ s _)
  ]

  after_connect_server-Follows :
      (r : Connected) (l : Loop (Spc W))
      → l.world.sp_state ≡ ss_init
      → Follows io by_wrapper l (after_connect_server io r l)
  unfolding after_connect_server wrap_again eventloop_reg_timeout eventloop_reg_fd
  after_connect_server-Follows Connected.unconnected l e = stays _ _
  after_connect_server-Follows Connected.try_again l e = stays _ _
  after_connect_server-Follows Connected.connected l e =
      arrow _ _ _ _ _ e found init_to_server (register_twice-Keeps _)

  wrapper_in-Follows :
      (s : SpcState) (l : Loop (Spc W))
      → l.world.sp_state ≡ s
      → Follows io by_wrapper l (wrapper_in io s l)
  unfolding wrapper_in
  wrapper_in-Follows ss_init l e =
      subst (λ x. Moves by_wrapper x (wrapper_in io ss_init l).1.world.sp_state)
        (connect_server-state l) (after_connect_server-Follows _ _ (connect_server-state l ∙ e))
  wrapper_in-Follows ss_server l e = same _ _ _ (register_twice-Keeps l)
  wrapper_in-Follows ss_data_rcv l e = same _ _ _ (register_twice-Keeps l)
  wrapper_in-Follows ss_data_send l e = same _ _ _ (register_twice-Keeps l)
  wrapper_in-Follows ss_data_send_closing l e = same _ _ _ (register_twice-Keeps l)

  -- Every callback, whatever the network, the clock and the files give it, and however it ends, leaves the state as it
  -- is, or takes one arrow of the drawing in utils/spc.c, one that is its own, or one of two moves that are not drawn:
  -- input from the server that starts a sender with no time left takes the two arrows to SS_DATA_SEND and on to
  -- SS_DATA_SEND_CLOSING in one callback, and the loss of the server in SS_DATA_SEND leads to SS_INIT.
  pub run-Follows :
      (c : Callback) (l : Loop (Spc W)) → Moves c l.world.sp_state (run c l).1.world.sp_state
  unfolding run server_input udp_socket_input sps_wrapper
  run-Follows from_server l =
      after_recv-Follows io (io.recv l.world.sp_s l.world.net).0
        (set_net (io.recv l.world.sp_s l.world.net).1 l)
  run-Follows from_udp l = same _ _ _ (input_for-Keeps l.world.sp_state l.world.sp_data l)
  run-Follows by_wrapper l = wrapper_in-Follows l.world.sp_state l refl
  run-Follows (by_send_timer a) l = send_data_wrapper-Follows io a l
  run-Follows (by_rcv_timer a) l = rcv_timeout-Follows io a l
