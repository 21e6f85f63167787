-- ===== src/Spc/Diagram.antt =====
-- The state machine of utils/spc.c, and that its callbacks follow it.
use mathlib.Core.Path.{subst}
use sphone.Prelude.{
  if-holds, ℕ, zero, suc, ◌-◌, ◌≡◌, refl, sym, inl, inr, Bool, true, false, not, Option-cases,
  if◌then◌else◌, Option, none, some, arith,
}
use sphone.TimeVal.{TimeVal, timersub}
use sphone.EventLoop.{Loop, eventloop_reg_timeout, eventloop_unreg}
use sphone.Sp.{SpType, start_send, start_rcv, exit, SpProto}
use sphone.Spc.{
  SpcState, ss_init, ss_server, ss_data_rcv, ss_data_send, ss_data_send_closing, SpSendSession,
  SpRcvSession, Spc, Outcome, FromServer, Net, set_net, send_session_at, rcv_session_at,
}
use sphone.Spc.Send.{
  send_packet, send_data, send_send_report, finish_sending, is_over, keep_sending, divides_by_zero,
  npackets, by_state, send_data_wrapper, start_sender,
}
use sphone.Spc.Receive.{finish_receiving, at_timeout, rcv_timeout, start_receiver}
use sphone.Spc.Control.{spc_state2init, exit_with, in_server, spc_exit, by_type, after_recv}

-- The five callbacks: input from the server, a packet, the timer of the connection, and those of a session
pub data Callback : Type 0 where
  from_server from_udp by_wrapper : Callback
  by_send_timer by_rcv_timer : ℕ → Callback

-- The arrows of the drawing at the top of utils/spc.c, those of a line with two heads both ways
pub data Drawn : SpcState → SpcState → Type 0 where
  init_to_server : Drawn ss_init ss_server
  server_to_init : Drawn ss_server ss_init
  rcv_to_init : Drawn ss_data_rcv ss_init
  closing_to_init : Drawn ss_data_send_closing ss_init
  server_to_rcv : Drawn ss_server ss_data_rcv
  rcv_to_server : Drawn ss_data_rcv ss_server
  server_to_send : Drawn ss_server ss_data_send
  send_to_server : Drawn ss_data_send ss_server
  send_to_closing : Drawn ss_data_send ss_data_send_closing
  closing_to_server : Drawn ss_data_send_closing ss_server

-- What each callback is for: the server is found, a call starts on one of its sides, the server is lost, a sender
-- stops and waits for replies, a report is made.
pub data Owns : Callback → SpcState → SpcState → Type 0 where
  found : Owns by_wrapper ss_init ss_server
  receive : Owns from_server ss_server ss_data_rcv
  send : Owns from_server ss_server ss_data_send
  lost : {s : SpcState} → Owns from_server s ss_init
  stop : (a : ℕ) → Owns (by_send_timer a) ss_data_send ss_data_send_closing
  reported : (a : ℕ) → Owns (by_send_timer a) ss_data_send_closing ss_server
  received : (a : ℕ) → Owns (by_rcv_timer a) ss_data_rcv ss_server

-- No move, an arrow of the drawing, or one of two moves that are not drawn: a call that has no time left when it
-- starts goes through the sender's first state in one callback, and the loss of the server while a sender sends
pub data Moves : Callback → SpcState → SpcState → Type 0 where
  stays : (c : Callback) (s : SpcState) → Moves c s s
  along : {c : Callback} {s t : SpcState} → Owns c s t → Drawn s t → Moves c s t
  send_and_stop :
      Drawn ss_server ss_data_send
      → Drawn ss_data_send ss_data_send_closing
      → Moves from_server ss_server ss_data_send_closing
  lost_sending : Moves from_server ss_data_send ss_init

pub same : (c : Callback) (s t : SpcState) → t ≡ s → Moves c s t
same c s t e = subst (λ x. Moves c s x) (sym e) (stays c s)

pub arrow :
    (c : Callback) (s t u v : SpcState) → s ≡ t → Owns c t u → Drawn t u → v ≡ u → Moves c s v
arrow c s t u v e a d f =
    subst (λ x. Moves c x v) (sym e) (subst (λ x. Moves c t x) (sym f) (along a d))

-- The first call of the sender's function, made by a start
at_start :
    (a : ℕ) (s t : SpcState)
    → s ≡ ss_server
    → Moves (by_send_timer a) ss_data_send t
    → Moves from_server s t
at_start a s t e (stays _ _) = arrow _ _ _ _ _ e send server_to_send refl
at_start a s t e (along (stop _) _) =
    subst (λ x. Moves from_server x ss_data_send_closing) (sym e)
      (send_and_stop server_to_send send_to_closing)

-- The loss of the server in each state
loss : (s : SpcState) → Moves from_server s ss_init
loss ss_init = stays _ _
loss ss_server = along lost server_to_init
loss ss_data_rcv = along lost rcv_to_init
loss ss_data_send = lost_sending
loss ss_data_send_closing = along lost closing_to_init

pub if-Moves {ℓ} :
    {A : Type ℓ} (c : Callback) (f : A → SpcState) (s : SpcState) (b : Bool) {x y : A}
    → Moves c s (f x)
    → Moves c s (f y)
    → Moves c s (f (if b then x else y))
if-Moves c f s true p q = p
if-Moves c f s false p q = q

module _ {W : Type 0} (io : Net W) where
  abbrev state_after : Outcome × Loop (Spc W) → SpcState
  state_after r = r.1.world.sp_state

  abbrev pub Follows : Callback → Loop (Spc W) → Outcome × Loop (Spc W) → Type 0
  Follows c l r = Moves c l.world.sp_state r.1.world.sp_state

  send_data-state :
      (rounds : ℕ) (ss : SpSendSession) (l : Loop (Spc W))
      → (send_data io rounds ss l).2.world.sp_state ≡ l.world.sp_state
  unfolding send_data
  send_data-state zero ss l = refl
  send_data-state (suc rounds) ss l =
      let (sent, ss', l') = send_packet io ss l in
      if-holds (λ (r : Bool × SpSendSession × Loop (Spc W)). r.2.world.sp_state ≡ l.world.sp_state)
        sent {y = (false, ss', l')} (send_data-state rounds ss' l') refl

  send_send_report-state :
      (ss : SpSendSession) (l : Loop (Spc W))
      → (send_send_report io ss l).1.world.sp_state ≡ l.world.sp_state
  unfolding send_send_report
  send_send_report-state ss l = ground arith

  finish_sending-Follows :
      (a : ℕ) (ss : SpSendSession) (l : Loop (Spc W))
      → l.world.sp_state ≡ ss_data_send_closing
      → Follows (by_send_timer a) l (finish_sending io ss l)
  unfolding finish_sending
  finish_sending-Follows a ss l e =
      if-Moves (by_send_timer a) state_after l.world.sp_state (send_send_report io ss l).0
        (arrow _ _ _ _ _ e (reported a) closing_to_server refl)
        (same _ _ _ (send_send_report-state ss l))

  keep_sending-Follows :
      (a : ℕ) (t : TimeVal) (ss : SpSendSession) (l : Loop (Spc W))
      → l.world.sp_state ≡ ss_data_send
      → Follows (by_send_timer a) l (keep_sending io t ss l)
  unfolding keep_sending eventloop_reg_timeout
  keep_sending-Follows a t ss l e =
      let now = (io.gettimestamp l.world.net).0 in
      let l0 : Loop (Spc W) = set_net (io.gettimestamp l.world.net).1 l in
      let rounds = npackets now ss.ss_t0 l.world.cp_size_ms - ss.ss_seq in
      if-Moves (by_send_timer a) state_after l.world.sp_state
        (is_over io ss (timersub t ss.ss_t0) l.world.cp_size_ms)
        (arrow _ _ _ _ _ e (stop a) send_to_closing refl)
        (if-Moves (by_send_timer a) state_after l.world.sp_state (not (send_data io rounds ss l0).0)
          (same _ _ _ (send_data-state rounds ss l0)) (same _ _ _ (send_data-state rounds ss l0)))

  by_state-Follows :
      (a : ℕ) (s : SpcState) (t : TimeVal) (ss : SpSendSession) (l : Loop (Spc W))
      → l.world.sp_state ≡ s
      → Follows (by_send_timer a) l (by_state io s t ss l)
  unfolding by_state
  by_state-Follows a ss_data_send_closing t ss l e = finish_sending-Follows a ss l e
  by_state-Follows a ss_data_send t ss l e =
      if-Moves (by_send_timer a) state_after l.world.sp_state (divides_by_zero io t ss l)
        (stays _ _) (keep_sending-Follows a t ss l e)
  by_state-Follows a _ t ss l e = stays _ _

  pub send_data_wrapper-Follows :
      (a : ℕ) (l : Loop (Spc W)) → Follows (by_send_timer a) l (send_data_wrapper io a l)
  unfolding send_data_wrapper
  send_data_wrapper-Follows a l = elim (Option-cases (send_session_at a l.world.sp_data)) [
    | inl e ↦ rw (e, send_data_wrapper) (stays _ _)
    | inr (ss, e) ↦ rw (e, send_data_wrapper) (by_state-Follows a l.world.sp_state _ ss _ refl)
  ]

  pub start_sender-Follows :
      (sp : SpProto) (l : Loop (Spc W))
      → l.world.sp_state ≡ ss_server
      → Follows from_server l (start_sender io sp l)
  unfolding start_sender
  start_sender-Follows sp l e =
      if-Moves from_server state_after l.world.sp_state _ (stays _ _)
        (at_start _ _ _ e (send_data_wrapper-Follows _ _))

  start_receiver-Follows :
      (sp : SpProto) (l : Loop (Spc W))
      → l.world.sp_state ≡ ss_server
      → Follows from_server l (start_receiver io sp l)
  unfolding start_receiver eventloop_reg_timeout
  start_receiver-Follows sp l e = arrow _ _ _ _ _ e receive server_to_rcv refl

  at_timeout-Follows :
      (a : ℕ) (s : SpcState) (rs : SpRcvSession) (l : Loop (Spc W))
      → l.world.sp_state ≡ s
      → Follows (by_rcv_timer a) l (at_timeout io s rs l)
  unfolding at_timeout finish_receiving
  at_timeout-Follows a ss_data_rcv rs l e = arrow _ _ _ _ _ e (received a) rcv_to_server refl
  at_timeout-Follows a _ rs l e = stays _ _

  pub rcv_timeout-Follows :
      (a : ℕ) (l : Loop (Spc W)) → Follows (by_rcv_timer a) l (rcv_timeout io a l)
  unfolding rcv_timeout
  rcv_timeout-Follows a l = elim (Option-cases (rcv_session_at a l.world.sp_data)) [
    | inl e ↦ rw (e, rcv_timeout) (stays _ _)
    | inr (rs, e) ↦ rw (e, rcv_timeout) (at_timeout-Follows a l.world.sp_state rs l refl)
  ]

  state2init-Follows :
      (l : Loop (Spc W)) → Moves from_server l.world.sp_state (spc_state2init io l).1.world.sp_state
  unfolding spc_state2init eventloop_unreg
  state2init-Follows l =
      if-Moves from_server (λ (r : Bool × Loop (Spc W)). r.1.world.sp_state) l.world.sp_state _
        (loss l.world.sp_state) (stays _ _)

  in_server-Follows :
      (s : SpcState) (started : Outcome × Loop (Spc W)) (l : Loop (Spc W))
      → (s ≡ ss_server → Follows from_server l started)
      → Follows from_server l (in_server io s started l)
  unfolding in_server
  in_server-Follows ss_server started l h = h refl
  in_server-Follows _ started l h = stays _ _

  exit_with-state :
      (s : Option ℕ) (l : Loop (Spc W)) → (exit_with io s l).world.sp_state ≡ l.world.sp_state
  unfolding exit_with eventloop_unreg
  exit_with-state none l = refl
  exit_with-state (some s) l = refl

  by_type-Follows :
      (type : SpType) (sp : SpProto) (l : Loop (Spc W))
      → Follows from_server l (by_type io type sp l)
  unfolding by_type spc_exit
  by_type-Follows start_send sp l = in_server-Follows _ _ l (λ e. start_sender-Follows sp l e)
  by_type-Follows start_rcv sp l = in_server-Follows _ _ l (λ e. start_receiver-Follows sp l e)
  by_type-Follows exit sp l = same _ _ _ (exit_with-state l.world.sp_s l)
  by_type-Follows _ sp l = stays _ _

  pub after_recv-Follows :
      (m : FromServer) (l : Loop (Spc W)) → Follows from_server l (after_recv io m l)
  unfolding after_recv
  after_recv-Follows FromServer.unread l = stays _ _
  after_recv-Follows FromServer.closed l = state2init-Follows l
  after_recv-Follows FromServer.not_ours l = stays _ _
  after_recv-Follows (FromServer.message sp) l =
      if-Moves from_server state_after l.world.sp_state _ (by_type-Follows sp.sp_type sp l)
        (stays _ _)
