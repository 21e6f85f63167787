-- ===== src/Spc/Stale.antt =====
-- utils/spc.c: the loss of the server in the middle of a call.
use sphone.Prelude.{
  ℕ, ◌==◌, ◌≡◌, refl, Bool, true, false, List, [], ◌∷◌, ◌||◌, ap, sym, ◌∙◌, Bool-cases,
  Option-cases, inl, inr, arith,
}
use sphone.EventLoop.{Event, Loop, remove_first, same_timer, left, found, eventloop_unreg}
use sphone.Spc.{
  FromServer, Spc, fault, Net, server_input_fn, spc_arg, send_session_at, rcv_session_at,
}
use sphone.Spc.Send.{send_data_wrapper}
use sphone.Spc.Receive.{rcv_timeout}
use sphone.Spc.Control.{fd_of, spc_state2init, after_recv, server_input}

-- A timer with this function and argument is registered.
unfoldable pub pending : ℕ → ℕ → List Event → Bool
pending fn a [] = false
pending fn a (e ∷ rest) = same_timer fn a e || pending fn a rest

pending-remove_first :
    (fn a g b : ℕ) (ts : List Event)
    → (fn == g) ≡ false
    → pending fn a (left (remove_first (same_timer g b) ts) ts) ≡ pending fn a ts
unfolding pending remove_first
pending-remove_first fn a g b [] other = refl
pending-remove_first fn a g b (e ∷ rest) other = elim (Bool-cases (same_timer g b e)) [
  | inl t ↦ let stays : same_timer fn a e ≡ false = ground (arith, t, other) in rw (t, stays) refl
  | inr f ↦ elim (Option-cases (remove_first (same_timer g b) rest)) [
    | inl n ↦ rw (f, n) refl
    | inr (rest', s) ↦
        let h = pending-remove_first fn a g b rest other in
        rw (f, s)
          (ap (λ x. same_timer fn a e || x) (ap (λ o. pending fn a (left o rest)) (sym s) ∙ h))
  ]
]

module _ {W : Type 0} (io : Net W) where
  -- The server is lost: its socket was registered, and it is at its end.
  abbrev pub IsLost : Loop (Spc W) → Type 0
  IsLost l =
      ((io.recv l.world.sp_s l.world.net).0 ≡ FromServer.closed)
      × ((eventloop_unreg (fd_of l.world.sp_s) server_input_fn spc_arg l).0 ≡ true)

  -- Where the server is lost, a timer of a session stays registered though the session is freed: the call of its
  -- function is a use of freed memory, on either side of a measurement.
  pub server_input_stale :
      (l : Loop (Spc W)) (fn a : ℕ)
      → IsLost l
      → (fn == server_input_fn) ≡ false
      → pending fn a l.ee_timers ≡ true
      → let l' = (server_input io l).1 in
        (pending fn a l'.ee_timers ≡ true)
        × ((send_data_wrapper io a l').0 ≡ fault)
        × ((rcv_timeout io a l').0 ≡ fault)
  unfolding server_input after_recv spc_state2init eventloop_unreg send_data_wrapper rcv_timeout
      send_session_at rcv_session_at
  server_input_stale l fn a (closed, found) other h =
      let kept = pending-remove_first fn a server_input_fn spc_arg l.ee_timers other in
      rw closed (rw found (kept ∙ h, refl, refl))
