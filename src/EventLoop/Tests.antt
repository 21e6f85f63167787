-- ===== src/EventLoop/Tests.antt =====
-- Examples of the event loop.
use sphone.Prelude.{
  ℕ, ◌≡◌, ◌≢◌, ◌⊎◌, ◌↔◌, refl, true, false, ◌==◌, if◌then◌else◌, List, [], ◌∷◌, ◌++◌, All, arith,
}
use sphone.Prelude.Int.{pos, negsuc, ◌-ℤ◌}
use sphone.TimeVal.{TimeVal, timercmp_lt, timersub}
use sphone.EventLoop.{
  event_fd, event_time, Event, Loop, new_timer, same_timer, same_fd, eventloop_reg_timeout,
  eventloop_unreg, insert,
}
use sphone.EventLoop.Turn.{
  reg_timeout, ready, Env, again, stop, fault, act, act_all, from, run_callback, dispatch,
  after_select, turn, turns, eventloop,
}
use sphone.EventLoop.Timers.{IsSorted, eventloop_reg_timeout-order}
use sphone.EventLoop.Registry.{NoMatch, Removed, eventloop_unreg-Removed}
use sphone.EventLoop.Steps.{IsWell}
use sphone.EventLoop.Run.{eventloop-IsWell}
use sphone.EventLoop.Due.{}

abbrev at : ℕ → TimeVal
at n = record { tv_sec = pos n; tv_usec = pos 0 }

abbrev timer_at : ℕ → ℕ → Event
timer_at addr n = record {
  addr = addr;
  e_fn = 7;
  e_type = event_time;
  e_fd = 0;
  e_time = at n;
  e_arg = addr;
}

abbrev socket : Event
socket = record { addr = 2; e_fn = 8; e_type = event_fd; e_fd = 4; e_time = at 0; e_arg = 1 }

abbrev loop : Loop ℕ
loop = record {
  ee = socket ∷ [];
  ee_timers = timer_at 0 10 ∷ timer_at 1 20 ∷ [];
  next_addr = 3;
  sphone_exit = 0;
  world = 0;
}

-- The clock stands at 15 seconds. Function 7 registers itself again; function 8 fails.
abbrev env : Env ℕ
env = record {
  gettimestamp = λ w. (at 15, w);
  select = λ fds t w. (ready fds, w);
  call = λ fn fd arg w.
      if fn == 7 then (reg_timeout (at 30) 7 arg ∷ [], pos 0, w) else ([], negsuc 0, w);
}

loop-IsSorted : IsSorted loop.ee_timers
unfolding timercmp_lt
loop-IsSorted = ((refl, tt), (tt, tt))

eventloop_reg_timeout-order_example :
    (before after : List Event) × (timer_at 0 10 ∷ timer_at 1 20 ∷ [] ≡ before ++ after)
    × ((eventloop_reg_timeout (at 10) 9 9 loop).ee_timers
        ≡ before ++ new_timer (at 10) 9 9 loop ∷ after)
    × All (λ e. timercmp_lt (at 10) e.e_time ≡ false) before
    × All (λ e. timercmp_lt (at 10) e.e_time ≡ true) after
eventloop_reg_timeout-order_example = eventloop_reg_timeout-order (at 10) 9 9 loop loop-IsSorted

eventloop_unreg-Removed_example :
    let (ok, l') = eventloop_unreg 4 8 1 loop in
    Removed (same_timer 8 1) loop.ee_timers l'.ee_timers
    × Removed (same_fd 4 8 1) loop.ee l'.ee
    × ((ok ≡ false) ↔ (NoMatch (same_timer 8 1) loop.ee_timers × NoMatch (same_fd 4 8 1) loop.ee))
eventloop_unreg-Removed_example = eventloop_unreg-Removed 4 8 1 loop

loop-IsWell : IsWell loop
loop-IsWell = record { sorted = loop-IsSorted; below = ground arith }

-- The overdue timer fires and is registered again; then the descriptor's callback fails.
eventloop_runs : (eventloop env 5 loop).0 ≡ stop
unfolding eventloop turns turn timersub ◌-ℤ◌ after_select run_callback act_all act
    eventloop_reg_timeout insert timercmp_lt dispatch from
eventloop_runs = refl

eventloop-IsWell_example :
    let r = eventloop env 5 loop in
    IsWell r.1
    × (((r.0 ≡ again) × (r.1.sphone_exit ≡ 0))
        ⊎ (((r.0 ≡ stop) × (r.1.sphone_exit ≢ 0)) ⊎ (r.0 ≡ fault)))
eventloop-IsWell_example = eventloop-IsWell env 5 loop loop-IsWell
