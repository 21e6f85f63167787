-- ===== src/EventLoop/Due.antt =====
-- Which callback a turn of the main loop of src/sphone_eventloop.c runs, and what its result does.
use sphone.Prelude.{
  ℕ, suc, ◌≡◌, refl, ap, ◌∙◌, Bool, true, false, ◌==◌, if◌then◌else◌, List, ◌∷◌, arith,
}
use sphone.Prelude.Int.{pos, ltb_ℤ, ◌+ℤ◌, ◌-ℤ◌}
use sphone.TimeVal.{TimeVal, borrow, timersub, timercmp_lt}
use sphone.TimeVal.Arithmetic.{IsNormal}
use sphone.EventLoop.{Event, Loop}
use sphone.EventLoop.Turn.{
  timeout, Env, again, stop, act_all, run_callback, exit_test, after_select, turn,
}

-- The seconds of `timersub` are negative exactly where the first time is before the second.
timersub_negative :
    (t u : TimeVal)
    → IsNormal t
    → IsNormal u
    → ltb_ℤ (timersub t u).tv_sec (pos 0) ≡ timercmp_lt t u
unfolding timersub borrow timercmp_lt ◌-ℤ◌ ◌+ℤ◌
timersub_negative t u pt pu = ground (arith, pt.nonneg, pt.below, pu.nonneg, pu.below)

module _ {W : Type 0} (env : Env W) where
  exit_test-run_callback :
      (e : Event) (fd : ℕ) (l : Loop W)
      → let (actions, retval, w') = env.call e.e_fn fd e.e_arg l.world in
        let l' = act_all actions (record l { world = w' }) in
        exit_test env (run_callback env e fd l) ≡ (
          if ltb_ℤ retval (pos 0)
          then (stop, record l' { sphone_exit = suc l'.sphone_exit })
          else exit_test env l')
  unfolding run_callback
  exit_test-run_callback e fd l = on (ltb_ℤ (env.call e.e_fn fd e.e_arg l.world).1 (pos 0)) _
    where
      on :
          (b : Bool) (l' : Loop W)
          → exit_test env (if b then record l' { sphone_exit = suc l'.sphone_exit } else l') ≡ (
              if b
              then (stop, record l' { sphone_exit = suc l'.sphone_exit })
              else exit_test env l')
      on true l' = let ne : (suc l'.sphone_exit == 0) ≡ false = ground arith in rw ne refl
      on false l' = refl

  after_select-timeout :
      (l : Loop W) (timer : Event) (rest : List Event)
      → l.ee_timers ≡ timer ∷ rest
      → after_select env timeout l
        ≡ exit_test env (run_callback env timer 0 (record l { ee_timers = rest }))
  unfolding after_select
  after_select-timeout l timer rest e = rw (after_select, e) refl

  turn-polled :
      (l : Loop W) (timer : Event) (rest : List Event)
      → l.ee_timers ≡ timer ∷ rest
      → ltb_ℤ (timersub timer.e_time (env.gettimestamp l.world).0).tv_sec (pos 0) ≡ true
      → turn env l ≡ after_select env timeout (record l { world = (env.gettimestamp l.world).1 })
  unfolding turn
  turn-polled l timer rest e h = simp (turn, e, h)

  -- Where the first timer is due before the clock's time, the turn runs that timer's callback, and
  -- no descriptor is asked for: while timers are overdue, descriptors wait. The turn is the last one if
  -- the callback's result is negative, or if it leaves `sphone_exit` set.
  turn_overdue :
      (l : Loop W) (timer : Event) (rest : List Event) (now : TimeVal) (w : W)
      → l.ee_timers ≡ timer ∷ rest
      → env.gettimestamp l.world ≡ (now, w)
      → IsNormal timer.e_time
      → IsNormal now
      → timercmp_lt timer.e_time now ≡ true
      → let (actions, retval, w') = env.call timer.e_fn 0 timer.e_arg w in
        let l' = act_all actions (record l { ee_timers = rest; world = w' }) in
        turn env l ≡ (
          if ltb_ℤ retval (pos 0)
          then (stop, record l' { sphone_exit = suc l'.sphone_exit })
          else (if l'.sphone_exit == 0 then (again, l') else (stop, l')))
  turn_overdue l timer rest now w e c pt pn h =
      let neg = timersub_negative timer.e_time now pt pn in
      turn-polled l timer rest e
        (ap (λ r. ltb_ℤ (timersub timer.e_time r.0).tv_sec (pos 0)) c ∙ neg ∙ h)
      ∙ ap (λ r. after_select env timeout (record l { world = r.1 })) c
      ∙ after_select-timeout _ timer rest e
      ∙ exit_test-run_callback timer 0 (record l { ee_timers = rest; world = w })
