-- ===== src/EventLoop/Run.antt =====
-- Whole turns of the main loop of src/sphone_eventloop.c, after `select` and before it.
use mathlib.Core.Path.{subst}
use sphone.Prelude.{
  ℕ, zero, suc, ◌≡◌, refl, ◌≢◌, ◌⊎◌, inl, inr, ◌==◌, Bool-cases, List, [], ◌∷◌, arith,
}
use sphone.Prelude.Int.{pos, ltb_ℤ}
use sphone.TimeVal.{timersub}
use sphone.EventLoop.{Event, Loop}
use sphone.EventLoop.Timers.{IsSorted}
use sphone.EventLoop.Turn.{
  Selected, timeout, ready, interrupted, failed, Env, Verdict, again, stop, fault, out_of_fuel,
  run_callback, exit_test, after_select, turn, turns, eventloop,
}
use sphone.EventLoop.Dispatch.{dispatch-returns, Enough-start}
use sphone.EventLoop.Steps.{
  IsWell, run_callback-IsWell, exit_test-IsWell, dispatch-IsWell, Agrees, exit_test-Agrees,
  dispatch-Agrees,
}

module _ {W : Type 0} (env : Env W) where
  -- What holds after `select`, whatever it returns, holds of a turn.
  turn_cases :
      (P : Verdict × Loop W → Type 0) (l : Loop W)
      → ((n : Selected) (w : W) → P (after_select env n (record l { world = w })))
      → P (turn env l)
  unfolding turn
  turn_cases P l all = go l.ee_timers refl
    where
      go : (ts : List Event) → l.ee_timers ≡ ts → P (turn env l)
      go [] h = rw (turn, h) (all _ _)
      go (t ∷ ts) h =
          elim (Bool-cases
            (ltb_ℤ (timersub t.e_time (env.gettimestamp l.world).0).tv_sec (pos 0))) [
              | inl q ↦ rw (turn, h, q) (all timeout _)
              | inr q ↦ rw (turn, h, q) (all _ _)
            ]

  after_select_timeout_cases :
      (P : Verdict × Loop W → Type 0) (l : Loop W)
      → P (fault, l)
      → ((e : Event) (rest : List Event)
          → l.ee_timers ≡ e ∷ rest
          → P (exit_test env (run_callback env e 0 (record l { ee_timers = rest }))))
      → P (after_select env timeout l)
  unfolding after_select
  after_select_timeout_cases P l lost fired = go l.ee_timers refl
    where
      go : (ts : List Event) → l.ee_timers ≡ ts → P (after_select env timeout l)
      go [] h = rw (after_select, h) lost
      go (t ∷ ts) h = rw (after_select, h) (fired t ts h)

  after_select-IsWell : (n : Selected) (l : Loop W) → IsWell l → IsWell (after_select env n l).1
  unfolding after_select
  after_select-IsWell interrupted l w = exit_test-IsWell env l w
  after_select-IsWell failed l w = record { sorted = w.sorted; below = w.below }
  after_select-IsWell (ready set) l w = dispatch-IsWell env _ set _ l w
  after_select-IsWell timeout l w =
      after_select_timeout_cases (λ r. IsWell r.1) l w
        (λ e rest h.
          let s : IsSorted (e ∷ rest) = subst IsSorted h w.sorted in
          exit_test-IsWell env _
            (run_callback-IsWell env e 0 _ (record { sorted = s.1; below = w.below })))

  after_select-Agrees : (n : Selected) (l : Loop W) → Agrees env (after_select env n l)
  unfolding after_select
  after_select-Agrees interrupted l = exit_test-Agrees env l
  after_select-Agrees failed l = (λ h. cc, λ h e. omega arith)
  after_select-Agrees (ready set) l = dispatch-Agrees env _ set _ l
  after_select-Agrees timeout l =
      after_select_timeout_cases (Agrees env) l (λ h. cc, λ h. cc)
        (λ e rest h. exit_test-Agrees env _)

  after_select-returns :
      (n : Selected) (l : Loop W) → IsWell l → (after_select env n l).0 ≢ out_of_fuel
  unfolding after_select
  after_select-returns interrupted l w = λ h. ground arith
  after_select-returns failed l w = λ h. cc
  after_select-returns (ready set) l w =
      dispatch-returns env _ set _ l w.below (Enough-start env l w.below)
  after_select-returns timeout l w =
      after_select_timeout_cases (λ r. r.0 ≢ out_of_fuel) l (λ h. cc) (λ e rest q h. ground arith)

  abbrev Sound : Verdict × Loop W → Type 0
  Sound r = IsWell r.1 × Agrees env r × (r.0 ≢ out_of_fuel)

  turn-Sound : (l : Loop W) → IsWell l → Sound (turn env l)
  turn-Sound l w = (
    turn_cases (λ r. IsWell r.1) l
        (λ n w'. after_select-IsWell n _ (record { sorted = w.sorted; below = w.below })),
    turn_cases (Agrees env) l (λ n w'. after_select-Agrees n _),
    turn_cases (λ r. r.0 ≢ out_of_fuel) l
        (λ n w'. after_select-returns n _ (record { sorted = w.sorted; below = w.below })),
  )

  turns-Sound : (n : ℕ) (l : Loop W) → IsWell l → l.sphone_exit ≡ 0 → Sound (turns env n l)
  unfolding turns
  turns-Sound zero l w x = (w, (λ h. x, λ h. cc), λ h. cc)
  turns-Sound (suc n) l w x = on (turn env l).0 refl (turns-Sound n (turn env l).1)
    where
      sound : Sound (turn env l)
      sound = turn-Sound l w

      on :
          (v : Verdict)
          → (turn env l).0 ≡ v
          → (IsWell (turn env l).1
              → (turn env l).1.sphone_exit ≡ 0
              → Sound (turns env n (turn env l).1))
          → Sound (turns env (suc n) l)
      on again h ih = rw (turns, h) (ih sound.0 (sound.1.0 h))
      on stop h ih = rw (turns, h) (sound.0, (λ q. cc, λ q. sound.1.1 h), λ q. cc)
      on fault h ih = rw (turns, h) (sound.0, (λ q. cc, λ q. cc), λ q. cc)
      on out_of_fuel h ih = absurd (sound.2 h)

  verdicts :
      (r : Verdict × Loop W)
      → r.0 ≢ out_of_fuel
      → (r.0 ≡ again → r.1.sphone_exit ≡ 0)
      → (r.0 ≡ stop → r.1.sphone_exit ≢ 0)
      → ((r.0 ≡ again) × (r.1.sphone_exit ≡ 0))
        ⊎ (((r.0 ≡ stop) × (r.1.sphone_exit ≢ 0)) ⊎ (r.0 ≡ fault))
  verdicts (again, l') f a s = inl (refl, a refl)
  verdicts (stop, l') f a s = inr (inl (refl, s refl))
  verdicts (fault, l') f a s = inr (inr refl)
  verdicts (out_of_fuel, l') f a s = absurd (f refl)

  -- From a registry in order, and for any number of turns, whatever the callbacks register, unregister
  -- and return: the timers stay sorted and the addresses of the descriptors' events distinct, the loop
  -- over the descriptors never runs out of rounds, the event loop goes on only with `sphone_exit` clear,
  -- and it is left by a `break` only with `sphone_exit` set; otherwise it has followed a null pointer or
  -- a freed event.
  pub eventloop-IsWell :
      (n : ℕ) (l : Loop W)
      → IsWell l
      → let r = eventloop env n l in
        IsWell r.1
        × (((r.0 ≡ again) × (r.1.sphone_exit ≡ 0))
            ⊎ (((r.0 ≡ stop) × (r.1.sphone_exit ≢ 0)) ⊎ (r.0 ≡ fault)))
  unfolding eventloop
  eventloop-IsWell n l w = elim (Bool-cases (l.sphone_exit == 0)) [
    | inl h ↦
        let s = turns-Sound n l w (ground arith) in
        rw (eventloop, h) (s.0, verdicts (turns env n l) s.2 s.1.0 s.1.1)
    | inr h ↦ rw (eventloop, h) (w, inr (inl (refl, λ q. ground arith)))
  ]
