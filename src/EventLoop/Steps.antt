-- ===== src/EventLoop/Steps.antt =====
-- The main loop of src/sphone_eventloop.c, turn after turn: what holds however its callbacks use the
-- registry.
use sphone.Prelude.{
  ℕ, zero, suc, ◌≡◌, ◌≢◌, inl, inr, Bool, true, false, ◌&&◌, ◌==◌, if◌then◌else◌, Bool-cases,
  Option, none, some, List, [], ◌∷◌, arith,
}
use sphone.Prelude.Int.{pos, ltb_ℤ}
use sphone.EventLoop.{
  Event, Loop, same_timer, new_timer, eventloop_reg_timeout, eventloop_reg_fd, eventloop_unreg,
}
use sphone.EventLoop.Timers.{IsSorted, insert-IsSorted, left-remove_first-IsSorted}
use sphone.EventLoop.Turn.{
  Action, reg_timeout, reg_fd, unreg, raise, Env, Verdict, again, stop, is_fd, is_set, head_addr,
  act, act_all, run_callback, exit_test, dispatch,
}
use sphone.EventLoop.Dispatch.{Below, run_callback-Shrinks, visit, dispatch_cases}

-- The invariant of the registry: the timers are sorted, and the addresses of the descriptors' events
-- are used once.
pub record IsWell {W : Type 0} (l : Loop W) : Type 0 where
  pub sorted : IsSorted l.ee_timers
  pub below : Below l.next_addr l.ee

module _ {W : Type 0} where
  act-IsSorted : (x : Action) (l : Loop W) → IsSorted l.ee_timers → IsSorted (act x l).ee_timers
  unfolding act eventloop_reg_timeout eventloop_reg_fd eventloop_unreg
  act-IsSorted (reg_timeout t fn arg) l s = insert-IsSorted (new_timer t fn arg l) l.ee_timers s
  act-IsSorted (unreg f fn arg) l s = left-remove_first-IsSorted (same_timer fn arg) l.ee_timers s
  act-IsSorted (reg_fd fd fn arg) l s = s
  act-IsSorted raise l s = s

  act_all-IsSorted :
      (xs : List Action) (l : Loop W) → IsSorted l.ee_timers → IsSorted (act_all xs l).ee_timers
  unfolding act_all
  act_all-IsSorted [] l s = s
  act_all-IsSorted (x ∷ xs) l s = act_all-IsSorted xs (act x l) (act-IsSorted x l s)

module _ {W : Type 0} (env : Env W) where
  run_callback-IsSorted :
      (e : Event) (fd : ℕ) (l : Loop W)
      → IsSorted l.ee_timers
      → IsSorted (run_callback env e fd l).ee_timers
  unfolding run_callback
  run_callback-IsSorted e fd l s =
      bump (ltb_ℤ (env.call e.e_fn fd e.e_arg l.world).1 (pos 0)) _ (act_all-IsSorted _ _ s)
    where
      bump :
          (b : Bool) (l' : Loop W)
          → IsSorted l'.ee_timers
          → IsSorted (if b then record l' { sphone_exit = suc l'.sphone_exit } else l').ee_timers
      bump true l' s = s
      bump false l' s = s

  pub run_callback-IsWell :
      (e : Event) (fd : ℕ) (l : Loop W) → IsWell l → IsWell (run_callback env e fd l)
  run_callback-IsWell e fd l w = record {
    sorted = run_callback-IsSorted e fd l w.sorted;
    below = (run_callback-Shrinks env e fd l).below w.below;
  }

  visit-IsWell : (set : List ℕ) (e : Event) (l : Loop W) → IsWell l → IsWell (visit env set e l)
  visit-IsWell set e l w = elim (Bool-cases (is_fd e.e_type && is_set e.e_fd set)) [
    | inl q ↦ rw q (run_callback-IsWell e e.e_fd l w)
    | inr q ↦ rw q w
  ]

  pub exit_test-IsWell : (l : Loop W) → IsWell l → IsWell (exit_test env l).1
  exit_test-IsWell l w = elim (Bool-cases (l.sphone_exit == 0)) [ inl q ↦ rw q w | inr q ↦ rw q w ]

  pub dispatch-IsWell :
      (fuel : ℕ) (set : List ℕ) (cur : Option ℕ) (l : Loop W)
      → IsWell l
      → IsWell (dispatch env fuel set cur l).1
  unfolding dispatch
  dispatch-IsWell fuel set none l w = exit_test-IsWell l w
  dispatch-IsWell zero set (some a) l w = w
  dispatch-IsWell (suc fuel) set (some a) l w =
      dispatch_cases env (λ r. IsWell r.1) fuel set a l w (λ e rest h x. visit-IsWell set e l w)
        (λ e rest h. dispatch-IsWell fuel set (head_addr rest) _ (visit-IsWell set e l w))

  -- Another turn is taken only with `sphone_exit` clear, and the loop is left only with it set.
  abbrev pub Agrees : Verdict × Loop W → Type 0
  Agrees r = (r.0 ≡ again → r.1.sphone_exit ≡ 0) × (r.0 ≡ stop → r.1.sphone_exit ≢ 0)

  pub exit_test-Agrees : (l : Loop W) → Agrees (exit_test env l)
  exit_test-Agrees l = (λ h. ground arith, λ h e. ground arith)

  pub dispatch-Agrees :
      (fuel : ℕ) (set : List ℕ) (cur : Option ℕ) (l : Loop W) → Agrees (dispatch env fuel set cur l)
  unfolding dispatch
  dispatch-Agrees fuel set none l = exit_test-Agrees l
  dispatch-Agrees zero set (some a) l = (λ h. cc, λ h. cc)
  dispatch-Agrees (suc fuel) set (some a) l =
      dispatch_cases env Agrees fuel set a l (λ h. cc, λ h. cc) (λ e rest q x. (λ h. cc, λ h. x))
        (λ e rest q. dispatch-Agrees fuel set (head_addr rest) (visit env set e l))
