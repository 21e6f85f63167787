-- ===== src/EventLoop/Turn.antt =====
-- `eventloop` of src/sphone_eventloop.c: one turn of its loop. The clock, `select` and the callbacks
-- behind the function pointers are parameters. A callback uses the registry by a list of actions; one
-- that ends the process is not modelled.
use sphone.Prelude.{
  ℕ, zero, suc, Bool, true, false, not, ◌&&◌, ◌||◌, ◌==◌, if◌then◌else◌, Option, none, some, List,
  [], ◌∷◌, length,
}
use sphone.Prelude.Int.{ℤ, pos, ltb_ℤ}
use sphone.TimeVal.{TimeVal, timersub}
use sphone.EventLoop.{
  EventType, event_fd, event_time, Event, Loop, eventloop_reg_timeout, eventloop_reg_fd,
  eventloop_unreg,
}

-- What a callback asks of this module: `raise` is a `sphone_error`, which sets `sphone_exit`.
pub data Action : Type 0 where
  reg_timeout : TimeVal → ℕ → ℕ → Action
  reg_fd : ℕ → ℕ → ℕ → Action
  unreg : ℕ → ℕ → ℕ → Action
  raise : Action

-- What `select` returns: 0, the descriptors that are ready, -1 with EINTR, or -1 with another error
pub data Selected : Type 0 where
  timeout : Selected
  ready : List ℕ → Selected
  interrupted : Selected
  failed : Selected

pub record Env (W : Type 0) : Type 0 where
  pub gettimestamp : W → TimeVal × W
  -- The descriptors that are watched, and how long to wait, if not for ever
  pub select : List ℕ → Option TimeVal → W → Selected × W
  -- A function, its descriptor and its argument: what it asks for and what it returns
  pub call : ℕ → ℕ → ℕ → W → List Action × ℤ × W

-- How a turn ends: with another turn, with a `break`, with a null pointer or a freed event followed, or
-- out of fuel
pub data Verdict : Type 0 where
  again stop fault out_of_fuel : Verdict

-- FD_ISSET
abbrev pub is_set : ℕ → List ℕ → Bool
is_set fd [] = false
is_set fd (x ∷ set) = fd == x || is_set fd set

abbrev pub is_fd : EventType → Bool
is_fd event_fd = true
is_fd event_time = false

-- The descriptors for FD_SET
abbrev pub watched : List Event → List ℕ
watched [] = []
watched (e ∷ rest) = if is_fd e.e_type then e.e_fd ∷ watched rest else watched rest

-- The list from the event at an address on; `[]` where it has been freed.
unfoldable pub from : ℕ → List Event → List Event
from a [] = []
from a (e ∷ rest) = if a == e.addr then e ∷ rest else from a rest

abbrev pub head_addr : List Event → Option ℕ
head_addr [] = none
head_addr (e ∷ rest) = some (e.addr)

module _ {W : Type 0} where
  unfoldable pub act : Action → Loop W → Loop W
  act (reg_timeout t fn arg) l = eventloop_reg_timeout t fn arg l
  act (reg_fd fd fn arg) l = eventloop_reg_fd fd fn arg l
  act (unreg s fn arg) l = (eventloop_unreg s fn arg l).1
  act raise l = record l { sphone_exit = suc l.sphone_exit }

  unfoldable pub act_all : List Action → Loop W → Loop W
  act_all [] l = l
  act_all (a ∷ actions) l = act_all actions (act a l)

module _ {W : Type 0} (env : Env W) where
  -- `if ((*e->e_fn)(fd, e->e_arg) < 0) sphone_exit++;`
  unfoldable pub run_callback : Event → ℕ → Loop W → Loop W
  run_callback e fd l =
      let (actions, retval, w) = env.call e.e_fn fd e.e_arg l.world in
      let l' = act_all actions (record l { world = w }) in
      if ltb_ℤ retval (pos 0) then record l' { sphone_exit = suc l'.sphone_exit } else l'

  abbrev pub exit_test : Loop W → Verdict × Loop W
  exit_test l = if l.sphone_exit == 0 then (again, l) else (stop, l)

  -- The loop over the descriptors, from the event at an address on
  unfoldable pub dispatch : ℕ → List ℕ → Option ℕ → Loop W → Verdict × Loop W
  dispatch fuel set none l = exit_test l
  dispatch zero set (some a) l = (out_of_fuel, l)
  dispatch (suc fuel) set (some a) l = elim (from a l.ee) [
    | [] ↦ (fault, l)
    | e ∷ rest ↦
        let fires = is_fd e.e_type && is_set e.e_fd set in
        let l' = if fires then run_callback e e.e_fd l else l in
        let next = dispatch fuel set (head_addr rest) l' in
        if fires && not (l'.sphone_exit == 0) then (stop, l') else next
  ]

  -- From `if (n == -1)` on
  unfoldable pub after_select : Selected → Loop W → Verdict × Loop W
  after_select interrupted l = exit_test l
  after_select failed l = (stop, record l { sphone_exit = suc l.sphone_exit })
  after_select timeout l = elim l.ee_timers [
    | [] ↦ (fault, l)
    | e ∷ rest ↦ exit_test (run_callback e 0 (record l { ee_timers = rest }))
  ]
  after_select (ready set) l = dispatch (length l.ee) set (head_addr l.ee) l

  -- One turn of `while (1)`
  unfoldable pub turn : Loop W → Verdict × Loop W
  turn l = elim l.ee_timers [
    | [] ↦
        let (n, w) = env.select (watched l.ee) none l.world in
        after_select n (record l { world = w })
    | timer ∷ _ ↦
        let (t0, w) = env.gettimestamp l.world in
        let t = timersub timer.e_time t0 in
        if ltb_ℤ t.tv_sec (pos 0)
        then after_select timeout (record l { world = w })
        else (let (n, w') = env.select (watched l.ee) (some t) w in
            after_select n (record l { world = w' }))
  ]

  -- `while (1)`, for at most `turns` turns: `again` where it still runs.
  unfoldable pub turns : ℕ → Loop W → Verdict × Loop W
  turns zero l = (again, l)
  turns (suc n) l =
      let (verdict, l') = turn l in
      let rest = turns n l' in elim verdict [ again ↦ rest | ended ↦ (ended, l') ]

  unfoldable pub eventloop : ℕ → Loop W → Verdict × Loop W
  eventloop n l = if l.sphone_exit == 0 then turns n l else (stop, l)
