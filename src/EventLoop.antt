-- ===== src/EventLoop.antt =====
-- src/sphone_eventloop.c: the timers and the file descriptors of the process, their registration,
-- and the main loop (in the child modules). Allocations succeed. A function pointer and its argument
-- are numbers. An event has an address that no other event gets again, so that a use of a freed one shows.
pub mod Turn
pub mod Timers
pub mod Registry
pub mod Dispatch
pub mod Steps
pub mod Run
pub mod Due
mod Tests
use sphone.Prelude.{
  ℕ, suc, ◌+◌, Bool, true, false, ◌&&◌, ◌||◌, ◌==◌, if◌then◌else◌, Option, none, some, List, [],
  ◌∷◌,
}
use sphone.Prelude.Int.{pos}
use sphone.TimeVal.{TimeVal, timercmp_lt}

pub data EventType : Type 0 where
  event_fd event_time : EventType

-- `struct event_data`
pub record Event : Type 0 where
  pub addr : ℕ
  pub e_fn : ℕ
  pub e_type : EventType
  pub e_fd : ℕ
  pub e_time : TimeVal
  pub e_arg : ℕ

-- `ee`, `ee_timers`, `sphone_exit`, and everything else
pub record Loop (W : Type 0) : Type 0 where
  pub ee : List Event
  pub ee_timers : List Event
  pub next_addr : ℕ
  pub sphone_exit : ℕ
  pub world : W

-- "Sort into right place": in front of the first timer that is later.
unfoldable pub insert : Event → List Event → List Event
insert e [] = e ∷ []
insert e (e1 ∷ rest) = if timercmp_lt e.e_time e1.e_time then e ∷ e1 ∷ rest else e1 ∷ insert e rest

-- The list without its first event that passes the test; `none` where none does.
unfoldable pub remove_first : (Event → Bool) → List Event → Option (List Event)
remove_first test [] = none
remove_first test (e ∷ rest) =
    if test e
    then some rest
    else elim (remove_first test rest) [ none ↦ none | some rest' ↦ some (e ∷ rest') ]

abbrev pub same_timer : ℕ → ℕ → Event → Bool
same_timer fn arg e = fn == e.e_fn && (arg == e.e_arg)

abbrev pub same_fd : ℕ → ℕ → ℕ → Event → Bool
same_fd s fn arg e = fn == e.e_fn && (arg == e.e_arg) && (s == e.e_fd)

-- What is left of a list, and whether an event was taken out
abbrev pub left : Option (List Event) → List Event → List Event
left none events = events
left (some rest) events = rest

abbrev pub found : Option (List Event) → Bool
found none = false
found (some rest) = true

module _ {W : Type 0} where
  abbrev pub new_timer : TimeVal → ℕ → ℕ → Loop W → Event
  new_timer t fn arg l = record {
    addr = l.next_addr;
    e_fn = fn;
    e_type = event_time;
    e_fd = 0;
    e_time = t;
    e_arg = arg;
  }

  abbrev pub new_fd : ℕ → ℕ → ℕ → Loop W → Event
  new_fd fd fn arg l = record {
    addr = l.next_addr;
    e_fn = fn;
    e_type = event_fd;
    e_fd = fd;
    e_time = record { tv_sec = pos 0; tv_usec = pos 0 };
    e_arg = arg;
  }

  unfoldable pub eventloop_reg_timeout : TimeVal → ℕ → ℕ → Loop W → Loop W
  eventloop_reg_timeout t fn arg l = record l {
    ee_timers = insert (new_timer t fn arg l) l.ee_timers;
    next_addr = suc l.next_addr;
  }

  unfoldable pub eventloop_reg_fd : ℕ → ℕ → ℕ → Loop W → Loop W
  eventloop_reg_fd fd fn arg l = record l {
    ee = new_fd fd fn arg l ∷ l.ee;
    next_addr = suc l.next_addr;
  }

  -- At most one timer and one descriptor go; `false` is -1, no match in either list.
  unfoldable pub eventloop_unreg : ℕ → ℕ → ℕ → Loop W → Bool × Loop W
  eventloop_unreg s fn arg l =
      let timers = remove_first (same_timer fn arg) l.ee_timers in
      let fds = remove_first (same_fd s fn arg) l.ee in
      (
        found timers || found fds,
        record l { ee_timers = left timers l.ee_timers; ee = left fds l.ee },
      )
