-- ===== src/EventLoop/Timers.antt =====
-- The list of timers of src/sphone_eventloop.c, sorted by `insert`.
use sphone.Prelude.{
  ℕ, ◌≡◌, refl, ap, inl, inr, Bool, true, false, if◌then◌else◌, Bool-cases, List, [], ◌∷◌, ◌++◌,
  All, arith,
}
use sphone.TimeVal.{TimeVal, timercmp_lt}
use sphone.EventLoop.{Event, Loop, insert, remove_first, new_timer, eventloop_reg_timeout, left}

-- `NotBefore t e`: `e` is not due before the time `t`.
abbrev pub NotBefore : TimeVal → Event → Type 0
NotBefore t e = timercmp_lt e.e_time t ≡ false

-- No event is due before one that stands in front of it.
abbrev pub IsSorted : List Event → Type 0
IsSorted [] = Unit
IsSorted (e ∷ rest) = All (NotBefore e.e_time) rest × IsSorted rest

-- The order is transitive, on either side.
before-NotBefore :
    (t u : TimeVal) (e : Event)
    → timercmp_lt t u ≡ true
    → NotBefore u e
    → timercmp_lt t e.e_time ≡ true
unfolding timercmp_lt
before-NotBefore t u e h k = ground arith

before-antisym : (t u : TimeVal) → timercmp_lt t u ≡ true → timercmp_lt u t ≡ false
unfolding timercmp_lt
before-antisym t u h = ground arith

All-before :
    (t u : TimeVal) (events : List Event)
    → timercmp_lt t u ≡ true
    → All (NotBefore u) events
    → All (λ e. timercmp_lt t e.e_time ≡ true) events
All-before t u [] h k = tt
All-before t u (e ∷ rest) h (k, ks) = (before-NotBefore t u e h k, All-before t u rest h ks)

All-NotBefore :
    (t : TimeVal) (events : List Event)
    → All (λ e. timercmp_lt t e.e_time ≡ true) events
    → All (NotBefore t) events
All-NotBefore t [] h = tt
All-NotBefore t (e ∷ rest) (h, hs) = (before-antisym t e.e_time h, All-NotBefore t rest hs)

-- A property of an event and of every event of a list holds of the list with it inserted.
pub insert-All :
    (P : Event → Type 0) (e : Event) (events : List Event)
    → P e
    → All P events
    → All P (insert e events)
unfolding insert
insert-All P e [] p ps = (p, tt)
insert-All P e (x ∷ rest) p (px, ps) = elim (Bool-cases (timercmp_lt e.e_time x.e_time)) [
  | inl h ↦ rw h (p, (px, ps))
  | inr h ↦ rw h (px, insert-All P e rest p ps)
]

pub insert-IsSorted :
    (e : Event) (events : List Event) → IsSorted events → IsSorted (insert e events)
unfolding insert
insert-IsSorted e [] s = (tt, tt)
insert-IsSorted e (x ∷ rest) (low, s) = elim (Bool-cases (timercmp_lt e.e_time x.e_time)) [
  | inl h ↦
      rw h ((before-antisym _ _ h, All-NotBefore _ rest (All-before _ _ rest h low)), (low, s))
  | inr h ↦ rw h (insert-All _ e rest h low, insert-IsSorted e rest s)
]

pub left-remove_first :
    (test : Event → Bool) (e : Event) (rest : List Event)
    → left (remove_first test (e ∷ rest)) (e ∷ rest)
      ≡ (if test e then rest else e ∷ left (remove_first test rest) rest)
unfolding remove_first
left-remove_first test e rest = ground arith

pub left-remove_first-All :
    (P : Event → Type 0) (test : Event → Bool) (events : List Event)
    → All P events
    → All P (left (remove_first test events) events)
unfolding remove_first
left-remove_first-All P test [] ps = tt
left-remove_first-All P test (e ∷ rest) (p, ps) = elim (Bool-cases (test e)) [
  | inl h ↦ rw (left-remove_first test e rest, h) ps
  | inr h ↦ rw (left-remove_first test e rest, h) (p, left-remove_first-All P test rest ps)
]

pub left-remove_first-IsSorted :
    (test : Event → Bool) (events : List Event)
    → IsSorted events
    → IsSorted (left (remove_first test events) events)
unfolding remove_first
left-remove_first-IsSorted test [] s = tt
left-remove_first-IsSorted test (e ∷ rest) (low, s) = elim (Bool-cases (test e)) [
  | inl h ↦ rw (left-remove_first test e rest, h) s
  | inr h ↦
      rw (left-remove_first test e rest, h)
        (left-remove_first-All _ test rest low, left-remove_first-IsSorted test rest s)
]

-- A new timer goes behind every timer that is due no later, and in front of every one that is due
-- later: timers fire by their time, and by the order they were registered where it is the same.
pub eventloop_reg_timeout-order :
    {W : Type 0} (t : TimeVal) (fn arg : ℕ) (l : Loop W)
    → IsSorted l.ee_timers
    → (before after : List Event) × (l.ee_timers ≡ before ++ after)
      × ((eventloop_reg_timeout t fn arg l).ee_timers ≡ before ++ new_timer t fn arg l ∷ after)
      × All (λ e. timercmp_lt t e.e_time ≡ false) before
      × All (λ e. timercmp_lt t e.e_time ≡ true) after
unfolding eventloop_reg_timeout insert
eventloop_reg_timeout-order t fn arg l s = split (l.ee_timers) s
  where
    split :
        (events : List Event)
        → IsSorted events
        → (before after : List Event) × (events ≡ before ++ after)
          × (insert (new_timer t fn arg l) events ≡ before ++ new_timer t fn arg l ∷ after)
          × All (λ e. timercmp_lt t e.e_time ≡ false) before
          × All (λ e. timercmp_lt t e.e_time ≡ true) after
    split [] s = ([], [], refl, refl, tt, tt)
    split (x ∷ rest) (low, s) = elim (Bool-cases (timercmp_lt t x.e_time)) [
      | inl h ↦ ([], x ∷ rest, refl, rw h refl, tt, (h, All-before t x.e_time rest h low))
      | inr h ↦
          let (before, after, e, i, lo, hi) = split rest s in
          (x ∷ before, after, ap (λ es. x ∷ es) e, rw (h, i) refl, (h, lo), hi)
    ]
