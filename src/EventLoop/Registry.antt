-- ===== src/EventLoop/Registry.antt =====
-- What registering and unregistering do to the two lists of src/sphone_eventloop.c.
use sphone.Prelude.{
  ℕ, ◌≡◌, refl, ap, ◌⊎◌, ◌↔◌, inl, inr, Bool, true, false, ◌||◌, Bool-cases, Option-cases, none,
  some, List, [], ◌∷◌, ◌++◌, All, arith,
}
use sphone.EventLoop.{Event, Loop, remove_first, found, left, same_timer, same_fd, eventloop_unreg}

-- No event passes the test.
abbrev pub NoMatch : (Event → Bool) → List Event → Type 0
NoMatch test = All (λ e. test e ≡ false)

-- An event that passes the test, where it is the first to do so, and what is left without it
pub record IsTaken (test : Event → Bool) (events rest : List Event) : Type 0 where
  pub before : List Event
  pub event : Event
  pub after : List Event
  pub whole : events ≡ before ++ event ∷ after
  pub kept : rest ≡ before ++ after
  pub first : NoMatch test before
  pub matches : test event ≡ true

remove_first-NoMatch :
    (test : Event → Bool) (events : List Event)
    → NoMatch test events
    → remove_first test events ≡ none
unfolding remove_first
remove_first-NoMatch test [] h = refl
remove_first-NoMatch test (e ∷ rest) (h, hs) = rw (h, remove_first-NoMatch test rest hs) refl

remove_first-none :
    (test : Event → Bool) (events : List Event)
    → remove_first test events ≡ none
    → NoMatch test events
unfolding remove_first
remove_first-none test [] h = tt
remove_first-none test (e ∷ rest) h = elim (Bool-cases (test e)) [
  | inl t ↦ absurd (ground (arith, t, h))
  | inr f ↦ (f, remove_first-none test rest (ground (arith, f, h)))
]

remove_first-IsTaken :
    (test : Event → Bool) (events rest : List Event)
    → remove_first test events ≡ some rest
    → IsTaken test events rest
unfolding remove_first
remove_first-IsTaken test [] rest h = cc
remove_first-IsTaken test (e ∷ events) rest h = elim (Bool-cases (test e)) [
  | inl t ↦ record {
    before = [];
    event = e;
    after = events;
    whole = refl;
    kept = ground (arith, t, h);
    first = tt;
    matches = t;
  }
  | inr f ↦ elim (Option-cases (remove_first test events)) [
    | inl q ↦ absurd (ground (arith, f, q, h))
    | inr (r, q) ↦
        let taken = remove_first-IsTaken test events r q in
        record {
          before = e ∷ taken.before;
          event = taken.event;
          after = taken.after;
          whole = ap (λ es. e ∷ es) taken.whole;
          kept = ground (arith, f, q, h, taken.kept);
          first = (f, taken.first);
          matches = taken.matches;
        }
  ]
]

-- The first match has gone, or there was none and the list stands.
abbrev pub Removed : (Event → Bool) → List Event → List Event → Type 0
Removed test events rest = (NoMatch test events × (rest ≡ events)) ⊎ IsTaken test events rest

left-Removed :
    (test : Event → Bool) (events : List Event)
    → Removed test events (left (remove_first test events) events)
left-Removed test events = elim (Option-cases (remove_first test events)) [
  | inl e ↦ inl (remove_first-none test events e, ap (λ r. left r events) e)
  | inr (rest, e) ↦ inr (rw e (remove_first-IsTaken test events rest e))
]

found-NoMatch :
    (test : Event → Bool) (events : List Event)
    → (found (remove_first test events) ≡ false) ↔ NoMatch test events
found-NoMatch test events = (
  λ h. elim (Option-cases (remove_first test events)) [
    | inl e ↦ remove_first-none test events e
    | inr (rest, e) ↦ absurd (ground (arith, h, e))
  ],
  λ h. ap found (remove_first-NoMatch test events h),
)

or_false : (a b : Bool) → ((a || b) ≡ false) → (a ≡ false) × (b ≡ false)
or_false a b h = ground arith

module _ {W : Type 0} where
  -- Unregistering takes out the first timer with the function and the argument, and the first
  -- descriptor with those and the number, where there is one, and nothing else. The result is -1
  -- exactly where there is neither.
  pub eventloop_unreg-Removed :
      (s fn arg : ℕ) (l : Loop W)
      → let (ok, l') = eventloop_unreg s fn arg l in
        Removed (same_timer fn arg) l.ee_timers l'.ee_timers
        × Removed (same_fd s fn arg) l.ee l'.ee
        × ((ok ≡ false)
            ↔ (NoMatch (same_timer fn arg) l.ee_timers × NoMatch (same_fd s fn arg) l.ee))
  unfolding eventloop_unreg
  eventloop_unreg-Removed s fn arg l =
      let timers = found-NoMatch (same_timer fn arg) l.ee_timers in
      let fds = found-NoMatch (same_fd s fn arg) l.ee in
      (
        left-Removed _ l.ee_timers,
        left-Removed _ l.ee,
        (
          λ h. let (t, f) = or_false _ _ h in (timers.0 t, fds.0 f),
          λ (t, f). rw (timers.1 t, fds.1 f) refl,
        ),
      )
