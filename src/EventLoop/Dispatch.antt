-- ===== src/EventLoop/Dispatch.antt =====
-- The loop over the descriptors of src/sphone_eventloop.c while its callbacks change the list.
use native.Mathlib.Nat.{le_refl}
use mathlib.Core.Path.{subst}
use sphone.Prelude.{
  ℕ, zero, suc, ◌≤◌, ◌<◌, ◌≡◌, refl, ◌≢◌, inl, inr, Bool, true, false, not, ◌&&◌, ◌==◌,
  if◌then◌else◌, Bool-cases, Option, none, some, List, [], ◌∷◌, length, arith,
}
use sphone.EventLoop.{
  Event, Loop, remove_first, left, same_fd, eventloop_reg_timeout, eventloop_reg_fd,
  eventloop_unreg,
}
use sphone.EventLoop.Timers.{left-remove_first}
use sphone.EventLoop.Turn.{
  Action, reg_timeout, reg_fd, unreg, raise, Env, Verdict, stop, fault, out_of_fuel, is_set, is_fd,
  from, head_addr, act, act_all, run_callback, dispatch,
}

-- The addresses go down along the list, from below `n`: a new event gets a new one, at the head.
abbrev pub Below : ℕ → List Event → Type 0
Below n [] = Unit
Below n (e ∷ rest) = (e.addr < n) × Below e.addr rest

pub Below-mono : (n m : ℕ) (events : List Event) → n ≤ m → Below n events → Below m events
Below-mono n m [] h b = tt
Below-mono n m (e ∷ rest) h (lt, b) = (omega arith, b)

pub left-remove_first-Below :
    (test : Event → Bool) (n : ℕ) (events : List Event)
    → Below n events
    → Below n (left (remove_first test events) events)
unfolding remove_first
left-remove_first-Below test n [] b = tt
left-remove_first-Below test n (e ∷ rest) (lt, b) = elim (Bool-cases (test e)) [
  | inl h ↦ rw (left-remove_first test e rest, h) (Below-mono _ _ rest (omega arith) b)
  | inr h ↦ rw (left-remove_first test e rest, h) (lt, left-remove_first-Below test e.addr rest b)
]

length-from : (a : ℕ) (events : List Event) → length (from a events) ≤ length events
unfolding from
length-from a [] = omega arith
length-from a (e ∷ rest) = elim (Bool-cases (a == e.addr)) [
  | inl h ↦ rw h (le_refl _)
  | inr h ↦ rw h (omega (arith, length-from a rest))
]

length-left :
    (test : Event → Bool) (events : List Event)
    → length (left (remove_first test events) events) ≤ length events
unfolding remove_first
length-left test [] = omega arith
length-left test (e ∷ rest) = elim (Bool-cases (test e)) [
  | inl h ↦ rw (left-remove_first test e rest, h) (omega arith)
  | inr h ↦ rw (left-remove_first test e rest, h) (omega (arith, length-left test rest))
]

-- Taking events out leaves no more from an address on than before.
from-left :
    (test : Event → Bool) (a : ℕ) (events : List Event)
    → length (from a (left (remove_first test events) events)) ≤ length (from a events)
unfolding remove_first from
from-left test a [] = omega arith
from-left test a (e ∷ rest) = elim (Bool-cases (test e)) [
  | inl h ↦ rw (left-remove_first test e rest, h) (skip a e rest)
  | inr h ↦ elim (Bool-cases (a == e.addr)) [
    | inl q ↦ rw (left-remove_first test e rest, h, q) (omega (arith, length-left test rest))
    | inr q ↦ rw (left-remove_first test e rest, h, q) (from-left test a rest)
  ]
]
  where
    skip :
        (a : ℕ) (e : Event) (rest : List Event) → length (from a rest) ≤ length (from a (e ∷ rest))
    skip a e rest = elim (Bool-cases (a == e.addr)) [
      | inl q ↦ rw q (omega (arith, length-from a rest))
      | inr q ↦ rw q (le_refl _)
    ]

-- The event behind the one at an address is the head of its own suffix.
from-next :
    (n a : ℕ) (events : List Event) {e y : Event} {ys : List Event}
    → Below n events
    → from a events ≡ e ∷ y ∷ ys
    → (y.addr < n) × (from y.addr events ≡ y ∷ ys)
unfolding from
from-next n a [] b h = cc
from-next n a (x ∷ rest) {e} {y} {ys} (lt, b) h = elim (Bool-cases (a == x.addr)) [
  | inl q ↦
      let same : rest ≡ y ∷ ys = ground (arith, q, h) in
      let lower : (y.addr < x.addr) × Below y.addr ys = subst (Below x.addr) same b in
      let miss : (y.addr == x.addr) ≡ false = ground arith in
      let hit : (y.addr == y.addr) ≡ true = ground arith in
      (omega (arith, lower.0), rw (miss, same, hit) refl)
  | inr q ↦
      let tail : from a rest ≡ e ∷ y ∷ ys = ground (arith, q, h) in
      let ih = from-next x.addr a rest b tail in
      let low : y.addr < x.addr = ih.0 in
      let miss : (y.addr == x.addr) ≡ false = ground arith in (omega arith, rw miss (ih.1))
]

module _ {W : Type 0} where
  -- What a callback may do to the descriptors: addresses only go up, and no more is left from an event
  -- on than before.
  pub record Shrinks (l l' : Loop W) : Type 0 where
    pub grows : l.next_addr ≤ l'.next_addr
    pub shorter : (a : ℕ) → a < l.next_addr → length (from a l'.ee) ≤ length (from a l.ee)
    pub below : Below l.next_addr l.ee → Below l'.next_addr l'.ee

  act-Shrinks : (x : Action) (l : Loop W) → Shrinks l (act x l)
  unfolding act eventloop_reg_timeout eventloop_reg_fd eventloop_unreg from
  act-Shrinks (reg_timeout t fn arg) l = record {
    grows = omega arith;
    shorter = λ a h. le_refl _;
    below = λ b. Below-mono _ _ l.ee (omega arith) b;
  }
  act-Shrinks (reg_fd fd fn arg) l = record {
    grows = omega arith;
    shorter = λ a h. let miss : (a == l.next_addr) ≡ false = ground arith in rw miss (le_refl _);
    below = λ b. (omega arith, b);
  }
  act-Shrinks (unreg s fn arg) l = record {
    grows = le_refl _;
    shorter = λ a h. from-left (same_fd s fn arg) a l.ee;
    below = λ b. left-remove_first-Below (same_fd s fn arg) _ l.ee b;
  }
  act-Shrinks raise l = record { grows = le_refl _; shorter = λ a h. le_refl _; below = λ b. b }

  act_all-Shrinks : (xs : List Action) (l : Loop W) → Shrinks l (act_all xs l)
  unfolding act_all
  act_all-Shrinks [] l = record { grows = le_refl _; shorter = λ a h. le_refl _; below = λ b. b }
  act_all-Shrinks (x ∷ xs) l =
      let one = act-Shrinks x l in
      let more = act_all-Shrinks xs (act x l) in
      record {
        grows = omega (arith, one.grows, more.grows);
        shorter = λ a h. omega (arith, one.shorter a h, more.shorter a (omega (arith, one.grows)));
        below = λ b. more.below (one.below b);
      }

  -- `sphone_exit` and the world do not count.
  Shrinks-bump :
      (b : Bool) (w : W) (l l' : Loop W)
      → Shrinks (record l { world = w }) l'
      → Shrinks l (if b then record l' { sphone_exit = suc l'.sphone_exit } else l')
  Shrinks-bump true w l l' s = record { grows = s.grows; shorter = s.shorter; below = s.below }
  Shrinks-bump false w l l' s = record { grows = s.grows; shorter = s.shorter; below = s.below }

module _ {W : Type 0} (env : Env W) where
  pub run_callback-Shrinks : (e : Event) (fd : ℕ) (l : Loop W) → Shrinks l (run_callback env e fd l)
  unfolding run_callback
  run_callback-Shrinks e fd l = Shrinks-bump _ _ l _ (act_all-Shrinks _ _)

  -- Enough rounds are left for the events from an address on.
  abbrev pub Enough : ℕ → Loop W → Option ℕ → Type 0
  Enough fuel l none = Unit
  Enough fuel l (some a) = (a < l.next_addr) × (0 < fuel) × (length (from a l.ee) ≤ fuel)

  Enough-next :
      (fuel a : ℕ) (l l' : Loop W) (e : Event) (rest : List Event)
      → Below l.next_addr l.ee
      → from a l.ee ≡ e ∷ rest
      → length (from a l.ee) ≤ suc fuel
      → Shrinks l l'
      → Enough fuel l' (head_addr rest)
  Enough-next fuel a l l' e [] b h k s = tt
  Enough-next fuel a l l' e (y ∷ ys) b h k s =
      let (low, same) = from-next _ a l.ee b h in
      let n : suc (length (y ∷ ys)) ≤ suc fuel = subst (λ es. length es ≤ suc fuel) h k in
      let m : length (from y.addr l.ee) ≤ length (y ∷ ys) = rw same (le_refl _) in
      (omega (arith, low, s.grows), omega arith, omega (arith, s.shorter y.addr low))

  -- An event of the loop: its callback, where its descriptor is ready.
  abbrev pub visit : List ℕ → Event → Loop W → Loop W
  visit set e l = if is_fd e.e_type && is_set e.e_fd set then run_callback env e e.e_fd l else l

  raised : (b : Bool) (n : ℕ) → (b && not (n == 0)) ≡ true → n ≢ 0
  raised b n h = λ e. ground arith

  -- What holds of a round holds of the loop: the event at the address is gone, or it is visited and
  -- the loop stops or goes on behind it.
  pub dispatch_cases :
      (P : Verdict × Loop W → Type 0) (fuel : ℕ) (set : List ℕ) (a : ℕ) (l : Loop W)
      → P (fault, l)
      → ((e : Event) (rest : List Event)
          → from a l.ee ≡ e ∷ rest
          → (visit set e l).sphone_exit ≢ 0
          → P (stop, visit set e l))
      → ((e : Event) (rest : List Event)
          → from a l.ee ≡ e ∷ rest
          → P (dispatch env fuel set (head_addr rest) (visit set e l)))
      → P (dispatch env (suc fuel) set (some a) l)
  unfolding dispatch
  dispatch_cases P fuel set a l lost stopped on = go (from a l.ee) refl
    where
      go : (es : List Event) → from a l.ee ≡ es → P (dispatch env (suc fuel) set (some a) l)
      go [] h = rw (dispatch, h) lost
      go (e ∷ rest) h =
          elim (Bool-cases
            (is_fd e.e_type && is_set e.e_fd set && not ((visit set e l).sphone_exit == 0))) [
              | inl q ↦ rw (dispatch, h, q) (stopped e rest h (raised _ _ q))
              | inr q ↦ rw (dispatch, h, q) (on e rest h)
            ]

  pub visit-Shrinks : (set : List ℕ) (e : Event) (l : Loop W) → Shrinks l (visit set e l)
  visit-Shrinks set e l = elim (Bool-cases (is_fd e.e_type && is_set e.e_fd set)) [
    | inl q ↦ rw q (run_callback-Shrinks e e.e_fd l)
    | inr q ↦ rw q (record { grows = le_refl _; shorter = λ a h. le_refl _; below = λ b. b })
  ]

  -- Whatever its callbacks register and unregister, the loop over the descriptors ends: it has at
  -- most as many rounds as there were events.
  pub dispatch-returns :
      (fuel : ℕ) (set : List ℕ) (cur : Option ℕ) (l : Loop W)
      → Below l.next_addr l.ee
      → Enough fuel l cur
      → (dispatch env fuel set cur l).0 ≢ out_of_fuel
  unfolding dispatch
  dispatch-returns fuel set none l b enough = λ h. ground arith
  dispatch-returns zero set (some a) l b enough = λ h. omega (arith, enough.1)
  dispatch-returns (suc fuel) set (some a) l b enough =
      dispatch_cases (λ r. r.0 ≢ out_of_fuel) fuel set a l (λ h. cc) (λ e rest h x q. cc)
        (λ e rest h.
          let s = visit-Shrinks set e l in
          dispatch-returns fuel set (head_addr rest) (visit set e l) (s.below b)
            (Enough-next fuel a l (visit set e l) e rest b h enough.2 s))

  pub Enough-start : (l : Loop W) → Below l.next_addr l.ee → Enough (length l.ee) l (head_addr l.ee)
  unfolding from
  Enough-start l b = go l.ee refl b
    where
      go :
          (es : List Event) → l.ee ≡ es → Below l.next_addr es → Enough (length es) l (head_addr es)
      go [] h b = tt
      go (e ∷ es) h (lt, b) =
          let hit : (e.addr == e.addr) ≡ true = ground arith in
          (lt, omega arith, rw (h, hit) (le_refl _))
