-- ===== src/Sps/Watch.antt =====
-- What registering and unregistering a client of utils/sps.c does to the events of the loop.
use sphone.Prelude.{
  ℕ, suc, ◌<◌, ◌≡◌, refl, ◌≢◌, inl, inr, Bool, true, false, ◌&&◌, ◌==◌, ==_iff, Bool-cases,
  if◌then◌else◌, List, [], ◌∷◌, All, arith,
}
use sphone.EventLoop.{Event, remove_first, found, left, same_fd}
use sphone.Sps.{client_input_fn}
use sphone.Sps.Table.{watching, is_client, OneEach}

-- The events without the first that passes a test
drop_event : (Event → Bool) → List Event → List Event
drop_event test [] = []
drop_event test (e ∷ rest) = if test e then rest else e ∷ drop_event test rest

left-drop_event :
    (test : Event → Bool) (ee : List Event) → left (remove_first test ee) ee ≡ drop_event test ee
unfolding remove_first drop_event
left-drop_event test [] = refl
left-drop_event test (e ∷ rest) = ground (arith, left-drop_event test rest)

found-watching :
    (s a : ℕ) (ee : List Event)
    → watching s a ee ≡ true
    → found (remove_first (same_fd s client_input_fn a) ee) ≡ true
unfolding watching remove_first
found-watching s a [] h = cc
found-watching s a (e ∷ rest) h = ground (arith, found-watching s a rest)

All-drop_event {κ} :
    (P : Event → Type κ) (test : Event → Bool) (ee : List Event)
    → All P ee
    → All P (drop_event test ee)
unfolding drop_event
All-drop_event P test [] h = tt
All-drop_event P test (e ∷ rest) (h, hs) = elim (Bool-cases (test e)) [
  | inl t ↦ rw t hs
  | inr f ↦ rw f (h, All-drop_event P test rest hs)
]

drop_event-OneEach :
    (test : Event → Bool) (ee : List Event) → OneEach ee → OneEach (drop_event test ee)
unfolding drop_event
drop_event-OneEach test [] d = tt
drop_event-OneEach test (e ∷ rest) (d, ds) = elim (Bool-cases (test e)) [
  | inl t ↦ rw t ds
  | inr f ↦ rw f (All-drop_event _ test rest d, drop_event-OneEach test rest ds)
]

-- An entry that has an event is not watched behind it.
watching-absent :
    (s a : ℕ) (e : Event) (ee : List Event)
    → is_client e ≡ true
    → e.e_arg ≡ a
    → All (λ x. (is_client x && is_client e && (x.e_arg == e.e_arg)) ≡ false) ee
    → watching s a ee ≡ false
unfolding watching
watching-absent s a e [] c q h = refl
watching-absent s a e (x ∷ rest) c q (h, hs) = ground (arith, watching-absent s a e rest c q hs)

watching-drop_event :
    (s a s0 b : ℕ) (ee : List Event)
    → OneEach ee
    → watching s0 b ee ≡ true
    → watching s a (drop_event (same_fd s0 client_input_fn b) ee)
      ≡ (if a == b then false else watching s a ee)
unfolding watching drop_event
watching-drop_event s a s0 b [] d h = cc
watching-drop_event s a s0 b (e ∷ rest) (d, ds) h =
    elim (Bool-cases (same_fd s0 client_input_fn b e)) [
      | inl t ↦
          let client : is_client e ≡ true = ground (arith, t) in
          let arg : e.e_arg ≡ b = ground (arith, t) in
          elim (Bool-cases (a == b)) [
            | inl q ↦
                rw (t, q)
                  (watching-absent s a e rest client (omega (arith, arg, (==_iff a b).0 q)) d)
            | inr q ↦
                let elsewhere : (a == e.e_arg) ≡ false = ground (arith, q, arg) in
                rw (t, q, elsewhere) (ground arith)
          ]
      | inr f ↦
          let later : watching s0 b rest ≡ true = ground (arith, f, h) in
          let ih = watching-drop_event s a s0 b rest ds later in
          let away = watching-absent s0 b e rest in
          elim (Bool-cases (a == b)) [
            | inl q ↦
                let elsewhere : same_fd s client_input_fn a e ≡ false =
                  ground (arith, q, later, watching-absent s0 b e rest, d) in
                rw (f, q) (ground (arith, elsewhere, ih, q))
            | inr q ↦ rw (f, q) (ground (arith, ih, q))
          ]
    ]

-- An entry has no event any more.
abbrev pub NoneOf : ℕ → List Event → Type 0
NoneOf b = All (λ x. is_client x ≡ true → x.e_arg ≢ b)

none_behind :
    (b : ℕ) (e : Event) (ee : List Event)
    → is_client e ≡ true
    → e.e_arg ≡ b
    → All (λ x. (is_client x && is_client e && (x.e_arg == e.e_arg)) ≡ false) ee
    → NoneOf b ee
none_behind b e [] c q h = tt
none_behind b e (x ∷ rest) c q (h, hs) =
    (λ k a. ground (arith, k, a, h, c, q), none_behind b e rest c q hs)

drop_event-NoneOf :
    (s0 b : ℕ) (ee : List Event)
    → OneEach ee
    → watching s0 b ee ≡ true
    → NoneOf b (drop_event (same_fd s0 client_input_fn b) ee)
unfolding watching drop_event
drop_event-NoneOf s0 b [] d h = cc
drop_event-NoneOf s0 b (e ∷ rest) (d, ds) h = elim (Bool-cases (same_fd s0 client_input_fn b e)) [
  | inl t ↦ rw t (none_behind b e rest (ground (arith, t)) (ground (arith, t)) d)
  | inr f ↦
      let later : watching s0 b rest ≡ true = ground (arith, f, h) in
      rw f (
        λ c q. ground (arith, c, q, watching-absent s0 b e rest c q d, later),
        drop_event-NoneOf s0 b rest ds later,
      )
]

-- Where an entry's event is removed: it was there, no event of another entry is touched, and what held of all
-- events still does.
pub record IsUnwatched {κ} (P : Event → Type κ) (s0 b : ℕ) (ee : List Event) : Type κ where
  pub is_found : found (remove_first (same_fd s0 client_input_fn b) ee) ≡ true
  pub watching_left :
      (s a : ℕ)
      → watching s a (left (remove_first (same_fd s0 client_input_fn b) ee) ee)
        ≡ (if a == b then false else watching s a ee)
  pub left_each : OneEach (left (remove_first (same_fd s0 client_input_fn b) ee) ee)
  pub left_none : NoneOf b (left (remove_first (same_fd s0 client_input_fn b) ee) ee)
  pub left_all : All P (left (remove_first (same_fd s0 client_input_fn b) ee) ee)

pub remove_first-IsUnwatched {κ} :
    (P : Event → Type κ) (s0 b : ℕ) (ee : List Event)
    → OneEach ee
    → All P ee
    → watching s0 b ee ≡ true
    → IsUnwatched P s0 b ee
remove_first-IsUnwatched P s0 b ee d h w =
    let e = left-drop_event (same_fd s0 client_input_fn b) ee in
    record {
      is_found = found-watching s0 b ee w;
      watching_left = λ s a. rw e (watching-drop_event s a s0 b ee d w);
      left_each = rw e (drop_event-OneEach _ ee d);
      left_none = rw e (drop_event-NoneOf s0 b ee d w);
      left_all = rw e (All-drop_event P _ ee h);
    }

-- An entry that has no event is given one.
pub new-OneEach : (e : Event) (ee : List Event) → NoneOf e.e_arg ee → OneEach ee → OneEach (e ∷ ee)
new-OneEach e ee h d = (all_other e ee h, d)
  where
    all_other :
        (e : Event) (ee : List Event)
        → NoneOf e.e_arg ee
        → All (λ x. (is_client x && is_client e && (x.e_arg == e.e_arg)) ≡ false) ee
    all_other e [] h = tt
    all_other e (x ∷ rest) (h, hs) = (ground (arith, h), all_other e rest hs)

pub below-NoneOf :
    (n : ℕ) (ee : List Event) → All (λ x. is_client x ≡ true → x.e_arg < n) ee → NoneOf n ee
below-NoneOf n [] h = tt
below-NoneOf n (x ∷ rest) (h, hs) = (λ c e. omega (arith, h c, e), below-NoneOf n rest hs)

pub below-suc :
    (n : ℕ) (ee : List Event)
    → All (λ x. is_client x ≡ true → x.e_arg < n) ee
    → All (λ x. is_client x ≡ true → x.e_arg < suc n) ee
below-suc n [] h = tt
below-suc n (x ∷ rest) (h, hs) = (λ c. omega (arith, h c), below-suc n rest hs)

watching-other :
    (s a fn s0 b : ℕ) (ee : List Event)
    → fn ≢ client_input_fn
    → watching s a (drop_event (same_fd s0 fn b) ee) ≡ watching s a ee
unfolding watching drop_event
watching-other s a fn s0 b [] ne = refl
watching-other s a fn s0 b (e ∷ rest) ne = ground (arith, watching-other s a fn s0 b rest ne)

-- An event of another function is removed.
pub remove_first-other {κ} :
    (P : Event → Type κ) (fn s0 b : ℕ) (ee : List Event)
    → fn ≢ client_input_fn
    → OneEach ee
    → All P ee
    → let rest = left (remove_first (same_fd s0 fn b) ee) ee in
      ((s a : ℕ) → watching s a rest ≡ watching s a ee) × OneEach rest × All P rest
remove_first-other P fn s0 b ee ne d h =
    let e = left-drop_event (same_fd s0 fn b) ee in
    (
      λ s a. rw e (watching-other s a fn s0 b ee ne),
      rw e (drop_event-OneEach _ ee d),
      rw e (All-drop_event P _ ee h),
    )
