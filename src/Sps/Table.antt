-- ===== src/Sps/Table.antt =====
-- The list of clients of utils/sps.c and the events of the loop, seen as tables: which socket goes with which
-- entry.
use sphone.Prelude.{
  ℕ, ◌≡◌, refl, sym, ap, ◌≢◌, ◌⊎◌, inl, inr, Bool, true, false, ◌&&◌, ◌||◌, ◌==◌, ==_iff,
  Bool-cases, if◌then◌else◌, some, List, [], ◌∷◌, All, arith,
}
use sphone.EventLoop.{Event, same_fd}
use sphone.Sp.{SockaddrIn}
use sphone.Sps.{CfEntry, client_input_fn, cfe_find, cfe_find_byid, entry_at, update, without}

-- The list has an entry at an address, with a socket.
unfoldable pub listed : ℕ → ℕ → List CfEntry → Bool
listed s a [] = false
listed s a (cfe ∷ rest) = (s == cfe.cf_s && a == cfe.addr) || listed s a rest

-- The loop has an event that reads a socket for an entry.
unfoldable pub watching : ℕ → ℕ → List Event → Bool
watching s a [] = false
watching s a (e ∷ rest) = same_fd s client_input_fn a e || watching s a rest

abbrev pub In : CfEntry → List CfEntry → Type 0
In c [] = ⊥
In c (x ∷ rest) = (c ≡ x) ⊎ In c rest

-- No two entries share an address, and no two events an entry.
abbrev pub Distinct : List CfEntry → Type 0
Distinct [] = Unit
Distinct (x ∷ rest) = All (λ y. y.addr ≢ x.addr) rest × Distinct rest

abbrev pub is_client : Event → Bool
is_client e = client_input_fn == e.e_fn

abbrev pub OneEach : List Event → Type 0
OneEach [] = Unit
OneEach (e ∷ rest) =
    All (λ x. (is_client x && is_client e && (x.e_arg == e.e_arg)) ≡ false) rest × OneEach rest

pub All-In {κ} : (P : CfEntry → Type κ) (c : CfEntry) (l : List CfEntry) → All P l → In c l → P c
All-In P c [] h m = absurd m
All-In P c (x ∷ rest) (h, hs) (inl e) = rw e h
All-In P c (x ∷ rest) (h, hs) (inr m) = All-In P c rest hs m

pub In-listed : (c : CfEntry) (l : List CfEntry) → In c l → listed c.cf_s c.addr l ≡ true
unfolding listed
In-listed c [] m = absurd m
In-listed c (x ∷ rest) (inl e) = ground (arith, ap (λ y. y.cf_s) e, ap (λ y. y.addr) e)
In-listed c (x ∷ rest) (inr m) = ground (arith, In-listed c rest m)

pub In-entry_at :
    (c : CfEntry) (l : List CfEntry) → Distinct l → In c l → entry_at c.addr l ≡ some c
unfolding entry_at
In-entry_at c [] d m = absurd m
In-entry_at c (x ∷ rest) d (inl e) =
    let same : (c.addr == x.addr) ≡ true = ground (arith, ap (λ y. y.addr) e) in
    rw same (ap some (sym e))
In-entry_at c (x ∷ rest) (d, ds) (inr m) =
    let other = All-In (λ y. y.addr ≢ x.addr) c rest d m in
    let no : (c.addr == x.addr) ≡ false = ground (arith, other) in rw no (In-entry_at c rest ds m)

pub entry_at-In :
    (a : ℕ) (c : CfEntry) (l : List CfEntry) → entry_at a l ≡ some c → In c l × (c.addr ≡ a)
unfolding entry_at
entry_at-In a c [] h = cc
entry_at-In a c (x ∷ rest) h = elim (Bool-cases (a == x.addr)) [
  | inl t ↦ let e : some x ≡ some c = rw t at h in (inl (cc e), ground (arith, t, e))
  | inr f ↦
      let e : entry_at a rest ≡ some c = rw f at h in
      let (m, q) = entry_at-In a c rest e in (inr m, q)
]

pub cfe_find-In : (x : SockaddrIn) (c : CfEntry) (l : List CfEntry) → cfe_find l x ≡ some c → In c l
unfolding cfe_find
cfe_find-In x c [] h = cc
cfe_find-In x c (y ∷ rest) h = ground (arith, cfe_find-In x c rest)

pub cfe_find_byid-In :
    (id : ℕ) (c : CfEntry) (l : List CfEntry) → cfe_find_byid l id ≡ some c → In c l
unfolding cfe_find_byid
cfe_find_byid-In id c [] h = cc
cfe_find_byid-In id c (y ∷ rest) h = ground (arith, cfe_find_byid-In id c rest)

-- Taking an entry out
pub All-without {κ} :
    (P : CfEntry → Type κ) (a : ℕ) (l : List CfEntry) → All P l → All P (without a l)
unfolding without
All-without P a [] h = tt
All-without P a (x ∷ rest) (h, hs) = elim (Bool-cases (a == x.addr)) [
  | inl t ↦ rw t hs
  | inr f ↦ rw f (h, All-without P a rest hs)
]

pub without-Distinct : (a : ℕ) (l : List CfEntry) → Distinct l → Distinct (without a l)
unfolding without
without-Distinct a [] d = tt
without-Distinct a (x ∷ rest) (d, ds) = elim (Bool-cases (a == x.addr)) [
  | inl t ↦ rw t ds
  | inr f ↦ rw f (All-without _ a rest d, without-Distinct a rest ds)
]

-- The address of an entry is not listed behind it.
listed-absent :
    (s a b : ℕ) (l : List CfEntry) → a ≡ b → All (λ y. y.addr ≢ b) l → listed s a l ≡ false
unfolding listed
listed-absent s a b [] e h = refl
listed-absent s a b (x ∷ rest) e (h, hs) = ground (arith, listed-absent s a b rest e hs)

pub listed-without :
    (s a b : ℕ) (l : List CfEntry)
    → Distinct l
    → listed s a (without b l) ≡ (if a == b then false else listed s a l)
unfolding listed without
listed-without s a b [] d = ground arith
listed-without s a b (x ∷ rest) (d, ds) = elim (Bool-cases (b == x.addr)) [
  | inl t ↦ elim (Bool-cases (a == b)) [
    | inl e ↦
        rw (t, e)
          (listed-absent s a x.addr rest (omega (arith, (==_iff a b).0 e, (==_iff b x.addr).0 t)) d)
    | inr n ↦ ground (arith, t, n)
  ]
  | inr f ↦ ground (arith, f, listed-without s a b rest ds)
]

-- Changes in place
pub All-update {κ} :
    (P : CfEntry → Type κ) (a : ℕ) (f : CfEntry → CfEntry) (l : List CfEntry)
    → ((c : CfEntry) → P c → P (f c))
    → All P l
    → All P (update a f l)
unfolding update
All-update P a f [] keep h = tt
All-update P a f (x ∷ rest) keep (h, hs) = elim (Bool-cases (a == x.addr)) [
  | inl t ↦ rw t (keep x h, hs)
  | inr n ↦ rw n (h, All-update P a f rest keep hs)
]

-- The change leaves an entry's address.
abbrev pub KeepsAddr : (CfEntry → CfEntry) → Type 0
KeepsAddr f = (c : CfEntry) → (f c).addr ≡ c.addr

-- And its socket
abbrev pub KeepsSocket : (CfEntry → CfEntry) → Type 0
KeepsSocket f = (c : CfEntry) → (f c).cf_s ≡ c.cf_s

pub update-Distinct :
    (a : ℕ) (f : CfEntry → CfEntry) (l : List CfEntry)
    → KeepsAddr f
    → Distinct l
    → Distinct (update a f l)
unfolding update
update-Distinct a f [] keep d = tt
update-Distinct a f (x ∷ rest) keep (d, ds) = elim (Bool-cases (a == x.addr)) [
  | inl t ↦ rw t (rw (keep x) d, ds)
  | inr n ↦ rw n (
    All-update (λ y. y.addr ≢ x.addr) a f rest (λ c h. rw (keep c) h) d,
    update-Distinct a f rest keep ds,
  )
]

pub listed-update :
    (s a b : ℕ) (f : CfEntry → CfEntry) (l : List CfEntry)
    → KeepsAddr f
    → KeepsSocket f
    → listed s a (update b f l) ≡ listed s a l
unfolding listed update
listed-update s a b f [] ka ks = refl
listed-update s a b f (x ∷ rest) ka ks = elim (Bool-cases (b == x.addr)) [
  | inl t ↦ rw (t, ka x, ks x) refl
  | inr n ↦ rw (n, listed-update s a b f rest ka ks) refl
]

-- A new socket for an entry
pub listed-socket :
    (s a b s1 : ℕ) (l : List CfEntry)
    → Distinct l
    → ((c : CfEntry) × In c l × (c.addr ≡ b))
    → listed s a (update b (λ c. record c { cf_s = s1 }) l)
      ≡ (if a == b then s == s1 else listed s a l)
unfolding listed update
listed-socket s a b s1 [] d (c, m, e) = absurd m
listed-socket s a b s1 (x ∷ rest) (d, ds) (c, inl m, e) =
    let t : (b == x.addr) ≡ true = ground (arith, e, ap (λ y. y.addr) m) in
    elim (Bool-cases (a == b)) [
      | inl q ↦
          let absent =
            listed-absent s a x.addr rest (omega (arith, (==_iff a b).0 q, (==_iff b x.addr).0 t))
              d in
          let here : (a == x.addr) ≡ true = ground (arith, q, t) in
          rw (t, q, here, absent) (ground arith)
      | inr q ↦
          let elsewhere : (a == x.addr) ≡ false = ground (arith, q, t) in
          rw (t, q, elsewhere) (ground arith)
    ]
listed-socket s a b s1 (x ∷ rest) (d, ds) (c, inr m, e) =
    let apart = All-In (λ y. y.addr ≢ x.addr) c rest d m in
    let n : (b == x.addr) ≡ false = ground (arith, apart, e) in
    let ih = listed-socket s a b s1 rest ds (c, m, e) in
    elim (Bool-cases (a == b)) [
      | inl q ↦
          let elsewhere : (a == x.addr) ≡ false = ground (arith, q, n) in
          rw (n, q, elsewhere) (ground (arith, ih, q))
      | inr q ↦ rw (n, q) (ground (arith, ih, q))
    ]

pub listed-In :
    (s a : ℕ) (l : List CfEntry)
    → listed s a l ≡ true
    → (c : CfEntry) × In c l × (c.addr ≡ a) × (c.cf_s ≡ s)
unfolding listed
listed-In s a [] h = cc
listed-In s a (x ∷ rest) h = elim (Bool-cases (s == x.cf_s && a == x.addr)) [
  | inl t ↦ (x, inl refl, ground (arith, t), ground (arith, t))
  | inr f ↦
      let later : listed s a rest ≡ true = ground (arith, f, h) in
      let (c, m, e, q) = listed-In s a rest later in (c, inr m, e, q)
]
