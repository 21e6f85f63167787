-- ===== src/DevAudio/Table.antt =====
-- The list of devices of audio/sphone_audio_devaudio.c, seen as a table of reference counts by address.
use sphone.Prelude.{
  ℕ, ◌<◌, ◌≡◌, refl, ap, ◌≢◌, inl, inr, true, false, ◌==◌, ==_iff, Bool-cases, if◌then◌else◌, none,
  some, List, [], ◌∷◌, All, arith,
}
use sphone.DevAudio.{Device, strcmp_eq, find_name, find_addr, update, unlink}

-- The reference count at an address, 0 where no device is
unfoldable pub refcnt_at : ℕ → List Device → ℕ
refcnt_at a [] = 0
refcnt_at a (dd ∷ rest) = if a == dd.addr then dd.dd_refcnt else refcnt_at a rest

-- No two devices share an address, or a name.
abbrev pub Distinct : List Device → Type 0
Distinct [] = Unit
Distinct (dd ∷ rest) = All (λ d. d.addr ≢ dd.addr) rest × Distinct rest

abbrev pub OneName : List Device → Type 0
OneName [] = Unit
OneName (dd ∷ rest) = All (λ d. strcmp_eq d.dd_name dd.dd_name ≡ false) rest × OneName rest

refcnt_at-absent : (a : ℕ) (l : List Device) → All (λ d. d.addr ≢ a) l → refcnt_at a l ≡ 0
unfolding refcnt_at
refcnt_at-absent a [] h = refl
refcnt_at-absent a (dd ∷ rest) (h, hs) = ground (arith, refcnt_at-absent a rest hs)

pub refcnt_at-fresh :
    (a n : ℕ) (l : List Device) → All (λ d. d.addr < n) l → (a == n) ≡ true → refcnt_at a l ≡ 0
unfolding refcnt_at
refcnt_at-fresh a n [] h e = refl
refcnt_at-fresh a n (dd ∷ rest) (h, hs) e = ground (arith, refcnt_at-fresh a n rest hs e)

-- A device that counts is found.
pub refcnt_at-listed :
    (a : ℕ) (l : List Device)
    → 0 < refcnt_at a l
    → (dd : Device) × (find_addr a l ≡ some dd) × (dd.dd_refcnt ≡ refcnt_at a l)
unfolding refcnt_at find_addr
refcnt_at-listed a [] h = absurd (omega (arith, h))
refcnt_at-listed a (dd ∷ rest) h = elim (Bool-cases (a == dd.addr)) [
  | inl t ↦ (dd, rw t refl, rw t refl)
  | inr f ↦
      let later : 0 < refcnt_at a rest = rw f at h in
      let (d, e, r) = refcnt_at-listed a rest later in (d, rw f e, rw f r)
]

-- The other way round
pub refcnt_at-found :
    (dd : Device) (a : ℕ) (l : List Device)
    → find_addr a l ≡ some dd
    → (dd.addr ≡ a) × (refcnt_at a l ≡ dd.dd_refcnt)
unfolding refcnt_at find_addr
refcnt_at-found dd a [] e = absurd (cc e)
refcnt_at-found dd a (d ∷ rest) e = elim (Bool-cases (a == d.addr)) [
  | inl t ↦
      let same : some d ≡ some dd = rw t at e in
      let q : d ≡ dd = cc in (ground (arith, t, ap (λ x. x.addr) q), rw t (ap (λ x. x.dd_refcnt) q))
  | inr f ↦
      let later : find_addr a rest ≡ some dd = rw f at e in
      let (same, r) = refcnt_at-found dd a rest later in (same, rw f r)
]

-- A change of one device's count
pub refcnt_at-update :
    (a b n : ℕ) (f : Device → Device) (dd : Device) (l : List Device)
    → ((d : Device) → (f d).addr ≡ d.addr)
    → find_addr b l ≡ some dd
    → (f dd).dd_refcnt ≡ n
    → refcnt_at a (update b f l) ≡ (if a == b then n else refcnt_at a l)
unfolding refcnt_at update find_addr
refcnt_at-update a b n f dd [] keeps found new = cc
refcnt_at-update a b n f dd (d ∷ rest) keeps found new = elim (Bool-cases (b == d.addr)) [
  | inl t ↦
      let same : some d ≡ some dd = rw t at found in
      let here : (f d).dd_refcnt ≡ n = cc in rw (t, keeps d) (ground (arith, here))
  | inr other ↦
      let later : find_addr b rest ≡ some dd = rw other at found in
      rw other (ground (arith, refcnt_at-update a b n f dd rest keeps later new))
]

pub refcnt_at-unlink :
    (a b : ℕ) (l : List Device)
    → Distinct l
    → refcnt_at a (unlink b l) ≡ (if a == b then 0 else refcnt_at a l)
unfolding refcnt_at unlink
refcnt_at-unlink a b [] d = ground arith
refcnt_at-unlink a b (dd ∷ rest) (d, ds) = elim (Bool-cases (b == dd.addr)) [
  | inl t ↦ elim (Bool-cases (a == b)) [
    | inl e ↦
        let same : a ≡ dd.addr = omega (arith, (==_iff a b).0 e, (==_iff b dd.addr).0 t) in
        let absent : All (λ x. x.addr ≢ a) rest = rw same d in
        rw (t, e) (refcnt_at-absent a rest absent)
    | inr n ↦ ground (arith, t, n)
  ]
  | inr f ↦ ground (arith, f, refcnt_at-unlink a b rest ds)
]

-- What holds of all devices
pub All-update {κ} :
    (P : Device → Type κ) (a : ℕ) (f : Device → Device) (l : List Device)
    → ((d : Device) → P d → P (f d))
    → All P l
    → All P (update a f l)
unfolding update
All-update P a f [] keep h = tt
All-update P a f (dd ∷ rest) keep (h, hs) = elim (Bool-cases (a == dd.addr)) [
  | inl t ↦ rw t (keep dd h, hs)
  | inr n ↦ rw n (h, All-update P a f rest keep hs)
]

pub All-unlink {κ} : (P : Device → Type κ) (a : ℕ) (l : List Device) → All P l → All P (unlink a l)
unfolding unlink
All-unlink P a [] h = tt
All-unlink P a (dd ∷ rest) (h, hs) = elim (Bool-cases (a == dd.addr)) [
  | inl t ↦ rw t hs
  | inr n ↦ rw n (h, All-unlink P a rest hs)
]

pub All-weaken {κ λ'} :
    {P : Device → Type κ} {Q : Device → Type λ'} (l : List Device)
    → ((d : Device) → P d → Q d)
    → All P l
    → All Q l
All-weaken [] w h = tt
All-weaken (dd ∷ rest) w (h, hs) = (w dd h, All-weaken rest w hs)

-- A pairwise relation survives a change that keeps it, and the loss of a device.
pub unlink-Distinct : (a : ℕ) (l : List Device) → Distinct l → Distinct (unlink a l)
unfolding unlink
unlink-Distinct a [] d = tt
unlink-Distinct a (dd ∷ rest) (d, ds) = elim (Bool-cases (a == dd.addr)) [
  | inl t ↦ rw t ds
  | inr n ↦ rw n (All-unlink _ a rest d, unlink-Distinct a rest ds)
]

pub unlink-OneName : (a : ℕ) (l : List Device) → OneName l → OneName (unlink a l)
unfolding unlink
unlink-OneName a [] d = tt
unlink-OneName a (dd ∷ rest) (d, ds) = elim (Bool-cases (a == dd.addr)) [
  | inl t ↦ rw t ds
  | inr n ↦ rw n (All-unlink _ a rest d, unlink-OneName a rest ds)
]

-- A change of counts only
abbrev pub KeepsName : (Device → Device) → Type 0
KeepsName f = (d : Device) → ((f d).addr ≡ d.addr) × ((f d).dd_name ≡ d.dd_name)

pub update-Distinct :
    (a : ℕ) (f : Device → Device) (l : List Device)
    → KeepsName f
    → Distinct l
    → Distinct (update a f l)
unfolding update
update-Distinct a f [] keep d = tt
update-Distinct a f (dd ∷ rest) keep (d, ds) = elim (Bool-cases (a == dd.addr)) [
  | inl t ↦ rw t (rw ((keep dd).0) d, ds)
  | inr n ↦ rw n (
    All-update (λ y. y.addr ≢ dd.addr) a f rest (λ c h. rw ((keep c).0) h) d,
    update-Distinct a f rest keep ds,
  )
]

pub update-OneName :
    (a : ℕ) (f : Device → Device) (l : List Device)
    → KeepsName f
    → OneName l
    → OneName (update a f l)
unfolding update
update-OneName a f [] keep d = tt
update-OneName a f (dd ∷ rest) keep (d, ds) = elim (Bool-cases (a == dd.addr)) [
  | inl t ↦ rw t (rw ((keep dd).1) d, ds)
  | inr n ↦ rw n (
    All-update (λ y. strcmp_eq y.dd_name dd.dd_name ≡ false) a f rest (λ c h. rw ((keep c).1) h) d,
    update-OneName a f rest keep ds,
  )
]

-- Looking a name up
pub find_name-none :
    (name : List ℕ) (l : List Device)
    → find_name name l ≡ none
    → All (λ d. strcmp_eq d.dd_name name ≡ false) l
unfolding find_name
find_name-none name [] h = tt
find_name-none name (dd ∷ rest) h = elim (Bool-cases (strcmp_eq dd.dd_name name)) [
  | inl t ↦ let no : some dd ≡ none = rw t at h in absurd (cc no)
  | inr f ↦
      let later : find_name name rest ≡ none = rw f at h in (f, find_name-none name rest later)
]

find_name-absent :
    (name : List ℕ) (a : ℕ) (dd : Device) (l : List Device)
    → All (λ d. d.addr ≢ a) l
    → find_name name l ≡ some dd
    → dd.addr ≢ a
unfolding find_name
find_name-absent name a dd [] h e = absurd (cc e)
find_name-absent name a dd (x ∷ rest) (h, hs) e = elim (Bool-cases (strcmp_eq x.dd_name name)) [
  | inl t ↦ let same : some x ≡ some dd = rw t at e in let q : x ≡ dd = cc in rw q at h
  | inr f ↦
      let later : find_name name rest ≡ some dd = rw f at e in
      find_name-absent name a dd rest hs later
]

pub find_name-find_addr :
    (name : List ℕ) (dd : Device) (l : List Device)
    → Distinct l
    → find_name name l ≡ some dd
    → find_addr dd.addr l ≡ some dd
unfolding find_name find_addr
find_name-find_addr name dd [] d e = absurd (cc e)
find_name-find_addr name dd (x ∷ rest) (d, ds) e = elim (Bool-cases (strcmp_eq x.dd_name name)) [
  | inl t ↦
      let same : some x ≡ some dd = rw t at e in
      let q : x ≡ dd = cc in
      let here : (dd.addr == x.addr) ≡ true = rw q (ground arith) in rw here same
  | inr f ↦
      let later : find_name name rest ≡ some dd = rw f at e in
      let apart = find_name-absent name x.addr dd rest d later in
      let elsewhere : (dd.addr == x.addr) ≡ false = ground (arith, apart) in
      rw elsewhere (find_name-find_addr name dd rest ds later)
]

-- Where no address counts, nothing is listed.
pub no_devices :
    (l : List Device) → All (λ d. 0 < d.dd_refcnt) l → ((a : ℕ) → refcnt_at a l ≡ 0) → l ≡ []
unfolding refcnt_at
no_devices [] h free = refl
no_devices (dd ∷ rest) (h, hs) free = absurd (ground (arith, free dd.addr, h))
