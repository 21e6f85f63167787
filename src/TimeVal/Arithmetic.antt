-- ===== src/TimeVal/Arithmetic.antt =====
-- Arithmetic on `struct timeval` is exact: it is arithmetic on microseconds.
use sphone.Prelude.{
  ℕ, ◌+◌, ◌*◌, ◌≤◌, ◌<◌, ◌≡◌, refl, inl, inr, Bool-cases, leb→le, ltb→lt, leb_false→lt,
  ltb_false→le, ◌∙◌, arith,
}
use sphone.Prelude.Int.{
  pos, pos_part, neg_part, ◌+ℤ◌, ◌-ℤ◌, +ℤ_parts, -ℤ_parts, one_part, eq_of_parts, ltb_ℤ,
}
use sphone.TimeVal.{
  TimeVal, usec_per_sec, usec_full, borrow, carry, timevalfix, timevaladd, timevalsub, timeradd,
  timersub, micros,
}

-- The microseconds are from 0 to 999999. Seconds may be negative.
pub record IsNormal (t : TimeVal) : Type 0 where
  pub nonneg : neg_part t.tv_usec ≡ 0
  pub below : pos_part t.tv_usec < usec_per_sec

pub micros_parts :
    (t : TimeVal)
    → pos_part (micros t) + neg_part t.tv_sec * usec_per_sec + neg_part t.tv_usec
      ≡ neg_part (micros t) + pos_part t.tv_sec * usec_per_sec + pos_part t.tv_usec
unfolding micros
micros_parts t = ground arith

pub ruleset time_laws = (arith, +ℤ_parts, -ℤ_parts, one_part, eq_of_parts, micros_parts)

abbrev sum : TimeVal → TimeVal → TimeVal
sum t u = record { tv_sec = t.tv_sec +ℤ u.tv_sec; tv_usec = t.tv_usec +ℤ u.tv_usec }

abbrev difference : TimeVal → TimeVal → TimeVal
difference t u = record { tv_sec = t.tv_sec -ℤ u.tv_sec; tv_usec = t.tv_usec -ℤ u.tv_usec }

micros-sum : (t u : TimeVal) → micros (sum t u) ≡ micros t +ℤ micros u
micros-sum t u = omega time_laws

micros-difference : (t u : TimeVal) → micros (difference t u) ≡ micros t -ℤ micros u
micros-difference t u = omega time_laws

-- One correction is enough for a sum, and one for a difference.
carry-micros :
    (t : TimeVal)
    → neg_part t.tv_usec ≡ 0
    → pos_part t.tv_usec < 2 * usec_per_sec
    → IsNormal (carry t) × (micros (carry t) ≡ micros t)
unfolding carry
carry-micros t h k = elim (Bool-cases (usec_full t.tv_usec)) [
  | inl e ↦ rw (e, carry) (omega (time_laws, leb→le _ _ e))
  | inr e ↦ rw (e, carry) (omega (time_laws, leb_false→lt _ _ e))
]

borrow-micros :
    (t : TimeVal)
    → neg_part t.tv_usec ≤ usec_per_sec
    → pos_part t.tv_usec < usec_per_sec
    → IsNormal (borrow t) × (micros (borrow t) ≡ micros t)
unfolding borrow
borrow-micros t h k = elim (Bool-cases (ltb_ℤ t.tv_usec (pos 0))) [
  | inl e ↦ rw (e, borrow) (omega (time_laws, ltb→lt _ _ e))
  | inr e ↦ rw (e, borrow) (omega (time_laws, ltb_false→le _ _ e))
]

borrow-nonneg : (t : TimeVal) → neg_part t.tv_usec ≡ 0 → borrow t ≡ t
unfolding borrow
borrow-nonneg t h = elim (Bool-cases (ltb_ℤ t.tv_usec (pos 0))) [
  | inl e ↦ absurd (omega (arith, ltb→lt _ _ e))
  | inr e ↦ rw (e, borrow)
]

carry-normal : (t : TimeVal) → IsNormal t → carry t ≡ t
unfolding carry
carry-normal t n = elim (Bool-cases (usec_full t.tv_usec)) [
  | inl e ↦ absurd (omega (arith, leb→le _ _ e))
  | inr e ↦ rw (e, carry)
]

-- Adding two normal times gives a normal time, at the sum of their microseconds; the macro
-- `timeradd` gives the same time.
pub timevaladd-micros :
    (t u : TimeVal)
    → IsNormal t
    → IsNormal u
    → IsNormal (timevaladd t u)
      × (micros (timevaladd t u) ≡ micros t +ℤ micros u)
      × (timeradd t u ≡ timevaladd t u)
unfolding timevaladd timeradd
timevaladd-micros t u nt nu =
    let small = carry-micros (sum t u) (omega time_laws) (omega time_laws) in
    rw (borrow-nonneg (sum t u) (omega time_laws)) (small.0, small.1 ∙ micros-sum t u, refl)

-- Subtracting two normal times gives a normal time, at the difference of their microseconds, which
-- may be negative; the macro `timersub` gives the same time.
pub timevalsub-micros :
    (t u : TimeVal)
    → IsNormal t
    → IsNormal u
    → IsNormal (timevalsub t u)
      × (micros (timevalsub t u) ≡ micros t -ℤ micros u)
      × (timersub t u ≡ timevalsub t u)
unfolding timevalsub timersub
timevalsub-micros t u nt nu =
    let small = borrow-micros (difference t u) (omega time_laws) (omega time_laws) in
    rw (carry-normal (borrow (difference t u)) small.0)
      (small.0, small.1 ∙ micros-difference t u, refl)

-- A second more at most, in the microseconds, is put right by one correction.
pub timevalfix-later :
    (t : TimeVal) (u : ℕ)
    → IsNormal t
    → u ≤ usec_per_sec
    → IsNormal (timevalfix (record t { tv_usec = t.tv_usec +ℤ pos u }))
      × (micros (timevalfix (record t { tv_usec = t.tv_usec +ℤ pos u })) ≡ micros t +ℤ pos u)
unfolding timevalfix
timevalfix-later t u n h =
    let later = record t { tv_usec = t.tv_usec +ℤ pos u } in
    let small = carry-micros later (omega time_laws) (omega time_laws) in
    rw (borrow-nonneg later (omega time_laws)) (small.0, small.1 ∙ omega time_laws)
