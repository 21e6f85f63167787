-- ===== src/TimeVal.antt =====
-- `struct timeval` and its arithmetic: timevalfix, timevaladd and timevalsub of src/sphone_lib.c,
-- timeradd and timersub of include/sphone.h, and timercmp. Seconds and microseconds are signed, and
-- do not overflow their C type.
pub mod Arithmetic
mod Tests
use sphone.Prelude.{ℕ, suc, ◌+◌, ◌*◌, Bool, ◌&&◌, ◌||◌, if◌then◌else◌, leb}
use sphone.Prelude.Int.{ℤ, pos, negsuc, pos_part, neg_part, sub_ℕ, ◌+ℤ◌, ◌-ℤ◌, ltb_ℤ}

-- `struct timeval`
pub record TimeVal : Type 0 where
  pub tv_sec : ℤ
  pub tv_usec : ℤ

abbrev pub usec_per_sec : ℕ
usec_per_sec = 1000000

-- `tv_usec >= 1000000`
abbrev pub usec_full : ℤ → Bool
usec_full u = leb usec_per_sec (pos_part u)

-- The first `if` of `timevalfix`, and the second.
unfoldable pub borrow : TimeVal → TimeVal
borrow t =
    if ltb_ℤ t.tv_usec (pos 0)
    then record { tv_sec = t.tv_sec -ℤ pos 1; tv_usec = t.tv_usec +ℤ pos usec_per_sec }
    else t

unfoldable pub carry : TimeVal → TimeVal
carry t =
    if usec_full t.tv_usec
    then record { tv_sec = t.tv_sec +ℤ pos 1; tv_usec = t.tv_usec -ℤ pos usec_per_sec }
    else t

unfoldable pub timevalfix : TimeVal → TimeVal
unfolding borrow carry
timevalfix t = carry (borrow t)

unfoldable pub timevaladd : TimeVal → TimeVal → TimeVal
unfolding timevalfix
timevaladd t1 t2 =
    timevalfix (record { tv_sec = t1.tv_sec +ℤ t2.tv_sec; tv_usec = t1.tv_usec +ℤ t2.tv_usec })

unfoldable pub timevalsub : TimeVal → TimeVal → TimeVal
unfolding timevalfix
timevalsub t1 t2 =
    timevalfix (record { tv_sec = t1.tv_sec -ℤ t2.tv_sec; tv_usec = t1.tv_usec -ℤ t2.tv_usec })

-- The macros correct in one direction only.
unfoldable pub timeradd : TimeVal → TimeVal → TimeVal
unfolding carry
timeradd t u = carry (record { tv_sec = t.tv_sec +ℤ u.tv_sec; tv_usec = t.tv_usec +ℤ u.tv_usec })

unfoldable pub timersub : TimeVal → TimeVal → TimeVal
unfolding borrow
timersub t u = borrow (record { tv_sec = t.tv_sec -ℤ u.tv_sec; tv_usec = t.tv_usec -ℤ u.tv_usec })

-- `timercmp(t, u, <)`: by seconds, and by microseconds where the seconds are equal.
unfoldable pub timercmp_lt : TimeVal → TimeVal → Bool
timercmp_lt t u =
    if ltb_ℤ t.tv_sec u.tv_sec
    then Bool.true
    else (if ltb_ℤ u.tv_sec t.tv_sec then Bool.false else ltb_ℤ t.tv_usec u.tv_usec)

-- The time in microseconds.
unfoldable pub micros : TimeVal → ℤ
micros t =
    sub_ℕ (pos_part t.tv_sec * usec_per_sec + pos_part t.tv_usec)
      (neg_part t.tv_sec * usec_per_sec + neg_part t.tv_usec)
