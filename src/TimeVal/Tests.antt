-- ===== src/TimeVal/Tests.antt =====
-- Examples of the arithmetic of times.
use sphone.Prelude.{◌≡◌, refl}
use sphone.Prelude.Int.{pos, ◌+ℤ◌, ◌-ℤ◌}
use sphone.TimeVal.{TimeVal, timevalsub}

abbrev early : TimeVal
early = record { tv_sec = pos 1; tv_usec = pos 600000 }

abbrev late : TimeVal
late = record { tv_sec = pos 2; tv_usec = pos 500000 }

timevalsub_borrows : timevalsub late early ≡ record { tv_sec = pos 0; tv_usec = pos 900000 }
unfolding timevalsub ◌-ℤ◌ ◌+ℤ◌
timevalsub_borrows = refl
