-- ===== src/Playout/Shbuf/Wrap.antt =====
-- `wrap` and `wrap1` are the distances on the circle of the play buffer.
use native.Mathlib.Nat.{mod-eq_of_lt, add-mod_right}
use sphone.Prelude.{ℕ, ◌+◌, ◌/◌, ◌%◌, ◌^◌, ◌≤◌, ◌<◌, ◌≡◌, ◌⊎◌, true, false, arith}
use sphone.Prelude.Words.{sub32, is_negative, magnitude}
use sphone.Playout.Shbuf.{wrap, wrap1}

-- For two positions in a buffer of fewer than 2^31 bytes, `wrap` of their difference a - b is the
-- shortest way from b to a round the buffer: at most half its length, and going that far forward
-- from b (where the result is not negative) or from a back to b (where it is) meets the other.
wrap_nearest :
    (a b len : ℕ)
    → a < len
    → b < len
    → len < 2 ^ 31
    → let d = wrap (sub32 a b) len in
      (magnitude d ≤ len / 2)
      × (((is_negative d ≡ false) × ((b + magnitude d) % len ≡ a))
          ⊎ ((is_negative d ≡ true) × ((a + magnitude d) % len ≡ b)))
unfolding wrap
wrap_nearest a b len ha hb h =
    ground (arith, mod-eq_of_lt ha, mod-eq_of_lt hb, add-mod_right a len, add-mod_right b len)

-- `wrap1` of the difference is the way forward from b to a, from 0 up to the buffer's length.
pub wrap1_forward :
    (a b len : ℕ)
    → a < len
    → b < len
    → len < 2 ^ 31
    → let d = wrap1 (sub32 a b) len in (d < len) × ((b + d) % len ≡ a)
unfolding wrap1
wrap1_forward a b len ha hb h = ground (arith, mod-eq_of_lt ha, add-mod_right a len)
