-- ===== src/Prelude/Words.antt =====
-- Machine words as native numbers: unsigned words wrap by `%`, and a signed word is its bit pattern.
use Prim.Native.Nat.{ℕ, ◌+◌, ◌-◌, ◌%◌, ◌^◌}
use mathlib.Core.Bool.{Bool}
use sphone.Prelude.Tests.{leb}

abbrev pub u8 : ℕ → ℕ
u8 n = n % 2 ^ 8

abbrev pub u16 : ℕ → ℕ
u16 n = n % 2 ^ 16

abbrev pub u32 : ℕ → ℕ
u32 n = n % 2 ^ 32

-- a - b on 16 and on 32 bits; `b` is below the modulus.
abbrev pub sub16 : ℕ → ℕ → ℕ
sub16 a b = (a + (2 ^ 16 - b)) % 2 ^ 16

abbrev pub sub32 : ℕ → ℕ → ℕ
sub32 a b = (a + (2 ^ 32 - b)) % 2 ^ 32

-- The sign of an `int`, read off its bit pattern.
abbrev pub is_negative : ℕ → Bool
is_negative w = leb (2 ^ 31) w

-- The absolute value of an `int`, read off its bit pattern.
abbrev pub magnitude : ℕ → ℕ
magnitude w = elim (is_negative w) [ Bool.true ↦ 2 ^ 32 - w | Bool.false ↦ w ]
