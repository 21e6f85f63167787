-- ===== src/Prelude/Memory.antt =====
-- A block of memory from a pointer on: the byte at each offset. `memcpy` between places of one
-- block.
use Prim.Native.Nat.{ℕ, zero, suc, ◌+◌}
use sphone.Prelude.Tests.{◌==◌, if◌then◌else◌}

abbrev pub Block : Type 0
Block = ℕ → ℕ

unfoldable pub store : Block → ℕ → ℕ → Block
store m i v k = if k == i then v else m k

-- `memcpy(&buf[dst], &buf[src], n)`, byte by byte from the end
unfoldable pub copy : ℕ → ℕ → ℕ → Block → Block
unfolding store
copy zero dst src m = m
copy (suc n) dst src m = copy n dst src (store m (dst + n) (m (src + n)))
