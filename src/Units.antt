-- ===== src/Units.antt =====
-- Lengths of audio in milliseconds, bytes and samples: ms2bytes, bytes2ms and bytes2samples of
-- src/sphone_lib.c. Products are `uint32_t` and wrap. A division by 0 is a fault, `none`.
use sphone.Prelude.{ℕ, ◌*◌, ◌/◌, ◌==◌, if◌then◌else◌, Option, none, some}
use sphone.Prelude.Words.{u32}

unfoldable pub ms2bytes : ℕ → ℕ → ℕ → ℕ → ℕ
ms2bytes samp_sec bits_samp channels ms = u32 (samp_sec * bits_samp * channels * ms) / 8000

-- `a / b`
abbrev pub divide : ℕ → ℕ → Option ℕ
divide a b = if b == 0 then none else some (a / b)

unfoldable pub bytes2ms : ℕ → ℕ → ℕ → ℕ → Option ℕ
bytes2ms samp_sec bits_samp channels bytes =
    divide (u32 (bytes * 8000)) (u32 (samp_sec * bits_samp * channels))

unfoldable pub bytes2samples : ℕ → ℕ → ℕ → Option ℕ
bytes2samples bits_samp bytes channels = divide (u32 (bytes * 8)) (u32 (bits_samp * channels))
