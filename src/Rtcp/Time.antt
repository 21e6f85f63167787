-- ===== src/Rtcp/Time.antt =====
-- The conversions of time of src/sphone_rtcp.c, and `TV2NTP_64` of src/sphone_rtp.c. What C computes with
-- a `double` is a parameter.
use sphone.Prelude.{ℕ, ◌+◌, ◌-◌, ◌*◌, ◌/◌, ◌%◌, ◌^◌, ◌<◌, ◌≡◌, bit_and, arith}
use sphone.Prelude.Words.{u16, u32, sub32}
use sphone.Prelude.Masks.{bit_and-ones}
use sphone.Prelude.Int.{ℤ, pos, negsuc}
use sphone.TimeVal.{TimeVal}
use sphone.Rtp.Header.{NtpTimestamp}

-- The microseconds of a time as 65536th parts and as 2^32nd parts of a second, and 65536th parts of a
-- second as milliseconds, each cut to a 32-bit word
pub record Doubles : Type 0 where
  pub usec_frac : ℤ → ℕ
  pub usec_frac_64 : ℤ → ℕ
  pub frac_ms : ℕ → ℕ

-- `struct NTP_timestamp_64`
pub record NtpTimestamp64 : Type 0 where
  pub sec : ℕ
  pub frac : ℕ

-- The lowest 32 bits of a signed number
abbrev pub bits32 : ℤ → ℕ
bits32 (pos n) = u32 n
bits32 (negsuc n) = 2 ^ 32 - 1 - u32 n

module _ (dbl : Doubles) where
  open dbl use {usec_frac, usec_frac_64, frac_ms}

  unfoldable pub tv2ntp_64 : TimeVal → NtpTimestamp64
  tv2ntp_64 tv = record { sec = bits32 tv.tv_sec; frac = u32 (usec_frac_64 tv.tv_usec) }

  unfoldable pub timeval2dlsr : TimeVal → ℕ
  timeval2dlsr t = u32 (u32 (bit_and (bits32 t.tv_sec) 0xffff * 2 ^ 16) + u32 (usec_frac t.tv_usec))

  unfoldable pub timeval2rtptimestamp : TimeVal → ℕ
  timeval2rtptimestamp t = timeval2dlsr t

  unfoldable pub rtp_timestamp2ms : ℕ → ℕ
  rtp_timestamp2ms ts =
      u32 (u32 (bit_and ts 0xffff0000 / 2 ^ 16 * 1000) + u32 (frac_ms (bit_and ts 0x0000ffff)))

  unfoldable pub calculate_rtt : ℕ → ℕ → TimeVal → ℕ
  calculate_rtt lsr dlsr t =
      sub32 (sub32 (rtp_timestamp2ms (timeval2rtptimestamp t)) (rtp_timestamp2ms lsr))
        (rtp_timestamp2ms dlsr)

unfoldable pub ntp2lsr : NtpTimestamp → ℕ
ntp2lsr ntp = u32 (u32 (bit_and ntp.sec 0xffff * 2 ^ 16) + bit_and ntp.frac 0xffff)

-- The middle 32 bits of a 64-bit timestamp, as `rtcp_receive_sr` keeps them, are what `ntp2lsr` then
-- sends back: the low 16 bits of the seconds over the high 16 bits of the fraction.
pub ntp2lsr-middle :
    (sec frac : ℕ)
    → frac < 2 ^ 32
    → ntp2lsr (record { sec = u16 (bit_and sec 0xffff); frac = u16 (frac / 2 ^ 16) })
      ≡ (sec * 2 ^ 32 + frac) / 2 ^ 16 % 2 ^ 32
unfolding ntp2lsr
ntp2lsr-middle sec frac h =
    rw
      (
        bit_and-ones 16 sec,
        bit_and-ones 16 (sec % 2 ^ 16 % 2 ^ 16),
        bit_and-ones 16 (frac / 2 ^ 16 % 2 ^ 16),
      )
      (omega arith)
