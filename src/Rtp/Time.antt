-- ===== src/Rtp/Time.antt =====
-- NTP2TV and TV2NTP of src/sphone_rtp.c: the 32-bit timestamp of the RTP header, 16 bits of
-- seconds and 16 of fraction. The clock's reading is an argument; times of the clock are not
-- negative.
use sphone.Prelude.{ℕ, ◌+◌, ◌*◌, ◌/◌, ◌%◌, ◌^◌, ◌≤◌, ◌<◌, ◌≡◌, bit_and, bit_or, arith, ap, ◌∙◌}
use sphone.Prelude.Words.{u16}
use sphone.Prelude.Masks.{bit_and-ones, bit_and-shift, bit_or_shift_right}
use sphone.Prelude.Int.{pos, pos_part}
use sphone.TimeVal.{TimeVal}
use sphone.Rtp.Header.{NtpTimestamp}

-- `sec & 0xffff` and `(usec << 10) / 15625`, stored in 16 bits each
unfoldable pub tv2ntp : TimeVal → NtpTimestamp
tv2ntp tv = record {
  sec = u16 (bit_and (pos_part tv.tv_sec) 0xffff);
  frac = u16 (pos_part tv.tv_usec * 2 ^ 10 / 15625);
}

-- The missing bits of the seconds are those of the clock, `now`.
unfoldable pub ntp2tv : TimeVal → NtpTimestamp → TimeVal
ntp2tv now ntp = record {
  tv_sec = pos (bit_or ntp.sec (bit_and (pos_part now.tv_sec) 0xffff0000));
  tv_usec = pos (ntp.frac * 15625 / 2 ^ 10);
}

high_half : (n : ℕ) → n < 2 ^ 32 → bit_and n 0xffff0000 ≡ n / 2 ^ 16 * 2 ^ 16
high_half n h =
    bit_and-shift 16 n 0xffff ∙ ap (λ k. k * 2 ^ 16) (bit_and-ones 16 (n / 2 ^ 16) ∙ (omega arith))

-- A clock time sent as a timestamp and read back, while the clock is still in the same period of
-- 65536 seconds, has its seconds again, and its microseconds rounded down by 16 at most; both parts
-- of the timestamp fit their 16 bits with nothing cut off.
ntp2tv-tv2ntp :
    (sec usec : ℕ) (now : TimeVal)
    → sec < 2 ^ 32
    → usec < 1000000
    → pos_part now.tv_sec < 2 ^ 32
    → pos_part now.tv_sec / 2 ^ 16 ≡ sec / 2 ^ 16
    → let ntp = tv2ntp (record { tv_sec = pos sec; tv_usec = pos usec }) in
      let tv = ntp2tv now ntp in
      (tv.tv_sec ≡ pos sec)
      × (pos_part tv.tv_usec ≤ usec)
      × (usec ≤ pos_part tv.tv_usec + 16)
      × (ntp.sec ≡ sec % 2 ^ 16)
      × (ntp.frac ≡ usec * 2 ^ 10 / 15625)
unfolding tv2ntp ntp2tv
ntp2tv-tv2ntp sec usec now hs hu hn e =
    rw
      (
        bit_and-ones 16 sec,
        high_half (pos_part now.tv_sec) hn,
        e,
        bit_or_shift_right 16 (sec / 2 ^ 16) (sec % 2 ^ 16 % 2 ^ 16) (omega arith),
      )
      (ap pos (omega arith), omega arith, omega arith, omega arith, omega arith)
