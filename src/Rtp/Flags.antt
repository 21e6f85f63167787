-- ===== src/Rtp/Flags.antt =====
-- The flag word of the RTP header: the accessors of include/sphone_rtp.h (lines 127 to 147), and
-- `rtp_set_hdr` and `rtp_check_hdr` of src/sphone_rtp.c. A macro that assigns to its argument
-- returns the new word.
pub mod Fields
use sphone.Prelude.{
  ℕ, ◌-◌, ◌*◌, ◌/◌, ◌^◌, bit_and, bit_or, not, Bool, ◌==◌, if◌then◌else◌, Option, none, some,
}
use sphone.Rtp.Header.{RtpHeader, NtpTimestamp}

abbrev pub rtp_version : ℕ
rtp_version = 2

abbrev pub rtp_pt_dynamic : ℕ
rtp_pt_dynamic = 101

-- The masks RTP_V, RTP_P, RTP_X, RTP_CC, RTP_M and RTP_PT.
abbrev pub mask_v : ℕ
mask_v = 0xC000

abbrev pub mask_p : ℕ
mask_p = 0x2000

abbrev pub mask_x : ℕ
mask_x = 0x1000

abbrev pub mask_cc : ℕ
mask_cc = 0x0F00

abbrev pub mask_m : ℕ
mask_m = 0x0080

abbrev pub mask_pt : ℕ
mask_pt = 0x007F

unfoldable pub rtp_get_v : ℕ → ℕ
rtp_get_v flags = bit_and flags mask_v / 2 ^ 14

unfoldable pub rtp_get_p : ℕ → ℕ
rtp_get_p flags = bit_and flags mask_p / 2 ^ 13

unfoldable pub rtp_get_x : ℕ → ℕ
rtp_get_x flags = bit_and flags mask_x / 2 ^ 12

unfoldable pub rtp_get_cc : ℕ → ℕ
rtp_get_cc flags = bit_and flags mask_cc / 2 ^ 8

unfoldable pub rtp_get_m : ℕ → ℕ
rtp_get_m flags = bit_and flags mask_m / 2 ^ 7

unfoldable pub rtp_get_pt : ℕ → ℕ
rtp_get_pt flags = bit_and flags mask_pt

-- `flags &= ~mask`, for a flag word of 16 bits
abbrev pub clean : ℕ → ℕ → ℕ
clean flags mask = bit_and flags (2 ^ 16 - 1 - mask)

unfoldable pub rtp_set_v : ℕ → ℕ → ℕ
rtp_set_v flags v = bit_or (clean flags mask_v) (bit_and (v * 2 ^ 14) mask_v)

unfoldable pub rtp_set_pt : ℕ → ℕ → ℕ
rtp_set_pt flags pt = bit_or (clean flags mask_pt) (bit_and pt mask_pt)
