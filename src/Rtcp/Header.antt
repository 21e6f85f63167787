-- ===== src/Rtcp/Header.antt =====
-- `rtcp_set_hdr` of src/sphone_rtcp.c with the setters of include/sphone_rtcp.h, and the getters.
use sphone.Prelude.{
  ℕ, ◌+◌, ◌-◌, ◌*◌, ◌^◌, ◌<◌, ◌≡◌, refl, ◌∙◌, bit_and, bit_or, ◌==◌, if◌then◌else◌, arith,
}
use sphone.Prelude.Masks.{bit_and-ones, bit_or-shift}
use sphone.Rtcp.RoundTrip.{CommonFits}
use sphone.Rtcp.Packets.{RtcpCommon}

abbrev pub rtcp_sr : ℕ
rtcp_sr = 200

abbrev pub rtcp_rr : ℕ
rtcp_rr = 201

abbrev pub rtcp_bye : ℕ
rtcp_bye = 203

-- `flags &= ~mask`, for a flag word of 16 bits
abbrev clean : ℕ → ℕ → ℕ
clean flags mask = bit_and flags (2 ^ 16 - 1 - mask)

unfoldable pub rtcp_get_t : ℕ → ℕ
rtcp_get_t flags = bit_and flags 0x00FF

-- The four setters, each a shift into its mask
unfoldable pub rtcp_set_v : ℕ → ℕ → ℕ
rtcp_set_v flags v = bit_or (clean flags 0xC000) (bit_and (v * 2 ^ 14) 0xC000)

unfoldable pub rtcp_set_p : ℕ → ℕ → ℕ
rtcp_set_p flags p = bit_or (clean flags 0x2000) (bit_and (p * 2 ^ 13) 0x2000)

unfoldable pub rtcp_set_rc : ℕ → ℕ → ℕ
rtcp_set_rc flags rc = bit_or (clean flags 0x1F00) (bit_and (rc * 2 ^ 8) 0x1F00)

unfoldable pub rtcp_set_t : ℕ → ℕ → ℕ
rtcp_set_t flags t = bit_or (clean flags 0x00FF) (bit_and t 0x00FF)

-- sizeof(rtcp_common_t), sizeof(rtcp_si_t), sizeof(rtcp_rr_t), sizeof(rtcp_bye_t)
abbrev pub sizeof_common : ℕ
sizeof_common = 8

abbrev pub sizeof_si : ℕ
sizeof_si = 20

abbrev pub sizeof_rr : ℕ
sizeof_rr = 24

abbrev pub sizeof_bye : ℕ
sizeof_bye = 4

-- `old` is the length that the header holds before: another type leaves it.
unfoldable pub rtcp_set_hdr : ℕ → ℕ → ℕ → RtcpCommon
rtcp_set_hdr old packet_type ssrc = record {
  flags = rtcp_set_t (rtcp_set_rc (rtcp_set_p (rtcp_set_v 0 2) 0) 1) packet_type;
  length =
      if packet_type == rtcp_sr
      then sizeof_common + sizeof_si - 1
      else (if packet_type == rtcp_rr
          then sizeof_common + sizeof_rr - 1
          else (if packet_type == rtcp_bye then sizeof_common + sizeof_bye - 1 else old));
  ssrc = ssrc;
}

-- Before the type is set, the flag word has the version 2 and the count 1.
flags_base : rtcp_set_rc (rtcp_set_p (rtcp_set_v 0 2) 0) 1 ≡ 0x8100
unfolding rtcp_set_rc rtcp_set_p rtcp_set_v
flags_base = refl

-- The header that is built for a packet type of 8 bits says version 2, no padding and one report,
-- holds the type where the receiver reads it, and fits its C types.
pub rtcp_set_hdr-flags :
    (old packet_type ssrc : ℕ)
    → old < 2 ^ 16
    → packet_type < 256
    → ssrc < 2 ^ 32
    → let hdr = rtcp_set_hdr old packet_type ssrc in
      (hdr.flags ≡ 2 * 2 ^ 14 + 1 * 2 ^ 8 + packet_type)
      × (rtcp_get_t hdr.flags ≡ packet_type)
      × CommonFits hdr
unfolding rtcp_set_hdr rtcp_get_t rtcp_set_t
rtcp_set_hdr-flags old packet_type ssrc ho ht hs =
    let low : bit_and packet_type 0x00FF ≡ packet_type = bit_and-ones 8 packet_type ∙ omega arith in
    let flags : rtcp_set_t (rtcp_set_rc (rtcp_set_p (rtcp_set_v 0 2) 0) 1) packet_type
        ≡ 0x8100 + packet_type =
      rw (flags_base, low) (bit_or-shift 8 0x81 packet_type ht) in
    (
      omega (arith, flags),
      rw (flags) (bit_and-ones 8 (0x8100 + packet_type) ∙ omega arith),
      record { flags = omega (arith, flags); length = ground arith; ssrc = hs },
    )
