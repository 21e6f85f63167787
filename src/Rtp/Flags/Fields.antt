-- ===== src/Rtp/Flags/Fields.antt =====
-- Each accessor of the RTP flag word as arithmetic, and what a setter changes.
use sphone.Prelude.{ℕ, ◌+◌, ◌-◌, ◌*◌, ◌/◌, ◌%◌, ◌^◌, ◌<◌, ◌≡◌, ◌∙◌, ap, bit_and, bit_or, arith}
use sphone.Prelude.Masks.{bit_and-shift, bit_and-ones, bit_or-shift, bit_or_shift_right}
use sphone.Rtp.Flags.{
  rtp_get_v, rtp_get_p, rtp_get_x, rtp_get_cc, rtp_get_m, rtp_get_pt, rtp_set_v, rtp_set_pt,
}

-- `(x & mask) >> k`, where the mask has `w` ones from bit `k` on
field : (k w x : ℕ) → bit_and x ((2 ^ w - 1) * 2 ^ k) ≡ x / 2 ^ k % 2 ^ w * 2 ^ k
field k w x = bit_and-shift k x (2 ^ w - 1) ∙ ap (λ n. n * 2 ^ k) (bit_and-ones w (x / 2 ^ k))

pub get_v : (f : ℕ) → rtp_get_v f ≡ f / 2 ^ 14 % 4
unfolding rtp_get_v
get_v f = omega (arith, field 14 2 f)

pub get_p : (f : ℕ) → rtp_get_p f ≡ f / 2 ^ 13 % 2
unfolding rtp_get_p
get_p f = omega (arith, field 13 1 f)

pub get_x : (f : ℕ) → rtp_get_x f ≡ f / 2 ^ 12 % 2
unfolding rtp_get_x
get_x f = omega (arith, field 12 1 f)

pub get_cc : (f : ℕ) → rtp_get_cc f ≡ f / 2 ^ 8 % 16
unfolding rtp_get_cc
get_cc f = omega (arith, field 8 4 f)

pub get_m : (f : ℕ) → rtp_get_m f ≡ f / 2 ^ 7 % 2
unfolding rtp_get_m
get_m f = omega (arith, field 7 1 f)

pub get_pt : (f : ℕ) → rtp_get_pt f ≡ f % 128
unfolding rtp_get_pt
get_pt f = bit_and-ones 7 f

pub set_v : (f v : ℕ) → rtp_set_v f v ≡ v % 4 * 2 ^ 14 + f % 2 ^ 14
unfolding rtp_set_v
set_v f v =
    let e : v * 2 ^ 14 / 2 ^ 14 % 4 ≡ v % 4 = omega arith in
    rw (bit_and-ones 14 f, field 14 2 (v * 2 ^ 14), e)
      (bit_or_shift_right 14 (v % 4) (f % 2 ^ 14) (omega arith))

pub set_pt : (f pt : ℕ) → f < 2 ^ 16 → rtp_set_pt f pt ≡ f / 128 * 128 + pt % 128
unfolding rtp_set_pt
set_pt f pt h =
    let e : f / 2 ^ 7 % 2 ^ 9 ≡ f / 128 = omega arith in
    rw (bit_and-ones 7 pt, field 7 9 f, e) (bit_or-shift 7 (f / 128) (pt % 2 ^ 7) (omega arith))

pub ruleset fields = (arith, get_v, get_p, get_x, get_cc, get_m, get_pt, set_v)

-- The six fields are the whole flag word: they tile its sixteen bits in the order V, P, X, CC, M,
-- PT, with no gap and no overlap.
fields_tile :
    (f : ℕ)
    → f < 2 ^ 16
    → rtp_get_v f * 2 ^ 14
        + rtp_get_p f * 2 ^ 13
        + rtp_get_x f * 2 ^ 12
        + rtp_get_cc f * 2 ^ 8
        + rtp_get_m f * 2 ^ 7
        + rtp_get_pt f
      ≡ f
fields_tile f h = omega fields

-- Setting the payload type stores it on its seven bits and leaves the other five fields.
pub get-set_pt :
    (f pt : ℕ)
    → f < 2 ^ 16
    → (rtp_get_pt (rtp_set_pt f pt) ≡ pt % 128)
      × (rtp_get_v (rtp_set_pt f pt) ≡ rtp_get_v f)
      × (rtp_get_p (rtp_set_pt f pt) ≡ rtp_get_p f)
      × (rtp_get_x (rtp_set_pt f pt) ≡ rtp_get_x f)
      × (rtp_get_cc (rtp_set_pt f pt) ≡ rtp_get_cc f)
      × (rtp_get_m (rtp_set_pt f pt) ≡ rtp_get_m f)
      × (rtp_set_pt f pt < 2 ^ 16)
get-set_pt f pt h = rw (set_pt f pt h) (omega fields)

-- Setting the version stores it on its two bits and leaves the other five fields.
pub get-set_v :
    (f v : ℕ)
    → (rtp_get_v (rtp_set_v f v) ≡ v % 4)
      × (rtp_get_p (rtp_set_v f v) ≡ rtp_get_p f)
      × (rtp_get_x (rtp_set_v f v) ≡ rtp_get_x f)
      × (rtp_get_cc (rtp_set_v f v) ≡ rtp_get_cc f)
      × (rtp_get_m (rtp_set_v f v) ≡ rtp_get_m f)
      × (rtp_get_pt (rtp_set_v f v) ≡ rtp_get_pt f)
      × (rtp_set_v f v < 2 ^ 16)
get-set_v f v = rw (set_v f v) (omega fields)
