-- ===== src/DirectSound/Regions.antt =====
-- The regions of a circular buffer and the bytes that audio/sphone_audio_directsound_play.c copies to them.
use native.Mathlib.Nat.{mod-eq_of_lt, add-mod_right}
use sphone.Prelude.{
  ℕ, zero, suc, ◌+◌, ◌-◌, ◌%◌, ◌<◌, ◌≤◌, ◌≡◌, ◌⊎◌, inl, inr, refl, sym, ap, ◌∙◌, true, false, ltb,
  ◌==◌, Bool-cases, if◌then◌else◌, Option, none, some, List, [], ◌∷◌, length, take, drop, get_elem?,
  arith, ltb→lt, ltb_false→le,
}
use sphone.Prelude.Takes.{length-take, length-drop, get_elem?-take, get_elem?-drop, get_elem?-lt}
use sphone.Prelude.Memory.{Block, store}
use sphone.DirectSound.Packets.{circle}
use sphone.DirectSound.Play.{Region, write_bytes, copy_regions, second_length}

write_bytes-outside :
    (a j : ℕ) (bs : List ℕ) (m : Block) → (j < a) ⊎ (a + length bs ≤ j) → write_bytes a bs m j ≡ m j
unfolding write_bytes store
write_bytes-outside a j [] m h = refl
write_bytes-outside a j (b ∷ bs) m h =
    let ih = write_bytes-outside (suc a) j bs (store m a b) (ground (arith, h)) in
    let other : (j == a) ≡ false = ground (arith, h) in ih ∙ rw other refl

write_bytes-inside :
    (a k b : ℕ) (bs : List ℕ) (m : Block) → get_elem? bs k ≡ some b → write_bytes a bs m (a + k) ≡ b
unfolding write_bytes store
write_bytes-inside a k b [] m h = absurd (cc h)
write_bytes-inside a zero b (x ∷ bs) m h =
    let here : a + 0 ≡ a = omega arith in
    let same : (a == a) ≡ true = ground arith in
    let there : x ≡ b = cc in
    rw here (write_bytes-outside (suc a) a bs (store m a x) (inl (omega arith)) ∙ rw same there)
write_bytes-inside a (suc k) b (x ∷ bs) m h =
    let next : a + suc k ≡ suc a + k = omega arith in
    rw next (write_bytes-inside (suc a) k b bs (store m a x) h)

-- Reading a list round a circle
pub circle-reads :
    (ring : ℕ → ℕ) (len i : ℕ) (buf : List ℕ)
    → ((j b : ℕ) → get_elem? buf j ≡ some b → ring ((i + j) % len) ≡ b)
    → circle ring len i (length buf) ≡ buf
unfolding circle
circle-reads ring len i [] h = refl
circle-reads ring len i (x ∷ buf) h =
    let first : ring (i % len) ≡ x =
      let e : i + 0 ≡ i = omega arith in ap (λ k. ring (k % len)) (sym e) ∙ h 0 x refl in
    let rest = circle-reads ring len (suc i) buf (λ j b e.
      let next : suc i + j ≡ i + suc j = omega arith in
      ap (λ k. ring (k % len)) next ∙ h (suc j) b e) in
    rw first (ap (λ xs. x ∷ xs) rest)

-- The regions that `Lock` gives: from the cursor to the end of the buffer at most, and the rest from its start
abbrev pub first_region : ℕ → ℕ → ℕ → ℕ → Region
first_region base buflen cursor n =
    (base + cursor, if ltb buflen (cursor + n) then buflen - cursor else n)

abbrev pub second_region : ℕ → ℕ → ℕ → ℕ → Option Region
second_region base buflen cursor n =
    if ltb buflen (cursor + n) then some (base, n - (buflen - cursor)) else none

module _ (base buflen cursor : ℕ) (buf : List ℕ) (m : Block) (inside : cursor < buflen)
    (fits : length buf ≤ buflen) where
  -- A byte of the packet that goes behind the cursor
  copied_behind :
      (j b : ℕ)
      → ltb buflen (cursor + length buf) ≡ true
      → cursor + j < buflen
      → get_elem? buf j ≡ some b
      → let n = buflen - cursor in
        copy_regions (base + cursor, n) (some (base, length buf - n)) buf m (base + cursor + j) ≡ b
  unfolding copy_regions
  copied_behind j b over h e =
      let n = buflen - cursor in
      let after = write_bytes (base + cursor) (take n buf) m in
      let second = take (length buf - n) (drop n buf) in
      let j_inside = get_elem?-lt j b buf e in
      let clear : base + length second ≤ base + cursor + j = omega (
        arith,
        length-take (length buf - n) (drop n buf) (omega (arith, length-drop n buf)),
        ltb→lt _ _ over,
        fits,
      ) in
      write_bytes-outside base (base + cursor + j) second after (inr clear)
      ∙ write_bytes-inside (base + cursor) j b (take n buf) m
          (get_elem?-take n j buf (omega (arith, h)) ∙ e)

  copied_round :
      (j b : ℕ)
      → ltb buflen (cursor + length buf) ≡ true
      → buflen ≤ cursor + j
      → get_elem? buf j ≡ some b
      → let n = buflen - cursor in
        copy_regions
          (base + cursor, n)
          (some (base, length buf - n))
          buf
          m
          (base + (cursor + j - buflen))
        ≡ b
  unfolding copy_regions
  copied_round j b over h e =
      let n = buflen - cursor in
      let after = write_bytes (base + cursor) (take n buf) m in
      let j_inside = get_elem?-lt j b buf e in
      let k = cursor + j - buflen in
      let same : n + k ≡ j = omega (arith, h, inside) in
      let there : get_elem? (take (length buf - n) (drop n buf)) k ≡ some b =
        get_elem?-take (length buf - n) k (drop n buf) (omega (arith, j_inside, h, inside))
        ∙ get_elem?-drop n k buf
        ∙ ap (get_elem? buf) same
        ∙ e in
      write_bytes-inside base k b (take (length buf - n) (drop n buf)) after there

  copied_once :
      (j b : ℕ)
      → get_elem? buf j ≡ some b
      → copy_regions (base + cursor, length buf) none buf m (base + cursor + j) ≡ b
  unfolding copy_regions
  copied_once j b e =
      write_bytes-inside (base + cursor) j b (take (length buf) buf) m
        (get_elem?-take (length buf) j buf (get_elem?-lt j b buf e) ∙ e)

  -- Nothing else is written to.
  pub untouched :
      (a : ℕ)
      → (a < base) ⊎ (base + buflen ≤ a)
      → copy_regions
          (first_region base buflen cursor (length buf))
          (second_region base buflen cursor (length buf))
          buf
          m
          a
        ≡ m a
  unfolding copy_regions
  untouched a out = elim (Bool-cases (ltb buflen (cursor + length buf))) [
    | inr f ↦
        let n = length-take (length buf) buf (omega arith) in
        rw f (
          write_bytes-outside (base + cursor) a (take (length buf) buf) m
            (ground (arith, out, n, ltb_false→le _ _ f)))
    | inl t ↦
        let n = buflen - cursor in
        let over = ltb→lt _ _ t in
        let first = length-take n buf (omega (arith, over)) in
        let second = length-take (length buf - n) (drop n buf) (omega (arith, length-drop n buf)) in
        rw t (
          write_bytes-outside base a (take (length buf - n) (drop n buf)) _
            (ground (arith, out, second, fits))
          ∙ write_bytes-outside (base + cursor) a (take n buf) m (ground (arith, out, first)))
  ]

  pub regions_length :
      (length buf
        == (first_region base buflen cursor (length buf)).1
          + second_length (second_region base buflen cursor (length buf)))
      ≡ true
  regions_length = elim (Bool-cases (ltb buflen (cursor + length buf))) [
    | inl t ↦ let over = ltb→lt _ _ t in rw t (ground (arith, over))
    | inr f ↦ rw f (ground arith)
  ]

  pub copied :
      (j b : ℕ)
      → get_elem? buf j ≡ some b
      → copy_regions
          (first_region base buflen cursor (length buf))
          (second_region base buflen cursor (length buf))
          buf
          m
          (base + (cursor + j) % buflen)
        ≡ b
  copied j b e =
      let j_inside = get_elem?-lt j b buf e in
      elim (Bool-cases (ltb buflen (cursor + length buf))) [
        | inr f ↦
            let there : (cursor + j) % buflen ≡ cursor + j =
              mod-eq_of_lt (omega (arith, j_inside, ltb_false→le _ _ f)) in
            let place : base + (cursor + j) ≡ base + cursor + j = omega arith in
            rw (f, there, place) (copied_once j b e)
        | inl t ↦ elim (Bool-cases (ltb (cursor + j) buflen)) [
          | inl near ↦
              let there : (cursor + j) % buflen ≡ cursor + j = mod-eq_of_lt (ltb→lt _ _ near) in
              let place : base + (cursor + j) ≡ base + cursor + j = omega arith in
              rw (t, there, place) (copied_behind j b t (ltb→lt _ _ near) e)
          | inr far ↦
              let over : buflen ≤ cursor + j = ltb_false→le _ _ far in
              let again : cursor + j ≡ cursor + j - buflen + buflen = omega (arith, over) in
              let there : (cursor + j) % buflen ≡ cursor + j - buflen =
                ap (λ k. k % buflen) again
                ∙ add-mod_right (cursor + j - buflen) buflen
                ∙ mod-eq_of_lt (omega (arith, j_inside, inside, fits)) in
              rw (t, there) (copied_round j b t over e)
        ]
      ]
