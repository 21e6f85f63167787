-- ===== src/DirectSound/Packets.antt =====
-- The packets that audio/sphone_audio_directsound_record.c hands on are what was captured, in order and without gaps.
use native.Mathlib.Nat.{mod-add-mod, mod-lt}
use sphone.Prelude.{
  ℕ, zero, suc, ◌+◌, ◌*◌, ◌%◌, ◌^◌, ◌<◌, ◌≤◌, ◌≡◌, refl, sym, ap, ◌∙◌, ◌⊎◌, inl, inr, false, ltb,
  if-holds, Option, none, some, List, [], ◌∷◌, ◌++◌, length, take, arith,
}
use mathlib.Core.List.{append_assoc, append-nil}
use mathlib.Core.Path.{subst}
use sphone.Prelude.Words.{u32}
use sphone.DirectSound.Record.{
  Outcome, ok, failed, Driver, Recorder, copied, hand_on, after_lock, send_packets,
}

-- What stands in a circular buffer of `len` bytes from an index on, which counts round it
unfoldable pub circle : (ℕ → ℕ) → ℕ → ℕ → ℕ → List ℕ
circle ring len i zero = []
circle ring len i (suc n) = ring (i % len) ∷ circle ring len (suc i) n

pub length-circle : (ring : ℕ → ℕ) (len i n : ℕ) → length (circle ring len i n) ≡ n
unfolding circle
length-circle ring len i zero = refl
length-circle ring len i (suc n) = ap suc (length-circle ring len (suc i) n)

pub circle-append :
    (ring : ℕ → ℕ) (len i m n : ℕ)
    → circle ring len i m ++ circle ring len (i + m) n ≡ circle ring len i (m + n)
unfolding circle
circle-append ring len i zero n =
    let here : i + 0 ≡ i = omega arith in let all : 0 + n ≡ n = omega arith in rw (here, all) refl
circle-append ring len i (suc m) n =
    let e : i + suc m ≡ suc i + m = omega arith in
    let same : suc m + n ≡ suc (m + n) = omega arith in
    rw same (
      ap (λ xs. ring (i % len) ∷ xs)
        (ap (λ j. circle ring len (suc i) m ++ circle ring len j n) e
          ∙ circle-append ring len (suc i) m n))

take_whole : (xs : List ℕ) (n : ℕ) → length xs ≡ n → take n xs ≡ xs
take_whole [] zero e = refl
take_whole [] (suc n) e = refl
take_whole (x ∷ xs) zero e = absurd (omega (arith, e))
take_whole (x ∷ xs) (suc n) e = ap (λ ys. x ∷ ys) (take_whole xs n (omega (arith, e)))

module _ {W : Type 0} (io : Driver W) (ring : ℕ → ℕ) (log : W → List ℕ) where
  -- A buffer that is not written to while it is read, and the bytes that the callback has been given
  pub record IsCapture (buflen : ℕ) : Type 0 where
    pub locks :
        (i n : ℕ) (w : W)
        → ((io.lock (i % buflen) n w).0 ≡ none)
          ⊎ ((regions : List ℕ × Option (List ℕ)) × ((io.lock (i % buflen) n w).0 ≡ some regions)
              × (copied io regions ≡ circle ring buflen i n))
    pub lock_log : (i n : ℕ) (w : W) → log (io.lock i n w).1 ≡ log w
    pub unlock_log : (w : W) → log (io.unlock w).1 ≡ log w
    pub callback_log : (bs : List ℕ) (w : W) → log (io.ar_callback bs w).1 ≡ log w ++ bs
    pub error_log : (w : W) → log (io.directsound_error w) ≡ log w

  -- So many packets have been handed on from an index on, and the pointer stands behind them.
  abbrev pub HandedOn : ℕ → ℕ → Recorder W → Recorder W → Type 0
  HandedOn i k ar ar' =
      (ar'.ar_r ≡ (i + k * ar.cp_size_bytes) % ar.ar_ds_capbuflen)
      × (log ar'.net ≡ log ar.net ++ circle ring ar.ar_ds_capbuflen i (k * ar.cp_size_bytes))
      × (u32 ar'.sst_rpkt ≡ u32 (ar.sst_rpkt + k))

  abbrev pub Sent : ℕ → ℕ → Recorder W → Outcome × Recorder W → Type 0
  Sent n i ar r =
      (k : ℕ) × (k ≤ n) × HandedOn i k ar r.1 × (((r.0 ≡ ok) × (k ≡ n)) ⊎ (r.0 ≡ failed))

  -- Where a loop starts: the pointer is at an index, counted round the buffer.
  pub record IsAt (i : ℕ) (ar : Recorder W) : Type 0 where
    pub points : ar.ar_r ≡ i % ar.ar_ds_capbuflen
    pub captures : IsCapture ar.ar_ds_capbuflen
    pub some_bytes : 0 < ar.ar_ds_capbuflen
    pub small : ar.ar_ds_capbuflen < 2 ^ 31
    pub fits : ar.cp_size_bytes ≤ ar.ar_ds_capbuflen

  nothing_more :
      (ar : Recorder W) (i : ℕ)
      → log ar.net ≡ log ar.net ++ circle ring ar.ar_ds_capbuflen i (0 * ar.cp_size_bytes)
  unfolding circle
  nothing_more ar i =
      let none_left : 0 * ar.cp_size_bytes ≡ 0 = omega arith in
      rw none_left (sym (append-nil (log ar.net)))

  nothing-Sent :
      (n i : ℕ) (ar : Recorder W) (w : W)
      → ar.ar_r ≡ i % ar.ar_ds_capbuflen
      → log w ≡ log ar.net
      → Sent n i ar (failed, record ar { net = w })
  nothing-Sent n i ar w points same =
      let e : i + 0 * ar.cp_size_bytes ≡ i = omega arith in
      (
        0,
        omega arith,
        (points ∙ sym (ap (λ j. j % ar.ar_ds_capbuflen) e), same ∙ nothing_more ar i, omega arith),
        inr refl,
      )

  -- One more packet in front
  one_more :
      (n i : ℕ) (ar ar' : Recorder W) (r : Outcome × Recorder W)
      → ar'.ar_ds_capbuflen ≡ ar.ar_ds_capbuflen
      → ar'.cp_size_bytes ≡ ar.cp_size_bytes
      → log ar'.net ≡ log ar.net ++ circle ring ar.ar_ds_capbuflen i ar.cp_size_bytes
      → ar'.sst_rpkt ≡ u32 (ar.sst_rpkt + 1)
      → Sent n (i + ar.cp_size_bytes) ar' r
      → Sent (suc n) i ar r
  one_more n i ar ar' r same_len same_size logged counted (k, most, (stands, sent, number), end) =
      let len = ar.cp_size_bytes in
      let size : k * ar'.cp_size_bytes ≡ k * len = ap (λ s. k * s) same_size in
      let more : suc k * len ≡ len + k * len = omega arith in
      let there : i + len + k * ar'.cp_size_bytes ≡ i + suc k * len = omega (arith, size, more) in
      let stands' : r.1.ar_r ≡ (i + suc k * len) % ar.ar_ds_capbuflen =
        stands
        ∙ ap (λ j. j % ar'.ar_ds_capbuflen) there
        ∙ ap (λ b. (i + suc k * len) % b) same_len in
      let joined =
        ap (λ b. circle ring b (i + len) (k * ar'.cp_size_bytes)) same_len
        ∙ ap (λ b. circle ring ar.ar_ds_capbuflen (i + len) b) size in
      let sent' : log r.1.net ≡ log ar.net ++ circle ring ar.ar_ds_capbuflen i (suc k * len) =
        sent
        ∙ ap (λ xs. log ar'.net ++ xs) joined
        ∙ ap (λ xs. xs ++ circle ring ar.ar_ds_capbuflen (i + len) (k * len)) logged
        ∙ append_assoc (log ar.net) _ _
        ∙ ap (λ xs. log ar.net ++ xs)
            (circle-append ring ar.ar_ds_capbuflen i len (k * len)
              ∙ ap (circle ring ar.ar_ds_capbuflen i) (sym more)) in
      (
        suc k,
        omega (arith, most),
        (stands', sent', omega (arith, number, counted)),
        elim end [ inl (e, all) ↦ inl (e, omega (arith, all)) | inr e ↦ inr e ],
      )

  next_index :
      (i : ℕ) (ar : Recorder W)
      → IsAt i ar
      → u32 (ar.ar_r + ar.cp_size_bytes) % ar.ar_ds_capbuflen
        ≡ (i + ar.cp_size_bytes) % ar.ar_ds_capbuflen
  next_index i ar at =
      let inside = mod-lt i at.some_bytes in
      let whole : u32 (ar.ar_r + ar.cp_size_bytes) ≡ i % ar.ar_ds_capbuflen + ar.cp_size_bytes =
        omega (arith, at.points, inside, at.small, at.fits) in
      rw (whole, mod-add-mod) refl

  hand_on-Sent :
      (n i : ℕ) (go : Recorder W → Outcome × Recorder W)
      → ((j : ℕ) (ar : Recorder W) → IsAt j ar → Sent n j ar (go ar))
      → (regions : List ℕ × Option (List ℕ)) (ar : Recorder W) (w : W) → IsAt i ar
      → log w ≡ log ar.net
      → copied io regions ≡ circle ring ar.ar_ds_capbuflen i ar.cp_size_bytes
      → Sent (suc n) i ar (hand_on io go (copied io regions) (record ar { net = w }))
  unfolding hand_on
  hand_on-Sent n i go rest regions ar w at same there =
      let len = ar.cp_size_bytes in
      let buf = copied io regions in
      let (unlocked, w1) = io.unlock w in
      let (taken, w2) = io.ar_callback (take len buf) w1 in
      let ar' = record ar {
        ar_r = u32 (ar.ar_r + len) % ar.ar_ds_capbuflen;
        sst_rpkt = u32 (ar.sst_rpkt + 1);
        sst_rbytes = u32 (ar.sst_rbytes + len);
        net = w2;
      } in
      let whole : take len buf ≡ circle ring ar.ar_ds_capbuflen i len =
        take_whole buf len (ap length there ∙ length-circle ring _ i len) ∙ there in
      let logged : log w2 ≡ log ar.net ++ circle ring ar.ar_ds_capbuflen i len =
        at.captures.callback_log (take len buf) w1
        ∙ ap (λ l. l ++ take len buf) (at.captures.unlock_log w ∙ same)
        ∙ ap (λ xs. log ar.net ++ xs) whole in
      let moved = next_index i ar at in
      let next = record ar' { ar_cap_nr = u32 (ar.ar_cap_nr + 1) } in
      let at' : IsAt (i + len) next = record {
        points = moved;
        captures = at.captures;
        some_bytes = at.some_bytes;
        small = at.small;
        fits = at.fits;
      } in
      let P = λ (r : Outcome × Recorder W). Sent (suc n) i ar r in
      if-holds P unlocked
        (if-holds P taken
          (one_more n i ar next (go next) refl refl logged refl (rest (i + len) next at'))
          (one_more n i ar ar' (failed, ar') refl refl logged refl
            (nothing-Sent n (i + len) ar' w2 moved refl)))
        (nothing-Sent (suc n) i ar (io.directsound_error w1) at.points
          (at.captures.error_log w1 ∙ at.captures.unlock_log w ∙ same))

  after_lock-Sent :
      (n i : ℕ) (go : Recorder W → Outcome × Recorder W)
      → ((j : ℕ) (ar : Recorder W) → IsAt j ar → Sent n j ar (go ar))
      → (ar : Recorder W) → IsAt i ar
      → let (regions, w) = io.lock ar.ar_r ar.cp_size_bytes ar.net in
        Sent (suc n) i ar (after_lock io go regions (record ar { net = w }))
  unfolding after_lock
  after_lock-Sent n i go rest ar at =
      let (regions, w) = io.lock ar.ar_r ar.cp_size_bytes ar.net in
      let P = λ (x : Option (List ℕ × Option (List ℕ))).
        Sent (suc n) i ar (after_lock io go x (record ar { net = w })) in
      let logged = at.captures.lock_log ar.ar_r ar.cp_size_bytes ar.net in
      let asked : (io.lock (i % ar.ar_ds_capbuflen) ar.cp_size_bytes ar.net).0 ≡ regions =
        ap (λ p. (io.lock p ar.cp_size_bytes ar.net).0) (sym at.points) in
      elim (at.captures.locks i ar.cp_size_bytes ar.net) [
        | inl e ↦ subst P (sym e ∙ asked) (
            nothing-Sent (suc n) i ar (io.directsound_error w) at.points
              (at.captures.error_log w ∙ logged))
        | inr (both, e, there) ↦
            let room : ltb (ar.cp_size_bytes + 10) (length (copied io both)) ≡ false =
              ground (arith, ap length there ∙ length-circle ring _ i ar.cp_size_bytes) in
            subst P (sym e ∙ asked) (rw room (hand_on-Sent n i go rest both ar w at logged there))
      ]

  pub send_packets-Sent :
      (n i : ℕ) (ar : Recorder W) → IsAt i ar → Sent n i ar (send_packets io n ar)
  unfolding send_packets
  send_packets-Sent zero i ar at =
      let e : i + 0 * ar.cp_size_bytes ≡ i = omega arith in
      (
        0,
        omega arith,
        (at.points ∙ sym (ap (λ j. j % ar.ar_ds_capbuflen) e), nothing_more ar i, omega arith),
        inl (refl, refl),
      )
  send_packets-Sent (suc n) i ar at =
      after_lock-Sent n i (send_packets io n) (send_packets-Sent n) ar at
