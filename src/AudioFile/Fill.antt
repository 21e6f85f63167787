-- ===== src/AudioFile/Fill.antt =====
-- What `add_buffer` of audio/sphone_audio_file_record.c takes from a file.
use sphone.Prelude.{
  ℕ, zero, suc, ◌+◌, ◌-◌, ◌<◌, ◌≤◌, ◌≡◌, refl, sym, ap, ◌∙◌, inl, inr, Bool, true, false, ltb,
  Bool-cases, if◌then◌else◌, List, [], ◌∷◌, ◌⊎◌, ◌++◌, length, take, drop, arith, lt→ltb, ltb→lt,
  ltb_false→le,
}
use mathlib.Core.List.{append_assoc}
use sphone.Prelude.Takes.{drop-drop, take-split, take-drop, drop-all}
use sphone.AudioFile.{got, Filled, full, at_eof, Files, after_read, add_buffer}

piece_rest :
    {A : Type 0} (done p xs ys : List A) (i j : ℕ)
    → p ≡ take (length p) (drop i xs)
    → j ≡ i + length p
    → (done ++ p) ++ (drop j xs ++ ys) ≡ done ++ (drop i xs ++ ys)
piece_rest done p xs ys i j is_next moved =
    let there : drop j xs ≡ drop (length p) (drop i xs) =
      ap (λ k. drop k xs) moved ∙ sym (drop-drop (length p) i xs) in
    let back : p ++ drop j xs ≡ drop i xs =
      ap (λ zs. p ++ zs) there
      ∙ ap (λ q. q ++ drop (length p) (drop i xs)) is_next
      ∙ take-drop (length p) (drop i xs) in
    append_assoc done p _
    ∙ ap (λ zs. done ++ zs) (sym (append_assoc p (drop j xs) ys) ∙ ap (λ zs. zs ++ ys) back)

-- A piece and what follows it
piece_text :
    {A : Type 0} (done p xs : List A) (i j len : ℕ)
    → length p ≤ len
    → p ≡ take (length p) (drop i xs)
    → j ≡ i + length p
    → (done ++ p) ++ take (len - length p) (drop j xs) ≡ done ++ take len (drop i xs)
piece_text done p xs i j len most is_next moved =
    let there : drop j xs ≡ drop (length p) (drop i xs) =
      ap (λ k. drop k xs) moved ∙ sym (drop-drop (length p) i xs) in
    append_assoc done p _
    ∙ ap (λ ys. done ++ ys)
        (ap (λ ys. p ++ take (len - length p) ys) there
          ∙ ap (λ q. q ++ take (len - length p) (drop (length p) (drop i xs))) is_next
          ∙ take-split (length p) len (drop i xs) most)

module _ {D W : Type 0} (io : Files D W) (fd : ℕ) (bytes : List ℕ) (pos : W → ℕ) where
  -- A piece of the file that a `read` gives
  abbrev pub GivesPiece : ℕ → W → Type 0
  GivesPiece n w =
      (p : List ℕ) × (0 < length p)
      × (length p ≤ n)
      × ((io.read fd n w).0 ≡ got p)
      × (p ≡ take (length p) (drop (pos w) bytes))
      × (pos w + length p ≤ length bytes)
      × (pos (io.read fd n w).1 ≡ pos w + length p)

  -- A file that does not change, read from a position on: what is there, in pieces of any length, then the end
  pub record IsFile : Type 0 where
    pub gives : (n : ℕ) (w : W) → 0 < n → pos w < length bytes → GivesPiece n w
    pub ends :
        (n : ℕ) (w : W)
        → pos w ≡ length bytes
        → ((io.read fd n w).0 ≡ got []) × (pos (io.read fd n w).1 ≡ pos w)
    pub rewinds : (w : W) → ((io.lseek fd w).0 ≡ true) × (pos (io.lseek fd w).1 ≡ 0)

  -- A round that takes a piece
  pub read_piece :
      (fuel len : ℕ) (loop looped : Bool) (done p : List ℕ) (w : W)
      → 0 < length p
      → (io.read fd len w).0 ≡ got p
      → add_buffer io (suc fuel) fd loop looped len done w ≡ (
          if ltb (length p) len
          then add_buffer io fuel fd loop looped (len - length p) (done ++ p) (io.read fd len w).1
          else (full (done ++ p), (io.read fd len w).1))
  unfolding add_buffer after_read
  read_piece fuel len loop looped done [] w h e = absurd (omega (arith, h))
  read_piece fuel len true true done (b ∷ bs) w h e = rw (e, add_buffer) refl
  read_piece fuel len true false done (b ∷ bs) w h e = rw (e, add_buffer) refl
  read_piece fuel len false true done (b ∷ bs) w h e = rw (e, add_buffer) refl
  read_piece fuel len false false done (b ∷ bs) w h e = rw (e, add_buffer) refl

  -- The buffer is full of what follows, and the file is read so far.
  abbrev pub FillsTo : Filled × W → List ℕ → ℕ → Type 0
  FillsTo r buf next = (r.0 ≡ full buf) × (pos r.1 ≡ next)

  -- Enough of the file is left.
  fills_within :
      (fuel len : ℕ) (loop looped : Bool) (done : List ℕ) (w : W)
      → IsFile
      → 0 < len
      → len ≤ fuel
      → pos w + len ≤ length bytes
      → FillsTo
          (add_buffer io fuel fd loop looped len done w)
          (done ++ take len (drop (pos w) bytes))
          (pos w + len)
  fills_within zero len loop looped done w f some_left enough fits =
      absurd (omega (arith, some_left, enough))
  fills_within (suc fuel) len loop looped done w f some_left enough fits =
      let (p, nonempty, most, e, is_next, inside, moved) = f.gives len w some_left (omega arith) in
      let w1 = (io.read fd len w).1 in
      let round = read_piece fuel len loop looped done p w nonempty e in
      elim (Bool-cases (ltb (length p) len)) [
        | inl more ↦
            let k = length p in
            let shorter : k < len = ltb→lt _ _ more in
            let (filled, next) =
              fills_within fuel (len - k) loop looped (done ++ p) w1 f (omega (arith, shorter))
                (omega (arith, nonempty, enough)) (omega (arith, moved, fits, most)) in
            rw (round, more)
              (
                filled ∙ ap full (piece_text done p bytes (pos w) (pos w1) len most is_next moved),
                next ∙ omega (arith, moved, most),
              )
        | inr last ↦
            let whole : length p ≡ len = omega (arith, ltb_false→le _ _ last, most) in
            rw (round, last)
              (
                ap (λ q. full (done ++ q)) (is_next ∙ ap (λ k. take k (drop (pos w) bytes)) whole),
                moved ∙ omega (arith, whole),
              )
      ]

  -- The file ends before the buffer is full: the rest of it, and, in a loop, the beginning of it, or the end.
  abbrev pub FillsOver : Bool → ℕ → List ℕ → ℕ → Filled × W → Type 0
  FillsOver true len done i r =
      FillsTo r (done ++ (drop i bytes ++ take (len - (length bytes - i)) bytes))
        (i + len - length bytes)
  FillsOver false len done i r = r.0 ≡ at_eof

  -- A piece does not change what is filled in all.
  over_piece :
      (loop : Bool) (len i j : ℕ) (done p : List ℕ) (r : Filled × W)
      → length p ≤ len
      → i + length p ≤ length bytes
      → p ≡ take (length p) (drop i bytes)
      → j ≡ i + length p
      → FillsOver loop (len - length p) (done ++ p) j r
      → FillsOver loop len done i r
  over_piece false len i j done p r most inside is_next moved h = h
  over_piece true len i j done p r most inside is_next moved (filled, next) =
      let left : len - length p - (length bytes - j) ≡ len - (length bytes - i) =
        omega (arith, moved, most, inside) in
      (
        filled
            ∙ ap full (
                ap (λ n. (done ++ p) ++ (drop j bytes ++ take n bytes)) left
                ∙ piece_rest done p bytes _ i j is_next moved),
        next ∙ omega (arith, moved, most, inside),
      )

  -- The end of the file is met.
  over_end :
      (fuel len : ℕ) (loop : Bool) (done : List ℕ) (w : W)
      → IsFile
      → len ≤ fuel
      → pos w ≡ length bytes
      → 0 < len
      → len ≤ length bytes
      → FillsOver loop len done (pos w) (add_buffer io (suc fuel) fd loop false len done w)
  unfolding add_buffer after_read
  over_end fuel len false done w f enough at_end some_left once =
      rw ((f.ends len w at_end).0, add_buffer) refl
  over_end fuel len true done w f enough at_end some_left once =
      let w1 = (io.read fd len w).1 in
      let (sought, rewound) = f.rewinds w1 in
      let start = (io.lseek fd w1).1 in
      let (filled, next) =
        fills_within fuel len true true done start f some_left enough
          (omega (arith, rewound, once)) in
      let rest : drop (pos start) bytes ≡ bytes = ap (λ k. drop k bytes) rewound in
      let none_left : drop (pos w) bytes ≡ [] = drop-all (pos w) bytes (omega (arith, at_end)) in
      let all : len - (length bytes - pos w) ≡ len = omega (arith, at_end) in
      rw ((f.ends len w at_end).0, sought)
        (
          rw (none_left, all) (filled ∙ ap (λ xs. full (done ++ take len xs)) rest),
          next ∙ omega (arith, rewound, at_end),
        )

  fills_over :
      (fuel len : ℕ) (loop : Bool) (done : List ℕ) (w : W)
      → IsFile
      → len + 1 ≤ fuel
      → pos w ≤ length bytes
      → length bytes < pos w + len
      → pos w + len ≤ length bytes + length bytes
      → FillsOver loop len done (pos w) (add_buffer io fuel fd loop false len done w)
  fills_over zero len loop done w f enough inside over once = absurd (omega (arith, enough))
  fills_over (suc fuel) len loop done w f enough inside over once =
      elim (Bool-cases (ltb (pos w) (length bytes))) [
        | inl more ↦
            let before : pos w < length bytes = ltb→lt _ _ more in
            let (p, nonempty, most, e, is_next, fits, moved) =
              f.gives len w (omega (arith, over, before)) before in
            let k = length p in
            let shorter : ltb k len ≡ true = lt→ltb _ _ (omega (arith, fits, over)) in
            let w1 = (io.read fd len w).1 in
            let rest =
              fills_over fuel (len - k) loop (done ++ p) w1 f
                (omega (arith, nonempty, enough, most)) (omega (arith, moved, fits))
                (omega (arith, moved, over, most)) (omega (arith, moved, once, most)) in
            rw (read_piece fuel len loop false done p w nonempty e, shorter)
              (over_piece loop len (pos w) (pos w1) done p _ most fits is_next moved rest)
        | inr last ↦
            let at_end : pos w ≡ length bytes = omega (arith, inside, ltb_false→le _ _ last) in
            over_end fuel len loop done w f (omega (arith, enough)) at_end
              (omega (arith, at_end, over)) (omega (arith, at_end, once))
      ]

  -- A packet is filled with what follows in the file: from there on where enough is left, and otherwise, in a loop,
  -- with the rest of the file and its beginning; without a loop the rest is dropped. The file is read once more at
  -- most, and must not be too short for that.
  pub add_buffer-Fills :
      (len : ℕ) (loop : Bool) (w : W)
      → IsFile
      → 0 < len
      → pos w ≤ length bytes
      → pos w + len ≤ length bytes + length bytes
      → ((pos w + len ≤ length bytes)
          × FillsTo
              (add_buffer io (len + 2) fd loop false len [] w)
              (take len (drop (pos w) bytes))
              (pos w + len))
        ⊎ ((length bytes < pos w + len)
            × FillsOver loop len [] (pos w) (add_buffer io (len + 2) fd loop false len [] w))
  add_buffer-Fills len loop w f some_left inside once =
      elim (Bool-cases (ltb (length bytes) (pos w + len))) [
        | inl over ↦ inr (
          ltb→lt _ _ over,
          fills_over (len + 2) len loop [] w f (omega arith) inside (ltb→lt _ _ over) once,
        )
        | inr fits ↦
            let enough = ltb_false→le _ _ fits in
            inl
              (enough, fills_within (len + 2) len loop false [] w f some_left (omega arith) enough)
      ]
