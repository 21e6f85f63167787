-- ===== src/DevAudio/Mixer.antt =====
-- `devaudio_unmute` of audio/sphone_audio_devaudio.c writes to the controls that mute, and ends.
use sphone.DevAudio.Strcmp.{strcmp_eq_refl, strcmp_eq-true}
use sphone.Prelude.{
  Bool, true, ◌&&◌, ℕ, zero, suc, ◌+◌, ◌<◌, ◌≡◌, refl, sym, ap, ◌∙◌, ◌⊎◌, inl, inr, Bool-cases,
  if◌then◌else◌, none, some, List, [], ◌∷◌, ◌++◌, length, get_elem?, arith,
}
use mathlib.Core.List.{append_assoc, append-nil}
use mathlib.Core.Path.{subst}
use sphone.DevAudio.{
  mute, strcmp_eq, Driver, MixerDevinfo, Unmuted, unmuted, not_unmuted, is_mute, unmute_from,
}

-- A control that mutes: an enumeration labelled "mute"
abbrev IsMute : MixerDevinfo → Type 0
IsMute c = (c.is_enum ≡ true) × (c.label ≡ mute)

-- The indices of the controls that mute, in order, where the first of the controls has the index `i`
pub data MuteIndices : ℕ → List MixerDevinfo → List ℕ → Type 0 where
  no_more : {i : ℕ} → MuteIndices i [] []
  mutes :
      {i : ℕ} {c : MixerDevinfo} {rest : List MixerDevinfo} {is : List ℕ}
      → IsMute c
      → MuteIndices (suc i) rest is
      → MuteIndices i (c ∷ rest) (i ∷ is)
  other :
      {i : ℕ} {c : MixerDevinfo} {rest : List MixerDevinfo} {is : List ℕ}
      → ¬ (IsMute c)
      → MuteIndices (suc i) rest is
      → MuteIndices i (c ∷ rest) is

both_true : (a b : Bool) → (a && b) ≡ true → (a ≡ true) × (b ≡ true)
both_true a b h = ground (arith, h)

is_mute-IsMute : {W : Type 0} (io : Driver W) (c : MixerDevinfo) → is_mute io c ≡ true → IsMute c
is_mute-IsMute io c h = let (e, l) = both_true c.is_enum _ h in (e, strcmp_eq-true c.label mute l)

IsMute-is_mute : {W : Type 0} (io : Driver W) (c : MixerDevinfo) → IsMute c → is_mute io c ≡ true
IsMute-is_mute io c (e, l) =
    let same : strcmp_eq c.label mute ≡ true = rw l (strcmp_eq_refl mute) in rw (e, same) refl

module _ {W : Type 0} (io : Driver W) (fd : ℕ) (log : W → List ℕ) where
  -- A mixer with some controls from an index on, and the writes of 0 that it has taken
  pub record IsMixer (i : ℕ) (controls : List MixerDevinfo) : Type 0 where
    pub lists : (k : ℕ) (w : W) → (io.mixer_devinfo fd (i + k) w).0 ≡ get_elem? controls k
    pub reads : (k : ℕ) (w : W) → log (io.mixer_devinfo fd k w).1 ≡ log w
    pub writes :
        (k : ℕ) (w : W)
        → log (io.mixer_write fd k 0 w).1
          ≡ (if (io.mixer_write fd k 0 w).0 then log w ++ k ∷ [] else log w)
    pub errors : (w : W) → log (io.sphone_error w) ≡ log w
    pub closes : (w : W) → log (io.close fd w) ≡ log w

  -- With the result 0 the writes are to these controls in order, and otherwise to those in front of one of them; the
  -- loop ends.
  abbrev Wrote : List ℕ → List ℕ → Unmuted × W → Type 0
  Wrote before is r =
      ((r.0 ≡ unmuted) × (log r.1 ≡ before ++ is))
      ⊎ ((done : List ℕ) × (j : ℕ) × (left : List ℕ) × (r.0 ≡ not_unmuted)
          × (is ≡ done ++ j ∷ left)
          × (log r.1 ≡ before ++ done))

  next-IsMixer :
      (i : ℕ) (c : MixerDevinfo) (cs : List MixerDevinfo) → IsMixer i (c ∷ cs) → IsMixer (suc i) cs
  next-IsMixer i c cs m = record {
    lists = λ k w. let e : suc i + k ≡ i + suc k = omega arith in rw e (m.lists (suc k) w);
    reads = m.reads;
    writes = m.writes;
    errors = m.errors;
    closes = m.closes;
  }

  -- One more in front
  Wrote-cons :
      (before after : List ℕ) (i : ℕ) (is : List ℕ) (r : Unmuted × W)
      → after ≡ before ++ i ∷ []
      → Wrote after is r
      → Wrote before (i ∷ is) r
  Wrote-cons before after i is r e (inl (a, b)) =
      inl (a, b ∙ ap (λ l. l ++ is) e ∙ append_assoc before (i ∷ []) is)
  Wrote-cons before after i is r e (inr (done, j, left, a, cut, b)) = inr (
    i ∷ done,
    j,
    left,
    a,
    ap (λ l. i ∷ l) cut,
    b ∙ ap (λ l. l ++ done) e ∙ append_assoc before (i ∷ []) done,
  )

  devinfo_here :
      (i : ℕ) (cs : List MixerDevinfo) (w : W)
      → IsMixer i cs
      → (io.mixer_devinfo fd i w).0 ≡ get_elem? cs 0
  devinfo_here i cs w m =
      let e : i + 0 ≡ i = omega arith in ap (λ k. (io.mixer_devinfo fd k w).0) (sym e) ∙ m.lists 0 w

  -- What the loop over the controls does
  abbrev pub WroteToMutes : ℕ → List MixerDevinfo → W → Unmuted × W → Type 0
  WroteToMutes i controls w r = (is : List ℕ) × MuteIndices i controls is × Wrote (log w) is r

  -- The loop over the controls of a mixer, which lists them by index and keeps what is written, ends, with more rounds
  -- than controls: with 0 written to the enumerations that are labelled "mute" and to nothing else, in order, or, where
  -- the result is -1, to those in front of one of them, whose write has failed.
  pub unmute_from-Wrote :
      (rounds i : ℕ) (controls : List MixerDevinfo) (w : W)
      → IsMixer i controls
      → length controls < rounds
      → WroteToMutes i controls w (unmute_from io rounds fd i w)
  unfolding unmute_from
  unmute_from-Wrote zero i cs w m enough = absurd (omega (arith, enough))
  unmute_from-Wrote (suc rounds) i [] w m enough =
      let w1 = (io.mixer_devinfo fd i w).1 in
      let gone : (io.mixer_devinfo fd i w).0 ≡ none = devinfo_here i [] w m in
      let same = m.closes w1 ∙ m.reads i w ∙ sym (append-nil (log w)) in
      rw (gone, unmute_from) ([], no_more, inl (refl, same))
  unmute_from-Wrote (suc rounds) i (c ∷ cs) w m enough =
      let w1 = (io.mixer_devinfo fd i w).1 in
      let (written, w2) = io.mixer_write fd i 0 w1 in
      let shorter : length cs < rounds = omega (arith, enough) in
      let m' = next-IsMixer i c cs m in
      let there : (io.mixer_devinfo fd i w).0 ≡ some c = devinfo_here i (c ∷ cs) w m in
      elim (Bool-cases (is_mute io c)) [
        | inr f ↦
            let (is, others, rest) = unmute_from-Wrote rounds (suc i) cs w1 m' shorter in
            let not_mute : ¬ (IsMute c) = λ h. let t = IsMute-is_mute io c h in cc in
            rw (there, f, unmute_from)
              (
                is,
                other not_mute others,
                subst (λ l. Wrote l is (unmute_from io rounds fd (suc i) w1)) (m.reads i w) rest,
              )
        | inl t ↦
            let h = is_mute-IsMute io c t in
            let (is, others, rest) = unmute_from-Wrote rounds (suc i) cs w2 m' shorter in
            elim (Bool-cases written) [
              | inl ok ↦
                  let logged : log w2 ≡ log w ++ i ∷ [] =
                    m.writes i w1
                    ∙ ap (λ b. if b then log w1 ++ i ∷ [] else log w1) ok
                    ∙ ap (λ l. l ++ i ∷ []) (m.reads i w) in
                  rw (there, t, ok, unmute_from)
                    (i ∷ is, mutes h others, Wrote-cons (log w) (log w2) i _ _ logged rest)
              | inr bad ↦
                  let logged : log w2 ≡ log w =
                    m.writes i w1
                    ∙ ap (λ b. if b then log w1 ++ i ∷ [] else log w1) bad
                    ∙ m.reads i w in
                  let kept = m.closes _ ∙ m.errors w2 ∙ logged ∙ sym (append-nil (log w)) in
                  rw (there, t, bad, unmute_from)
                    (i ∷ is, mutes h others, inr ([], i, is, refl, refl, kept))
            ]
      ]
