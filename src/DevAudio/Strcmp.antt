-- ===== src/DevAudio/Strcmp.antt =====
-- The comparison of names and labels by `strcmp` in audio/sphone_audio_devaudio.c.
use sphone.Prelude.{ℕ, ◌≡◌, refl, ap, Bool, true, ◌==◌, ◌&&◌, List, [], ◌∷◌, arith}
use sphone.DevAudio.{strcmp_eq}

pub strcmp_eq_refl : (s : List ℕ) → strcmp_eq s s ≡ true
unfolding strcmp_eq
strcmp_eq_refl [] = refl
strcmp_eq_refl (c ∷ s) = ground (arith, strcmp_eq_refl s)

heads_eq : (b c : ℕ) (rest : Bool) → (b == c && rest) ≡ true → (b ≡ c) × (rest ≡ true)
heads_eq b c rest h = ground (arith, h)

pub strcmp_eq-true : (s t : List ℕ) → strcmp_eq s t ≡ true → s ≡ t
unfolding strcmp_eq
strcmp_eq-true [] [] h = refl
strcmp_eq-true [] (c ∷ t) h = absurd (cc)
strcmp_eq-true (b ∷ s) [] h = absurd (cc)
strcmp_eq-true (b ∷ s) (c ∷ t) h =
    let (e, more) = heads_eq b c _ h in rw e (ap (λ l. c ∷ l) (strcmp_eq-true s t more))
