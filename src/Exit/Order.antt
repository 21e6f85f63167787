-- ===== src/Exit/Order.antt =====
-- In what order the handlers of src/sphone_error.c are called, and how often.
use sphone.Prelude.{
  ℕ, suc, ◌≡◌, refl, sym, ap, ◌∙◌, ◌≢◌, inl, inr, Bool, true, false, Bool-cases, ltb, ◌==◌, List,
  [], ◌∷◌, if◌then◌else◌, arith,
}
use sphone.Exit.{Process, exit_register, walk, exit_handler, sphone_verror, sphone_signal_exit}

module _ {W : Type 0} where
  -- Handlers registered one after the other
  unfoldable pub register_all : List (ℕ × ℕ) → Process W → Process W
  register_all [] p = p
  register_all ((fn, arg) ∷ rest) p = register_all rest (exit_register fn arg p)

  register_all-keeps :
      (xs : List (ℕ × ℕ)) (p : Process W)
      → ((register_all xs p).sphone_exit ≡ p.sphone_exit) × ((register_all xs p).world ≡ p.world)
  unfolding register_all exit_register
  register_all-keeps [] p = (refl, refl)
  register_all-keeps ((fn, arg) ∷ rest) p = register_all-keeps rest (exit_register fn arg p)

module _ {W : Type 0} (run : ℕ → ℕ → W → Bool × W) where
  verror_first :
      (p : Process W)
      → p.sphone_exit ≡ 0
      → sphone_verror run p
        ≡ walk run (λ q. (true, q)) p.err_handlers (record p { sphone_exit = suc p.sphone_exit })
  unfolding sphone_verror exit_handler
  verror_first p clear =
      let once : ltb 1 p.sphone_exit ≡ false = ground arith in
      let never : (p.sphone_exit == 0) ≡ true = ground arith in simp (sphone_verror, once, never)

  verror_again : (p : Process W) → p.sphone_exit ≢ 0 → sphone_verror run p ≡ (true, p)
  unfolding sphone_verror
  verror_again p set = ground arith

  signal_again : (p : Process W) → p.sphone_exit ≢ 0 → sphone_signal_exit run p ≡ (true, p)
  unfolding sphone_signal_exit
  signal_again p set = ground arith

module _ {W : Type 0} (run : ℕ → ℕ → W → Bool × W) where
  -- What handlers do that are called in the other order than they are given in, up to one that ends the process
  unfoldable pub run_back : List (ℕ × ℕ) → W → Bool × W
  run_back [] w = (false, w)
  run_back ((fn, arg) ∷ rest) w =
      let (ended, w1) = run_back rest w in
      let next = run fn arg w1 in if ended then (true, w1) else next

  -- The loop goes on with the handlers that were there before.
  register_all-walk :
      (xs : List (ℕ × ℕ)) (p q : Process W)
      → let (ended, w) = run_back xs q.world in
        walk run (λ q. (true, q)) (register_all xs p).err_handlers q ≡ (
          if ended
          then (true, record q { world = w })
          else walk run (λ q. (true, q)) p.err_handlers (record q { world = w }))
  unfolding register_all exit_register run_back walk
  register_all-walk [] p q = refl
  register_all-walk ((fn, arg) ∷ rest) p q =
      let ih = register_all-walk rest (exit_register fn arg p) q in
      let (ended, w1) = run_back rest q.world in
      elim (Bool-cases ended) [
        | inl t ↦ ih ∙ rw t refl
        | inr f ↦ elim (Bool-cases (run fn arg w1).0) [
          | inl r ↦ ih ∙ rw (f, r) refl
          | inr k ↦ ih ∙ rw (f, k) refl
        ]
      ]

  walk_none :
      (handlers : List (ℕ × ℕ)) (q : Process W)
      → handlers ≡ []
      → walk run (λ q. (true, q)) handlers q ≡ (false, q)
  unfolding walk
  walk_none handlers q e = rw e refl

  -- In a process without handlers and without an error so far, the first error calls those that were registered since,
  -- the last registered first and each once, up to the first that ends the process, by an error of its own or by
  -- `exit`; where none does, it returns.
  pub sphone_verror-order :
      (xs : List (ℕ × ℕ)) (p : Process W)
      → p.err_handlers ≡ []
      → p.sphone_exit ≡ 0
      → let r = sphone_verror run (register_all xs p) in
        let done = run_back xs p.world in
        (r.0 ≡ done.0) × (r.1.world ≡ done.1) × (r.1.sphone_exit ≡ 1)
  sphone_verror-order xs p none clear =
      let (x, w) = register_all-keeps xs p in
      let q : Process W = record (register_all xs p) {
        sphone_exit = suc (register_all xs p).sphone_exit;
      } in
      let ran = verror_first run (register_all xs p) (x ∙ clear) ∙ register_all-walk xs p q in
      let q' : Process W = record q { world = (run_back xs q.world).1 } in
      let on_error : Process W → Bool × Process W = λ q. (true, q) in
      let rest : Bool × Process W = walk run on_error p.err_handlers q' in
      let end : Bool → Bool × Process W = λ ended. if ended then (true, q') else rest in
      let count : suc (register_all xs p).sphone_exit ≡ 1 = omega (arith, x, clear) in
      let done = ap (λ v. (run_back xs v).1) w in
      let ended = ap (λ v. (run_back xs v).0) w in
      elim (Bool-cases (run_back xs q.world).0) [
        | inl t ↦
            let r = ran ∙ ap end t in
            (
              ap (λ r. r.0) r ∙ sym t ∙ ended,
              ap (λ r. r.1.world) r ∙ done,
              ap (λ r. r.1.sphone_exit) r ∙ count,
            )
        | inr f ↦
            let r = ran ∙ ap end f ∙ walk_none p.err_handlers q' none in
            (
              ap (λ r. r.0) r ∙ sym f ∙ ended,
              ap (λ r. r.1.world) r ∙ done,
              ap (λ r. r.1.sphone_exit) r ∙ count,
            )
      ]

module _ {W : Type 0} (run : ℕ → ℕ → W → Bool × W) where
  walk-exit :
      (xs : List (ℕ × ℕ)) (p : Process W)
      → (walk run (λ q. (true, q)) xs p).1.sphone_exit ≡ p.sphone_exit
  unfolding walk
  walk-exit [] p = refl
  walk-exit ((fn, arg) ∷ rest) p = elim (Bool-cases (run fn arg p.world).0) [
    | inl h ↦ rw h refl
    | inr h ↦ rw h (walk-exit rest (record p { world = (run fn arg p.world).1 }))
  ]

  -- Whatever its handlers do, after a first error any further error and any signal end the process at once, and
  -- no handler is called again.
  sphone_verror_twice :
      (p : Process W)
      → p.sphone_exit ≡ 0
      → let first = (sphone_verror run p).1 in
        (sphone_verror run first ≡ (true, first)) × (sphone_signal_exit run first ≡ (true, first))
  sphone_verror_twice p clear =
      let set : (sphone_verror run p).1.sphone_exit ≢ 0 =
        rw
          (
            verror_first run p clear,
            walk-exit p.err_handlers (record p { sphone_exit = suc p.sphone_exit }),
          )
          (λ e. omega (arith, e)) in
      (verror_again run _ set, signal_again run _ set)
