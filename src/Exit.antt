-- ===== src/Exit.antt =====
-- src/sphone_error.c: the exit handlers of the process, and the two ways out. Allocations succeed, and no
-- handler registers another. A handler may call `sphone_error` itself.
pub mod Order
mod Tests
use sphone.Prelude.{ℕ, suc, Bool, true, false, ltb, not, ◌==◌, if◌then◌else◌, List, [], ◌∷◌}

-- `Err_handler`, each with its function and its argument, `sphone_exit`, and everything else
pub record Process (W : Type 0) : Type 0 where
  pub err_handlers : List (ℕ × ℕ)
  pub sphone_exit : ℕ
  pub world : W

module _ {W : Type 0} where
  unfoldable pub exit_register : ℕ → ℕ → Process W → Process W
  exit_register fn arg p = record p { err_handlers = (fn, arg) ∷ p.err_handlers }

-- `run` is what calling a handler does, and whether it calls `sphone_error`, or, in a `sphone_error`, where that is
-- the same, `exit`. Results say whether the process has ended, by `exit(0)`.
module _ {W : Type 0} (run : ℕ → ℕ → W → Bool × W) where
  -- The loop of `exit_handler`; `on_error` is what a `sphone_error` in a handler does.
  unfoldable pub walk : (Process W → Bool × Process W) → List (ℕ × ℕ) → Process W → Bool × Process W
  walk on_error [] p = (false, p)
  walk on_error ((fn, arg) ∷ rest) p =
      let (raises, w) = run fn arg p.world in
      let (ended, p') =
        if raises then on_error (record p { world = w }) else (false, record p { world = w }) in
      let next = walk on_error rest p' in if ended then (true, p') else next

  unfoldable pub exit_handler : (Process W → Bool × Process W) → Process W → Bool × Process W
  exit_handler on_error p = walk on_error p.err_handlers p

  -- While its handlers run, `sphone_exit` is set, so that a `sphone_error` in one ends the process.
  unfoldable pub sphone_verror : Process W → Bool × Process W
  sphone_verror p =
      if ltb 1 p.sphone_exit
      then (true, p)
      else (if not (p.sphone_exit == 0)
          then (true, p)
          else exit_handler (λ q. (true, q)) (record p { sphone_exit = suc p.sphone_exit }))

  -- While its handlers run, `sphone_exit` is clear, so that a `sphone_error` in one runs them all.
  unfoldable pub sphone_signal_exit : Process W → Bool × Process W
  sphone_signal_exit p =
      if not (p.sphone_exit == 0)
      then (true, p)
      else (let (ended, p') = exit_handler sphone_verror p in
          if ended then (true, p') else (true, record p' { sphone_exit = suc p'.sphone_exit }))
