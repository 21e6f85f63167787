-- ===== src/Exit/Tests.antt =====
-- Examples of the exit handlers.
use sphone.Prelude.{ℕ, ◌≡◌, refl, Bool, ◌==◌, List, [], ◌∷◌}
use sphone.Exit.{Process, exit_register, walk, exit_handler, sphone_verror}
use sphone.Exit.Order.{register_all, run_back, sphone_verror-order}

abbrev idle : Process (List ℕ)
idle = record { err_handlers = []; sphone_exit = 0; world = [] }

-- A handler writes its function down, and the handler 3 ends the process.
abbrev note : ℕ → ℕ → List ℕ → Bool × List ℕ
note fn arg w = (fn == 3, fn ∷ w)

abbrev handlers : List (ℕ × ℕ)
handlers = (1, 0) ∷ (3, 0) ∷ (2, 0) ∷ []

called_backwards : (sphone_verror note (register_all handlers idle)).1.world ≡ 3 ∷ 2 ∷ []
unfolding sphone_verror exit_handler walk register_all exit_register
called_backwards = refl

sphone_verror-order_example :
    let r = sphone_verror note (register_all handlers idle) in
    let done = run_back note handlers [] in
    (r.0 ≡ done.0) × (r.1.world ≡ done.1) × (r.1.sphone_exit ≡ 1)
sphone_verror-order_example = sphone_verror-order note handlers idle refl refl
