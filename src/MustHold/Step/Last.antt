-- ===== src/MustHold/Step/Last.antt =====
-- Which guards are held after a run of instructions: those that an instruction locked and that no
-- later one gave up.
use safetylint.Base.{ℕ, ◌≤◌, ◌<◌, ◌≡◌, refl, sym, subst, ◌↔◌, List, [], ◌∷◌}
use safetylint.Ssa.{Program}
use safetylint.Hold.{get, IsWf, hold_write}
use safetylint.Guard.{GuardKey}
use safetylint.MustHold.Since.{HeldSince, held_iff_since, after}
use safetylint.MustHold.Step.{key, Held, transfer_hold, run_instrs}
use safetylint.MustHold.Step.Effects.{gives, drops}
use safetylint.MustHold.Step.Turns.{transfer-Turn}
use safetylint.MustHold.Step.Keywise.{transfer_hold-Acts}

pub run_instrs-after :
    (P : Program) (is : List P.Instr) (held : Held P)
    → run_instrs P is held ≡ after (λ i h. transfer_hold P h i) is held
unfolding run_instrs
run_instrs-after P [] held = refl
run_instrs-after P (i ∷ is) held = run_instrs-after P is (transfer_hold P held i)

module _ (P : Program) (k : GuardKey P.Value) where
  open P use {Instr}

  module _ (mode : ℕ) (pos : 0 < mode) (le : mode ≤ hold_write) where
    -- After a run of instructions a guard is held in a mode, the shared or the exclusive one, or in
    -- a stronger one, exactly when an instruction locks it so and no later instruction gives it up,
    -- or when it was held so before them and none gives it up. An instruction gives a guard up that
    -- unlocks it, that calls a function that may unlock it, or that calls unknown code to which the
    -- guard is given or that can name it; a deferred call locks and gives up nothing. The map before
    -- them is well formed.
    pub run_instrs_since :
        (is : List Instr) (held : Held P)
        → IsWf (key P) held
        → (mode ≤ get (key P) (run_instrs P is held) k)
          ↔ HeldSince (gives P k) (drops P k) mode is (get (key P) held k)
    run_instrs_since is held w =
        subst
          (λ h.
            (mode ≤ get (key P) h k)
            ↔ HeldSince (gives P k) (drops P k) mode is (get (key P) held k))
          (sym (run_instrs-after P is held))
          (held_iff_since (gives P k) (drops P k) (λ i h. transfer_hold P h i)
            (λ h. get (key P) h k) (IsWf (key P)) (λ i. (transfer_hold-Acts P i).keeps) mode
            (transfer-Turn P k mode pos le) is held w)
