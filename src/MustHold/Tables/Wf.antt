-- ===== src/MustHold/Tables/Wf.antt =====
-- The maps of the must-hold tables have one entry per guard: through writes to a table, and the
-- map of all guards that a function acquires.
use safetylint.Base.{ℕ, zero, suc, arith, List, [], ◌∷◌, Option, none, some, set, replicate}
use safetylint.Ssa.{Program, CallCommon, InstrView, call, defer}
use safetylint.Hold.{IsWf, put, hold_write}
use safetylint.Hold.Laws.{put-IsWf}
use safetylint.Guard.{GuardKey, lock_unlock_guard}
use safetylint.MustHold.Step.{key, Held}
use safetylint.MustHold.Tables.{add_guard, universe_from}
use safetylint.MustHold.Tables.Meet.{TableWf}

module _ (P : Program) where
  open P use {Instr}

  pub table_set-IsWf :
      (xs : List (Held P)) (i : ℕ) (h : Held P)
      → TableWf P xs
      → IsWf (key P) h
      → TableWf P (set xs i h)
  table_set-IsWf [] i h w v j = w j
  table_set-IsWf (x ∷ xs) zero h w v zero = v
  table_set-IsWf (x ∷ xs) zero h w v (suc j) = w (suc j)
  table_set-IsWf (x ∷ xs) (suc i) h w v zero = w zero
  table_set-IsWf (x ∷ xs) (suc i) h w v (suc j) = table_set-IsWf xs i h (λ k. w (suc k)) v j

  pub replicate-IsWf : (n : ℕ) (h : Held P) → IsWf (key P) h → TableWf P (replicate n h)
  replicate-IsWf zero h w j = tt
  replicate-IsWf (suc n) h w zero = w
  replicate-IsWf (suc n) h w (suc j) = replicate-IsWf n h w j

  add_guard-IsWf :
      (u : Held P) (c : CallCommon P.Value P.Func) → IsWf (key P) u → IsWf (key P) (add_guard P u c)
  unfolding add_guard
  add_guard-IsWf u c w = by_guard (lock_unlock_guard P c)
    where
      by_guard :
          (o : Option (GuardKey P.Value))
          → IsWf (key P) (elim o [ none ↦ u | some g ↦ put (key P) u g hold_write ])
      by_guard none = w
      by_guard (some g) = put-IsWf (key P) u g hold_write (omega arith) w

  pub universe_from-IsWf :
      (is : List Instr) (u : Held P) → IsWf (key P) u → IsWf (key P) (universe_from P is u)
  unfolding universe_from
  universe_from-IsWf [] u w = w
  universe_from-IsWf (i ∷ is) u w = universe_from-IsWf is _ (by_view (P.instr_view i))
    where
      by_view :
          (v : InstrView P.Value P.Func)
          → IsWf (key P) (elim v [ call _ c ↦ add_guard P u c | defer c ↦ add_guard P u c | _ ↦ u ])
      by_view (call _ c) = add_guard-IsWf u c w
      by_view (defer c) = add_guard-IsWf u c w
      by_view _ = w
