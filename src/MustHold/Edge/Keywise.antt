-- ===== src/MustHold/Edge/Keywise.antt =====
-- What flows over an edge acts on each guard by itself, and monotonically.
use safetylint.Base.{
  not, zero, decides, String, Bool, true, List, Option, none, some, ◌≤◌, ◌<◌, if◌then◌else◌, ℕ, suc,
  arith, [], ◌∷◌,
}
use safetylint.Ssa.{Program, ValueView, InstrView, un_op, change_type, convert, call, not as not_op}
use safetylint.Hold.{clone_guard_set, strengthen_hold, hold_write}
use safetylint.Hold.Acts.{Acts-self, Acts-then, Acts-clone, Acts-strengthen}
use safetylint.Guard.{GuardKey, lock_unlock_guard}
use safetylint.Guard.Method.{mutex_method_name, first}
use safetylint.MustHold.Step.{key}
use safetylint.MustHold.Step.Keywise.{KeyWise, choose}
use safetylint.MustHold.Edge.{
  TryAcq, on_branch, edge_hold, branch_cond, try_lock_cond, is_block, second, tries_from,
  try_result, try_mode, acquired, add_try,
}

module _ (P : Program) where
  open P use {Value, Func, Instr, Block, view, instr_view, value_discrete, instrs, succs, depth}

  -- Every recorded result of a TryLock stands for a mode.
  abbrev pub IsMode : ℕ → Type 0
  IsMode m = (0 < m) × (m ≤ hold_write)

  module _ (Q : TryAcq Value → Type 0) where
    -- Every recorded result is as `Q` says.
    abbrev pub AllTries : List (Value × TryAcq Value) → Type 0
    AllTries [] = Unit {0}
    AllTries ((v, acq) ∷ rest) = Q acq × AllTries rest

    abbrev pub ResultOk : Option (TryAcq Value) → Type 0
    ResultOk none = Unit {0}
    ResultOk (some acq) = Q acq

    abbrev pub CondOk : Option (TryAcq Value × Bool) → Type 0
    CondOk none = Unit {0}
    CondOk (some (acq, pos)) = Q acq

    try_result-ResultOk :
        (tries : List (Value × TryAcq Value)) (v : Value)
        → AllTries tries
        → ResultOk (try_result P tries v)
    unfolding try_result
    try_result-ResultOk [] v h = tt
    try_result-ResultOk ((w, a) ∷ rest) v h =
        let ih = try_result-ResultOk rest v h.1 in
        elim (value_discrete w v)
          as (λ d. ResultOk (if decides d then some a else try_result P rest v)) [
            | yes p ↦ h.0
            | no p ↦ ih
          ]

    pub try_lock_cond-CondOk :
        (tries : List (Value × TryAcq Value)) (f : ℕ) (pos : Bool) (v : Value)
        → AllTries tries
        → CondOk (try_lock_cond P tries f pos v)
    unfolding try_lock_cond
    try_lock_cond-CondOk tries zero pos v h = tt
    try_lock_cond-CondOk tries (suc f) pos v h =
        by_result (try_result P tries v) (try_result-ResultOk tries v h)
          (λ q w. try_lock_cond-CondOk tries f q w h)
      where
        by_view :
            (u : ValueView Value Func)
            → ((q : Bool) (w : Value) → CondOk (try_lock_cond P tries f q w))
            → CondOk (elim u [
              | un_op t x ↦ elim t [ not_op ↦ try_lock_cond P tries f (not pos) x | _ ↦ none ]
              | change_type x ↦ try_lock_cond P tries f pos x
              | convert x ↦ try_lock_cond P tries f pos x
              | _ ↦ none
            ])
        by_view (un_op not_op x) ih = ih (not pos) x
        by_view (un_op _ x) ih = tt
        by_view (change_type x) ih = ih pos x
        by_view (convert x) ih = ih pos x
        by_view _ ih = tt

        by_result :
            (o : Option (TryAcq Value))
            → ResultOk o
            → ((q : Bool) (w : Value) → CondOk (try_lock_cond P tries f q w))
            → CondOk (elim o [
              | some acq ↦ some (acq, pos)
              | none ↦ elim (view v) [
                | un_op t x ↦ elim t [ not_op ↦ try_lock_cond P tries f (not pos) x | _ ↦ none ]
                | change_type x ↦ try_lock_cond P tries f pos x
                | convert x ↦ try_lock_cond P tries f pos x
                | _ ↦ none
              ]
            ])
        by_result (some acq) m ih = m
        by_result none m ih = by_view (view v) ih

  abbrev pub AllModes : List (Value × TryAcq Value) → Type 0
  AllModes = AllTries (λ acq. IsMode acq.mode)

  add_try_modes :
      (v : Value) (name : String) (g : Option (GuardKey Value)) (rest : List (Value × TryAcq Value))
      → AllModes rest
      → AllModes (add_try P v (acquired P (try_mode name) g) rest)
  add_try_modes v name none rest h = by_mode (try_mode name)
    where
      by_mode : (m : Option ℕ) → AllModes (add_try P v (acquired P m none) rest)
      by_mode none = h
      by_mode (some m) = h
  add_try_modes v name (some g) rest h = ground arith

  pub tries_from_modes : (is : List Instr) → AllModes (tries_from P is)
  unfolding tries_from
  tries_from_modes [] = tt
  tries_from_modes (i ∷ is) = by_view (instr_view i) (tries_from_modes is)
    where
      by_view :
          (u : InstrView Value Func)
          → AllModes (tries_from P is)
          → AllModes (elim u [
            | call v c ↦
                add_try P v
                  (acquired P (try_mode (mutex_method_name P c)) (lock_unlock_guard P c))
                  (tries_from P is)
            | _ ↦ tries_from P is
          ])
      by_view (call v c) h =
          add_try_modes v (mutex_method_name P c) (lock_unlock_guard P c) (tries_from P is) h
      by_view _ h = h

  pub edge_hold-Acts :
      (tries : List (Value × TryAcq Value)) (pred succ : Block)
      → AllModes tries
      → KeyWise P (edge_hold P tries pred succ)
  unfolding edge_hold
  edge_hold-Acts tries pred succ h = by_cond (branch_cond P (instrs pred))
    where
      by_acq :
          (o : Option (TryAcq Value × Bool))
          → CondOk (λ acq. IsMode acq.mode) o
          → KeyWise P (on_branch P pred succ o)
      by_acq none m = unfold on_branch in Acts-self (key P)
      by_acq (some (acq, pos)) m =
          unfold on_branch in
          choose P (λ out. strengthen_hold (key P) out acq.guard acq.mode) (λ out. out)
            (Acts-strengthen (key P) acq.guard acq.mode m.0 m.1) (Acts-self (key P))
            (if pos
              then is_block P (first (succs pred)) succ
              else is_block P (second P (succs pred)) succ)

      by_cond :
          (c : Option Value)
          → KeyWise P (λ out. elim c [
            | none ↦ clone_guard_set (key P) out
            | some cond ↦
                on_branch P pred succ
                  (try_lock_cond P tries (suc (depth cond)) true cond)
                  (clone_guard_set (key P) out)
          ])
      by_cond none = Acts-clone (key P)
      by_cond (some cond) = Acts-then (key P) (clone_guard_set (key P)) _ (Acts-clone (key P)) (
          by_acq _
            (try_lock_cond-CondOk (λ acq. IsMode acq.mode) tries (suc (depth cond)) true cond h))
