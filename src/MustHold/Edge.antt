-- ===== src/MustHold/Edge.antt =====
-- What flows from one block into the next: `edgeHold`, with the results of TryLock and TryRLock that
-- a branch tests (internal/nosharing/mutexguard.go).
pub mod Keywise
use safetylint.Base.{
  ℕ, zero, suc, Bool, true, false, not, List, [], ◌∷◌, Option, none, some, String, str_eq, decides,
  if◌then◌else◌,
}
use safetylint.Ssa.{Program, call, cond_jump, un_op, change_type, convert, not as not_op}
use safetylint.Hold.{strengthen_hold, clone_guard_set, hold_read, hold_write}
use safetylint.Guard.{GuardKey, lock_unlock_guard}
use safetylint.Guard.Method.{mutex_method_name, first}
use safetylint.MustHold.Step.{key, Held}

-- `tryAcq`
pub record TryAcq (Value : Type 0) : Type 0 where
  pub guard : GuardKey Value
  pub mode : ℕ

abbrev pub try_mode : String → Option ℕ
try_mode name =
    if str_eq name "TryLock"
    then some hold_write
    else if str_eq name "TryRLock"
    then some hold_read
    else none

module _ (P : Program) where
  open P use {
    Value, Func, Instr, Block, view, value_discrete, block_discrete, instr_discrete, instr_view,
    blocks, instrs, preds, succs, index, exported,
  }

  abbrev pub acquired : Option ℕ → Option (GuardKey Value) → Option (TryAcq Value)
  acquired (some m) (some g) = some (record { guard = g; mode = m })
  acquired _ _ = none

  abbrev pub add_try :
      Value → Option (TryAcq Value) → List (Value × TryAcq Value) → List (Value × TryAcq Value)
  add_try v none rest = rest
  add_try v (some acq) rest = (v, acq) ∷ rest

  -- `discoverTryLockResults`
  unfoldable pub tries_from : List Instr → List (Value × TryAcq Value)
  unfolding lock_unlock_guard mutex_method_name
  tries_from [] = []
  tries_from (i ∷ is) =
      let rest = tries_from is in
      elim (instr_view i) [
        | call v c ↦
            add_try v (acquired (try_mode (mutex_method_name P c)) (lock_unlock_guard P c)) rest
        | _ ↦ rest
      ]

  unfoldable pub try_result : List (Value × TryAcq Value) → Value → Option (TryAcq Value)
  try_result [] v = none
  try_result ((w, acq) ∷ rest) v =
      if decides (value_discrete w v) then some acq else try_result rest v

  -- `tryLockCond`, with whether an even number of negations was met so far
  unfoldable pub try_lock_cond :
      List (Value × TryAcq Value) → ℕ → Bool → Value → Option (TryAcq Value × Bool)
  unfolding try_result
  try_lock_cond tries zero pos v = none
  try_lock_cond tries (suc f) pos v = elim (try_result tries v) [
    | some acq ↦ some (acq, pos)
    | none ↦ elim (view v) [
      | un_op t x ↦ elim t [ not_op ↦ try_lock_cond tries f (not pos) x | _ ↦ none ]
      | change_type x ↦ try_lock_cond tries f pos x
      | convert x ↦ try_lock_cond tries f pos x
      | _ ↦ none
    ]
  ]

  -- the condition of the block's last instruction, if that is a `*ssa.If`
  unfoldable pub branch_cond : List Instr → Option Value
  branch_cond [] = none
  branch_cond (i ∷ []) = elim (instr_view i) [ cond_jump v ↦ some v | _ ↦ none ]
  branch_cond (i ∷ j ∷ is) = branch_cond (j ∷ is)

  abbrev pub is_block : Option Block → Block → Bool
  is_block none b = false
  is_block (some a) b = decides (block_discrete a b)

  abbrev pub second : List Block → Option Block
  second (a ∷ b ∷ bs) = some b
  second _ = none

  -- what a branch on the result of a TryLock adds on one edge
  unfoldable pub on_branch : Block → Block → Option (TryAcq Value × Bool) → Held P → Held P
  unfolding strengthen_hold
  on_branch pred succ none out = out
  on_branch pred succ (some (acq, on_true)) out =
      if (if on_true
        then is_block (first (succs pred)) succ
        else is_block (second (succs pred)) succ)
      then strengthen_hold (key P) out acq.guard acq.mode
      else out

  -- `edgeHold`, over what holds at the end of `pred`
  unfoldable pub edge_hold : List (Value × TryAcq Value) → Block → Block → Held P → Held P
  unfolding on_branch branch_cond try_lock_cond clone_guard_set
  edge_hold tries pred succ out_pred = elim (branch_cond (instrs pred)) [
    | none ↦ clone_guard_set (key P) out_pred
    | some cond ↦
        on_branch pred succ (try_lock_cond tries (suc (P.depth cond)) true cond)
          (clone_guard_set (key P) out_pred)
  ]
