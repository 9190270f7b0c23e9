-- ===== src/MustHold/Step.antt =====
-- What each instruction does to the guards that are held: `transferHold`, `applyCallHold` and
-- `killEscaping` (internal/nosharing/mutexguard.go).
pub mod Keywise
pub mod Modes
pub mod Effects
pub mod Turns
pub mod Last
use safetylint.Base.{
  Bool, true, false, not, ◌&&◌, ◌||◌, List, [], ◌∷◌, none, some, String, str_eq, one_of, decides,
  if◌then◌else◌,
}
use safetylint.Ssa.{Program, CallCommon, call, defer, field_addr, global, is_invoke}
use safetylint.Strip.{strip_to_object, base_covers_addr}
use safetylint.Hold.{
  HoldSet, put, delete, delete_if, strengthen_hold, clone_guard_set, hold_read, hold_write,
}
use safetylint.Guard.{GuardKey, GuardKey-discrete, lock_unlock_guard}
use safetylint.Guard.Method.{mutex_method_name}
use safetylint.Calls.{is_async_callback_callee}
use safetylint.MayUnlock.{
  is_builtin_call, is_sync_call, has_body, callee_may_unlock, is_keeps, same_index,
}

module _ (P : Program) where
  open P use {
    Value, Func, Instr, Block, view, value_discrete, block_discrete, instr_discrete, instr_view,
    blocks, instrs, preds, succs, index, exported,
  }

  abbrev pub key : Discrete (GuardKey Value)
  key = GuardKey-discrete value_discrete

  abbrev pub Held : Type 0
  Held = HoldSet (GuardKey Value)

  -- Does passing `v` to an unknown callee give the guard away?
  unfoldable pub escapes_by : Value → GuardKey Value → Bool
  unfolding strip_to_object base_covers_addr
  escapes_by v g =
      decides (value_discrete g.base (strip_to_object P v))
      || base_covers_addr P g.base v
      || (elim (view v) [
        | field_addr x f ↦
            same_index P (some f) g.field && decides (value_discrete (strip_to_object P x) g.base)
        | _ ↦ false
      ])

  unfoldable pub kill_escaping : Held → Value → Held
  unfolding escapes_by delete_if
  kill_escaping held v = delete_if key (escapes_by v) held

  unfoldable pub kill_args : Held → List Value → Held
  unfolding kill_escaping
  kill_args held [] = held
  kill_args held (a ∷ rest) = kill_args (kill_escaping held a) rest

  -- an exported package variable may be unlocked by any code
  unfoldable pub is_exported_global : GuardKey Value → Bool
  is_exported_global g = elim (view g.base) [ global ↦ exported g.base | _ ↦ false ]

  unfoldable pub kill_unknown_call : Held → CallCommon Value Func → Held
  unfolding kill_args kill_escaping is_exported_global delete_if
  kill_unknown_call held c =
      let after_args = kill_args held c.args in
      delete_if key is_exported_global
        (if is_invoke c then kill_escaping after_args c.value else after_args)

  -- the mutex operations of `applyCallHold`
  unfoldable pub apply_guard_op : Held → GuardKey Value → String → Bool → Held
  unfolding put delete strengthen_hold
  apply_guard_op held g name is_defer =
      if is_defer
      then held
      else if str_eq name "Lock"
      then put key held g hold_write
      else if str_eq name "RLock"
      then strengthen_hold key held g hold_read
      else if one_of name ("Unlock" ∷ "RUnlock" ∷ [])
      then delete key held g
      else held

  abbrev pub releases_in : Func → GuardKey Value → Bool
  unfolding callee_may_unlock
  releases_in cal g = not (is_keeps P (callee_may_unlock P cal g))

  unfoldable pub apply_static_call : Held → CallCommon Value Func → Func → Held
  unfolding callee_may_unlock is_sync_call is_async_callback_callee kill_unknown_call delete_if
  apply_static_call held c cal =
      if has_body P cal
      then delete_if key (releases_in cal) held
      else if is_sync_call P cal c
      then held
      else if is_async_callback_callee P cal
      then held
      else kill_unknown_call held c

  unfoldable pub apply_call_hold : Held → CallCommon Value Func → Bool → Held
  unfolding lock_unlock_guard mutex_method_name apply_guard_op apply_static_call kill_unknown_call
  apply_call_hold held c is_defer = elim (lock_unlock_guard P c) [
    | some g ↦ apply_guard_op held g (mutex_method_name P c) is_defer
    | none ↦ if is_defer then held else if is_builtin_call P c then held else elim c.static_callee [
      | some cal ↦ apply_static_call held c cal
      | none ↦ kill_unknown_call held c
    ]
  ]

  unfoldable pub transfer_hold : Held → Instr → Held
  unfolding apply_call_hold clone_guard_set
  transfer_hold held i = elim (instr_view i) [
    | call v c ↦ apply_call_hold (clone_guard_set key held) c false
    | defer c ↦ apply_call_hold (clone_guard_set key held) c true
    | _ ↦ clone_guard_set key held
  ]

  unfoldable pub run_instrs : List Instr → Held → Held
  unfolding transfer_hold
  run_instrs [] held = held
  run_instrs (i ∷ is) held = run_instrs is (transfer_hold held i)

  unfoldable pub block_out : Block → Held → Held
  unfolding run_instrs clone_guard_set
  block_out b held = run_instrs (instrs b) (clone_guard_set key held)
