-- ===== src/MustHold/Step/Effects.antt =====
-- In which mode an instruction locks a guard, and whether it gives the guard up.
use safetylint.Base.{
  ℕ, Bool, false, ◌&&◌, ◌||◌, [], ◌∷◌, none, some, String, str_eq, one_of, decides, if◌then◌else◌,
}
use safetylint.Ssa.{Program, CallCommon, call}
use safetylint.Hold.{hold_read, hold_write}
use safetylint.Guard.{GuardKey, lock_unlock_guard}
use safetylint.Guard.Method.{mutex_method_name}
use safetylint.Calls.{is_async_callback_callee}
use safetylint.MayUnlock.{is_builtin_call, is_sync_call, has_body}
use safetylint.MustHold.Step.{key, is_exported_global, releases_in}
use safetylint.MustHold.Step.Modes.{given_away}

-- The mode in which an operation of that name locks.
abbrev pub lock_mode : String → ℕ
lock_mode name =
    if str_eq name "Lock" then hold_write else if str_eq name "RLock" then hold_read else 0

abbrev pub is_unlock : String → Bool
is_unlock name = one_of name ("Unlock" ∷ "RUnlock" ∷ [])

module _ (P : Program) (k : GuardKey P.Value) where
  open P use {Value, Func, Instr, instr_view}

  abbrev pub gives_call : CallCommon Value Func → ℕ
  gives_call c = elim (lock_unlock_guard P c) [
    | some g ↦ if decides (key P g k) then lock_mode (mutex_method_name P c) else 0
    | none ↦ 0
  ]

  -- Unknown code may give up the guards that it is given and those that it can name.
  abbrev pub drops_unknown : CallCommon Value Func → Bool
  drops_unknown c = given_away P c k || is_exported_global P k

  abbrev pub drops_static : CallCommon Value Func → Func → Bool
  drops_static c cal =
      if has_body P cal
      then releases_in P cal k
      else if is_sync_call P cal c
      then false
      else if is_async_callback_callee P cal
      then false
      else drops_unknown c

  abbrev pub drops_call : CallCommon Value Func → Bool
  drops_call c = elim (lock_unlock_guard P c) [
    | some g ↦ decides (key P g k) && is_unlock (mutex_method_name P c)
    | none ↦
        if is_builtin_call P c
        then false
        else elim c.static_callee [ some cal ↦ drops_static c cal | none ↦ drops_unknown c ]
  ]

  -- The mode in which the instruction locks the guard; a deferred call locks and gives up nothing.
  abbrev pub gives : Instr → ℕ
  gives i = elim (instr_view i) [ call v c ↦ gives_call c | _ ↦ 0 ]

  abbrev pub drops : Instr → Bool
  drops i = elim (instr_view i) [ call v c ↦ drops_call c | _ ↦ false ]
