-- ===== src/MustHold/Step/Keywise.antt =====
-- Every instruction acts on each guard by itself, and monotonically.
use safetylint.Base.{
  Bool, true, false, List, [], ◌∷◌, Option, none, some, String, str_eq, one_of, arith,
  if◌then◌else◌,
}
use safetylint.Ssa.{Program, CallCommon, InstrView, call, defer, is_invoke}
use safetylint.Hold.{clone_guard_set, delete_if, hold_read, hold_write}
use safetylint.Hold.Acts.{
  Acts, Acts-self, Acts-then, Acts-clone, Acts-put, Acts-strengthen, Acts-delete, Acts-delete_if,
}
use safetylint.Guard.{GuardKey, lock_unlock_guard}
use safetylint.Guard.Method.{mutex_method_name}
use safetylint.Calls.{is_async_callback_callee}
use safetylint.MayUnlock.{is_builtin_call, is_sync_call, has_body}
use safetylint.MustHold.Step.{
  key, Held, escapes_by, kill_escaping, kill_args, is_exported_global, kill_unknown_call,
  apply_guard_op, apply_static_call, apply_call_hold, transfer_hold, run_instrs, block_out,
  releases_in,
}

module _ (P : Program) where
  open P use {Value, Func, Instr, Block, instr_view, instrs}

  abbrev pub KeyWise : (Held P → Held P) → Type 0
  KeyWise f = Acts (key P) f

  pub choose :
      (f g : Held P → Held P)
      → KeyWise f
      → KeyWise g
      → (b : Bool) → KeyWise (λ h. if b then f h else g h)
  choose f g a c true = a
  choose f g a c false = c

  kill_escaping-Acts : (v : Value) → KeyWise (λ h. kill_escaping P h v)
  unfolding kill_escaping
  kill_escaping-Acts v = Acts-delete_if (key P) (escapes_by P v)

  kill_args-Acts : (vs : List Value) → KeyWise (λ h. kill_args P h vs)
  unfolding kill_args
  kill_args-Acts [] = Acts-self (key P)
  kill_args-Acts (v ∷ vs) =
      Acts-then (key P) (λ h. kill_escaping P h v) (λ h. kill_args P h vs) (kill_escaping-Acts v)
        (kill_args-Acts vs)

  kill_unknown_call-Acts : (c : CallCommon Value Func) → KeyWise (λ h. kill_unknown_call P h c)
  unfolding kill_unknown_call
  kill_unknown_call-Acts c =
      Acts-then (key P)
        (λ h.
          if is_invoke c
          then kill_escaping P (kill_args P h c.args) c.value
          else kill_args P h c.args)
        (delete_if (key P) (is_exported_global P))
        (choose _ _
          (Acts-then (key P) (λ h. kill_args P h c.args) (λ h. kill_escaping P h c.value)
            (kill_args-Acts c.args) (kill_escaping-Acts c.value))
          (kill_args-Acts c.args) (is_invoke c))
        (Acts-delete_if (key P) (is_exported_global P))

  apply_guard_op-Acts :
      (g : GuardKey Value) (name : String) (is_defer : Bool)
      → KeyWise (λ h. apply_guard_op P h g name is_defer)
  unfolding apply_guard_op
  apply_guard_op-Acts g name is_defer =
      choose _ _ (Acts-self (key P))
        (choose _ _ (Acts-put (key P) g hold_write (omega arith) (omega arith))
          (choose _ _ (Acts-strengthen (key P) g hold_read (omega arith) (omega arith))
            (choose _ _ (Acts-delete (key P) g) (Acts-self (key P))
              (one_of name ("Unlock" ∷ "RUnlock" ∷ [])))
            (str_eq name "RLock"))
          (str_eq name "Lock"))
        is_defer

  apply_static_call-Acts :
      (c : CallCommon Value Func) (cal : Func) → KeyWise (λ h. apply_static_call P h c cal)
  unfolding apply_static_call
  apply_static_call-Acts c cal =
      choose _ _ (Acts-delete_if (key P) (releases_in P cal))
        (choose _ _ (Acts-self (key P))
          (choose _ _ (Acts-self (key P)) (kill_unknown_call-Acts c)
            (is_async_callback_callee P cal))
          (is_sync_call P cal c))
        (has_body P cal)

  apply_call_hold-Acts :
      (c : CallCommon Value Func) (d : Bool) → KeyWise (λ h. apply_call_hold P h c d)
  unfolding apply_call_hold
  apply_call_hold-Acts c d = by_guard (lock_unlock_guard P c)
    where
      by_callee :
          (o : Option Func)
          → KeyWise (λ h. elim o [
            | some cal ↦ apply_static_call P h c cal
            | none ↦ kill_unknown_call P h c
          ])
      by_callee (some cal) = apply_static_call-Acts c cal
      by_callee none = kill_unknown_call-Acts c

      by_guard :
          (o : Option (GuardKey Value))
          → KeyWise (λ h. elim o [
            | some g ↦ apply_guard_op P h g (mutex_method_name P c) d
            | none ↦ if d then h else if is_builtin_call P c then h else elim c.static_callee [
              | some cal ↦ apply_static_call P h c cal
              | none ↦ kill_unknown_call P h c
            ]
          ])
      by_guard (some g) = apply_guard_op-Acts g (mutex_method_name P c) d
      by_guard none =
          choose _ _ (Acts-self (key P))
            (choose _ _ (Acts-self (key P)) (by_callee c.static_callee) (is_builtin_call P c)) d

  pub transfer_hold-Acts : (i : Instr) → KeyWise (λ h. transfer_hold P h i)
  unfolding transfer_hold
  transfer_hold-Acts i = by_view (instr_view i)
    where
      after_clone :
          (c : CallCommon Value Func) (d : Bool)
          → KeyWise (λ h. apply_call_hold P (clone_guard_set (key P) h) c d)
      after_clone c d =
          Acts-then (key P) (clone_guard_set (key P)) (λ h. apply_call_hold P h c d)
            (Acts-clone (key P)) (apply_call_hold-Acts c d)

      by_view :
          (u : InstrView Value Func)
          → KeyWise (λ h. elim u [
            | call v c ↦ apply_call_hold P (clone_guard_set (key P) h) c false
            | defer c ↦ apply_call_hold P (clone_guard_set (key P) h) c true
            | _ ↦ clone_guard_set (key P) h
          ])
      by_view (call v c) = after_clone c false
      by_view (defer c) = after_clone c true
      by_view _ = Acts-clone (key P)

  pub run_instrs-Acts : (is : List Instr) → KeyWise (run_instrs P is)
  unfolding run_instrs
  run_instrs-Acts [] = Acts-self (key P)
  run_instrs-Acts (i ∷ is) =
      Acts-then (key P) (λ h. transfer_hold P h i) (run_instrs P is) (transfer_hold-Acts i)
        (run_instrs-Acts is)

  pub block_out-Acts : (b : Block) → KeyWise (block_out P b)
  unfolding block_out
  block_out-Acts b =
      Acts-then (key P) (clone_guard_set (key P)) (run_instrs P (instrs b)) (Acts-clone (key P))
        (run_instrs-Acts (instrs b))
