-- ===== src/MustHold/Step/Modes.antt =====
-- What the steps of the must-hold analysis do to the mode of each guard.
use safetylint.Base.{
  ℕ, ◌≡◌, refl, arith, Bool, true, false, ◌&&◌, ◌||◌, List, [], ◌∷◌, any, decides, str_eq, one_of,
  max, String, if◌then◌else◌,
}
use safetylint.Ssa.{Program, CallCommon, is_invoke}
use safetylint.Hold.{get, delete_if, hold_read, hold_write}
use safetylint.Hold.Laws.{get-put, get-delete, get-delete_if, get-strengthen}
use safetylint.Guard.{GuardKey}
use safetylint.MustHold.Step.{
  key, Held, escapes_by, kill_escaping, kill_args, is_exported_global, kill_unknown_call,
  apply_guard_op,
}

module _ (P : Program) where
  open P use {Value, Func, Instr}

  -- The mode of the guard itself after an operation on it.
  abbrev pub mode_after : String → ℕ → ℕ
  mode_after name m =
      if str_eq name "Lock"
      then hold_write
      else if str_eq name "RLock"
      then max hold_read m
      else if one_of name ("Unlock" ∷ "RUnlock" ∷ [])
      then 0
      else m

  -- A mutex operation changes the mode of its own guard alone, and a deferred one changes nothing:
  -- Lock leads to the exclusive mode, RLock to the shared mode unless more is held, Unlock and
  -- RUnlock to no hold, and any other name to the old mode.
  pub apply_guard_op_modes :
      (held : Held P) (g k : GuardKey Value) (name : String) (is_defer : Bool)
      → get (key P) (apply_guard_op P held g name is_defer) k ≡ (
          if is_defer
          then get (key P) held k
          else if decides (key P g k)
          then mode_after name (get (key P) held k)
          else get (key P) held k)
  unfolding apply_guard_op
  apply_guard_op_modes held g k name is_defer = ground (
    arith,
    get-put (key P) held g k hold_write,
    get-strengthen (key P) held g k hold_read,
    get-delete (key P) held g k,
  )

  -- Is the guard given to the callee by an argument, or by the receiver of an interface call?
  abbrev pub given_away : CallCommon Value Func → GuardKey Value → Bool
  given_away c k = any (λ v. escapes_by P v k) c.args || is_invoke c && escapes_by P c.value k

  get-kill_escaping :
      (held : Held P) (v : Value) (k : GuardKey Value)
      → get (key P) (kill_escaping P held v) k
        ≡ (if escapes_by P v k then 0 else get (key P) held k)
  unfolding kill_escaping
  get-kill_escaping held v k = get-delete_if (key P) (escapes_by P v) held k

  get-kill_args :
      (held : Held P) (vs : List Value) (k : GuardKey Value)
      → get (key P) (kill_args P held vs) k
        ≡ (if any (λ v. escapes_by P v k) vs then 0 else get (key P) held k)
  unfolding kill_args
  get-kill_args held [] k = refl
  get-kill_args held (v ∷ vs) k =
      ground (arith, get-kill_args (kill_escaping P held v) vs k, get-kill_escaping held v k)

  -- A call of unknown code drops exactly the guards that it is given and those whose base is an
  -- exported package variable; every other guard keeps its mode.
  pub kill_unknown_call_modes :
      (held : Held P) (c : CallCommon Value Func) (k : GuardKey Value)
      → get (key P) (kill_unknown_call P held c) k
        ≡ (if given_away c k || is_exported_global P k then 0 else get (key P) held k)
  unfolding kill_unknown_call
  kill_unknown_call_modes held c k = by_kind (is_invoke c)
    where
      by_kind :
          (i : Bool)
          → get
              (key P)
              (delete_if (key P) (is_exported_global P) (
                if i
                then kill_escaping P (kill_args P held c.args) c.value
                else kill_args P held c.args))
              k
            ≡ (if (any (λ v. escapes_by P v k) c.args || i && escapes_by P c.value k)
                  || is_exported_global P k
                then 0
                else get (key P) held k)
      by_kind true = ground (
        arith,
        get-delete_if (key P) (is_exported_global P)
            (kill_escaping P (kill_args P held c.args) c.value) k,
        get-kill_escaping (kill_args P held c.args) c.value k,
        get-kill_args held c.args k,
      )
      by_kind false = ground (
        arith,
        get-delete_if (key P) (is_exported_global P) (kill_args P held c.args) k,
        get-kill_args held c.args k,
      )
