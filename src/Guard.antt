-- ===== src/Guard.antt =====
-- Which guard a call locks or unlocks: `lockUnlockGuard` and what it asks
-- (internal/nosharing/mutexguard.go). A guard's `field` is `none` where the source has -1.
pub mod Method
pub mod Cell
pub mod Wrapper
use safetylint.Base.{
  ℕ, Bool, true, false, not, ◌&&◌, ◌||◌, List, [], ◌∷◌, Option, none, some, is_some, String, one_of,
  str_eq, if◌then◌else◌, ℕ_discrete,
}
use safetylint.Ssa.{Program, CallCommon, is_invoke, mul, un_op, field_addr}
use safetylint.Types.{is_named_sync_type, is_locker_field_type}
use safetylint.Strip.{load_operand, strip_to_object, mutex_container, peel_to_mutex_recv}
use safetylint.Guard.Method.{
  mutex_recv, mutex_method_name, is_sync_mutex_method, is_rw_mutex_method, lock_names, read_names,
}
use safetylint.Guard.Cell.{free_standing_mutex_cell}
use safetylint.Guard.Wrapper.{WrapperField, mutex_wrapper_field}

-- `guardKey`
pub record GuardKey (Value : Type 0) : Type 0 where
  pub base : Value
  pub field : Option ℕ

unfoldable pub GuardKey-discrete : {Value : Type 0} → Discrete Value → Discrete (GuardKey Value)
GuardKey-discrete d = hlevel (d, ℕ_discrete)

module _ (P : Program) where
  open P use {Value, Func, view, type_of}

  -- Where a value is a load, what it loads from: `if u, ok := v.(*ssa.UnOp); ok && u.Op == MUL`.
  unfoldable pub peel_load : Value → Value
  peel_load v = elim (view v) [
    | un_op t x ↦ elim (load_operand t x) [ none ↦ v | some w ↦ w ]
    | _ ↦ v
  ]

  -- `l.cond.L`: the guard is the parent's pointer field, if the parent is reached by one
  unfoldable pub locker_of : Value → ℕ → GuardKey Value
  unfolding peel_load mutex_container
  locker_of x f = elim (view (peel_load x)) [
    | field_addr y g ↦ record { base = mutex_container P y; field = some g }
    | _ ↦ record { base = mutex_container P x; field = some f }
  ]

  unfoldable pub locker_field_guard : Value → String → Option (GuardKey Value)
  unfolding locker_of is_locker_field_type
  locker_field_guard recv name =
      if one_of name ("Lock" ∷ "Unlock" ∷ "TryLock" ∷ [])
      then elim (view recv) [
        | field_addr x f ↦
            if is_locker_field_type P (type_of recv) then some (locker_of x f) else none
        | _ ↦ none
      ]
      else none

  -- `(*ssa.FieldAddr)` of a sync.Mutex or sync.RWMutex field
  unfoldable pub field_guard : Value → ℕ → Value → String → Option (GuardKey Value)
  unfolding is_named_sync_type mutex_container
  field_guard recv f x name =
      let is_mu = is_named_sync_type P (type_of recv) ("Mutex" ∷ []) in
      let is_rw = is_named_sync_type P (type_of recv) ("RWMutex" ∷ []) in
      if not is_mu && not is_rw
      then none
      else if is_mu && one_of name read_names
      then none
      else some (record { base = mutex_container P x; field = some f })

  unfoldable pub wrapper_lock_guard :
      CallCommon Value Func → String → Value → Option (GuardKey Value)
  unfolding mutex_wrapper_field is_sync_mutex_method is_rw_mutex_method
  wrapper_lock_guard c name base =
      if one_of name ("Lock" ∷ "Unlock" ∷ "RLock" ∷ "RUnlock" ∷ []) && not (is_invoke c)
      then elim c.static_callee [
        | none ↦ none
        | some cal ↦
            if is_sync_mutex_method P cal || is_rw_mutex_method P cal
            then none
            else elim (mutex_wrapper_field P cal name) [
              | none ↦ none
              | some w ↦
                  if not w.is_rw && one_of name ("RLock" ∷ "RUnlock" ∷ [])
                  then none
                  else some (record { base = base; field = some w.field })
            ]
      ]
      else none

  -- the free-standing and the wrapper cases of `lockUnlockGuard`
  unfoldable pub object_guard : CallCommon Value Func → String → Value → Option (GuardKey Value)
  unfolding free_standing_mutex_cell wrapper_lock_guard is_named_sync_type
  object_guard c name base = elim (free_standing_mutex_cell P base) [
    | none ↦ wrapper_lock_guard c name base
    | some cell ↦
        if is_named_sync_type P (type_of cell) ("Mutex" ∷ []) && one_of name read_names
        then none
        else some (record { base = cell; field = none })
  ]

  -- the guard behind the peeled receiver
  unfoldable pub recv_guard : CallCommon Value Func → String → Value → Option (GuardKey Value)
  unfolding locker_field_guard field_guard object_guard strip_to_object peel_load
  recv_guard c name recv = elim (locker_field_guard recv name) [
    | some g ↦ some g
    | none ↦ elim (view recv) [
      | field_addr x f ↦ field_guard recv f x name
      | _ ↦ object_guard c name (strip_to_object P (peel_load recv))
    ]
  ]

  unfoldable pub lock_unlock_guard : CallCommon Value Func → Option (GuardKey Value)
  unfolding mutex_method_name mutex_recv recv_guard peel_to_mutex_recv
  lock_unlock_guard c =
      if one_of (mutex_method_name P c) lock_names
      then elim (mutex_recv c) [
        | none ↦ none
        | some recv ↦ recv_guard c (mutex_method_name P c) (peel_to_mutex_recv P recv)
      ]
      else none

  unfoldable pub is_mutex_guard_call : CallCommon Value Func → Bool
  unfolding lock_unlock_guard
  is_mutex_guard_call c = is_some (lock_unlock_guard c)
