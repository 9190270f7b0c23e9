-- ===== src/Guard/Method.antt =====
-- The names and receivers of lock calls, and the methods of the sync types.
use safetylint.Base.{Bool, false, List, [], ◌∷◌, Option, none, some, String, one_of, if◌then◌else◌}
use safetylint.Ssa.{Program, CallCommon, is_invoke}
use safetylint.Types.{is_named_sync_type}

abbrev pub lock_names : List String
lock_names = "Lock" ∷ "Unlock" ∷ "TryLock" ∷ "RLock" ∷ "RUnlock" ∷ "TryRLock" ∷ []

-- the methods that a sync.Mutex does not have
abbrev pub read_names : List String
read_names = "RLock" ∷ "RUnlock" ∷ "TryRLock" ∷ []

abbrev pub first {ℓ} : {A : Type ℓ} → List A → Option A
first [] = none
first (x ∷ xs) = some x

-- `mutexRecv` and `recvOfCall`
unfoldable pub mutex_recv : {Value Func : Type 0} → CallCommon Value Func → Option Value
mutex_recv c = if is_invoke c then some c.value else first c.args

module _ (P : Program) where
  open P use {Value, Func, func_name, recv}

  unfoldable pub mutex_method_name : CallCommon Value Func → String
  mutex_method_name c = elim c.method [
    | some name ↦ name
    | none ↦ elim c.static_callee [ none ↦ "" | some fn ↦ func_name fn ]
  ]

  -- Is the function a method of the sync type of that name?
  unfoldable pub recv_type_is : Func → String → Bool
  unfolding is_named_sync_type
  recv_type_is fn name = elim (recv fn) [
    | none ↦ false
    | some t ↦ is_named_sync_type P t (name ∷ [])
  ]

  unfoldable pub is_sync_mutex_method : Func → Bool
  unfolding recv_type_is
  is_sync_mutex_method fn =
      if one_of (func_name fn) ("Lock" ∷ "Unlock" ∷ "TryLock" ∷ [])
      then recv_type_is fn "Mutex"
      else false

  unfoldable pub is_rw_mutex_method : Func → Bool
  unfolding recv_type_is
  is_rw_mutex_method fn =
      if one_of (func_name fn) lock_names then recv_type_is fn "RWMutex" else false
