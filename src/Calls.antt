-- ===== src/Calls.antt =====
-- What the analyzers know of functions by their package and name (internal/nosharing: async.go,
-- writes.go, stdlibsafe.go, globalfreeze.go), and whether a type holds pointers (roots.go).
use safetylint.Base.{
  ℕ, zero, suc, Bool, true, false, ◌||◌, List, [], ◌∷◌, Option, none, some, String, str_eq, one_of,
  base_name, if◌then◌else◌, any, is_some,
}
use safetylint.Ssa.{
  Program, StructField, InstrView, CallCommon, call, defer, go, array, named, struct, basic,
}
use safetylint.Types.{is_named_sync_type, is_singleflight_group, is_atomic_value_type}
use safetylint.Guard.Method.{recv_type_is}

-- `asyncCallbacks`: the argument slots whose callback the standard library calls later
unfoldable pub async_callbacks : String → String → List ℕ
async_callbacks path name =
    if str_eq path "time"
    then (if str_eq name "AfterFunc" then 1 ∷ [] else [])
    else if str_eq path "net/http"
    then (if one_of name ("HandleFunc" ∷ "Handle" ∷ []) then 1 ∷ 2 ∷ [] else [])
    else if str_eq path "os/signal"
    then (if str_eq name "NotifyFunc" then 0 ∷ [] else [])
    else []

-- `callCommonOf`
abbrev pub call_common_of :
    {Value Func : Type 0} → InstrView Value Func → Option (CallCommon Value Func)
call_common_of (call v c) = some c
call_common_of (defer c) = some c
call_common_of (go c) = some c
call_common_of _ = none

module _ (P : Program) where
  open P use {
    Ty, Value, Func, unalias, underlying, ty_view, fields, func_name, func_pkg, pkg_path,
    object_pkg_path, recv, type_of, nest,
  }

  unfoldable pub callee_pkg_path : Func → String
  callee_pkg_path fn = elim (func_pkg fn) [
    | some pkg ↦ pkg_path pkg
    | none ↦ elim (object_pkg_path fn) [ some path ↦ path | none ↦ "" ]
  ]

  unfoldable pub is_async_callback_callee : Func → Bool
  unfolding callee_pkg_path async_callbacks
  is_async_callback_callee cal = elim (async_callbacks (callee_pkg_path cal) (func_name cal)) [
    | [] ↦ false
    | _ ∷ _ ↦ true
  ]

  unfoldable pub is_atomic_callee : Func → Bool
  unfolding callee_pkg_path
  is_atomic_callee fn = str_eq (callee_pkg_path fn) "sync/atomic"

  -- Does the type test hold of the receiver value's type, if there is one?
  abbrev pub value_is : (Ty → Bool) → Option Value → Bool
  value_is p none = false
  value_is p (some v) = p (type_of v)

  abbrev pub recv_is : (Ty → Bool) → Func → Bool
  recv_is p fn = elim (recv fn) [ none ↦ false | some t ↦ p t ]

  unfoldable pub is_atomic_sync_method : Func → Option Value → Bool
  unfolding is_atomic_callee is_atomic_value_type
  is_atomic_sync_method fn this =
      is_atomic_callee fn
      || value_is (is_atomic_value_type P) this
      || recv_is (is_atomic_value_type P) fn

  -- the switch of `isWhitelistedSyncMethod` on the method's bare name
  unfoldable pub whitelisted_by_name : Func → Option Value → String → Bool
  unfolding is_named_sync_type recv_type_is is_singleflight_group
  whitelisted_by_name fn this name =
      let recv_matches =
        λ (type_name : String). value_is (λ t. is_named_sync_type P t (type_name ∷ [])) this in
      let of_group =
        value_is (is_singleflight_group P) this || recv_is (is_singleflight_group P) fn in
      if one_of name ("Add" ∷ "Done" ∷ "Wait" ∷ [])
      then recv_matches "WaitGroup" || recv_type_is P fn "WaitGroup"
      else if str_eq name "Do"
      then (recv_matches "Once" || recv_type_is P fn "Once") || of_group
      else if one_of name ("DoChan" ∷ "Forget" ∷ [])
      then of_group
      else if one_of name (
          "Load" ∷ "Store" ∷ "LoadOrStore" ∷ "LoadAndDelete" ∷ "Delete" ∷ "Swap" ∷ "CompareAndSwap"
          ∷ "Range" ∷ "Clear" ∷ [])
      then recv_matches "Map" || recv_type_is P fn "Map"
      else false

  unfoldable pub is_whitelisted_sync_method : Func → Option Value → Bool
  unfolding is_atomic_sync_method whitelisted_by_name
  is_whitelisted_sync_method fn this =
      if is_some (recv fn)
      then is_atomic_sync_method fn this || whitelisted_by_name fn this (base_name (func_name fn))
      else false

  -- `mayContainPointers`; the fuel is for values that hold values
  unfoldable pub contains_pointers : ℕ → Ty → Bool
  contains_pointers zero t = true
  contains_pointers (suc f) t = elim (ty_view (unalias t)) [
    | array e ↦ contains_pointers f e
    | struct s ↦ any (λ field. contains_pointers f (StructField.ty field)) (fields s)
    | named p n ↦ contains_pointers f (underlying (unalias t))
    | basic unsafe ↦ unsafe
    | _ ↦ true
  ]

  unfoldable pub may_contain_pointers : Ty → Bool
  unfolding contains_pointers
  may_contain_pointers t = contains_pointers (suc (nest t)) t
