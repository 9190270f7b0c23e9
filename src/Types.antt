-- ===== src/Types.antt =====
-- The tests on types of internal/nosharing: the sync types, the structs behind pointers, and the
-- fields that can guard (mutexguard.go, writes.go and objectguard.go).
pub mod Peel
use safetylint.Base.{
  ℕ, zero, suc, ◌+◌, Bool, true, false, ◌&&◌, ◌||◌, List, [], ◌∷◌, ◌++◌, Option, none, some, String,
  str_eq, one_of, if◌then◌else◌,
}
use safetylint.Ssa.{
  Program, TyView, StructField, pointer, slice, array, map, chan, signature, type_param, union,
  other, named, struct, interface, basic,
}

module _ (P : Program) where
  open P use {Ty, Struct, unalias, underlying, ty_view, fields, ty_depth}

  -- `t = types.Unalias(t); if p, ok := t.(*types.Pointer); ok { t = types.Unalias(p.Elem()) }`
  unfoldable pub pointee_type : Ty → Ty
  pointee_type t = elim (ty_view (unalias t)) [ pointer e ↦ unalias e | _ ↦ unalias t ]

  -- Is the type a `*types.Named` whose object is one of `names` of the package `path`?
  unfoldable pub named_of : String → List String → TyView Ty Struct → Bool
  named_of path names (named (some p) name) = str_eq p path && one_of name names
  named_of path names _ = false

  unfoldable pub is_named_sync_type : Ty → List String → Bool
  unfolding pointee_type named_of
  is_named_sync_type t names = named_of "sync" names (ty_view (pointee_type t))

  unfoldable pub is_context_type : Ty → Bool
  unfolding pointee_type named_of
  is_context_type t = named_of "context" ("Context" ∷ []) (ty_view (pointee_type t))

  unfoldable pub is_singleflight_group : Ty → Bool
  unfolding pointee_type named_of
  is_singleflight_group t =
      named_of "golang.org/x/sync/singleflight" ("Group" ∷ []) (ty_view (pointee_type t))

  unfoldable pub is_atomic_value_type : Ty → Bool
  unfolding pointee_type named_of
  is_atomic_value_type t =
      named_of "sync/atomic"
        ("Bool" ∷ "Int32" ∷ "Int64" ∷ "Uint32" ∷ "Uint64" ∷ "Uintptr" ∷ "Value" ∷ "Pointer"
          ∷ "Float32" ∷ "Float64" ∷ [])
        (ty_view (pointee_type t))

  unfoldable pub is_chan_type : Ty → Bool
  unfolding pointee_type
  is_chan_type t = elim (ty_view (pointee_type t)) [ chan ↦ true | _ ↦ false ]

  unfoldable pub type_is_slice_or_array : Ty → Bool
  unfolding pointee_type
  type_is_slice_or_array t = elim (ty_view (pointee_type t)) [
    | slice e ↦ true
    | array e ↦ true
    | _ ↦ false
  ]

  unfoldable pub type_is_indirect : Ty → Bool
  type_is_indirect t = elim (ty_view (underlying t)) [
    | pointer e ↦ true
    | map ↦ true
    | slice e ↦ true
    | chan ↦ true
    | interface ms ↦ true
    | _ ↦ false
  ]

  -- the loop of `structOf` that peels every pointer
  unfoldable pub peel_pointers : ℕ → Ty → Ty
  peel_pointers zero t = t
  peel_pointers (suc f) t = elim (ty_view t) [ pointer e ↦ peel_pointers f (unalias e) | _ ↦ t ]

  unfoldable pub struct_under : TyView Ty Struct → Option Struct
  struct_under (struct s) = some s
  struct_under _ = none

  -- the type switch at the end of `structOf`
  unfoldable pub struct_in : Ty → Option Struct
  unfolding struct_under
  struct_in t = elim (ty_view t) [
    | struct s ↦ some s
    | named p n ↦ struct_under (ty_view (underlying t))
    | _ ↦ none
  ]

  unfoldable pub struct_of : Ty → Option Struct
  unfolding peel_pointers struct_in
  struct_of t = struct_in (peel_pointers (ty_depth (unalias t)) (unalias t))

  -- the loops of `mutexFields` and `rwMutexFields`, from the field `i` on
  unfoldable pub sync_fields_from : String → ℕ → List (StructField Ty) → List ℕ
  unfolding is_named_sync_type
  sync_fields_from name i [] = []
  sync_fields_from name i (f ∷ fs) =
      if is_named_sync_type f.ty (name ∷ [])
      then i ∷ sync_fields_from name (i + 1) fs
      else sync_fields_from name (i + 1) fs

  unfoldable pub mutex_fields : Struct → List ℕ
  unfolding sync_fields_from
  mutex_fields st = sync_fields_from "Mutex" 0 (fields st)

  unfoldable pub rw_mutex_fields : Struct → List ℕ
  unfolding sync_fields_from
  rw_mutex_fields st = sync_fields_from "RWMutex" 0 (fields st)

  unfoldable pub interface_has_lock_unlock : List String → Bool
  interface_has_lock_unlock ms = one_of "Lock" ms && one_of "Unlock" ms

  abbrev pub locker_interface : TyView Ty Struct → Bool
  unfolding interface_has_lock_unlock
  locker_interface (interface ms) = interface_has_lock_unlock ms
  locker_interface _ = false

  unfoldable pub is_locker_field_type : Ty → Bool
  unfolding is_named_sync_type interface_has_lock_unlock named_of
  is_locker_field_type t =
      if is_named_sync_type t ("Mutex" ∷ "RWMutex" ∷ [])
      then false
      else if named_of "sync" ("Locker" ∷ []) (ty_view (unalias t))
      then true
      else locker_interface (ty_view (underlying t))
