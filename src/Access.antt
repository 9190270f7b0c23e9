-- ===== src/Access.antt =====
-- Tests on a single access to shared memory (internal/nosharing: objectguard.go and fields.go).
pub mod Nested
pub mod Drop
pub mod Kept
use safetylint.Base.{
  ℕ, zero, suc, Bool, true, false, not, ◌&&◌, ◌||◌, List, [], ◌∷◌, Option, none, some, String,
  one_of, any, is_some, if◌then◌else◌,
}
use safetylint.Ssa.{
  Program, CallCommon, InstrView, ValueView, Token, mul, store, load, index_addr, is_invoke,
  field_addr,
}
use safetylint.Types.{
  pointee_type, is_context_type, is_atomic_value_type, is_chan_type, type_is_slice_or_array,
  struct_of,
}
use safetylint.Strip.{strip_to_object, field_index_of_addr, field_addr_of, is_field_addr}
use safetylint.Guard.Method.{mutex_recv}
use safetylint.Calls.{call_common_of, is_atomic_callee, value_is, recv_is}
use safetylint.Curated.{callee_base_name}
use safetylint.Structural.{DataAccess}

module _ (P : Program) where
  open P use {Value, Func, Instr, view, instr_view, type_of, const_int}

  abbrev pub Access : Type 0
  Access = DataAccess Instr Value

  unfoldable pub accesses_have_write : List Access → Bool
  accesses_have_write accs = any (λ acc. DataAccess.write acc) accs

  unfoldable pub is_share_safe_field_store : Access → Bool
  unfolding is_context_type pointee_type
  is_share_safe_field_store acc = elim (instr_view acc.instr) [
    | store addr val ↦
        is_context_type P (type_of val) || is_context_type P (pointee_type P (type_of addr))
    | _ ↦ false
  ]

  -- a store of a whole struct through a pointer that is no field's address
  unfoldable pub is_object_init_store : Access → Bool
  unfolding struct_of pointee_type
  is_object_init_store acc = elim (instr_view acc.instr) [
    | store addr val ↦
        not (is_field_addr (view addr))
        && is_some (struct_of P (type_of val))
        && is_some (struct_of P (pointee_type P (type_of addr)))
    | _ ↦ false
  ]

  unfoldable pub is_slice_or_array_root : Value → Bool
  unfolding type_is_slice_or_array
  is_slice_or_array_root v = type_is_slice_or_array P (type_of v)

  abbrev pub is_index_addr : ValueView Value Func → Bool
  is_index_addr (index_addr x i) = true
  is_index_addr _ = false

  -- the load of a slice's or array's header, not of an element
  unfoldable pub is_slice_header_load : Access → Bool
  unfolding is_slice_or_array_root strip_to_object
  is_slice_header_load acc = elim (instr_view acc.instr) [
    | load v t x ↦ elim t [
      | mul ↦
          not acc.write
          && not (is_index_addr (view x))
          && (is_slice_or_array_root x || is_slice_or_array_root (strip_to_object P x))
      | _ ↦ false
    ]
    | _ ↦ false
  ]

  unfoldable pub is_slice_header_store : Access → Bool
  unfolding is_slice_or_array_root strip_to_object
  is_slice_header_store acc = elim (instr_view acc.instr) [
    | store addr val ↦
        not (is_index_addr (view addr))
        && (is_slice_or_array_root addr || is_slice_or_array_root (strip_to_object P addr))
    | _ ↦ false
  ]

  -- the constant index of the element that is stored to, if there is one
  unfoldable pub const_index_store : Access → Option ℕ
  const_index_store acc = elim (instr_view acc.instr) [
    | store addr val ↦ elim (view addr) [ index_addr x i ↦ const_int i | _ ↦ none ]
    | _ ↦ none
  ]

  -- writes there are, and all of them set an object up
  unfoldable pub only_setup_writes : List Access → Bool
  unfolding is_object_init_store is_slice_header_store is_share_safe_field_store accesses_have_write
  only_setup_writes accs =
      not (
        any
          (λ acc.
            DataAccess.write acc
            && not (
                is_object_init_store acc
                || is_slice_header_store acc
                || is_share_safe_field_store acc))
          accs)
      && accesses_have_write accs

  -- a call in `isAtomicAccess`
  unfoldable pub is_atomic_call : CallCommon Value Func → Bool
  unfolding is_atomic_callee is_atomic_value_type mutex_recv
  is_atomic_call c =
      (elim c.static_callee [
        | none ↦ false
        | some cal ↦ is_atomic_callee P cal || recv_is P (is_atomic_value_type P) cal
      ])
      || value_is P (is_atomic_value_type P) (mutex_recv c)

  unfoldable pub is_atomic_access : Access → Bool
  unfolding is_atomic_call is_atomic_value_type pointee_type
  is_atomic_access acc = elim (call_common_of (instr_view acc.instr)) [
    | some c ↦ is_atomic_call c
    | none ↦ elim (instr_view acc.instr) [
      | store addr val ↦ is_atomic_value_type P (pointee_type P (type_of addr))
      | load v t x ↦ elim t [
        | mul ↦ is_atomic_value_type P (pointee_type P (type_of x))
        | _ ↦ false
      ]
      | _ ↦ false
    ]
  ]

  -- `atomicsOnlyAccesses`: a plain write fails unless it sets the object up
  unfoldable pub plain_write : Access → Bool
  unfolding is_atomic_access is_share_safe_field_store is_object_init_store
  plain_write acc =
      not (is_atomic_access acc)
      && acc.write
      && not (is_share_safe_field_store acc || is_object_init_store acc)

  unfoldable pub atomics_only_accesses : List Access → Bool
  unfolding plain_write is_atomic_access
  atomics_only_accesses accs = not (any plain_write accs) && any is_atomic_access accs

  unfoldable pub field_index_of : Access → Option ℕ
  unfolding field_index_of_addr
  field_index_of acc = field_index_of_addr P acc.addr

  unfoldable pub is_chan_field_access : Access → Bool
  unfolding field_addr_of is_chan_type
  is_chan_field_access acc = elim (field_addr_of P acc.addr) [
    | none ↦ false
    | some fa ↦ is_chan_type P (type_of fa)
  ]

  unfoldable pub is_src_first_slice_copy : Func → Bool
  unfolding callee_base_name
  is_src_first_slice_copy fn = one_of (callee_base_name P fn) ("Pad" ∷ "Unpad" ∷ [])

  -- `firstSliceArgIndex` over the arguments from the one with index `i` on; `none` is -1
  unfoldable pub first_slice_arg_from : ℕ → List Value → Option ℕ
  unfolding is_slice_or_array_root
  first_slice_arg_from i [] = none
  first_slice_arg_from i (arg ∷ args) =
      let rest = first_slice_arg_from (suc i) args in
      if is_slice_or_array_root arg then some i else rest

  unfoldable pub first_slice_arg_index : CallCommon Value Func → Option ℕ
  unfolding first_slice_arg_from
  first_slice_arg_index c = first_slice_arg_from 0 c.args
